-- ===== src/Lib.antt =====
-- AutoDeploy's control plane: the worker that takes deployments through clone, build, test, push and
-- release and that stops them again, the rows that it shares with the API and with other workers, and
-- the checks of what a request may ask for.
--
-- Parts. The API checks a request's body (control_plane/application/projects/validation.py) and writes
-- pending deployments and commands. A worker takes the next work item (worker/work_items.py). A
-- command that stops or cleans up a deployment comes first
-- (worker/processing/command_processor.py). A deployment is claimed (worker/processing/claims.py)
-- and run through the ordered steps (worker/processing/pipeline.py) on an executor
-- (worker/execution/contracts.py). The worker records results and failures in the deployment, its
-- build and the log of events (worker/processing/lifecycle.py, worker/processing/events.py), and
-- gives way when its claim is lost or a stop command asks it to. Reconciliation
-- (worker/reconciliation) releases claims that are stale and repairs deployments whose runtime is
-- not as recorded. All of these interact only through the database.
--
-- Files, and what each is about:
--   Prelude: tables of rows under their keys, Boolean tests, texts and their characters.
--   Json: JSON columns, and the dictionaries that are built for them.
--   Models: control_plane/models. DeploymentStatus and BuildStatus are the status machines, Rows the
--   columns; Lifecycle is reachability by permitted transitions, with its laws in Lifecycle/Order.
--   Security: control_plane/security.py. DeploymentSpec: control_plane/deployment_spec.py.
--   RuntimeMetadata: control_plane/deployment_runtime_metadata.py. Views: the `to_dict` methods of
--   control_plane/models. DeploymentSpec/Snapshot and RuntimeMetadata/Reading: the same sources.
--   Session: a database session. An action reads and writes a World and returns or raises. `saved`
--   is what is committed, `work` the session's view with what it has not committed; `commit` and
--   `rollback` end the transaction. Session/Keeps has one rule for each way to build an action.
--   Worker/Events, Worker/Claims, Worker/Lifecycle, Worker/Pipeline: the files of worker/processing
--   under the same names, each function under its own name. The body of `process_deployment` is cut
--   into its stages. Worker/Commands: worker/processing/command_processor.py, cut into the ownership
--   of a command, the end of one, and its run. Worker/WorkItems: worker/work_items.py. Worker/Helm:
--   worker/helm/ownership.py. Worker/Executor: worker/execution/contracts.py. Worker/Contracts: the
--   contracts of the executors, and worker/execution/factory.py. Worker/Fake:
--   worker/executors/fake.py. Worker/Workload: worker/workload_environment.py.
--   Worker/Reconciliation: worker/reconciliation, with helm.py and kubernetes.py in Cluster, and
--   service.py in Service.
--   Validation: control_plane/application/projects/validation.py and
--   control_plane/command_validation.py. A check returns a Check, and `then` is `if error: return
--   error`. Checks has that type, Patterns the regular expressions, and the others the checks of
--   fields, repositories, commands, environment variables, projects, requests and settings.
--   CommandRequests: control_plane/application/command_requests.py.
--   Kubernetes/Names: worker/executors/kubernetes/names.py. Kubernetes/Workload:
--   worker/kubernetes_workload.py.
--   Evolution: the permitted change of the database, and each part of the worker against it.
--   Fencing and Exclusive: the guards and claims where workers compete.
--   Samples and Tests: a small database, and concrete runs on it.
--
-- The other processes are the list `peers` of World: its head is a change that they commit between
-- the end of one transaction and the start of the next, so transactions do not overlap, as with a
-- guarded UPDATE on a row that the database locks. A theorem that speaks of no other process takes
-- the list to be empty. The executor is a parameter, a record of actions: it calls docker, kubectl
-- and helm, which are outside this model. The clock, the configuration, `isoformat` and `str` are
-- the record Environment. `urlparse`, `pathlib`, `shlex.split`, the file system and the settings that
-- the checks of requests read are the record Surroundings. Loops are structural recursion on the
-- rows, events, entries or characters that they visit, and no definition runs on fuel but the digits
-- of a number, which take the number itself.
--
-- A time is a count of microseconds. Python's naive and aware times are not told apart. Texts are
-- ASCII where the source calls `lower`, `strip` or `isspace`, and a JSON number is a natural number.
-- Logging is left out, and so are `updated_at` and the times of events, which the database sets. Not
-- modelled are the HTTP API, authentication, webhooks, retention, the services that create projects
-- and deployments for the API, the executors that call other programs, migrations and the frontend.
pub mod Prelude
pub mod Json
pub mod Security
pub mod Models
pub mod Session
pub mod DeploymentSpec
pub mod RuntimeMetadata
pub mod Evolution
pub mod Worker
pub mod Fencing
pub mod Exclusive
pub mod Views
pub mod CommandRequests
pub mod Kubernetes
pub mod Validation
pub mod Samples
pub mod Tests
