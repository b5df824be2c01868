-- ===== src/Session/State.antt =====
-- The state that an action works on, and the exceptions of the program.
use autodeploy_platform.Prelude.{ℕ, String, Option, List}
use autodeploy_platform.Json.{Json, Dict}
use autodeploy_platform.Models.Rows.{Timestamp, CommandType, Db}

-- What the program reads of its surroundings: the configuration (`current_app.config`), the clock,
-- `datetime.isoformat`, and `str()` of a JSON value that is no text.
pub record Environment : Type 0 where
  pub worker_id : String  -- CONTROL_PLANE_WORKER_ID
  pub claim_ttl_seconds : ℕ  -- CONTROL_PLANE_CLAIM_TTL_SECONDS
  pub deployment_mode : String  -- CONTROL_PLANE_K8S_DEPLOYMENT_MODE
  pub namespace : String  -- CONTROL_PLANE_K8S_NAMESPACE
  pub clock : ℕ → Timestamp
  pub iso : Timestamp → String
  pub str_of : Json → String

-- A session: `saved` is the committed database, `work` the session's view of it with what it has
-- written and not committed. `reads` counts the readings of the clock. The head of `peers` is what
-- the other processes commit between the end of this transaction and the next one's start.
pub record World : Type 0 where
  pub saved : Db
  pub work : Db
  pub reads : ℕ
  pub peers : List (Db → Db)

-- An event that an executor reports.
pub record AuxiliaryEvent : Type 0 where
  pub event_type : String
  pub status : String
  pub message : Option String
  pub step : Option String
  pub level : Option String
  pub metadata_json : Option Dict

-- Its `status`, which nothing reads, is left out.
pub record ClaimLostError : Type 0 where
  pub deployment_id : ℕ
  pub worker_id : String
  pub current_claimed_by : Option String
  pub current_claimed_at : Option Timestamp

pub record DeploymentCancellationRequested : Type 0 where
  pub deployment_id : ℕ
  pub command_id : ℕ
  pub command_type : CommandType

pub record WorkerExecutionError : Type 0 where
  pub step : String
  pub message : String
  pub metadata : Dict
  pub log_path : Option String
  pub events : List AuxiliaryEvent

-- `other` is any exception that is none of these, with the name of its type.
pub data Fault : Type 0 where
  claim_lost : ClaimLostError → Fault
  cancelled : DeploymentCancellationRequested → Fault
  worker_error : WorkerExecutionError → Fault
  command_claim_lost : String → Fault
  other : String → Fault
