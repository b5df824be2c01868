-- ===== src/Worker/WorkItems.antt =====
-- worker/work_items.py: a worker takes commands before new deployments.
use autodeploy_platform.Prelude.{ℕ, Option, some}
use autodeploy_platform.Session.{Environment, Action, pure, none_or, ◌>>=◌}
use autodeploy_platform.Worker.Commands.Run.{ExecutorFactory, process_next_pending_command}
use autodeploy_platform.Worker.Executor.{Executor}
use autodeploy_platform.Worker.Pipeline.{process_next_pending_deployment}

unfoldable pub process_next_work_item :
    Environment → ExecutorFactory → (Action (Unit {0}) → Executor) → Action (Option ℕ)
process_next_work_item env make_for make = do
  done ← process_next_pending_command env make_for
  none_or done (process_next_pending_deployment env make) (λ id. pure (some id))
