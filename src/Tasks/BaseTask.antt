-- ===== src/Tasks/BaseTask.antt =====
-- BaseTask of barbican/tasks/resources.py: the template method of every asynchronous task.
use barbican.Shared.{ℕ, String, Option, none}
use barbican.Shared.Result.{Result, ok, raised}
use barbican.Shared.Exec.{Exec, pure, raise, ◌>>=◌, ◌>>◌, try_except}

-- The hooks of a task class over a state `S`, its arguments, its entity and its result, and the
-- status and the message that api.generate_safe_exception_message makes of an exception.
pub record Task (S X Args E R : Type 0) : Type 0 where
  pub retrieve_entity : Args → Exec S X E
  pub handle_processing : E → Args → Exec S X (Option R)
  pub handle_error : E → ℕ → Option String → X → Args → Exec S X Unit
  pub handle_success : E → Option R → Args → Exec S X Unit
  pub safe_message : X → ℕ × Option String

module _ {S X Args E R : Type 0} (task : Task S X Args E R) where
  -- The inner `try`: what handle_error raises is logged and dropped.
  abbrev report_error : E → Args → X → Exec S X Unit
  report_error entity args e_orig =
      let (status, message) = task.safe_message e_orig in
      try_except (task.handle_error entity status message e_orig args) (λ _. pure tt)

  unfoldable pub process : Args → Exec S X (Option R)
  process args = do
    entity ← task.retrieve_entity args
    result ←
        try_except (task.handle_processing entity args)
          λ e_orig. do report_error entity args e_orig; raise e_orig
    task.handle_success entity result args
    pure result

  abbrev suppressed : Result X (Option R) → Option R
  suppressed (ok result) = result
  suppressed (raised x) = none

  -- No exception leaves this method: it returns None instead.
  unfoldable pub process_and_suppress_exceptions : Args → S → Option R × S
  unfolding process
  process_and_suppress_exceptions args s = let (r, s') = process args s in (suppressed r, s')
