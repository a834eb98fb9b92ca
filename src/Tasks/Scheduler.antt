-- ===== src/Tasks/Scheduler.antt =====
-- PeriodicServer of barbican/queue/retry_scheduler.py: recorded retries go back on the queue. What
-- a cast puts on the queue is not undone by a rollback. `Fault` says which of the two calls that
-- leave the process fail for a task.
pub mod Frame
pub mod OneTask
pub mod AtLeastOnce
pub mod Drain
use barbican.Shared.{
  ℕ, suc, Bool, true, false, not, ◌&&◌, Option, none, some, List, [], ◌∷◌, ◌++◌, leb, ◌==◌, length,
  keep_if, if◌then◌else◌,
}
use barbican.Shared.Int.{ℤ}
use barbican.Session
use barbican.Session.{Session}
use barbican.Paging.{PagingConf, absent, clean_paging_values, page}
use barbican.Tasks.Orders.{OrderRetryTask, Db}
use barbican.Tasks.Server.{RpcCall, client_call}

pub record World (W : Type 0) : Type 0 where
  pub session : Session (Db W)
  pub sent : List RpcCall

pub record Fault : Type 0 where
  pub cast_fails : Bool
  pub commit_fails : Bool

abbrev is_due : ℕ → OrderRetryTask → Bool
is_due now t = not t.deleted && leb t.retry_at now

-- OrderRetryTaskRepo.get_by_create_date(only_at_or_before_this_date=now): the page and the total.
-- Rows are added at the end, so the table is in the order of creation.
unfoldable pub get_by_create_date : PagingConf → ℕ → List OrderRetryTask → List OrderRetryTask × ℕ
get_by_create_date conf now rows =
    let due = keep_if (is_due now) rows in
    let (offset, limit) = clean_paging_values conf absent absent in
    (page offset limit due, length due)

unfoldable pub is_live : ℕ → List OrderRetryTask → Bool
is_live i [] = false
is_live i (t ∷ ts) = if t.id == i && not t.deleted then true else is_live i ts

-- Soft delete of the row with this id.
unfoldable pub delete_row : ℕ → List OrderRetryTask → List OrderRetryTask
delete_row i [] = []
delete_row i (t ∷ ts) =
    (if t.id == i && not t.deleted then record t { deleted = true } else t) ∷ delete_row i ts

module _ {W : Type 0} where
  abbrev set_session : Session (Db W) → World W → World W
  set_session s w = record w { session = s }

  -- `except: rollback` and `finally: clear`
  abbrev give_up : World W → World W
  give_up w = set_session (Session.clear (Session.rollback w.session)) w

  abbrev delete_in : ℕ → Session (Db W) → Session (Db W)
  delete_in i s = record s {
    current = record s.current { retries = delete_row i s.current.retries };
  }

  -- delete_entity_by_id (NotFound where there is no live row) and commit
  unfoldable pub remove_and_commit : Bool → ℕ → World W → World W
  unfolding is_live delete_row
  remove_and_commit commit_fails i w =
      if is_live i w.session.current.retries && not commit_fails
      then set_session (Session.clear (Session.commit (delete_in i w.session))) w
      else give_up w

  -- The task is read before the session is cleared; its `status` is set on the detached object.
  unfoldable pub enqueue_task : Fault → OrderRetryTask → World W → World W
  unfolding remove_and_commit
  enqueue_task fault task w = elim (client_call task.retry_task task.retry_kwargs) [
    | none ↦ give_up w
    | some call ↦
        if fault.cast_fails
        then give_up w
        else remove_and_commit fault.commit_fails task.id (record w { sent = w.sent ++ call ∷ [] })
  ]

  -- `for task in entities`, with the fault that meets each task
  unfoldable pub enqueue_all : (OrderRetryTask → Fault) → List OrderRetryTask → World W → World W
  unfolding enqueue_task
  enqueue_all faults [] w = w
  enqueue_all faults (task ∷ tasks) w = enqueue_all faults tasks (enqueue_task (faults task) task w)

  -- The total that is returned, and the world.
  unfoldable pub process_retry_tasks : PagingConf → (OrderRetryTask → Fault) → World W → ℕ × World W
  unfolding get_by_create_date enqueue_all
  process_retry_tasks conf faults w =
      let (entities, total) =
        get_by_create_date conf w.session.current.now w.session.current.retries in
      (total, enqueue_all faults entities (set_session (Session.clear w.session) w))
