-- ===== src/Tasks/OrderTasks/Process.antt =====
-- Running a whole order task.
use barbican.Shared.{◌≡◌, refl, ◌∙◌, true, Option, none, some}
use mathlib.Core.Path.{subst}
use barbican.Shared.Result.{Result, ok, raised}
use barbican.Shared.Exec.{Exec, pure, raise, ◌>>=◌, ◌>>◌, try_except, handle}
use barbican.Tasks.FollowOn.{FollowOn}
use barbican.Tasks.BaseTask.{process_and_suppress_exceptions}
use barbican.Tasks.Orders.{
  Order, Db, TaskError, Work, row_of, find_order, get_order, write_order, status_of,
}
use barbican.Tasks.Certificates.{Backend}
use barbican.Tasks.OrderTasks.{
  ExceptionKind, OrderArgs, finish, generate_safe_exception_message, retrieve_entity, handle_error,
  handle_success, TaskName, task_name, handle_order, order_task,
}
use barbican.Tasks.OrderTasks.Confined.{is_there, Touches, Touches-trans, Confined-write}
use barbican.Tasks.OrderTasks.Outcome.{
  expected_state, or_none, find_order-row_of, finish-KeepsKeys, finish-status,
  handle_order-Confined, state-write, error-Confined, error-state,
}

swallow_lem :
    {S X : Type 0} (m : Exec S X Unit) (s : S) → try_except m (λ _. pure tt) s ≡ (ok tt, (m s).1)
unfolding try_except pure
swallow_lem {S = S} {X = X} m s = let (r, s') = m s in go r s'
  where
    go : (r : Result X Unit) (s' : S) → handle r (λ _. pure tt) s' ≡ (ok tt, s')
    go (ok tt) s' = refl
    go (raised x) s' = refl

module _ {W : Type 0} (backend : Backend W) (kind_of : TaskError → ExceptionKind) (name : TaskName)
    (args : OrderArgs) where
  abbrev pub run : Db W → Option FollowOn × Db W
  run = process_and_suppress_exceptions (order_task backend kind_of name) args

  abbrev pub report : Order → TaskError → Work W Unit
  report o x =
      let (status, message) = generate_safe_exception_message (task_name name) (kind_of x) in
      handle_error o status message x args

  -- The write that ends the task.
  abbrev pub settle : Order → Result TaskError (Option FollowOn) → Db W → Db W
  settle o (ok r) db = (handle_success o r args db).1
  settle o (raised x) db = (report o x db).1

  abbrev finishing : Order → Result TaskError (Option FollowOn) → Work W (Option FollowOn)
  finishing o r = do
    result ←
        (λ s. handle r (λ e_orig. (do try_except (report o e_orig) (λ _. pure tt); raise e_orig)) s)
    handle_success o result args
    pure result

  abbrev drop_error : Result TaskError (Option FollowOn) × Db W → Option FollowOn × Db W
  drop_error (r, db) = (or_none r, db)

  finishing_lem :
      (o : Order) (r : Result TaskError (Option FollowOn)) (db : Db W)
      → drop_error (finishing o r db) ≡ (or_none r, settle o r db)
  unfolding ◌>>=◌ handle_success write_order
  finishing_lem o (ok r) db = refl
  finishing_lem o (raised x) db = rw (swallow_lem (report o x) db)

  -- Once the order is found: its processing, and then the write that settles it.
  pub run_found :
      (o : Order) (db : Db W)
      → find_order args.order_id args.external_project_id db.orders ≡ some o
      → run db
        ≡ (let (r, db') = handle_order backend kind_of name o db in (or_none r, settle o r db'))
  unfolding process_and_suppress_exceptions order_task retrieve_entity get_order ◌>>=◌ try_except
  run_found o db h =
      rw (h, get_order)
        (let (r, db') = handle_order backend kind_of name o db in finishing_lem o r db')

  pub run_missing :
      (db : Db W)
      → find_order args.order_id args.external_project_id db.orders ≡ none
      → run db ≡ (none, db)
  unfolding process_and_suppress_exceptions order_task retrieve_entity get_order ◌>>=◌
  run_missing db h = rw (h, get_order)

  settle-state :
      (o : Order) (r : Result TaskError (Option FollowOn)) (db : Db W)
      → is_there (row_of o.id db.orders) ≡ true
      → status_of (settle o r db) o.id ≡ some (expected_state r)
  unfolding handle_success
  settle-state o (ok r) db there =
      state-write o.id (finish r) (expected_state (ok r)) db (finish-KeepsKeys r) (finish-status r)
        there
  settle-state o (raised x) db there =
      let (status, message) = generate_safe_exception_message (task_name name) (kind_of x) in
      error-state o status message x args db there

  settle-Touches :
      (o : Order) (r : Result TaskError (Option FollowOn)) (db : Db W)
      → Touches o.id db (settle o r db)
  unfolding handle_success
  settle-Touches o (ok r) db = (Confined-write o.id (finish r) (finish-KeepsKeys r)).at db
  settle-Touches o (raised x) db =
      let (status, message) = generate_safe_exception_message (task_name name) (kind_of x) in
      (error-Confined o status message x args).at db

  -- What a task on an order that exists comes to, from what its processing returned or raised.
  pub record IsSettled (r : Result TaskError (Option FollowOn)) (before : Db W)
      (out : Option FollowOn × Db W) : Type 0 where
    pub state : status_of out.1 args.order_id ≡ some (expected_state r)
    pub result : out.0 ≡ or_none r
    pub touches : Touches args.order_id before out.1

  IsSettled-of :
      (o : Order) (r : Result TaskError (Option FollowOn)) (db db' : Db W)
      → (o.id ≡ args.order_id)
      → is_there (row_of o.id db.orders) ≡ true
      → Touches o.id db db'
      → IsSettled r db (or_none r, settle o r db')
  IsSettled-of o r db db' same there t = record {
    state =
        subst (λ i. status_of (settle o r db') i ≡ some (expected_state r)) same
          (settle-state o r db' (t.there ∙ there));
    result = refl;
    touches =
        subst (λ i. Touches i db (settle o r db')) same
          (Touches-trans o.id db db' (settle o r db') t (settle-Touches o r db'));
  }

  -- A task on an order that is found never raises. It leaves the order in state ERROR exactly when
  -- processing raised, PENDING when processing asked for follow-on processing, and ACTIVE
  -- otherwise; it returns the follow-on object, or None after an error; and it changes no other
  -- order and removes none. The backend may fail at any step.
  pub task_settles :
      (o : Order) (db : Db W)
      → find_order args.order_id args.external_project_id db.orders ≡ some o
      → IsSettled (handle_order backend kind_of name o db).0 db (run db)
  task_settles o db h =
      let found = find_order-row_of args.order_id args.external_project_id db.orders o h in
      rw (run_found o db h) (
        IsSettled-of o _ db _ found.0 (rw found.0 found.1)
          ((handle_order-Confined backend kind_of name o).at db))
