-- ===== src/Tasks/Server/Serve.antt =====
-- A call on the worker from its start to the end of its transaction.
use mathlib.Core.Path.{subst}
use barbican.Shared.{
  ap, ◌∙◌, String, ◌≡◌, refl, sym, true, false, Option, none, some, inl, inr, arith, str_eq,
}
use barbican.Shared.Result.{Result, ok, raised}
use barbican.Session.{Session}
use barbican.Tasks.FollowOn.{FollowOn}
use barbican.Tasks.BaseTask.{process_and_suppress_exceptions}
use barbican.Tasks.Orders.{pending, Order, Db, TaskError, find_order, row_of, status_of}
use barbican.Tasks.Certificates.{Backend}
use barbican.Tasks.OrderTasks.{ExceptionKind, OrderArgs, handle_order, order_task}
use barbican.Tasks.OrderTasks.Outcome.{expected_state, or_none}
use barbican.Tasks.OrderTasks.Process.{task_settles, IsSettled, run_missing}
use barbican.Tasks.OrderTasks.Confined.{is_there}
use barbican.Tasks.Server.{
  RpcCall, args_of, method_name, kwargs_of, task_of, retry_method, create_retry,
  schedule_order_retry_tasks, transactional, invoke, serve,
}
use barbican.Tasks.Server.Retry.{
  Recorded, Recorded-none, Recorded-some, retry_method_lem, accepts_lem,
}

module _ {W : Type 0} (backend : Backend W) (kind_of : TaskError → ExceptionKind)
    (call : RpcCall) where
  abbrev pub found_in : Db W → Option Order
  found_in db = find_order (args_of call).order_id (args_of call).project_id db.orders

  abbrev pub processing : Order → Db W → Result TaskError (Option FollowOn)
  processing o db = (handle_order backend kind_of (task_of call) o db).0

  abbrev scheduled : Option FollowOn → Db W → Db W
  scheduled result db =
      (schedule_order_retry_tasks none (method_name call) result (kwargs_of call) db).1

  schedule-ok :
      (result : Option FollowOn) (db : Db W)
      → (schedule_order_retry_tasks none (method_name call) result (kwargs_of call) db).0 ≡ ok tt
  unfolding schedule_order_retry_tasks create_retry
  schedule-ok result db = ground arith

  schedule-orders :
      (fault : Option TaskError) (result : Option FollowOn) (db : Db W)
      → (schedule_order_retry_tasks fault (method_name call) result (kwargs_of call) db).1.orders
        ≡ db.orders
  unfolding schedule_order_retry_tasks create_retry
  schedule-orders fault result db = ground arith

  recorded_lem :
      (o : Order) (db db' : Db W) (r : Result TaskError (Option FollowOn))
      → processing o db ≡ r
      → str_eq (args_of call).order_id "" ≡ false
      → db'.retries ≡ db.retries
      → db'.next_id ≡ db.next_id
      → Recorded backend kind_of call r db (scheduled (or_none r) db')
  recorded_lem o db db' (ok (some f)) e h same same_id =
      Recorded-some backend kind_of call f db db' (retry_method_lem call f f.retry_task refl h)
        (λ m. accepts_lem backend kind_of call o db f m (rw e)) same same_id
  recorded_lem o db db' (ok none) e h same same_id =
      Recorded-none backend kind_of call (ok none) db db' refl same same_id
  recorded_lem o db db' (raised x) e h same same_id =
      Recorded-none backend kind_of call (raised x) db db' refl same same_id

  pub record IsServed (o : Order) (before after : Db W) : Type 0 where
    pub state :
        status_of after (args_of call).order_id ≡ some (expected_state (processing o before))
    pub others :
        (j : String)
        → str_eq (args_of call).order_id j ≡ false
        → row_of j after.orders ≡ row_of j before.orders
    pub finds :
        (j p : String)
        → is_there (find_order j p after.orders) ≡ is_there (find_order j p before.orders)
    pub recorded : Recorded backend kind_of call (processing o before) before after

  abbrev task_args : OrderArgs
  task_args = record {
    order_id = (args_of call).order_id;
    external_project_id = (args_of call).project_id;
  }

  IsServed-of :
      (o : Order) (db : Db W) (out : Option FollowOn × Db W)
      → IsSettled backend kind_of (task_of call) task_args (processing o db) db out
      → str_eq (args_of call).order_id "" ≡ false
      → IsServed o db (scheduled out.0 out.1)
  IsServed-of o db out t h = record {
    state = rw (schedule-orders none out.0 out.1) t.state;
    others = λ j k. rw (schedule-orders none out.0 out.1) (t.touches.others j k);
    finds = λ j p. rw (schedule-orders none out.0 out.1) (t.touches.finds j p);
    recorded =
        subst (λ res. Recorded backend kind_of call (processing o db) db (scheduled res out.1))
          (sym t.result)
          (recorded_lem o db out.1 (processing o db) refl h t.touches.retries t.touches.next_id);
  }

  invoke_lem :
      (o : Order) (db : Db W)
      → found_in db ≡ some o
      → str_eq (args_of call).order_id "" ≡ false
      → ((invoke backend kind_of none call db).0 ≡ ok tt)
        × IsServed o db (invoke backend kind_of none call db).1
  unfolding invoke
  invoke_lem o db found h =
      let out : Option FollowOn × Db W =
        process_and_suppress_exceptions (order_task backend kind_of (task_of call)) task_args db in
      (
        schedule-ok out.0 out.1,
        IsServed-of o db out (task_settles backend kind_of (task_of call) task_args o db found) h,
      )

  invoke_missing :
      (fault : Option TaskError) (db : Db W)
      → found_in db ≡ none
      → invoke backend kind_of fault call db ≡ (ok tt, db)
  unfolding invoke schedule_order_retry_tasks retry_method create_retry
  invoke_missing fault db missing =
      rw (run_missing backend kind_of (task_of call) task_args db missing)

  commit_lem :
      (fn : Db W → Result TaskError Unit × Db W) (s : Session (Db W))
      → (fn s.current).0 ≡ ok tt
      → transactional backend.rolled_back true fn s
        ≡ (ok tt, record { committed = (fn s.current).1; current = (fn s.current).1 })
  unfolding transactional
  commit_lem fn s e = rw e

  -- On a worker whose database does not fail, a call on an order that the session finds returns and
  -- commits everything. The committed order is in ERROR, PENDING or ACTIVE as its processing says,
  -- and it is PENDING exactly when one retry was added, which is for this order, holds the
  -- arguments of the call and names a client method that takes them; otherwise no retry was added.
  -- No other order changes, and every query for an order finds one exactly if it did before.
  pub serve_records :
      (o : Order) (s : Session (Db W))
      → found_in s.current ≡ some o
      → str_eq (args_of call).order_id "" ≡ false
      → let (r, s') = serve backend kind_of true none call s in
        (r ≡ ok tt) × (s'.current ≡ s'.committed) × IsServed o s.current s'.committed
  unfolding serve
  serve_records o s found h =
      let (e, v) = invoke_lem o s.current found h in
      rw (commit_lem (invoke backend kind_of none call) s e) (refl, refl, v)

  -- A call on an order that is not there returns and changes nothing.
  pub serve_missing :
      (s : Session (Db W))
      → found_in s.current ≡ none
      → serve backend kind_of true none call s
        ≡ (ok tt, record { committed = s.current; current = s.current })
  unfolding serve
  serve_missing s missing =
      let e = invoke_missing none s.current missing in
      commit_lem (invoke backend kind_of none call) s
        (ap (λ (p : Result TaskError Unit × Db W). p.0) e)
      ∙ ap
          (λ (p : Result TaskError Unit × Db W).
            let out : Result TaskError Unit × Session (Db W) =
              (ok tt, record { committed = p.1; current = p.1 }) in
            out)
          e

  fault_lem :
      (x : TaskError) (r : Result TaskError (Option FollowOn)) (db : Db W)
      → expected_state r ≡ pending
      → str_eq (args_of call).order_id "" ≡ false
      → (schedule_order_retry_tasks (some x) (method_name call) (or_none r) (kwargs_of call) db).0
        ≡ raised x
  unfolding schedule_order_retry_tasks
  fault_lem x (raised y) db p h = cc
  fault_lem x (ok none) db p h = cc
  fault_lem x (ok (some f)) db p h = elim (retry_method_lem call f f.retry_task refl h) [
    | inl (e, n) ↦ cc (rw n at p)
    | inr (m, e, n, which) ↦ rw (e, create_retry)
  ]

  invoke_fault :
      (x : TaskError) (o : Order) (db : Db W)
      → found_in db ≡ some o
      → expected_state (processing o db) ≡ pending
      → str_eq (args_of call).order_id "" ≡ false
      → (invoke backend kind_of (some x) call db).0 ≡ raised x
  unfolding invoke
  invoke_fault x o db found p h =
      let t = task_settles backend kind_of (task_of call) task_args o db found in
      rw t.result (fault_lem x (processing o db) _ p h)

  -- Where the database refuses the retry of an order that should wait, the transaction is given up:
  -- the call returns, and nothing of it is committed, neither a retry nor the state of the order.
  -- Of the backend's own state, what a rollback leaves is left.
  pub serve_rolls_back :
      (x : TaskError) (o : Order) (s : Session (Db W))
      → found_in s.current ≡ some o
      → expected_state (processing o s.current) ≡ pending
      → str_eq (args_of call).order_id "" ≡ false
      → let reached : Db W = (invoke backend kind_of (some x) call s.current).1 in
        let left : Db W = record s.committed {
          rest = backend.rolled_back s.committed.rest reached.rest;
        } in
        serve backend kind_of true (some x) call s
        ≡ (ok tt, record { committed = left; current = left })
  unfolding serve transactional
  serve_rolls_back x o s found p h = rw (invoke_fault x o s.current found p h)
