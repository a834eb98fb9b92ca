-- ===== src/Tasks/Server.antt =====
-- barbican/queue/server.py: the RPC methods of the worker, their retries and their transactions,
-- and the methods of barbican/queue/client.py that a retry calls. The clock is a field of the
-- state; the context argument is not used by the code.
pub mod Retry
pub mod Serve
use barbican.Shared.{
  ℕ, suc, ◌+◌, String, Bool, true, false, Option, none, some, List, [], ◌∷◌, ◌++◌, str_eq, ◌==◌,
  length, if◌then◌else◌,
}
use barbican.Shared.Result.{Result, ok, raised}
use barbican.Shared.Exec.{Exec, pure, raise, lift, ◌>>=◌, ◌>>◌}
use barbican.Session
use barbican.Session.{Session}
use barbican.Tasks.FollowOn.{
  RetryTask, invoke_same_task, no_action_required, invoke_cert_status_check_task, FollowOn,
}
use barbican.Tasks.BaseTask.{process_and_suppress_exceptions}
use barbican.Tasks.Orders.{Order, OrderRetryTask, Db, TaskError, Kwargs, Work}
use barbican.Tasks.Certificates.{Backend}
use barbican.Tasks.OrderTasks.{
  ExceptionKind, OrderArgs, TaskName, begin_type_order, update_type_order,
  check_certificate_status_order, order_task,
}

-- The arguments that each method takes by name.
pub record CallArgs : Type 0 where
  pub order_id : String
  pub project_id : String
  pub request_id : String

pub data RpcCall : Type 0 where
  process_type_order : CallArgs → RpcCall
  update_order : CallArgs → String → RpcCall
  check_certificate_status : CallArgs → RpcCall

abbrev pub args_of : RpcCall → CallArgs
args_of (process_type_order a) = a
args_of (update_order a meta) = a
args_of (check_certificate_status a) = a

abbrev pub method_name : RpcCall → String
method_name (process_type_order a) = "process_type_order"
method_name (update_order a meta) = "update_order"
method_name (check_certificate_status a) = "check_certificate_status"

abbrev base_kwargs : CallArgs → Kwargs
base_kwargs a =
    ("order_id", a.order_id) ∷ ("project_id", a.project_id) ∷ ("request_id", a.request_id) ∷ []

abbrev pub kwargs_of : RpcCall → Kwargs
kwargs_of (process_type_order a) = base_kwargs a
kwargs_of (update_order a meta) = ("updated_meta", meta) ∷ base_kwargs a
kwargs_of (check_certificate_status a) = base_kwargs a

abbrev pub task_of : RpcCall → TaskName
task_of (process_type_order a) = begin_type_order
task_of (update_order a meta) = update_type_order
task_of (check_certificate_status a) = check_certificate_status_order

unfoldable pub kwarg : String → Kwargs → Option String
kwarg k [] = none
kwarg k ((j, v) ∷ kw) = if str_eq j k then some v else kwarg k kw

-- MAP_RETRY_TASKS.get
abbrev map_retry_task : RetryTask → Option String
map_retry_task invoke_cert_status_check_task = some "check_certificate_status"
map_retry_task no_action_required = none
map_retry_task invoke_same_task = none

abbrev method_for : String → RetryTask → Option String
method_for invoked invoke_same_task = some invoked
method_for invoked no_action_required = map_retry_task no_action_required
method_for invoked invoke_cert_status_check_task = map_retry_task invoke_cert_status_check_task

abbrev non_empty : Option String → Option String
non_empty none = none
non_empty (some s) = if str_eq s "" then none else some s

-- The RPC method to schedule and the order it is for.
unfoldable pub retry_method : String → Option FollowOn → Kwargs → Option (String × String × ℕ)
unfolding kwarg
retry_method invoked none kw = none
retry_method invoked (some result) kw = elim (non_empty (kwarg "order_id" kw)) [
  | none ↦ none
  | some order_id ↦ elim result.retry_task [
    | none ↦ none
    | some t ↦ elim (method_for invoked t) [
      | none ↦ none
      | some m ↦ some (m, order_id, result.retry_msec)
    ]
  ]
]

abbrev pub retry_row : {W : Type 0} → Kwargs → String × String × ℕ → Db W → OrderRetryTask
retry_row kw (m, order_id, msec) db = record {
  id = db.next_id;
  order_id = order_id;
  retry_task = m;
  retry_at = db.now + msec;
  retry_kwargs = kw;
  retry_count = 0;
  deleted = false;
}

module _ {W : Type 0} where
  -- retry_repo.create_from, where the database may fail (`fault`)
  unfoldable pub create_retry :
      Option TaskError → Kwargs → Option (String × String × ℕ) → Work W Unit
  create_retry fault kw none db = (ok tt, db)
  create_retry none kw (some row) db = (
    ok tt,
    record db { retries = db.retries ++ retry_row kw row db ∷ []; next_id = suc db.next_id },
  )
  create_retry (some x) kw (some row) db = (raised x, db)

  unfoldable pub schedule_order_retry_tasks :
      Option TaskError → String → Option FollowOn → Kwargs → Work W Unit
  unfolding create_retry
  schedule_order_retry_tasks fault invoked result kw =
      create_retry fault kw (retry_method invoked result kw)

  -- The tables after a rollback; `back` is the backend's part in it.
  abbrev pub tables_rolled_back : (W → W → W) → Db W → Db W → Db W
  tables_rolled_back back committed reached = record committed {
    rest = back committed.rest reached.rest;
  }

  -- `fn(*args, **kwargs)` under @transactional.
  unfoldable pub transactional :
      (W → W → W)
      → Bool
      → (Db W → Result TaskError Unit × Db W)
      → Session (Db W)
      → Result TaskError Unit × Session (Db W)
  transactional back false fn s = let (r, db) = fn s.current in (r, record s { current = db })
  transactional back true fn s =
      let (r, db) = fn s.current in
      (
        ok tt,
        Session.clear (elim r [
          | ok _ ↦ Session.commit (record s { current = db })
          | raised _ ↦
              Session.rollback
                (record { committed = tables_rolled_back back s.committed db; current = db })
        ]),
      )

module _ {W : Type 0} (backend : Backend W) (kind_of : TaskError → ExceptionKind) where
  -- A method of Tasks under @retryable_order: the task, and then its retry.
  unfoldable pub invoke : Option TaskError → RpcCall → Work W Unit
  invoke fault call db =
      let a = args_of call in
      let args : OrderArgs = record { order_id = a.order_id; external_project_id = a.project_id } in
      let (result, db') =
        process_and_suppress_exceptions (order_task backend kind_of (task_of call)) args db in
      schedule_order_retry_tasks fault (method_name call) result (kwargs_of call) db'

  unfoldable pub serve :
      Bool → Option TaskError → RpcCall → Session (Db W) → Result TaskError Unit × Session (Db W)
  serve is_server fault call = transactional backend.rolled_back is_server (invoke fault call)

abbrev call_with : (CallArgs → RpcCall) → ℕ → Kwargs → Option RpcCall
call_with make n kw = elim (kwarg "order_id" kw) [
  | none ↦ none
  | some o ↦ elim (kwarg "project_id" kw) [
    | none ↦ none
    | some p ↦ elim (kwarg "request_id" kw) [
      | none ↦ none
      | some r ↦
          if length kw == n
          then some (make (record { order_id = o; project_id = p; request_id = r }))
          else none
    ]
  ]
]

-- getattr(TaskClient, name)(**kwargs): the call that is cast, or `none` for the AttributeError of
-- an unknown name or the TypeError of arguments that do not fit.
unfoldable pub client_call : String → Kwargs → Option RpcCall
unfolding kwarg
client_call name kw =
    if str_eq name "process_type_order"
    then call_with process_type_order 3 kw
    else if str_eq name "check_certificate_status"
    then call_with check_certificate_status 3 kw
    else if str_eq name "update_order"
    then (elim (kwarg "updated_meta" kw) [
      | none ↦ none
      | some meta ↦ call_with (λ a. update_order a meta) 4 kw
    ])
    else none
