-- ===== src/Tasks/Server/Retry.antt =====
-- An order waits exactly when the worker has recorded a retry for it.
use barbican.Shared.{
  suc, ap, ℕ, String, ◌≡◌, ◌≢◌, refl, ◌⊎◌, inl, inr, true, false, Option, none, some, [], ◌∷◌, ◌++◌,
  arith, str_eq,
}
use barbican.Shared.Result.{Result, ok, raised}
use barbican.Session.{}
use barbican.Tasks.FollowOn.{
  RetryTask, invoke_same_task, no_action_required, invoke_cert_status_check_task, FollowOn,
  is_follow_on_needed,
}
use barbican.Tasks.Orders.{pending, OrderType, certificate, Order, OrderRetryTask, Db, TaskError}
use barbican.Tasks.Certificates.{Backend}
use barbican.Shared.Exec.{◌>>=◌}
use barbican.Tasks.Certificates
use barbican.Tasks.OrderTasks
use barbican.Tasks.OrderTasks.{ExceptionKind, OrderArgs, TaskName, update_type_order, handle_order}
use barbican.Tasks.OrderTasks.Outcome.{expected_state, or_none}
use barbican.Tasks.OrderTasks.Process.{}
use barbican.Tasks.Server.{
  RpcCall, process_type_order, update_order, check_certificate_status, args_of, method_name,
  kwargs_of, task_of, retry_method, kwarg, retry_row, create_retry, schedule_order_retry_tasks,
  client_call,
}

-- The retry that a processing outcome calls for: the client method, the order and the delay.
abbrev pub wanted : RpcCall → Result TaskError (Option FollowOn) → Option (String × String × ℕ)
wanted call r = retry_method (method_name call) (or_none r) (kwargs_of call)

kwarg-order_id : (call : RpcCall) → kwarg "order_id" (kwargs_of call) ≡ some (args_of call).order_id
unfolding kwarg
kwarg-order_id (process_type_order a) = refl
kwarg-order_id (update_order a meta) = refl
kwarg-order_id (check_certificate_status a) = refl

-- What `retry_method` decides for a follow-on object, by its retry task.
abbrev pub Decides : RpcCall → FollowOn → Type 0
Decides call f =
    ((retry_method (method_name call) (some f) (kwargs_of call) ≡ none)
      × (is_follow_on_needed f ≡ false))
    ⊎ ((m : String) × (retry_method (method_name call) (some f) (kwargs_of call)
          ≡ some (m, (args_of call).order_id, f.retry_msec))
        × (is_follow_on_needed f ≡ true)
        × ((m ≡ method_name call) ⊎ (m ≡ "check_certificate_status")))

pub retry_method_lem :
    (call : RpcCall) (f : FollowOn) (t : Option RetryTask)
    → f.retry_task ≡ t
    → str_eq (args_of call).order_id "" ≡ false
    → Decides call f
unfolding retry_method is_follow_on_needed
retry_method_lem call f none e h = inl (ground (arith, kwarg-order_id call), ground arith)
retry_method_lem call f (some no_action_required) e h =
    inl (ground (arith, kwarg-order_id call), ground arith)
retry_method_lem call f (some invoke_same_task) e h =
    inr (method_name call, ground (arith, kwarg-order_id call), ground arith, inl refl)
retry_method_lem call f (some invoke_cert_status_check_task) e h =
    inr ("check_certificate_status", ground (arith, kwarg-order_id call), ground arith, inr refl)

-- The client makes the same call again from the recorded method name and arguments.
pub client_call-kwargs_of :
    (call : RpcCall) → client_call (method_name call) (kwargs_of call) ≡ some call
unfolding client_call
client_call-kwargs_of (process_type_order a) = refl
client_call-kwargs_of (update_order a meta) = refl
client_call-kwargs_of (check_certificate_status a) = refl

-- The client takes this method with the arguments of `call`, for the same order.
abbrev pub Accepts : String → RpcCall → Type 0
Accepts m call =
    (c : RpcCall) × (client_call m (kwargs_of call) ≡ some c) × (args_of c ≡ args_of call)

module _ {W : Type 0} (backend : Backend W) (kind_of : TaskError → ExceptionKind) where
  -- An update never asks for follow-on processing.
  update_type-none :
      (o : Order) (t : OrderType) (db : Db W)
      → or_none (OrderTasks.update_type backend kind_of t o db).0 ≡ none
  unfolding OrderTasks.update_type OrderTasks.on_rest Certificates.modify_certificate_request ◌>>=◌
  update_type-none o certificate db = refl
  update_type-none o _ db = refl

  update_none :
      (o : Order) (db : Db W)
      → or_none (handle_order backend kind_of update_type_order o db).0 ≡ none
  unfolding handle_order OrderTasks.update_order
  update_none o db = update_type-none o o.type db

  pub accepts_lem :
      (call : RpcCall) (o : Order) (db : Db W) (f : FollowOn) (m : String)
      → or_none (handle_order backend kind_of (task_of call) o db).0 ≡ some f
      → (m ≡ method_name call) ⊎ (m ≡ "check_certificate_status")
      → Accepts m call
  unfolding client_call
  accepts_lem call o db f m e (inl h) = (call, rw h (client_call-kwargs_of call), refl)
  accepts_lem (process_type_order a) o db f m e (inr h) = (check_certificate_status a, rw h, refl)
  accepts_lem (update_order a meta) o db f m e (inr h) = cc (update_none o db)
  accepts_lem (check_certificate_status a) o db f m e (inr h) =
      (check_certificate_status a, rw h, refl)

  -- The retries and the state that a call leaves, from what processing returned or raised.
  abbrev pub Recorded : RpcCall → Result TaskError (Option FollowOn) → Db W → Db W → Type 0
  Recorded call r before after =
      ((expected_state r ≢ pending)
        × (after.retries ≡ before.retries)
        × (after.next_id ≡ before.next_id))
      ⊎ ((row : OrderRetryTask) × (expected_state r ≡ pending)
          × (after.retries ≡ before.retries ++ row ∷ [])
          × (row.id ≡ before.next_id)
          × (after.next_id ≡ suc before.next_id)
          × (row.order_id ≡ (args_of call).order_id)
          × (row.retry_kwargs ≡ kwargs_of call)
          × (row.deleted ≡ false)
          × Accepts row.retry_task call)

  pub Recorded-none :
      (call : RpcCall) (r : Result TaskError (Option FollowOn)) (db db' : Db W)
      → or_none r ≡ none
      → db'.retries ≡ db.retries
      → db'.next_id ≡ db.next_id
      → Recorded call r db
          (schedule_order_retry_tasks none (method_name call) none (kwargs_of call) db').1
  unfolding schedule_order_retry_tasks retry_method
  Recorded-none call (raised x) db db' e same same_id = inl (λ h. cc, same, same_id)
  Recorded-none call (ok none) db db' e same same_id = inl (λ h. cc, same, same_id)
  Recorded-none call (ok (some f)) db db' e same same_id = cc

  pub Recorded-some :
      (call : RpcCall) (f : FollowOn) (db db' : Db W)
      → Decides call f
      → ((m : String) → (m ≡ method_name call) ⊎ (m ≡ "check_certificate_status") → Accepts m call)
      → db'.retries ≡ db.retries
      → db'.next_id ≡ db.next_id
      → Recorded call
          (ok (some f))
          db
          (schedule_order_retry_tasks none (method_name call) (some f) (kwargs_of call) db').1
  unfolding schedule_order_retry_tasks
  Recorded-some call f db db' (inl (e, n)) acc same same_id =
      rw (e, create_retry) (inl (rw n (λ h. cc), same, same_id))
  Recorded-some call f db db' (inr (m, e, n, which)) acc same same_id =
      rw (e, create_retry)
        (inr (
          retry_row (kwargs_of call) (m, (args_of call).order_id, f.retry_msec) db',
          rw n,
          rw same,
          same_id,
          ap suc same_id,
          refl,
          refl,
          refl,
          acc m which,
        ))
