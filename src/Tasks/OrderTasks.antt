-- ===== src/Tasks/OrderTasks.antt =====
-- _OrderTaskHelper, BeginTypeOrder, UpdateOrder and CheckCertificateStatusOrder of
-- barbican/tasks/resources.py.
pub mod Confined
pub mod Outcome
pub mod Process
pub mod Report
use Prim.Native.String.{◌++◌}
use barbican.Shared.{ℕ, String, Bool, true, false, Option, none, some, str_eq, if◌then◌else◌}
use barbican.Shared.Result.{Result, ok, raised}
use barbican.Shared.Exec.{Exec, pure, raise, continue, ◌>>=◌, ◌>>◌}
use barbican.Tasks.FollowOn.{FollowOn, default_follow_on, is_follow_on_needed}
use barbican.Tasks.BaseTask.{Task}
use barbican.Tasks.Orders.{
  State, pending, active, error, OrderType, key, asymmetric, certificate, other_type, Order, Db,
  TaskError, type_error, not_implemented, Work, get_order, write_order, set_error_reason_safely,
  set_sub_status_safely, set_sub_status_message_safely,
}
use barbican.Tasks.Certificates.{
  Backend, issue_certificate_request, check_certificate_request, modify_certificate_request,
}

-- The exceptions that api.generate_safe_exception_message tells apart; the text of a
-- BarbicanHTTPException may be missing or empty.
pub data ExceptionKind : Type 0 where
  policy_not_authorized : ExceptionKind
  barbican_http : ℕ → Option String → ExceptionKind
  other_exception : ExceptionKind

abbrev with_reason : String → Option String → Option String
with_reason name none = none
with_reason name (some reason) =
    if str_eq reason "" then none else some (name ++ (" issue seen - " ++ (reason ++ ".")))

unfoldable pub generate_safe_exception_message : String → ExceptionKind → ℕ × Option String
generate_safe_exception_message name policy_not_authorized =
    (403, some (name ++ " attempt not allowed - please review your user/project privileges"))
generate_safe_exception_message name (barbican_http status reason) =
    (status, with_reason name reason)
generate_safe_exception_message name other_exception =
    (500, some (name ++ " failure seen - please contact site administrator."))

-- The arguments of a task's `process`.
pub record OrderArgs : Type 0 where
  pub order_id : String
  pub external_project_id : String

abbrev set_unless_empty : (String → Order → Order) → String → Order → Order
set_unless_empty set s o = if str_eq s "" then o else set s o

-- What handle_success writes on the order.
unfoldable pub finish : Option FollowOn → Order → Order
unfolding is_follow_on_needed set_sub_status_safely set_sub_status_message_safely
finish none o = record o { status = active }
finish (some result) o = set_unless_empty set_sub_status_message_safely result.status_message (
    set_unless_empty set_sub_status_safely result.status
      (record o { status = if is_follow_on_needed result then pending else active }))

abbrev mark_error : ℕ → Order → Order
mark_error status o = record o { status = error; error_status_code = some status }

module _ {W : Type 0} where
  unfoldable pub retrieve_entity : OrderArgs → Work W Order
  retrieve_entity args = get_order args.order_id args.external_project_id

  -- order.set_error_reason_safely(message): slicing None is a TypeError.
  abbrev stamp_reason : String → Option String → Work W Unit
  stamp_reason i none = raise type_error
  stamp_reason i (some message) = write_order i (set_error_reason_safely message)

  -- The status and the code are written before the message is.
  unfoldable pub handle_error : Order → ℕ → Option String → TaskError → OrderArgs → Work W Unit
  handle_error order status message exception args = do
    write_order order.id (mark_error status)
    stamp_reason order.id message

  unfoldable pub handle_success : Order → Option FollowOn → OrderArgs → Work W Unit
  handle_success order result args = write_order order.id (finish result)

  -- An operation of the backend, which does not touch the orders.
  unfoldable pub on_rest : {A : Type 0} → Exec W TaskError A → Work W A
  on_rest m db = let (r, w) = m db.rest in (r, record db { rest = w })

pub data TaskName : Type 0 where
  begin_type_order update_type_order check_certificate_status_order : TaskName

-- get_name()
abbrev pub task_name : TaskName → String
task_name begin_type_order = "Process TypeOrder"
task_name update_type_order = "Update Order"
task_name check_certificate_status_order = "Check Certificate Order Status"

module _ {W : Type 0} (backend : Backend W) (kind_of : TaskError → ExceptionKind) where
  unfoldable pub set_container : Order → Option String → Work W Unit
  set_container order none = pure tt
  set_container order (some container) =
      write_order order.id (λ o. record o { container_id = some container })

  -- The branches of BeginTypeOrder.handle_order.
  unfoldable pub begin_type : OrderType → Order → Work W (Option FollowOn)
  begin_type key order = do
    new_secret ← on_rest (backend.generate_secret order)
    write_order order.id (λ o. record o { secret_id = some new_secret })
    pure (some default_follow_on)
  begin_type asymmetric order = do
    new_container ← on_rest (backend.generate_asymmetric_secret order)
    write_order order.id (λ o. record o { container_id = some new_container })
    pure (some default_follow_on)
  begin_type certificate order = do
    answer ← on_rest (issue_certificate_request backend order default_follow_on)
    set_container order answer.0
    pure (some answer.1)
  begin_type (other_type t) order = raise not_implemented

  -- BeginTypeOrder.handle_order
  unfoldable pub begin_order : Order → Work W (Option FollowOn)
  begin_order order = do on_rest (backend.get_project order); begin_type order.type order

  -- UpdateOrder.handle_order; handle_processing returns None.
  unfoldable pub update_type : OrderType → Order → Work W (Option FollowOn)
  update_type certificate order = do on_rest (modify_certificate_request backend order); pure none
  update_type _ order = raise not_implemented

  unfoldable pub update_order : Order → Work W (Option FollowOn)
  update_order order = update_type order.type order

  unfoldable pub check_type : OrderType → Order → Work W (Option FollowOn)
  check_type certificate order = do
    answer ← on_rest (check_certificate_request backend order default_follow_on)
    set_container order answer.0
    pure (some answer.1)
  check_type _ order = raise not_implemented

  -- CheckCertificateStatusOrder.handle_order
  unfoldable pub check_order : Order → Work W (Option FollowOn)
  check_order order = do on_rest (backend.get_project order); check_type order.type order

  unfoldable pub handle_order : TaskName → Order → Work W (Option FollowOn)
  handle_order begin_type_order order = begin_order order
  handle_order update_type_order order = update_order order
  handle_order check_certificate_status_order order = check_order order

  unfoldable pub order_task : TaskName → Task (Db W) TaskError OrderArgs Order FollowOn
  order_task name = record {
    retrieve_entity = retrieve_entity;
    handle_processing = λ order args. handle_order name order;
    handle_error = handle_error;
    handle_success = handle_success;
    safe_message = λ e. generate_safe_exception_message (task_name name) (kind_of e);
  }
