-- ===== src/Tasks/Orders.antt =====
-- The orders and retry tasks of barbican/model/models.py and their repositories, as the tasks use
-- them. An attribute write on an entity is a write to its row in the session. Time stamps other
-- than the retry time are not kept; a clock in the state gives the current time in milliseconds.
use barbican.Shared.{
  ℕ, zero, suc, String, Bool, Option, none, some, List, [], ◌∷◌, str_eq, not, ◌&&◌, if◌then◌else◌,
}
use barbican.Shared.Result.{ok, raised}
use barbican.Shared.Exec.{Exec, modify}

-- models.States
pub data State : Type 0 where
  pending active error : State

-- models.OrderType, and any other text
pub data OrderType : Type 0 where
  key asymmetric certificate : OrderType
  other_type : String → OrderType

pub record Order : Type 0 where
  pub id : String
  -- external id of the project that the query joins
  pub project : String
  pub type : OrderType
  -- meta.get('request_type')
  pub request_type : Option String
  pub status : State
  pub error_status_code : Option ℕ
  pub error_reason : Option String
  pub secret_id : Option String
  pub container_id : Option String
  pub sub_status : Option String
  pub sub_status_message : Option String
  pub deleted : Bool

-- The keyword arguments of a task, by name; the values are texts.
abbrev pub Kwargs : Type 0
Kwargs = List (String × String)

pub record OrderRetryTask : Type 0 where
  pub id : ℕ
  pub order_id : String
  pub retry_task : String
  pub retry_at : ℕ
  pub retry_kwargs : Kwargs
  pub retry_count : ℕ
  pub deleted : Bool

-- `rest` is what the plugins and the certificate authorities keep.
pub record Db (W : Type 0) : Type 0 where
  pub orders : List Order
  pub retries : List OrderRetryTask
  pub next_id : ℕ
  pub now : ℕ
  pub rest : W

pub data TaskError : Type 0 where
  not_found : TaskError
  type_error : TaskError
  -- NotImplementedError
  not_implemented : TaskError
  -- raised by a plugin, the certificate authority or the database
  failure : String → TaskError
  -- CertificateStatusClientDataIssue, …InvalidOperation, …NotSupported
  client_data_issue invalid_operation status_not_supported : String → TaskError

abbrev pub error_reason_length : ℕ
error_reason_length = 255

abbrev pub sub_status_length : ℕ
sub_status_length = 36

abbrev pub sub_status_message_length : ℕ
sub_status_message_length = 255

-- text[:n]
unfoldable pub clip : ℕ → String → String
clip zero s = String.[]
clip (suc n) String.[] = String.[]
clip (suc n) (String.◌∷◌ c s) = String.◌∷◌ c (clip n s)

unfoldable pub set_error_reason_safely : String → Order → Order
set_error_reason_safely raw o = record o { error_reason = some (clip error_reason_length raw) }

unfoldable pub set_sub_status_safely : String → Order → Order
set_sub_status_safely raw o = record o { sub_status = some (clip sub_status_length raw) }

unfoldable pub set_sub_status_message_safely : String → Order → Order
set_sub_status_message_safely raw o = record o {
  sub_status_message = some (clip sub_status_message_length raw);
}

abbrev pub Work : Type 0 → Type 0 → Type 0
Work W A = Exec (Db W) TaskError A

-- OrderRepo.get: the order with this id that is not deleted, in a project with this external id
unfoldable pub find_order : String → String → List Order → Option Order
find_order i project [] = none
find_order i project (o ∷ os) =
    if str_eq o.id i && (str_eq o.project project && not o.deleted)
    then some o
    else find_order i project os

-- The row with this id, whatever its project.
unfoldable pub row_of : String → List Order → Option Order
row_of i [] = none
row_of i (o ∷ os) = if str_eq o.id i then some o else row_of i os

unfoldable pub write_row : String → (Order → Order) → List Order → List Order
write_row i f [] = []
write_row i f (o ∷ os) = (if str_eq o.id i then f o else o) ∷ write_row i f os

module _ {W : Type 0} where
  unfoldable pub get_order : String → String → Work W Order
  unfolding find_order
  get_order i project db = elim (find_order i project db.orders) [
    | none ↦ (raised not_found, db)
    | some o ↦ (ok o, db)
  ]

  abbrev pub update_orders : (List Order → List Order) → Db W → Db W
  update_orders f db = record db { orders = f db.orders }

  -- Attribute writes on the entity.
  unfoldable pub write_order : String → (Order → Order) → Work W Unit
  unfolding write_row
  write_order i f = modify (update_orders (write_row i f))

abbrev pub state_in : Option Order → Option State
state_in none = none
state_in (some o) = some o.status

abbrev pub status_of : {W : Type 0} → Db W → String → Option State
status_of db i = state_in (row_of i db.orders)
