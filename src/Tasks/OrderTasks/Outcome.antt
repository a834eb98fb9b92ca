-- ===== src/Tasks/OrderTasks/Outcome.antt =====
-- The state in which a task leaves its order.
use barbican.Shared.{
  ℕ, String, ◌≡◌, refl, true, Option, none, some, List, [], ◌∷◌, arith, Option-cases, eq_refl, inl,
  inr, eq_iff, if◌then◌else◌,
}
use barbican.Shared.Result.{Result, ok, raised}
use barbican.Shared.Exec.{modify, ◌>>=◌}
use barbican.Tasks.FollowOn.{FollowOn, is_follow_on_needed}
use barbican.Tasks.BaseTask.{}
use barbican.Tasks.Orders.{
  State, pending, active, error, OrderType, key, asymmetric, certificate, other_type, Order, Db,
  TaskError, row_of, find_order, write_row, write_order, set_error_reason_safely, status_of,
}
use barbican.Tasks.Certificates.{Backend}
use barbican.Tasks.OrderTasks.{
  ExceptionKind, OrderArgs, mark_error, finish, set_container, begin_type, update_type, check_type,
  handle_error, begin_order, update_order, check_order, TaskName, begin_type_order,
  update_type_order, check_certificate_status_order, handle_order,
}
use barbican.Tasks.OrderTasks.Confined.{
  is_there, KeepsKeys, keeps_id, Confined, Confined-pure, Confined-raise, Confined-on_rest,
  Confined-bind, Confined-write, row_of-write_row,
}

ruleset confined_rules =
    (Confined-pure, Confined-raise, Confined-on_rest, Confined-bind, Confined-write)

pub find_order-row_of :
    (i project : String) (os : List Order) (o : Order)
    → find_order i project os ≡ some o
    → (o.id ≡ i) × (is_there (row_of i os) ≡ true)
unfolding find_order row_of
find_order-row_of i project [] o h = ground arith
find_order-row_of i project (x ∷ os) o h =
    ground (arith, eq_iff x.id i, find_order-row_of i project os o)

pub finish-KeepsKeys : (r : Option FollowOn) → KeepsKeys (finish r)
unfolding finish
finish-KeepsKeys none o = refl
finish-KeepsKeys (some f) o = ground arith

-- The state that a processing outcome calls for.
abbrev pub expected_state : Result TaskError (Option FollowOn) → State
expected_state (raised x) = error
expected_state (ok none) = active
expected_state (ok (some f)) = if is_follow_on_needed f then pending else active

abbrev pub or_none : Result TaskError (Option FollowOn) → Option FollowOn
or_none (raised x) = none
or_none (ok r) = r

pub finish-status : (r : Option FollowOn) (o : Order) → (finish r o).status ≡ expected_state (ok r)
unfolding finish
finish-status none o = refl
finish-status (some f) o = ground arith

module _ {W : Type 0} (backend : Backend W) (kind_of : TaskError → ExceptionKind) where
  set_container-Confined :
      (order : Order) (c : Option String)
      → Confined order.id (set_container backend kind_of order c)
  unfolding set_container
  set_container-Confined order none = Confined-pure order.id tt
  set_container-Confined order (some c) = Confined-write order.id _ (λ o. refl)

  begin_type-Confined :
      (order : Order) (t : OrderType) → Confined order.id (begin_type backend kind_of t order)
  unfolding begin_type
  begin_type-Confined order key =
      Confined-bind _ _ _ (Confined-on_rest _ _)
        (λ x. Confined-bind _ _ _ (Confined-write _ _ (λ o. refl)) (λ y. Confined-pure _ _))
  begin_type-Confined order asymmetric = search confined_rules
  begin_type-Confined order certificate = search (confined_rules, set_container-Confined)
  begin_type-Confined order (other_type x) = search confined_rules

  update_type-Confined :
      (order : Order) (t : OrderType) → Confined order.id (update_type backend kind_of t order)
  unfolding update_type
  update_type-Confined order certificate = search confined_rules
  update_type-Confined order _ = search confined_rules

  check_type-Confined :
      (order : Order) (t : OrderType) → Confined order.id (check_type backend kind_of t order)
  unfolding check_type
  check_type-Confined order certificate = search (confined_rules, set_container-Confined)
  check_type-Confined order _ = search confined_rules

  pub handle_order-Confined :
      (name : TaskName) (order : Order)
      → Confined order.id (handle_order backend kind_of name order)
  unfolding handle_order begin_order update_order check_order
  handle_order-Confined begin_type_order order = search (confined_rules, begin_type-Confined)
  handle_order-Confined update_type_order order = search (confined_rules, update_type-Confined)
  handle_order-Confined check_certificate_status_order order =
      search (confined_rules, check_type-Confined)

module _ {W : Type 0} where
  -- A write that sets the state, on a row that is there.
  pub state-write :
      (i : String) (f : Order → Order) (st : State) (db : Db W)
      → KeepsKeys f
      → ((o : Order) → (f o).status ≡ st)
      → is_there (row_of i db.orders) ≡ true
      → status_of (write_order i f db).1 i ≡ some st
  unfolding write_order modify
  state-write i f st db same sets there = elim (Option-cases (row_of i db.orders)) [
    | inl e ↦ ground arith
    | inr (o, e) ↦
        rw (row_of-write_row i i f db.orders (keeps_id f same), eq_refl i, e) (rw (sets o))
  ]

  pub error-Confined :
      (o : Order) (status : ℕ) (message : Option String) (x : TaskError) (args : OrderArgs)
      → Confined {W = W} o.id (handle_error o status message x args)
  unfolding handle_error set_error_reason_safely
  error-Confined o status none x args = search confined_rules
  error-Confined o status (some m) x args =
      Confined-bind _ _ _ (Confined-write _ _ (λ o. refl)) (λ y. Confined-write _ _ (λ o. refl))

  pub error-state :
      (o : Order) (status : ℕ) (message : Option String) (x : TaskError) (args : OrderArgs)
      (db : Db W)
      → is_there (row_of o.id db.orders) ≡ true
      → status_of (handle_error o status message x args db).1 o.id ≡ some error
  unfolding handle_error ◌>>=◌ write_order set_error_reason_safely
  error-state o status none x args db there =
      state-write o.id (mark_error status) error db (λ o. refl) (λ o. refl) there
  error-state o status (some m) x args db there = ground (
    arith,
    row_of-write_row o.id o.id (mark_error status) db.orders (λ o. refl),
    row_of-write_row o.id o.id (set_error_reason_safely m)
        (write_row o.id (mark_error status) db.orders) (λ o. refl),
    eq_iff o.id o.id,
  )
