-- ===== src/Tasks/OrderTasks/Report.antt =====
-- What an order tells of the error that its processing met.
use barbican.Shared.{
  ℕ, String, ◌≡◌, refl, sym, ap, ◌∙◌, Option, none, some, Option-cases, inl, inr, eq_refl,
}
use mathlib.Core.Path.{subst}
use mathlib.Core.Bool.{false≢true}
use barbican.Shared.Result.{raised}
use barbican.Shared.Exec.{modify, ◌>>=◌}
use barbican.Tasks.FollowOn.{}
use barbican.Tasks.Orders.{
  error, Order, Db, TaskError, clip, error_reason_length, find_order, row_of, write_row,
  write_order, set_error_reason_safely,
}
use barbican.Tasks.Certificates.{Backend}
use barbican.Tasks.OrderTasks.{
  ExceptionKind, OrderArgs, mark_error, generate_safe_exception_message, handle_error, TaskName,
  task_name, handle_order,
}
use barbican.Tasks.OrderTasks.Confined.{is_there, row_of-write_row}
use barbican.Tasks.OrderTasks.Outcome.{find_order-row_of, handle_order-Confined}
use barbican.Tasks.OrderTasks.Process.{run, run_found}

abbrev stamped : Option String → Order → Order
stamped none o = o
stamped (some m) o = set_error_reason_safely m o

-- The order tells the status, and the message where there is one, cut to the column's length.
abbrev pub Tells : ℕ × Option String → Order → Type 0
Tells (status, none) o = (o.status ≡ error) × (o.error_status_code ≡ some status)
Tells (status, some m) o =
    (o.status ≡ error)
    × (o.error_status_code ≡ some status)
    × (o.error_reason ≡ some (clip error_reason_length m))

stamped-Tells :
    (status : ℕ) (message : Option String) (o : Order)
    → Tells (status, message) (stamped message (mark_error status o))
unfolding set_error_reason_safely
stamped-Tells status none o = (refl, refl)
stamped-Tells status (some m) o = (refl, refl, refl)

module _ {W : Type 0} where
  error-row :
      (o p : Order) (status : ℕ) (message : Option String) (x : TaskError) (args : OrderArgs)
      (db : Db W)
      → row_of o.id db.orders ≡ some p
      → row_of o.id (handle_error o status message x args db).1.orders
        ≡ some (stamped message (mark_error status p))
  unfolding handle_error ◌>>=◌ write_order modify set_error_reason_safely
  error-row o p status none x args db h =
      rw (row_of-write_row o.id o.id (mark_error status) db.orders (λ o. refl), eq_refl o.id, h)
  error-row o p status (some m) x args db h = rw (
    row_of-write_row o.id o.id (set_error_reason_safely m)
        (write_row o.id (mark_error status) db.orders) (λ o. refl),
    eq_refl o.id,
    row_of-write_row o.id o.id (mark_error status) db.orders (λ o. refl),
    eq_refl o.id,
    h,
  )

module _ {W : Type 0} (backend : Backend W) (kind_of : TaskError → ExceptionKind) (name : TaskName)
    (args : OrderArgs) where
  -- Where the processing of an order that is found raises, the order's row afterwards is in state
  -- ERROR with the HTTP status that generate_safe_exception_message gives for the exception, and
  -- with its message, cut to 255 characters, if it gives one.
  pub task_reports :
      (o : Order) (db : Db W) (x : TaskError)
      → find_order args.order_id args.external_project_id db.orders ≡ some o
      → (handle_order backend kind_of name o db).0 ≡ raised x
      → (p : Order) × (row_of args.order_id (run backend kind_of name args db).1.orders ≡ some p)
        × Tells (generate_safe_exception_message (task_name name) (kind_of x)) p
  task_reports o db x h r =
      let (same, there) = find_order-row_of args.order_id args.external_project_id db.orders o h in
      let db' : Db W = (handle_order backend kind_of name o db).1 in
      let (status, message) = generate_safe_exception_message (task_name name) (kind_of x) in
      let kept = ((handle_order-Confined backend kind_of name o).at db).there ∙ rw same there in
      rw (run_found backend kind_of name args o db h, r)
        (elim (Option-cases (row_of o.id db'.orders)) [
          | inl gone ↦ absurd (false≢true (ap is_there (sym gone) ∙ kept))
          | inr (p, row) ↦ (
            stamped message (mark_error status p),
            subst
                (λ i.
                  row_of i (handle_error o status message x args db').1.orders
                  ≡ some (stamped message (mark_error status p)))
                same (error-row o p status message x args db' row),
            stamped-Tells status message p,
          )
        ])
