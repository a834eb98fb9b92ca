-- ===== src/Tasks/OrderUpdate.antt =====
-- PUT on an order: _lookup of OrdersController and on_put of OrderController in
-- barbican/api/controllers/orders.py. The project that on_put creates if need be is not kept here.
use barbican.Shared.{
  Option-cases, inl, inr, ℕ, String, ◌≡◌, refl, Bool, true, false, Option, none, some, [], ◌∷◌,
  ◌++◌, str_eq,
}
use barbican.Shared.Result.{Result, ok, raised}
use barbican.Shared.Exec.{Exec, lift, ◌>>=◌, ◌>>◌}
use barbican.Tasks.Orders.{
  State, pending, active, error, OrderType, key, asymmetric, certificate, other_type, Order,
  find_order,
}
use barbican.Tasks.Server.{CallArgs, RpcCall, update_order}
use barbican.Tasks.Scheduler.{World}

pub data PutError : Type 0 where
  -- pecan.abort(status)
  abort : ℕ → PutError
  attribute_error : PutError
  -- an exception of the body's validation or of validate_ca_id
  invalid : String → PutError

-- What stands in `self.queue`.
pub data QueueResource : Type 0 where
  task_client order_repository : QueueResource

-- queue_resource or async_client.TaskClient(); a repository object is true.
abbrev pub queue_or_client : Option QueueResource → QueueResource
queue_or_client none = task_client
queue_or_client (some q) = q

pub record Body : Type 0 where
  pub type : String
  pub meta : String

abbrev type_text : OrderType → String
type_text key = "key"
type_text asymmetric = "asymmetric"
type_text certificate = "certificate"
type_text (other_type t) = t

abbrev is_certificate : OrderType → Bool
is_certificate certificate = true
is_certificate _ = false

abbrev is_pending : State → Bool
is_pending pending = true
is_pending active = false
is_pending error = false

abbrev unless : Bool → PutError → Result PutError Unit
unless true x = ok tt
unless false x = raised x

module _ {W : Type 0} where
  -- self.queue.update_order(...): only the client has this method.
  unfoldable pub cast_update : QueueResource → RpcCall → Exec (World W) PutError Unit
  cast_update task_client call w = (ok tt, record w { sent = w.sent ++ call ∷ [] })
  cast_update order_repository call w = (raised attribute_error, w)

  -- `body` and `ca_check` are what load_body and validate_ca_id give.
  unfoldable pub on_put :
      Order
      → QueueResource
      → CallArgs
      → Result PutError Body
      → Result PutError Unit
      → Exec (World W) PutError Unit
  on_put order queue args body ca_check = do
    b ← lift body
    lift (unless (str_eq (type_text order.type) b.type) (abort 400))
    lift (unless (is_certificate order.type) (abort 400))
    lift (unless (is_pending order.status) (abort 400))
    lift ca_check
    cast_update queue (update_order args b.meta)

  -- OrdersController._lookup passes its repository where OrderController takes the queue.
  unfoldable pub lookup : CallArgs → Exec (World W) PutError (Order × QueueResource)
  lookup args w = elim (find_order args.order_id args.project_id w.session.current.orders) [
    | none ↦ (raised (abort 404), w)
    | some order ↦ (ok (order, queue_or_client (some order_repository)), w)
  ]

  unfoldable pub put_order :
      CallArgs → Result PutError Body → Result PutError Unit → Exec (World W) PutError Unit
  put_order args body ca_check = do
    (order, queue) ← lookup args
    on_put order queue args body ca_check

  -- The action raises and leaves the world as it was.
  abbrev pub Fails : {A : Type 0} → Exec (World W) PutError A → World W → Type 0
  Fails m w = (x : PutError) × (m w ≡ (raised x, w))

  Fails-lift :
      {A B : Type 0} (r : Result PutError A) (f : A → Exec (World W) PutError B) (w : World W)
      → ((a : A) → Fails (f a) w)
      → Fails (lift r >>= f) w
  unfolding ◌>>=◌
  Fails-lift (ok a) f w h = h a
  Fails-lift (raised x) f w h = (x, refl)

  on_put-Fails :
      (order : Order) (args : CallArgs) (body : Result PutError Body)
      (ca_check : Result PutError Unit) (w : World W)
      → Fails (on_put order order_repository args body ca_check) w
  unfolding on_put cast_update
  on_put-Fails order args body ca_check w = Fails-lift body _ w (λ b. Fails-lift _ _ w (λ _.
      Fails-lift _ _ w
        (λ _. Fails-lift _ _ w (λ _. Fails-lift ca_check _ w (λ _. (attribute_error, refl))))))

  -- A PUT on an order always raises, and it casts and changes nothing, whatever the order, the body
  -- and the outcome of the checks.
  pub put_order_fails :
      (args : CallArgs) (body : Result PutError Body) (ca_check : Result PutError Unit)
      (w : World W)
      → (x : PutError) × (put_order args body ca_check w ≡ (raised x, w))
  unfolding put_order ◌>>=◌ lookup
  put_order_fails args body ca_check w =
      elim (Option-cases (find_order args.order_id args.project_id w.session.current.orders)) [
        | inl missing ↦ rw (missing, lookup) (abort 404, refl)
        | inr (o, found) ↦ rw (found, lookup) (on_put-Fails o args body ca_check w)
      ]
