-- ===== src/Tasks/Lifecycle/Account.antt =====
-- Where the next call on a pending order is kept, and how one step of the system moves it.
use mathlib.Core.Path.{subst}
use mathlib.Core.List.{Memᴰ}
use mathlib.Core.List.Memᴰ
use mathlib.Core.Bool.{}
use barbican.Shared.{ℕ, String, ◌≡◌, ◌⊎◌, inl, inr, true, false, some, List, [], ◌∷◌, ◌++◌, arith}
use barbican.Session.{}
use barbican.Tasks.Orders.{pending, OrderRetryTask, Db, find_order, row_of, status_of}
use barbican.Tasks.OrderTasks.Confined.{is_there}
use barbican.Tasks.Server.{RpcCall, args_of, client_call}
use barbican.Tasks.Scheduler.{World, is_live}
use barbican.Tasks.Scheduler.Frame.{
  AllCall, AllCall-append, AllCall-one, Below-AllCall, Below, is_live-Below, is_live-append_left,
  is_live-append_right,
}
use barbican.Tasks.Lifecycle.{Takes, next, later}

-- A live retry row makes this call.
abbrev pub Waiting : RpcCall → List OrderRetryTask → Type 0
Waiting c ts = (n : ℕ) × (is_live n ts ≡ true) × AllCall n c ts

module _ {W : Type 0} where
  -- A call on the order `i` that finds it, on the queue or in the retry table.
  pub record Account (i : String) (db : Db W) (sent : List RpcCall) : Type 0 where
    pub call : RpcCall
    pub same : (args_of call).order_id ≡ i
    pub found : is_there (find_order i (args_of call).project_id db.orders) ≡ true
    pub held : Memᴰ call sent ⊎ Waiting call db.retries

  pub found_by_call :
      (i : String) (db : Db W) (sent : List RpcCall) (a : Account i db sent) (c : RpcCall)
      → a.call ≡ c
      → is_there (find_order (args_of c).order_id (args_of c).project_id db.orders) ≡ true
  found_by_call i db sent a c e =
      subst
        (λ d. is_there (find_order (args_of d).order_id (args_of d).project_id db.orders) ≡ true) e
        (rw a.same a.found)

  -- Every pending order has a call that will run.
  pub record Accounts (db : Db W) (sent : List RpcCall) : Type 0 where
    pub below : Below db.next_id db.retries
    pub named : is_there (row_of "" db.orders) ≡ false
    pub accounts : (i : String) → status_of db i ≡ some pending → Account i db sent

  pub record IsAccounted (w : World W) : Type 0 where
    pub fresh : w.session.current ≡ w.session.committed
    pub books : Accounts w.session.committed w.sent

pub Takes-cases :
    {c d : RpcCall} {cs ds : List RpcCall} → Takes c cs ds → Memᴰ d cs → (d ≡ c) ⊎ Memᴰ d ds
Takes-cases next m = Memᴰ.cases_cons m
Takes-cases (later t) m = elim (Memᴰ.cases_cons m) [
  | inl e ↦ inr (Memᴰ.head e)
  | inr below ↦ elim (Takes-cases t below) [ inl e ↦ inl e | inr k ↦ inr (Memᴰ.tail k) ]
]

-- A new row leaves the waiting calls as they are.
pub Waiting-append :
    (c : RpcCall) (n : ℕ) (ts : List OrderRetryTask) (row : OrderRetryTask)
    → Below n ts
    → row.id ≡ n
    → Waiting c ts
    → Waiting c (ts ++ row ∷ [])
Waiting-append c n ts row b e (i, l, a) = (
  i,
  is_live-append_left i ts (row ∷ []) l,
  AllCall-append i c ts (row ∷ []) a
      (AllCall-one i c row (λ h. absurd (omega (arith, is_live-Below n i ts b l)))),
)

is_live-one : (row : OrderRetryTask) → row.deleted ≡ false → is_live row.id (row ∷ []) ≡ true
unfolding is_live
is_live-one row live = ground arith

-- The new row waits to make its call.
pub Waiting-new :
    (c : RpcCall) (n : ℕ) (ts : List OrderRetryTask) (row : OrderRetryTask)
    → Below n ts
    → row.id ≡ n
    → row.deleted ≡ false
    → client_call row.retry_task row.retry_kwargs ≡ some c
    → Waiting c (ts ++ row ∷ [])
Waiting-new c n ts row b e live call = (
  row.id,
  is_live-append_right row.id ts (row ∷ []) (is_live-one row live),
  AllCall-append row.id c ts (row ∷ []) (rw e (Below-AllCall n c ts b))
      (AllCall-one row.id c row (λ h. call)),
)
