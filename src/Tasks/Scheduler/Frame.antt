-- ===== src/Tasks/Scheduler/Frame.antt =====
-- What the scheduler leaves alone, and the calls that the retry rows stand for.
use barbican.Shared.{
  Bool-cases, inl, inr, zero, suc, ◌<◌, ℕ, ◌≡◌, refl, ◌∙◌, Bool, true, false, not, ◌&&◌, some, List,
  [], ◌∷◌, ◌++◌, arith, ◌==◌, take, drop, keep_if, if◌then◌else◌,
}
use barbican.Paging.{PagingConf, page}
use barbican.Tasks.Orders.{OrderRetryTask, Db}
use barbican.Tasks.Server.{RpcCall, client_call}
use barbican.Tasks.Scheduler.{is_live, is_due, delete_row, get_by_create_date}

-- Every row with this id makes this call.
unfoldable pub AllCall : ℕ → RpcCall → List OrderRetryTask → Type 0
AllCall i c [] = Unit
AllCall i c (t ∷ ts) =
    (t.id ≡ i → client_call t.retry_task t.retry_kwargs ≡ some c) × AllCall i c ts

-- The ids of the rows are below `n`.
unfoldable pub Below : ℕ → List OrderRetryTask → Type 0
Below n [] = Unit
Below n (t ∷ ts) = (t.id < n) × Below n ts

pub Below-append :
    (n : ℕ) (ts us : List OrderRetryTask) → Below n ts → Below n us → Below n (ts ++ us)
unfolding Below
Below-append n [] us a b = b
Below-append n (t ∷ ts) us (h, a) b = (h, Below-append n ts us a b)

pub Below-suc : (n : ℕ) (ts : List OrderRetryTask) → Below n ts → Below (suc n) ts
unfolding Below
Below-suc n [] a = tt
Below-suc n (t ∷ ts) (h, a) = (omega arith, Below-suc n ts a)

pub Below-one : (n : ℕ) (t : OrderRetryTask) → t.id ≡ n → Below (suc n) (t ∷ [])
unfolding Below
Below-one n t e = (omega arith, tt)

pub Below-delete_row : (n j : ℕ) (ts : List OrderRetryTask) → Below n ts → Below n (delete_row j ts)
unfolding Below delete_row
Below-delete_row n j [] a = tt
Below-delete_row n j (t ∷ ts) (h, a) =
    (below_either (t.id == j && not t.deleted), Below-delete_row n j ts a)
  where
    below_either : (b : Bool) → (if b then record t { deleted = true } else t).id < n
    below_either true = h
    below_either false = h

pub is_live-Below : (n i : ℕ) (ts : List OrderRetryTask) → Below n ts → is_live i ts ≡ true → i < n
unfolding Below is_live
is_live-Below n i [] a h = ground arith
is_live-Below n i (t ∷ ts) (k, a) h = ground (arith, is_live-Below n i ts a)

pub is_live-append_left :
    (i : ℕ) (ts us : List OrderRetryTask) → is_live i ts ≡ true → is_live i (ts ++ us) ≡ true
unfolding is_live
is_live-append_left i [] us h = ground arith
is_live-append_left i (t ∷ ts) us h = ground (arith, is_live-append_left i ts us)

pub is_live-append_right :
    (i : ℕ) (ts us : List OrderRetryTask) → is_live i us ≡ true → is_live i (ts ++ us) ≡ true
unfolding is_live
is_live-append_right i [] us h = h
is_live-append_right i (t ∷ ts) us h = ground (arith, is_live-append_right i ts us h)

pub Below-AllCall : (n : ℕ) (c : RpcCall) (ts : List OrderRetryTask) → Below n ts → AllCall n c ts
unfolding Below AllCall
Below-AllCall n c [] a = tt
Below-AllCall n c (t ∷ ts) (h, a) = (λ e. absurd (omega arith), Below-AllCall n c ts a)

module _ (i : ℕ) (c : RpcCall) where
  pub AllCall-cons :
      (t : OrderRetryTask) (ts : List OrderRetryTask)
      → AllCall i c (t ∷ ts)
      → (t.id ≡ i → client_call t.retry_task t.retry_kwargs ≡ some c) × AllCall i c ts
  unfolding AllCall
  AllCall-cons t ts a = a

  pub AllCall-append :
      (ts us : List OrderRetryTask) → AllCall i c ts → AllCall i c us → AllCall i c (ts ++ us)
  unfolding AllCall
  AllCall-append [] us a b = b
  AllCall-append (t ∷ ts) us (h, a) b = (h, AllCall-append ts us a b)

  pub AllCall-one :
      (t : OrderRetryTask)
      → (t.id ≡ i → client_call t.retry_task t.retry_kwargs ≡ some c)
      → AllCall i c (t ∷ [])
  unfolding AllCall
  AllCall-one t h = (h, tt)

  same_call :
      (b : Bool) (t : OrderRetryTask)
      → (t.id ≡ i → client_call t.retry_task t.retry_kwargs ≡ some c)
      → let u : OrderRetryTask = if b then record t { deleted = true } else t in
        u.id ≡ i → client_call u.retry_task u.retry_kwargs ≡ some c
  same_call true t h = h
  same_call false t h = h

  pub AllCall-delete_row :
      (j : ℕ) (ts : List OrderRetryTask) → AllCall i c ts → AllCall i c (delete_row j ts)
  unfolding AllCall delete_row
  AllCall-delete_row j [] a = tt
  AllCall-delete_row j (t ∷ ts) (h, a) =
      (same_call (t.id == j && not t.deleted) t h, AllCall-delete_row j ts a)

  AllCall-keep_if :
      (p : OrderRetryTask → Bool) (ts : List OrderRetryTask)
      → AllCall i c ts
      → AllCall i c (keep_if p ts)
  unfolding AllCall
  AllCall-keep_if p [] a = tt
  AllCall-keep_if p (t ∷ ts) (h, a) = elim (Bool-cases (p t)) [
    | inl e ↦ rw e (h, AllCall-keep_if p ts a)
    | inr e ↦ rw e (AllCall-keep_if p ts a)
  ]

  AllCall-drop : (n : ℕ) (ts : List OrderRetryTask) → AllCall i c ts → AllCall i c (drop n ts)
  unfolding AllCall
  AllCall-drop zero ts a = a
  AllCall-drop (suc n) [] a = tt
  AllCall-drop (suc n) (t ∷ ts) (h, a) = AllCall-drop n ts a

  AllCall-take : (n : ℕ) (ts : List OrderRetryTask) → AllCall i c ts → AllCall i c (take n ts)
  unfolding AllCall
  AllCall-take zero ts a = tt
  AllCall-take (suc n) [] a = tt
  AllCall-take (suc n) (t ∷ ts) (h, a) = (h, AllCall-take n ts a)

  pub AllCall-get_by_create_date :
      (conf : PagingConf) (now : ℕ) (ts : List OrderRetryTask)
      → AllCall i c ts
      → AllCall i c (get_by_create_date conf now ts).0
  unfolding get_by_create_date page
  AllCall-get_by_create_date conf now ts a =
      AllCall-take _ _ (AllCall-drop _ _ (AllCall-keep_if (is_due now) ts a))

module _ {W : Type 0} where
  -- A batch writes the retry rows only, and no row's call.
  pub record Frame (v w : Db W) : Type 0 where
    pub orders : w.orders ≡ v.orders
    pub next_id : w.next_id ≡ v.next_id
    pub below : (n : ℕ) → Below n v.retries → Below n w.retries
    pub calls : (i : ℕ) (c : RpcCall) → AllCall i c v.retries → AllCall i c w.retries

  pub Frame-refl : (v : Db W) → Frame v v
  Frame-refl v = record { orders = refl; next_id = refl; below = λ n a. a; calls = λ i c a. a }

  pub Frame-trans : (u v w : Db W) → Frame u v → Frame v w → Frame u w
  Frame-trans u v w p q = record {
    orders = q.orders ∙ p.orders;
    next_id = q.next_id ∙ p.next_id;
    below = λ n a. q.below n (p.below n a);
    calls = λ i c a. q.calls i c (p.calls i c a);
  }

  pub Frame-delete_row :
      (j : ℕ) (v : Db W) → Frame v (record v { retries = delete_row j v.retries })
  Frame-delete_row j v = record {
    orders = refl;
    next_id = refl;
    below = λ n a. Below-delete_row n j v.retries a;
    calls = λ i c a. AllCall-delete_row i c j v.retries a;
  }
