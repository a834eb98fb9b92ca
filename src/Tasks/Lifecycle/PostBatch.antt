-- ===== src/Tasks/Lifecycle/PostBatch.antt =====
-- A new order, and a batch of the scheduler, keep the accounts of the pending orders.
use mathlib.Core.Path.{subst}
use mathlib.Core.List.{Memᴰ}
use mathlib.Core.List.Memᴰ
use mathlib.Core.Bool.{}
use barbican.Shared.{
  Bool-cases, eq_iff, eq_refl, String, ◌≡◌, refl, sym, ap, ◌∙◌, ◌⊎◌, inl, inr, true, false, List,
  [], ◌∷◌, ◌++◌, arith, str_eq,
}
use barbican.Shared.Result.{Result, ok, raised}
use barbican.Session.{}
use barbican.Paging.{PagingConf}
use barbican.Quota.{QuotaError}
use barbican.Tasks.FollowOn.{}
use barbican.Tasks.Orders.{Order, OrderRetryTask, Db, find_order, row_of, state_in}
use barbican.Tasks.Certificates.{}
use barbican.Tasks.OrderTasks.{}
use barbican.Tasks.OrderTasks.Confined.{is_there}
use barbican.Tasks.OrderTasks.Outcome.{}
use barbican.Tasks.Server.{RpcCall}
use barbican.Tasks.Server.Retry.{}
use barbican.Tasks.Server.Serve.{}
use barbican.Tasks.Scheduler.{World, Fault, process_retry_tasks}
use barbican.Tasks.Scheduler.Frame.{AllCall-get_by_create_date}
use barbican.Tasks.Scheduler.AtLeastOnce.{retry_at_least_once}
use barbican.Tasks.Scheduler.OneTask.{live}
use barbican.Tasks.Lifecycle.{NewOrder, fresh_order, first_call, add_order, post_order}
use barbican.Tasks.Lifecycle.Account.{Waiting, Account, Accounts, IsAccounted}

row_of-append_new :
    (j : String) (os : List Order) (o : Order)
    → str_eq o.id j ≡ false
    → row_of j (os ++ o ∷ []) ≡ row_of j os
unfolding row_of
row_of-append_new j [] o h = ground arith
row_of-append_new j (x ∷ os) o h = ground (arith, row_of-append_new j os o h)

find_order-append_left :
    (i p : String) (os us : List Order)
    → is_there (find_order i p os) ≡ true
    → is_there (find_order i p (os ++ us)) ≡ true
unfolding find_order
find_order-append_left i p [] us h = ground arith
find_order-append_left i p (x ∷ os) us h = ground (arith, find_order-append_left i p os us)

find_order-append_new :
    (os : List Order) (o : Order)
    → o.deleted ≡ false
    → is_there (find_order o.id o.project (os ++ o ∷ [])) ≡ true
unfolding find_order
find_order-append_new [] o h = ground (arith, eq_refl o.id, eq_refl o.project)
find_order-append_new (x ∷ os) o h = ground (arith, find_order-append_new os o h)

module _ {W : Type 0} where
  Account-post :
      (i : String) (n : NewOrder) (db : Db W) (sent : List RpcCall)
      → Account i db sent
      → Account i (add_order (fresh_order n) db) (sent ++ first_call n ∷ [])
  Account-post i n db sent a = record {
    call = a.call;
    same = a.same;
    found = find_order-append_left i _ db.orders _ a.found;
    held = elim a.held [ inl m ↦ inl (Memᴰ.append_left _ m) | inr waits ↦ inr waits ];
  }

  Account-new :
      (n : NewOrder) (db : Db W) (sent : List RpcCall)
      → Account n.order_id (add_order (fresh_order n) db) (sent ++ first_call n ∷ [])
  Account-new n db sent = record {
    call = first_call n;
    same = refl;
    found = find_order-append_new db.orders (fresh_order n) refl;
    held = inl (Memᴰ.append_right sent (Memᴰ.head refl));
  }

  Accounts-post :
      (n : NewOrder) (db : Db W) (sent : List RpcCall)
      → str_eq n.order_id "" ≡ false
      → Accounts db sent
      → Accounts (add_order (fresh_order n) db) (sent ++ first_call n ∷ [])
  Accounts-post n db sent named b = record {
    below = b.below;
    named = ap is_there (row_of-append_new "" db.orders (fresh_order n) named) ∙ b.named;
    accounts = λ i waits. elim (Bool-cases (str_eq n.order_id i)) [
      | inl e ↦
          subst (λ j. Account j (add_order (fresh_order n) db) (sent ++ first_call n ∷ []))
            ((eq_iff n.order_id i).0 e) (Account-new n db sent)
      | inr e ↦ Account-post i n db sent (
          b.accounts i
            (ap state_in (sym (row_of-append_new i db.orders (fresh_order n) e)) ∙ waits))
    ];
  }

  pub current_books : (w : World W) → IsAccounted w → Accounts w.session.current w.sent
  current_books w v = subst (λ db. Accounts db w.sent) (sym v.fresh) v.books

  pub post-IsAccounted :
      (quota : Result QuotaError Unit) (n : NewOrder) (w : World W)
      → str_eq n.order_id "" ≡ false
      → IsAccounted w
      → IsAccounted (post_order quota n w).1
  unfolding post_order
  post-IsAccounted (raised x) n w named v = v
  post-IsAccounted (ok _) n w named v = record {
    fresh = refl;
    books = Accounts-post n w.session.current w.sent named (current_books w v);
  }

  Waiting-batch :
      (c : RpcCall) (conf : PagingConf) (faults : OrderRetryTask → Fault) (w : World W)
      → w.session.current ≡ w.session.committed
      → Waiting c w.session.committed.retries
      → Memᴰ c (process_retry_tasks conf faults w).1.sent
        ⊎ Waiting c (process_retry_tasks conf faults w).1.session.committed.retries
  Waiting-batch c conf faults w e (n, l, a) =
      let k = retry_at_least_once conf faults w in
      elim (Bool-cases (live n (process_retry_tasks conf faults w).1)) [
        | inl still ↦ inr (n, still, k.frame.calls n c a)
        | inr gone ↦ inl (
            k.sends n c
              (AllCall-get_by_create_date n c conf w.session.current.now w.session.current.retries
                (rw e a))
              l gone)
      ]

  Account-batch :
      (i : String) (conf : PagingConf) (faults : OrderRetryTask → Fault) (w : World W)
      → w.session.current ≡ w.session.committed
      → Account i w.session.committed w.sent
      → let w' = (process_retry_tasks conf faults w).1 in Account i w'.session.committed w'.sent
  Account-batch i conf faults w e a =
      let k = retry_at_least_once conf faults w in
      record {
        call = a.call;
        same = a.same;
        found = rw k.frame.orders a.found;
        held = elim a.held [
          | inl m ↦ inl (k.keeps a.call m)
          | inr row ↦ Waiting-batch a.call conf faults w e row
        ];
      }

  pub batch-IsAccounted :
      (conf : PagingConf) (faults : OrderRetryTask → Fault) (w : World W)
      → IsAccounted w
      → IsAccounted (process_retry_tasks conf faults w).1
  batch-IsAccounted conf faults w v =
      let k = retry_at_least_once conf faults w in
      record {
        fresh = k.fresh;
        books = record {
          below = rw k.frame.next_id (k.frame.below w.session.committed.next_id v.books.below);
          named = rw k.frame.orders v.books.named;
          accounts = λ i waits.
              Account-batch i conf faults w v.fresh (
                v.books.accounts i
                  (ap (λ os. state_in (row_of i os)) (sym k.frame.orders) ∙ waits));
        };
      }
