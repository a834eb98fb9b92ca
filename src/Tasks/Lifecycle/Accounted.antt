-- ===== src/Tasks/Lifecycle/Accounted.antt =====
-- The accounts of the pending orders, over the interleavings of clients, workers and the scheduler.
use mathlib.Core.Path.{subst}
use mathlib.Core.List.{}
use mathlib.Core.Bool.{false≢true}
use mathlib.Core.Option.{some_inj}
use barbican.Shared.{
  Bool-cases, Option-cases, eq_iff, suc, String, ◌≡◌, refl, sym, ap, ◌∙◌, inl, inr, true, false,
  none, some, List, [], ◌∷◌, str_eq,
}
use barbican.Shared.Result.{}
use barbican.Session.{}
use barbican.Paging.{}
use barbican.Quota.{}
use barbican.Tasks.FollowOn.{}
use barbican.Tasks.Orders.{pending, Order, Db, TaskError, find_order, row_of, status_of, state_in}
use barbican.Tasks.Certificates.{Backend}
use barbican.Tasks.OrderTasks.{ExceptionKind}
use barbican.Tasks.OrderTasks.Confined.{is_there}
use barbican.Tasks.OrderTasks.Outcome.{find_order-row_of}
use barbican.Tasks.Server.{CallArgs, RpcCall, args_of}
use barbican.Tasks.Server.Retry.{}
use barbican.Tasks.Server.Serve.{IsServed, serve_records, serve_missing, found_in}
use barbican.Tasks.Scheduler.{World}
use barbican.Tasks.Scheduler.Frame.{Below, Below-append, Below-suc, Below-one}
use barbican.Tasks.Scheduler.AtLeastOnce.{}
use barbican.Tasks.Lifecycle.{
  Takes, worked, set_now, Step, post, work, batch, tick, Reach, start, step,
}
use barbican.Tasks.Lifecycle.PostBatch.{current_books, post-IsAccounted, batch-IsAccounted}
use barbican.Tasks.Lifecycle.Account.{
  found_by_call, Waiting, Account, Accounts, IsAccounted, Takes-cases, Waiting-append, Waiting-new,
}

order_named :
    {W : Type 0} (c : RpcCall) (db : Db W) (o : Order) {sent : List RpcCall}
    → find_order (args_of c).order_id (args_of c).project_id db.orders ≡ some o
    → Accounts db sent
    → str_eq (args_of c).order_id "" ≡ false
order_named c db o found b = elim (Bool-cases (str_eq (args_of c).order_id "")) [
  | inl e ↦ absurd (
      false≢true (
        sym b.named
        ∙ subst (λ j. is_there (row_of j db.orders) ≡ true) ((eq_iff (args_of c).order_id "").0 e)
            (find_order-row_of (args_of c).order_id (args_of c).project_id db.orders o found).1))
  | inr e ↦ e
]

module _ {W : Type 0} (backend : Backend W) (kind_of : TaskError → ExceptionKind) (c : RpcCall)
    (sent rest : List RpcCall) (takes : Takes c sent rest) where
  -- A call that was not on an order: nothing changes but the queue.
  Accounts-missing :
      (db : Db W) → found_in backend kind_of c db ≡ none → Accounts db sent → Accounts db rest
  Accounts-missing db missing b = record {
    below = b.below;
    named = b.named;
    accounts = λ i waits.
        let a = b.accounts i waits in
        record {
          call = a.call;
          same = a.same;
          found = a.found;
          held = elim a.held [
            | inl m ↦ elim (Takes-cases takes m) [
              | inl e ↦
                  absurd (false≢true (ap is_there (sym missing) ∙ found_by_call i db sent a c e))
              | inr k ↦ inl k
            ]
            | inr row ↦ inr row
          ];
        };
  }

  module _ (o : Order) (db after : Db W) (found : found_in backend kind_of c db ≡ some o)
      (served : IsServed backend kind_of c o db after) (b : Accounts db sent) where
    Waiting-served : (d : RpcCall) → Waiting d db.retries → Waiting d after.retries
    Waiting-served d waits = elim served.recorded [
      | inl (n, same, next) ↦ rw same waits
      | inr (row, p, same, new, next, order, kw, live, acc) ↦
          rw same (Waiting-append d db.next_id db.retries row b.below new waits)
    ]

    Below-served : Below after.next_id after.retries
    Below-served = elim served.recorded [
      | inl (n, same, next) ↦ rw (same, next) b.below
      | inr (row, p, same, new, next, order, kw, live, acc) ↦
          rw (same, next)
            (Below-append (suc db.next_id) db.retries (row ∷ [])
              (Below-suc db.next_id db.retries b.below) (Below-one db.next_id row new))
    ]

    Account-other :
        (i : String)
        → str_eq (args_of c).order_id i ≡ false
        → Account i db sent
        → Account i after rest
    Account-other i differs a = record {
      call = a.call;
      same = a.same;
      found = served.finds i _ ∙ a.found;
      held = elim a.held [
        | inl m ↦ elim (Takes-cases takes m) [
          | inl e ↦ absurd (
              false≢true (
                sym differs
                ∙ (eq_iff (args_of c).order_id i).1
                    (ap (λ x. (args_of x).order_id) (sym e) ∙ a.same)))
          | inr k ↦ inl k
        ]
        | inr row ↦ inr (Waiting-served a.call row)
      ];
    }

    Account-served :
        status_of after (args_of c).order_id ≡ some pending
        → Account (args_of c).order_id after rest
    Account-served waits = elim served.recorded [
      | inl (n, same, next) ↦ absurd (n (some_inj.0 (sym served.state ∙ waits)))
      | inr (row, p, same, new, next, order, kw, kept, (d, call, args)) ↦ record {
        call = d;
        same = ap (λ (x : CallArgs). x.order_id) args;
        found = rw args (served.finds _ _ ∙ ap is_there found);
        held =
            inr (rw same (Waiting-new d db.next_id db.retries row b.below new kept (rw kw call)));
      }
    ]

    Accounts-served : str_eq (args_of c).order_id "" ≡ false → Accounts after rest
    Accounts-served named = record {
      below = Below-served;
      named = ap is_there (served.others "" named) ∙ b.named;
      accounts = λ i waits. elim (Bool-cases (str_eq (args_of c).order_id i)) [
        | inl e ↦
            subst (λ j. status_of after j ≡ some pending → Account j after rest)
              ((eq_iff (args_of c).order_id i).0 e) Account-served waits
        | inr e ↦ Account-other i e (b.accounts i (ap state_in (sym (served.others i e)) ∙ waits))
      ];
    }

module _ {W : Type 0} (backend : Backend W) (kind_of : TaskError → ExceptionKind) where
  work-IsAccounted :
      (c : RpcCall) (rest : List RpcCall) (w : World W)
      → Takes c w.sent rest
      → IsAccounted w
      → IsAccounted (worked backend kind_of c rest w)
  work-IsAccounted c rest w t v =
      let b = current_books w v in
      elim (Option-cases (found_in backend kind_of c w.session.current)) [
        | inl missing ↦ rw (serve_missing backend kind_of c w.session missing) (record {
          fresh = refl;
          books = Accounts-missing backend kind_of c w.sent rest t w.session.current missing b;
        })
        | inr (o, found) ↦
            let named = order_named c w.session.current o found b in
            let (r, fresh, served) = serve_records backend kind_of c o w.session found named in
            record {
              fresh = fresh;
              books =
                  Accounts-served backend kind_of c w.sent rest t o w.session.current _ found served
                    b named;
            }
      ]

  Step-IsAccounted : {v w : World W} → Step backend kind_of v w → IsAccounted v → IsAccounted w
  Step-IsAccounted (post quota n w named) v = post-IsAccounted quota n w named v
  Step-IsAccounted (work c rest w t) v = work-IsAccounted c rest w t v
  Step-IsAccounted (batch conf faults w) v = batch-IsAccounted conf faults w v
  Step-IsAccounted (tick t w) v = record {
    fresh = ap (set_now t) v.fresh;
    books = record {
      below = v.books.below;
      named = v.books.named;
      accounts = λ i waits.
          let a = v.books.accounts i waits in
          record { call = a.call; same = a.same; found = a.found; held = a.held };
    };
  }

  -- From a system whose pending orders are accounted for, such as an empty one, every interleaving
  -- of new orders, workers, batches of the scheduler and the clock leads to a system in which each
  -- PENDING order has a call that finds it, on the queue or in a live retry row. The backends, and
  -- the casts and the commits of the scheduler, may fail at any time; the workers' database and the
  -- cast of a new order do not.
  pub no_order_is_forgotten :
      {v w : World W} → Reach backend kind_of v w → IsAccounted v → IsAccounted w
  no_order_is_forgotten start v = v
  no_order_is_forgotten (step r s) v = Step-IsAccounted s (no_order_is_forgotten r v)
