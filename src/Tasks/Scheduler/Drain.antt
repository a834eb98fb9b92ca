-- ===== src/Tasks/Scheduler/Drain.antt =====
-- PeriodicServer of barbican/queue/retry_scheduler.py where no call that leaves the process fails.
use mathlib.Core.List.{Memᴰ}
use mathlib.Core.List.Memᴰ
use barbican.Shared.{
  Bool-cases, ℕ, ◌≡◌, refl, ap, sym, ◌∙◌, inl, inr, false, some, List, [], ◌∷◌, ◌++◌, arith,
}
use barbican.Session
use barbican.Session.{Session}
use barbican.Paging.{PagingConf}
use barbican.Tasks.Orders.{OrderRetryTask, Db}
use barbican.Tasks.Server.{RpcCall, client_call}
use barbican.Tasks.Scheduler.{
  World, Fault, is_live, remove_and_commit, enqueue_task, enqueue_all, get_by_create_date,
  process_retry_tasks,
}
use barbican.Tasks.Scheduler.OneTask.{is_live-delete_row, live, Sent, enqueue-Step}
use barbican.Tasks.Scheduler.AtLeastOnce.{keep_sent, enqueue_all-Kept}

abbrev pub no_fault : OrderRetryTask → Fault
no_fault t = record { cast_fails = false; commit_fails = false }

module _ {W : Type 0} where
  pub record IsDrained (t : OrderRetryTask) (w : World W) : Type 0 where
    pub sent : Sent t w
    pub gone : live t.id w ≡ false

  remove_and_commit-gone :
      (i : ℕ) (w : World W)
      → w.session.current ≡ w.session.committed
      → live i (remove_and_commit false i w) ≡ false
  unfolding remove_and_commit
  remove_and_commit-gone i w e = elim (Bool-cases (is_live i w.session.current.retries)) [
    | inl h ↦ rw h (ground (arith, is_live-delete_row i i w.session.current.retries))
    | inr h ↦ rw h (ap (λ (db : Db W). is_live i db.retries) (sym e) ∙ h)
  ]

  remove_and_commit-sent : (i : ℕ) (w : World W) → (remove_and_commit false i w).sent ≡ w.sent
  unfolding remove_and_commit
  remove_and_commit-sent i w = ground arith

  enqueue-IsDrained :
      (t : OrderRetryTask) (c : RpcCall) (w : World W)
      → w.session.current ≡ w.session.committed
      → client_call t.retry_task t.retry_kwargs ≡ some c
      → IsDrained t (enqueue_task (no_fault t) t w)
  unfolding enqueue_task
  enqueue-IsDrained t c w e call =
      rw (call, enqueue_task)
        (record {
          sent = (
            c,
            call,
            rw (remove_and_commit-sent t.id (record w { sent = w.sent ++ c ∷ [] }))
                (Memᴰ.append_right w.sent (Memᴰ.head refl)),
          );
          gone = remove_and_commit-gone t.id (record w { sent = w.sent ++ c ∷ [] }) e;
        })

  enqueue_all-IsDrained :
      (before after : List OrderRetryTask) (t : OrderRetryTask) (c : RpcCall) (w : World W)
      → w.session.current ≡ w.session.committed
      → client_call t.retry_task t.retry_kwargs ≡ some c
      → IsDrained t (enqueue_all no_fault (before ++ t ∷ after) w)
  unfolding enqueue_all
  enqueue_all-IsDrained [] after t c w e call =
      let d = enqueue-IsDrained t c w e call in
      let one : World W = enqueue_task (no_fault t) t w in
      let k = enqueue_all-Kept no_fault after one (enqueue-Step (no_fault t) t w e).fresh in
      record {
        sent = keep_sent t one (enqueue_all no_fault after one) k.keeps d.sent;
        gone = k.adds t.id d.gone;
      }
  enqueue_all-IsDrained (u ∷ before) after t c w e call =
      enqueue_all-IsDrained before after t c _ (enqueue-Step (no_fault u) u w e).fresh call

  -- Where no cast and no commit fails, each task of the page whose stored method and arguments make
  -- a call of the client has that call on the queue after the batch, and its row is not live.
  pub faultless_drains :
      (conf : PagingConf) (w : World W) (before after : List OrderRetryTask) (t : OrderRetryTask)
      (c : RpcCall)
      → (get_by_create_date conf w.session.current.now w.session.current.retries).0
        ≡ before ++ t ∷ after
      → client_call t.retry_task t.retry_kwargs ≡ some c
      → IsDrained t (process_retry_tasks conf no_fault w).1
  unfolding process_retry_tasks
  faultless_drains conf w before after t c page call = rw page (
      enqueue_all-IsDrained before after t c (record w { session = Session.clear w.session }) refl
        call)
