-- ===== src/Tasks/Scheduler/AtLeastOnce.antt =====
-- A batch of the scheduler over its tasks.
use mathlib.Core.List.{Memᴰ}
use mathlib.Core.List.Memᴰ
use mathlib.Core.Path.{}
use mathlib.Core.Bool.{false≢true}
use barbican.Shared.{Bool-cases, ℕ, ◌≡◌, refl, sym, ◌∙◌, inl, inr, true, false, some, List, [], ◌∷◌}
use barbican.Session
use barbican.Session.{Session}
use barbican.Paging.{PagingConf}
use barbican.Tasks.Orders.{OrderRetryTask}
use barbican.Tasks.Server.{RpcCall, client_call}
use barbican.Tasks.Scheduler.Frame.{Frame, Frame-refl, Frame-trans, AllCall, AllCall-cons}
use barbican.Tasks.Scheduler.{World, Fault, enqueue_all, get_by_create_date, process_retry_tasks}
use barbican.Tasks.Scheduler.OneTask.{live, Sent, Step, enqueue-Step}

module _ {W : Type 0} where
  -- What a batch of tasks may do.
  pub record Kept (batch : List OrderRetryTask) (v w : World W) : Type 0 where
    pub fresh : w.session.current ≡ w.session.committed
    pub keeps : (c : RpcCall) → Memᴰ c v.sent → Memᴰ c w.sent
    pub drops :
        (i : ℕ)
        → live i v ≡ true
        → live i w ≡ false
        → (t : OrderRetryTask) × Memᴰ t batch × (t.id ≡ i) × Sent t w
    pub sends :
        (i : ℕ) (c : RpcCall)
        → AllCall i c batch
        → live i v ≡ true
        → live i w ≡ false
        → Memᴰ c w.sent
    pub adds : (i : ℕ) → live i v ≡ false → live i w ≡ false
    pub frame : Frame v.session.committed w.session.committed

  pub keep_sent :
      (t : OrderRetryTask) (v w : World W)
      → ((c : RpcCall) → Memᴰ c v.sent → Memᴰ c w.sent)
      → Sent t v
      → Sent t w
  keep_sent t v w keeps (c, call, m) = (c, call, keeps c m)

  called :
      (t : OrderRetryTask) (c : RpcCall) (w : World W)
      → client_call t.retry_task t.retry_kwargs ≡ some c
      → Sent t w
      → Memᴰ c w.sent
  called t c w e (d, call, m) = let same : c ≡ d = cc in Memᴰ.cast same m

  Step-Kept :
      (t : OrderRetryTask) (ts : List OrderRetryTask) (u v w : World W)
      → Step t u v
      → Kept ts v w
      → Kept (t ∷ ts) u w
  Step-Kept t ts u v w a b = record {
    fresh = b.fresh;
    keeps = λ c m. b.keeps c (a.keeps c m);
    drops = λ i h k. elim (Bool-cases (live i v)) [
      | inl still ↦ let (t', m, e, sent) = b.drops i still k in (t', Memᴰ.tail m, e, sent)
      | inr gone ↦
          let (e, sent) = a.drops i h gone in (t, (Memᴰ.head refl), e, keep_sent t v w b.keeps sent)
    ];
    sends = λ i c all h k.
        let (first, rest) = AllCall-cons i c t ts all in
        elim (Bool-cases (live i v)) [
          | inl still ↦ b.sends i c rest still k
          | inr gone ↦
              let (e, sent) = a.drops i h gone in
              called t c w (first e) (keep_sent t v w b.keeps sent)
        ];
    adds = λ i h. b.adds i (a.adds i h);
    frame = Frame-trans u.session.committed v.session.committed w.session.committed a.frame b.frame;
  }

  pub enqueue_all-Kept :
      (faults : OrderRetryTask → Fault) (ts : List OrderRetryTask) (w : World W)
      → w.session.current ≡ w.session.committed
      → Kept ts w (enqueue_all faults ts w)
  unfolding enqueue_all
  enqueue_all-Kept faults [] w e = record {
    fresh = e;
    keeps = λ c m. m;
    drops = λ i a b. absurd (false≢true (sym b ∙ a));
    sends = λ i c batch a b. absurd (false≢true (sym b ∙ a));
    adds = λ i a. a;
    frame = Frame-refl w.session.committed;
  }
  enqueue_all-Kept faults (t ∷ ts) w e =
      let one = enqueue-Step (faults t) t w e in
      Step-Kept t ts w _ _ one (enqueue_all-Kept faults ts _ one.fresh)

  -- A batch over the due tasks of the queue, whichever casts and commits fail: no call leaves the
  -- queue, no row comes back, and a row that was live and is not live any more is the row of a task
  -- of this batch, whose call, with the stored method and arguments, is on the queue. The orders
  -- and the calls that the rows stand for stay as they were, and nothing is left uncommitted.
  pub retry_at_least_once :
      (conf : PagingConf) (faults : OrderRetryTask → Fault) (w : World W)
      → Kept
          (get_by_create_date conf w.session.current.now w.session.current.retries).0
          w
          (process_retry_tasks conf faults w).1
  unfolding process_retry_tasks
  retry_at_least_once conf faults w =
      let k =
        enqueue_all-Kept faults
          (get_by_create_date conf w.session.current.now w.session.current.retries).0
          (record w { session = Session.clear w.session }) refl in
      record {
        fresh = k.fresh;
        keeps = k.keeps;
        drops = k.drops;
        sends = k.sends;
        adds = k.adds;
        frame = k.frame;
      }
