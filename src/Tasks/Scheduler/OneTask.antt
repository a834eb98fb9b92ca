-- ===== src/Tasks/Scheduler/OneTask.antt =====
-- What the enqueueing of one task may do to the tables and the queue, whatever fails.
use mathlib.Core.List.{Memᴰ}
use mathlib.Core.List.Memᴰ
use mathlib.Core.Path.{subst}
use mathlib.Core.Bool.{false≢true}
use barbican.Shared.{
  Bool-cases, Option-cases, ℕ, ◌≡◌, refl, ap, sym, ◌∙◌, inl, inr, Bool, true, false, not, ◌&&◌,
  some, List, [], ◌∷◌, ◌++◌, arith, ◌==◌, if◌then◌else◌,
}
use barbican.Session
use barbican.Session.{Session}
use barbican.Paging.{}
use barbican.Tasks.Orders.{OrderRetryTask, Db}
use barbican.Tasks.Server.{RpcCall, client_call}
use barbican.Tasks.Scheduler.Frame.{Frame, Frame-refl, Frame-delete_row}
use barbican.Tasks.Scheduler.{
  World, Fault, is_live, delete_row, give_up, delete_in, remove_and_commit, enqueue_task,
}

pub is_live-delete_row :
    (i j : ℕ) (ts : List OrderRetryTask)
    → is_live j (delete_row i ts) ≡ (if i == j then false else is_live j ts)
unfolding is_live delete_row
is_live-delete_row i j [] = ground arith
is_live-delete_row i j (t ∷ ts) = ground (arith, is_live-delete_row i j ts)

dropped_id : (i j : ℕ) (b : Bool) → b ≡ true → (if i == j then false else b) ≡ false → i ≡ j
dropped_id i j b h k = ground arith

still_dropped : (i j : ℕ) (b : Bool) → b ≡ false → (if i == j then false else b) ≡ false
still_dropped i j b h = ground arith

module _ {W : Type 0} where
  abbrev pub live : ℕ → World W → Bool
  live i w = is_live i w.session.committed.retries

  -- The call that the task asks for is on the queue.
  abbrev pub Sent : OrderRetryTask → World W → Type 0
  Sent t w = (c : RpcCall) × (client_call t.retry_task t.retry_kwargs ≡ some c) × Memᴰ c w.sent

  -- What one task may do: nothing leaves the queue, and a row that stops being live is the row of
  -- this task, whose call is on the queue.
  pub record Step (t : OrderRetryTask) (v w : World W) : Type 0 where
    pub fresh : w.session.current ≡ w.session.committed
    pub keeps : (c : RpcCall) → Memᴰ c v.sent → Memᴰ c w.sent
    pub drops : (i : ℕ) → live i v ≡ true → live i w ≡ false → (t.id ≡ i) × Sent t w
    pub adds : (i : ℕ) → live i v ≡ false → live i w ≡ false
    pub frame : Frame v.session.committed w.session.committed

  give_up-Step :
      (t : OrderRetryTask) (w : World W) (sent : List RpcCall)
      → ((c : RpcCall) → Memᴰ c w.sent → Memᴰ c sent)
      → Step t w (give_up (record w { sent = sent }))
  give_up-Step t w sent more = record {
    fresh = refl;
    keeps = more;
    drops = λ i a b. absurd (false≢true (sym b ∙ a));
    adds = λ i a. a;
    frame = Frame-refl w.session.committed;
  }

  -- The row is deleted, and the deletion committed, after the call was cast.
  removed : OrderRetryTask → RpcCall → World W → World W
  removed t c w = record w {
    session = Session.clear (Session.commit (delete_in t.id w.session));
    sent = w.sent ++ c ∷ [];
  }

  removed-live :
      (t : OrderRetryTask) (c : RpcCall) (w : World W) (i : ℕ)
      → w.session.current ≡ w.session.committed
      → live i (removed t c w) ≡ (if t.id == i then false else live i w)
  unfolding removed
  removed-live t c w i e =
      is_live-delete_row t.id i w.session.current.retries
      ∙ ap (λ (db : Db W). if t.id == i then false else is_live i db.retries) e

  removed-Step :
      (t : OrderRetryTask) (c : RpcCall) (w : World W)
      → w.session.current ≡ w.session.committed
      → client_call t.retry_task t.retry_kwargs ≡ some c
      → Step t w (removed t c w)
  removed-Step t c w e call = record {
    fresh = unfold removed in refl;
    keeps = λ d m. unfold removed in Memᴰ.append_left (c ∷ []) m;
    drops = λ i a b. (
      dropped_id t.id i (live i w) a (sym (removed-live t c w i e) ∙ b),
      (c, call, unfold removed in Memᴰ.append_right w.sent (Memᴰ.head refl)),
    );
    adds = λ i a. removed-live t c w i e ∙ still_dropped t.id i (live i w) a;
    frame =
        unfold removed in
        subst
          (λ (db : Db W).
            Frame db
              (record w.session.current { retries = delete_row t.id w.session.current.retries }))
          e (Frame-delete_row t.id w.session.current);
  }

  cast-Step :
      (fails : Bool) (t : OrderRetryTask) (c : RpcCall) (w : World W)
      → w.session.current ≡ w.session.committed
      → client_call t.retry_task t.retry_kwargs ≡ some c
      → Step t w (remove_and_commit fails t.id (record w { sent = w.sent ++ c ∷ [] }))
  unfolding remove_and_commit
  cast-Step fails t c w e call =
      elim (Bool-cases (is_live t.id w.session.current.retries && not fails)) [
        | inl done ↦ rw done (unfold removed in removed-Step t c w e call)
        | inr failed ↦
            rw failed (give_up-Step t w (w.sent ++ c ∷ []) (λ d m. Memᴰ.append_left (c ∷ []) m))
      ]

  pub enqueue-Step :
      (f : Fault) (t : OrderRetryTask) (w : World W)
      → w.session.current ≡ w.session.committed
      → Step t w (enqueue_task f t w)
  unfolding enqueue_task
  enqueue-Step f t w e = elim (Option-cases (client_call t.retry_task t.retry_kwargs)) [
    | inl bad ↦ rw (bad, enqueue_task) (give_up-Step t w w.sent (λ d m. m))
    | inr (c, call) ↦
        rw (call, enqueue_task)
          (elim (Bool-cases f.cast_fails) [
            | inl lost ↦ rw lost (give_up-Step t w w.sent (λ d m. m))
            | inr cast ↦ rw cast (cast-Step f.commit_fails t c w e call)
          ])
  ]
