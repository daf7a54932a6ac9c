-- ===== src/Data/Polling.antt =====
-- The poller keeps the bdev showing what a plain device shows.
use bdev_ubi.Prelude.{
  ℕ, ◌+◌, ◌<◌, ◌≡◌, refl, sym, subst, true, false, inl, inr, if_cases, List, [], ◌∷◌, ◌++◌, All, ℤ,
  pos, arith,
}
use bdev_ubi.FetchQueue.{stripe_queue_empty}
use bdev_ubi.Bdev.{inflight, ubi_get_stripe_status}
use bdev_ubi.Channel.{Env, State, max_active_stripe_fetches}
use bdev_ubi.Channel.Evolve.{Evolves}
use bdev_ubi.Ownership.{Moves, occurrences}
use bdev_ubi.Ownership.Passing.{Quiet-Moves}
use bdev_ubi.Poll.{
  IoOp, Cqe, Batch, entries, peek_error, stripe_fetch_op, bdev_io_op, complete_cqe, complete_cqes,
  ubi_complete_image_io, free_slots, start_one, start_fetches, io_loop, submit_reads, poll_queues,
  ubi_io_poll,
}
use bdev_ubi.Poll.Evolve.{
  start_one-Evolves, complete_cqe-Evolves, io_loop-Evolves, submit_reads-Evolves,
}
use bdev_ubi.Poll.Loop.{ubi_io_poll-cases}
use bdev_ubi.Poll.Ownership.{
  Ready, free_slots-Ready, start_one-Moves, start_one-Ready, io_loop-Quiet, submit_reads-Quiet,
  OpDue, CqesDue, BatchDue, complete_cqe-Moves,
}
use bdev_ubi.Bdev.SameLayout.{Kept-SameLayout}
use bdev_ubi.Data.{Carried, World, Outside}
use bdev_ubi.Data.Sim.{SplitIo}
use bdev_ubi.Data.Change.{Sized-SameLayout, All-Split-SameLayout}
use bdev_ubi.Data.Good.{Owned-Busy, SimAt, Good, Good-Away}
use bdev_ubi.Data.Fetching.{start_one-Sim, complete_fetch-Sim}
use bdev_ubi.Data.Serving.{InOrder, io_loop-InOrder, submit_reads-InOrder, complete_read-InOrder}

All-suffix : {A : Type 0} (P : A → Type 0) (xs ys : List A) → All P (xs ++ ys) → All P ys
All-suffix P [] ys h = h
All-suffix P (x ∷ xs) ys h = All-suffix P xs ys h.1

module _ {V : Type 0} (x : Outside V) (n : ℕ) (foreign : ℕ → Type 0) (carried : Carried)
    (w₀ : World V) where
  abbrev Fine : State → Type 0
  Fine = Good x n foreign carried w₀

  pub Good-InOrder : (s : State) → Fine s → InOrder x n foreign carried w₀ s
  Good-InOrder s g = record {
    sized = g.sized;
    busy = Owned-Busy n s g.owned;
    away = Good-Away g;
    sim = g.sim;
  }

  -- A stripe that another channel fetches is left to it.
  pub still_away :
      (s t : State)
      → Fine s
      → Moves n s t
      → (i : ℕ) → foreign i
      → (ubi_get_stripe_status t.bdev i ≡ inflight) × (i < n) × (occurrences t.ch i ≡ 0)
  still_away s t g moves i out =
      let p = (moves g.owned).1 i in
      let before = g.away i out in
      (
        ground (arith, p.others, before.0, before.2),
        before.1,
        ground (arith, p.taken, before.0, before.2),
      )

  -- A step that takes requests from the head of the queue only.
  pub advance :
      (s t : State) → Fine s → Moves n s t → Evolves s t → SimAt x n foreign carried w₀ t → Fine t
  advance s t g moves evolves sim = record {
    owned = (moves g.owned).0;
    sized = Sized-SameLayout s.bdev t.bdev (Kept-SameLayout evolves.kept) n x.blocklen g.sized;
    queue = All-Split-SameLayout s.bdev t.bdev (Kept-SameLayout evolves.kept) t.ch.io (
        All-suffix (SplitIo s.bdev) evolves.taken t.ch.io
          (subst (All (SplitIo s.bdev)) evolves.queue g.queue));
    away = λ i out. still_away s t g moves i out;
    sim = sim;
  }

  start_fetches-Good :
      (env : Env) (lo : ℕ) (free : List ℕ) (s : State)
      → Ready s lo free
      → Fine s
      → Fine (start_fetches env free s)
  unfolding start_fetches
  start_fetches-Good env lo [] s r g = g
  start_fetches-Good env lo (slot ∷ free) s r g =
      if_cases Fine (stripe_queue_empty s.ch.stripe_fetch_queue) _ _ (λ _. g)
        (λ waiting.
          let t = start_one env slot s in
          let sim = start_one-Sim x n foreign carried w₀ env slot s r.1 r.2 waiting g in
          let begun =
            advance s t g (start_one-Moves n s slot env r.1 r.2 waiting)
              (start_one-Evolves env slot s) sim in
          start_fetches-Good env (slot + 1) free t
            (start_one-Ready env slot (slot + 1) s free (omega arith) r.3) begun)

  complete_cqe-Good :
      (env : Env) (c : Cqe) (s : State) → OpDue c.op s → Fine s → Fine (complete_cqe env c s).1
  unfolding complete_cqe
  complete_cqe-Good env c s due g =
      advance s (complete_cqe env c s).1 g (complete_cqe-Moves n env c s due)
        (complete_cqe-Evolves env c s) (by_op c.op due)
    where
      by_op :
          (op : IoOp)
          → OpDue op s
          → SimAt x n foreign carried w₀ (complete_cqe env (record { op = op; res = c.res }) s).1
      by_op (stripe_fetch_op slot) d =
          complete_fetch-Sim x n foreign carried w₀ env slot c.res s d.0 d.1 g
      by_op (bdev_io_op u) d =
          (complete_read-InOrder x n foreign carried w₀ u c.res s (Good-InOrder s g)).sim

  complete_cqes-Good :
      (env : Env) (cs : List Cqe) (ret : ℤ) (s : State)
      → CqesDue env cs s
      → Fine s
      → Fine (complete_cqes env cs ret s).1
  unfolding complete_cqes
  complete_cqes-Good env [] ret s due g = g
  complete_cqes-Good env (c ∷ cs) ret s due g =
      let (ret', s') = complete_cqe env c s in
      complete_cqes-Good env cs ret' s' due.1 (complete_cqe-Good env c s due.0 g)

  complete_image_io-Good :
      (env : Env) (batch : Batch) (s : State)
      → BatchDue env batch s
      → Fine s
      → Fine (ubi_complete_image_io env batch s).1
  unfolding ubi_complete_image_io
  complete_image_io-Good env (entries cs) s due g = complete_cqes-Good env cs (pos 0) s due g
  complete_image_io-Good env (peek_error true) s due g = g
  complete_image_io-Good env (peek_error false) s due g = g

  poll_queues-Good : (env : Env) (s : State) → Fine s → Fine (poll_queues env s)
  unfolding poll_queues
  poll_queues-Good env s g =
      let free = free_slots s.ch.stripe_fetches 0 max_active_stripe_fetches in
      let s1 = start_fetches env free s in
      let s2 = io_loop env s1.ch.io s1 in
      let g1 : Fine s1 =
        start_fetches-Good env 0 free s (free_slots-Ready s max_active_stripe_fetches 0 refl) g in
      let r2 =
        io_loop-InOrder x n foreign carried w₀ env s1.ch.io s1 g1.queue (Good-InOrder s1 g1) in
      let g2 : Fine s2 =
        advance s1 s2 g1 (Quiet-Moves n s1 s2 (io_loop-Quiet env s1.ch.io s1))
          (io_loop-Evolves env s1) r2.sim in
      advance s2 (submit_reads env s2) g2
        (Quiet-Moves n s2 (submit_reads env s2) (submit_reads-Quiet env s2))
        (submit_reads-Evolves env s2) (submit_reads-InOrder x n foreign carried w₀ env s2 r2).sim

  pub ubi_io_poll-Good :
      (env : Env) (batch : Batch) (s : State)
      → BatchDue env batch s
      → Fine s
      → Fine (ubi_io_poll env batch s).1
  ubi_io_poll-Good env batch s due g =
      let done = complete_image_io-Good env batch s due g in
      elim (ubi_io_poll-cases env batch s) [
        | inl e ↦ subst Fine (sym e) done
        | inr e ↦ subst Fine (sym e) (poll_queues-Good env _ done)
      ]
