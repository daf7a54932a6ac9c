-- ===== src/Data/Arriving.antt =====
-- A request that arrives keeps the bdev showing what a plain device shows.
use bdev_ubi.Prelude.{
  ℕ, ◌≡◌, ◌≢◌, refl, sym, subst, ◌⊎◌, inl, inr, true, false, ◌&&◌, not, ltb, ◌==◌, List, [], ◌∷◌,
  ◌++◌, All, if_cases, if_intro, arith,
}
use bdev_ubi.Bdev.{inflight, not_fetched, ubi_get_stripe_status, ubi_set_stripe_status}
use bdev_ubi.Bdev.Kept.{set-Kept}
use bdev_ubi.Channel.{BdevIo, State, emit, io_complete}
use bdev_ubi.Ownership.{Fits}
use bdev_ubi.Request.{
  stripe_of, end_block, wants_stripe, is_not_fetched, insert_io, enqueue_fetch, ubi_submit_request,
}
use bdev_ubi.Request.Admission.{submit-Kept}
use bdev_ubi.Request.Ownership.{submit-Moves}
use bdev_ubi.Bdev.SameLayout.{Kept-SameLayout}
use bdev_ubi.Data.{Carried, World, Outside, run}
use bdev_ubi.Data.Sim.{SplitIo, Sized}
use bdev_ubi.Data.Change.{change-Sim, shown-set, Sized-SameLayout, All-Split-SameLayout}
use bdev_ubi.Data.Good.{SimAt, Good}
use bdev_ubi.Data.Serving.{called}
use bdev_ubi.Data.Polling.{Good-InOrder, still_away}

All-append_one :
    {A : Type 0} (P : A → Type 0) (xs : List A) (y : A) → All P xs → P y → All P (xs ++ (y ∷ []))
All-append_one P [] y h p = (p, tt)
All-append_one P (x ∷ xs) y h p = (h.0, All-append_one P xs y h.1 p)

submit-io :
    (io : BdevIo) (s : State)
    → ((ubi_submit_request io s).ch.io ≡ s.ch.io)
      ⊎ ((ubi_submit_request io s).ch.io ≡ s.ch.io ++ (io ∷ []))
unfolding ubi_submit_request
submit-io io s = ground arith

pub Sized-Fits : (n blocklen : ℕ) (s : State) → Sized n blocklen s.bdev → Fits n s.bdev
Sized-Fits n blocklen s z = omega (arith, z.whole)

module _ {V : Type 0} (x : Outside V) (n : ℕ) (foreign : ℕ → Type 0) (carried : Carried)
    (w₀ : World V) where
  abbrev Same : State → Type 0
  Same = SimAt x n foreign carried w₀

  -- A stripe that nobody has asked for is asked for.
  enqueue-Sim :
      (stripe : ℕ) (s : State)
      → is_not_fetched (ubi_get_stripe_status s.bdev stripe) ≡ true
      → Same s
      → Same (enqueue_fetch stripe s)
  enqueue-Sim stripe s fresh sim =
      let other : inflight ≢ not_fetched = λ e. cc in
      change-Sim s.bdev (ubi_set_stripe_status s.bdev stripe inflight)
        (Kept-SameLayout (set-Kept s.bdev stripe inflight other)) x s.ch.stripe_fetches
        s.ch.stripe_fetches foreign (run x carried w₀ s.calls) (λ k h. (h, refl))
        (shown-set x (run x carried w₀ s.calls) s.bdev stripe inflight other refl
          (ground (arith, fresh)))
        sim

  submit-Sim :
      (io : BdevIo) (s : State) → Good x n foreign carried w₀ s → Same (ubi_submit_request io s)
  unfolding ubi_submit_request
  submit-Sim io s g =
      let stripe = stripe_of s.bdev io.offset_blocks in
      if_intro Same (wants_stripe s.bdev io) _ (insert_io io s)
        (if_intro Same (not (stripe == stripe_of s.bdev (end_block io)))
          (emit (io_complete io false) s) _
          (called x n foreign carried w₀ s (io_complete io false) tt
            (Good-InOrder x n foreign carried w₀ s g)).sim
          (if_cases Same
            (ltb io.offset_blocks s.bdev.image_block_count
              && is_not_fetched (ubi_get_stripe_status s.bdev stripe))
            (insert_io io (enqueue_fetch stripe s)) (insert_io io s)
            (λ e. enqueue-Sim stripe s (ground (arith, e)) g.sim) (λ _. g.sim)))
        g.sim

  pub submit-Good :
      (io : BdevIo) (s : State)
      → SplitIo s.bdev io
      → Good x n foreign carried w₀ s
      → Good x n foreign carried w₀ (ubi_submit_request io s)
  submit-Good io s split g =
      let t = ubi_submit_request io s in
      let kept = submit-Kept io s in
      let moves = submit-Moves n io s g.sized.small (Sized-Fits n x.blocklen s g.sized) in
      record {
        owned = (moves g.owned).0;
        sized = Sized-SameLayout s.bdev t.bdev (Kept-SameLayout kept) n x.blocklen g.sized;
        queue =
            All-Split-SameLayout s.bdev t.bdev (Kept-SameLayout kept) t.ch.io
              (elim (submit-io io s) [
                | inl e ↦ subst (All (SplitIo s.bdev)) (sym e) g.queue
                | inr e ↦
                    subst (All (SplitIo s.bdev)) (sym e)
                      (All-append_one (SplitIo s.bdev) s.ch.io io g.queue split)
              ]);
        away = λ i out. still_away x n foreign carried w₀ s t g moves i out;
        sim = submit-Sim io s g;
      }
