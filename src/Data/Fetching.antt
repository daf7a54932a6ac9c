-- ===== src/Data/Fetching.antt =====
-- The fetch of a stripe keeps the bdev showing what a plain device shows.
use bdev_ubi.Prelude.{
  ℕ, ◌+◌, ◌%◌, ◌^◌, ◌<◌, ◌≡◌, ◌≢◌, refl, sym, ap, ◌∙◌, Bool, true, false, if_intro, if_cases, List,
  ◌∷◌, ℤ, is_neg, is_nonzero, arith,
}
use bdev_ubi.FetchQueue.{stripe_queue_empty}
use bdev_ubi.Layout.{metadata_size}
use bdev_ubi.Bdev.{
  UbiBdev, StripeStatus, not_fetched, inflight, failed, ubi_get_stripe_status,
  ubi_set_stripe_status,
}
use bdev_ubi.Bdev.Kept.{set-Kept}
use bdev_ubi.Channel.{
  StripeFetch, Call, prep_read, uring_submit, write_stripe, Env, State, emit,
  max_active_stripe_fetches,
}
use bdev_ubi.Fetch.{
  align_buf, stripe_offset, stripe_nbytes, set_slot, ubi_fail_stripe_fetch, ubi_start_fetch_stripe,
  ubi_complete_fetch_stripe, write_stripe_io_completion,
}
use bdev_ubi.Fetch.Outcome.{stripe_written-Evolves}
use bdev_ubi.Ownership.Fetching.{dequeued, dequeued-Moves}
use bdev_ubi.Poll.{start_one}
use bdev_ubi.ReadWrite.{is_fetched}
use bdev_ubi.Request.{stripe_of}
use bdev_ubi.Bdev.SameLayout.{Kept-SameLayout}
use bdev_ubi.Data.{Carried, World, Outside, run, shown}
use bdev_ubi.Data.Sim.{Sized, Busy, Away, Proper, Sim}
use bdev_ubi.Data.Change.{change-Sim, shown-set, released-fewer}
use bdev_ubi.Data.Perform.{perform-Sim}
use bdev_ubi.Data.Good.{Owned-Busy, Good-Away, SimAt, Good, prep_read-Sim}

module _ {V : Type 0} (x : Outside V) (n : ℕ) (foreign : ℕ → Type 0) (carried : Carried)
    (w₀ : World V) where
  -- A call is added that is right.
  pub grow :
      (b : UbiBdev) (slots : ℕ → StripeFetch) (calls : List Call) (c : Call)
      → Sized n x.blocklen b
      → Busy n b slots
      → Away n b foreign
      → Proper n b slots c
      → Sim x b slots foreign (run x carried w₀ calls)
      → Sim x b slots foreign (run x carried w₀ (c ∷ calls))
  grow b slots calls c z busy away proper sim =
      perform-Sim x n b slots z busy foreign away (run x carried w₀ calls) sim carried calls c
        proper

  -- A slot gives up a stripe that has not been fetched.
  fail_fetch-Sim :
      (s : State) (slot : ℕ)
      → ubi_get_stripe_status s.bdev (s.ch.stripe_fetches slot).stripe_idx ≡ inflight
      → SimAt x n foreign carried w₀ s
      → SimAt x n foreign carried w₀ (ubi_fail_stripe_fetch slot s)
  unfolding ubi_fail_stripe_fetch
  fail_fetch-Sim s slot busy sim =
      let idx = (s.ch.stripe_fetches slot).stripe_idx in
      let w = run x carried w₀ s.calls in
      let other : StripeStatus.failed ≢ not_fetched = λ e. cc in
      change-Sim s.bdev (ubi_set_stripe_status s.bdev idx failed)
        (Kept-SameLayout (set-Kept s.bdev idx failed other)) x s.ch.stripe_fetches
        ((ubi_fail_stripe_fetch slot s).ch.stripe_fetches) foreign w
        (released-fewer s.ch.stripe_fetches slot)
        (shown-set x w s.bdev idx failed other refl (ap is_fetched busy)) sim

  -- The read of the first stripe of the ring is started in a free slot.
  pub start_one-Sim :
      (env : Env) (slot : ℕ) (s : State)
      → slot < max_active_stripe_fetches
      → (s.ch.stripe_fetches slot).active ≡ false
      → stripe_queue_empty s.ch.stripe_fetch_queue ≡ false
      → Good x n foreign carried w₀ s
      → SimAt x n foreign carried w₀ (start_one env slot s)
  unfolding start_one ubi_start_fetch_stripe
  start_one-Sim env slot s in_slots free waiting g =
      let d = dequeued s slot in
      let owned = (dequeued-Moves n s slot in_slots free waiting g.owned).0 in
      let f = d.ch.stripe_fetches slot in
      let buf = align_buf s.bdev.alignment_bytes (env.buf slot) in
      let aligned = set_slot slot (record f { buf_aligned = buf }) d in
      let read =
        prep_read (env.get_sqe s.calls) slot buf (stripe_nbytes s.bdev)
          (stripe_offset s.bdev f.stripe_idx) in
      let t = emit uring_submit (emit read aligned) in
      let kept_idx : (t.ch.stripe_fetches slot).stripe_idx ≡ f.stripe_idx = ground arith in
      let read_done =
        prep_read-Sim x s.bdev s.ch.stripe_fetches t.ch.stripe_fetches foreign slot
          (λ k other. (ground (arith, other), ground (arith, other))) carried w₀ s.calls
          (env.get_sqe s.calls) buf (stripe_nbytes s.bdev) (stripe_offset s.bdev f.stripe_idx)
          (ap (stripe_offset s.bdev) (sym kept_idx)) g.sim in
      let asked : SimAt x n foreign carried w₀ t =
        if_intro (Sim x s.bdev t.ch.stripe_fetches foreign) (carried (read ∷ s.calls) uring_submit)
          _ _ read_done read_done in
      let mine = (Owned-Busy n d owned slot in_slots (ground arith)).0 in
      if_cases (SimAt x n foreign carried w₀) (is_neg (env.ret (read ∷ s.calls) uring_submit))
        (ubi_fail_stripe_fetch slot t) t
        (λ _. fail_fetch-Sim t slot (ap (ubi_get_stripe_status s.bdev) kept_idx ∙ mine) asked)
        (λ _. asked)

  -- A stripe has been read, or not: it is written, or given up.
  pub complete_fetch-Sim :
      (env : Env) (slot : ℕ) (res : ℤ) (s : State)
      → slot < max_active_stripe_fetches
      → (s.ch.stripe_fetches slot).active ≡ true
      → Good x n foreign carried w₀ s
      → SimAt x n foreign carried w₀ (ubi_complete_fetch_stripe env slot res s).1
  unfolding ubi_complete_fetch_stripe
  complete_fetch-Sim env slot res s in_slots active g =
      let f = s.ch.stripe_fetches slot in
      let busy = Owned-Busy n s g.owned in
      let c =
        write_stripe slot f.buf_aligned
          ((stripe_offset s.bdev f.stripe_idx + metadata_size) % 2 ^ 64) (stripe_nbytes s.bdev) in
      let written : SimAt x n foreign carried w₀ (emit c s) =
        grow s.bdev s.ch.stripe_fetches s.calls c g.sized busy (Good-Away g)
          (in_slots, active, refl, refl) g.sim in
      let mine = (busy slot in_slots active).0 in
      let P = λ (r : ℤ × State). SimAt x n foreign carried w₀ r.1 in
      if_intro P (is_neg res) _ _ (fail_fetch-Sim s slot mine g.sim) (
        if_intro P (is_nonzero (env.ret s.calls c)) _ _
          (fail_fetch-Sim (emit c s) slot mine written) written)

  written_shown :
      (slot : ℕ) (success : Bool) (s : State)
      → slot < max_active_stripe_fetches
      → (s.ch.stripe_fetches slot).active ≡ true
      → (run x carried w₀ s.calls).written slot ≡ true
      → Good x n foreign carried w₀ s
      → (j : ℕ)
      → shown x (write_stripe_io_completion slot success s).bdev (run x carried w₀ s.calls).base j
        ≡ shown x s.bdev (run x carried w₀ s.calls).base j
  unfolding write_stripe_io_completion ubi_set_stripe_status ubi_get_stripe_status stripe_of
  written_shown slot success s in_slots active done g j = ground (
    arith,
    g.sim.copied slot in_slots active done j,
    (Owned-Busy n s g.owned slot in_slots active).0,
  )

  -- A stripe has been written.
  pub stripe_written-Sim :
      (slot : ℕ) (success : Bool) (s : State)
      → slot < max_active_stripe_fetches
      → (s.ch.stripe_fetches slot).active ≡ true
      → (run x carried w₀ s.calls).written slot ≡ true
      → Good x n foreign carried w₀ s
      → SimAt x n foreign carried w₀ (write_stripe_io_completion slot success s)
  unfolding write_stripe_io_completion
  stripe_written-Sim slot success s in_slots active done g =
      let idx = (s.ch.stripe_fetches slot).stripe_idx in
      let w = run x carried w₀ s.calls in
      change-Sim s.bdev (write_stripe_io_completion slot success s).bdev
        (Kept-SameLayout (stripe_written-Evolves slot success s).kept) x s.ch.stripe_fetches
        ((write_stripe_io_completion slot success s).ch.stripe_fetches) foreign w
        (released-fewer s.ch.stripe_fetches slot)
        (λ j. written_shown slot success s in_slots active done g j) g.sim
