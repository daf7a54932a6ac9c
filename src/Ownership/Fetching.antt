-- ===== src/Ownership/Fetching.antt =====
-- The steps of a fetch keep a channel's ring and slots in order.
use bdev_ubi.Prelude.{
  ℕ, ◌+◌, ◌%◌, ◌^◌, ◌<◌, ◌≤◌, ◌≡◌, ◌≢◌, ◌⊎◌, refl, sym, ap, inl, subst, [], ◌∷◌, count,
  count-append, length, length-le-bound, ℤ, pos, negsuc, is_nonzero, is_neg, if_cases, true, false,
  Bool, arith, if◌then◌else◌, ◌==◌,
}
use bdev_ubi.FetchQueue.{update, fetch_queue_size, dequeue_stripe, stripe_queue_empty}
use bdev_ubi.FetchQueue.Contents.{contents, IsValid}
use bdev_ubi.FetchQueue.Refine.{
  contents-enqueue_stripe, enqueue_stripe-IsValid, dequeue_stripe-IsValid,
}
use bdev_ubi.Layout.{metadata_size}
use bdev_ubi.Bdev.{
  StripeStatus, not_fetched, inflight, failed, fetched, ubi_get_stripe_status,
  ubi_set_stripe_status,
}
use bdev_ubi.Bdev.Stripe.{get-set_status}
use bdev_ubi.Channel.{
  emit, write_stripe, prep_read, uring_submit, State, max_active_stripe_fetches, Env,
}
use bdev_ubi.Fetch.{
  align_buf, stripe_offset, stripe_nbytes, ubi_start_fetch_stripe, ubi_fail_stripe_fetch,
  ubi_complete_fetch_stripe, write_stripe_io_completion, set_slot,
}
use bdev_ubi.Ownership.Passing.{Moves-trans, Quiet-Moves, same-Moves, gain-Moves, lose-Moves}
use bdev_ubi.Request.{enqueue_fetch}
use bdev_ubi.Ownership.{header, occurrences, slot_count, fetches, Owned, Moves}
use bdev_ubi.Ownership.Counts.{slot_count-update, count-dequeue_stripe}

-- The ring has room for a stripe that nobody has asked for.
pub room :
    (n : ℕ) (s : State) (stripe : ℕ)
    → n < fetch_queue_size
    → Owned n s
    → stripe < n
    → ubi_get_stripe_status s.bdev stripe ≡ not_fetched
    → length (contents s.ch.stripe_fetch_queue) + 1 < fetch_queue_size
room n s stripe small o inside fresh =
    let waiting = contents s.ch.stripe_fetch_queue in
    let few : length (stripe ∷ waiting) ≤ n =
      length-le-bound n (stripe ∷ waiting) (λ i h. ground (arith, o.below i h))
        (λ i. ground (arith, o.once i, fresh)) in
    omega arith

module _ (n : ℕ) (s : State) (stripe : ℕ) (small : n < fetch_queue_size) (inside : stripe < n) where
  enqueue-occurrences :
      Owned n s
      → ubi_get_stripe_status s.bdev stripe ≡ not_fetched
      → (i : ℕ)
      → occurrences (enqueue_fetch stripe s).ch i
        ≡ occurrences s.ch i + (if i == stripe then 1 else 0)
  enqueue-occurrences o fresh i =
      let q = s.ch.stripe_fetch_queue in
      let grown = contents-enqueue_stripe q stripe o.ring (room n s stripe small o inside fresh) in
      let one : stripe % 2 ^ 32 ≡ stripe = omega arith in
      ground (arith, ap (count i) grown, count-append i (contents q) (stripe % 2 ^ 32 ∷ []), one)

  pub enqueue-Moves :
      ubi_get_stripe_status s.bdev stripe ≡ not_fetched → Moves n s (enqueue_fetch stripe s)
  unfolding ubi_set_stripe_status
  enqueue-Moves fresh =
      gain-Moves n s (enqueue_fetch stripe s) (enqueue_stripe-IsValid stripe) stripe inside fresh
        (λ o i. enqueue-occurrences o fresh i) (λ i. get-set_status s.bdev stripe i inflight)
        (λ i. refl)

-- A slot that is in use gives its stripe up.
module _ (n : ℕ) (s : State) (slot : ℕ) (in_slots : slot < max_active_stripe_fetches)
    (in_use : (s.ch.stripe_fetches slot).active ≡ true) where
  release-Moves :
      (status : StripeStatus) (t : State)
      → status ≢ inflight
      → t.ch.stripe_fetch_queue ≡ s.ch.stripe_fetch_queue
      → t.ch.stripe_fetches
        ≡ update s.ch.stripe_fetches slot (record (s.ch.stripe_fetches slot) { active = false })
      → t.bdev.stripe_status
        ≡ update s.bdev.stripe_status (s.ch.stripe_fetches slot).stripe_idx status
      → ((i : ℕ)
          → (header t i ≡ header s i)
            ⊎ ((status ≡ fetched) × (i ≡ (s.ch.stripe_fetches slot).stripe_idx)))
      → Moves n s t
  unfolding ubi_get_stripe_status
  release-Moves status t over ring slots statuses headers =
      lose-Moves n s t (subst IsValid (sym ring)) (s.ch.stripe_fetches slot).stripe_idx status over
        (λ i. omega (
          arith,
          ap (λ r. count i (contents r)) ring,
          ap (λ f. slot_count f i max_active_stripe_fetches) slots,
          slot_count-update s.ch.stripe_fetches slot
              (record (s.ch.stripe_fetches slot) { active = false }) i max_active_stripe_fetches
              in_slots,
          freed i,
        ))
        (λ i. ap (λ f. f i) statuses) headers
    where
      freed :
          (i : ℕ)
          → fetches (s.ch.stripe_fetches slot) i
            ≡ (if i == (s.ch.stripe_fetches slot).stripe_idx then 1 else 0)
      freed i = ground (arith, in_use)

  pub fail_fetch-Moves : Moves n s (ubi_fail_stripe_fetch slot s)
  unfolding ubi_fail_stripe_fetch ubi_set_stripe_status
  fail_fetch-Moves =
      release-Moves failed (ubi_fail_stripe_fetch slot s) (λ e. cc) refl refl refl (λ i. inl refl)

  pub stripe_written-Moves :
      (success : Bool) → Moves n s (write_stripe_io_completion slot success s)
  unfolding write_stripe_io_completion ubi_set_stripe_status
  stripe_written-Moves success =
      release-Moves fetched (write_stripe_io_completion slot success s) (λ e. cc) refl refl refl
        (λ i. ground arith)

  pub complete_fetch-Moves :
      (env : Env) (res : ℤ) → Moves n s (ubi_complete_fetch_stripe env slot res s).1
  unfolding ubi_complete_fetch_stripe ubi_fail_stripe_fetch ubi_set_stripe_status
  complete_fetch-Moves env res =
      let c =
        write_stripe slot (s.ch.stripe_fetches slot).buf_aligned
          ((stripe_offset s.bdev (s.ch.stripe_fetches slot).stripe_idx + metadata_size) % 2 ^ 64)
          (stripe_nbytes s.bdev) in
      let refused : ℤ × State = (negsuc 0, ubi_fail_stripe_fetch slot (emit c s)) in
      let moves = λ (p : ℤ × State). Moves n s p.1 in
      if_cases moves (is_neg res) (negsuc 0, ubi_fail_stripe_fetch slot s)
        (if is_nonzero (env.ret s.calls c) then refused else (pos 1, emit c s))
        (λ _. fail_fetch-Moves)
        (λ _.
          if_cases moves (is_nonzero (env.ret s.calls c)) refused (pos 1, emit c s)
            (λ _.
              release-Moves failed (ubi_fail_stripe_fetch slot (emit c s)) (λ e. cc) refl refl refl
                (λ i. inl refl))
            (λ _.
              Quiet-Moves n s (emit c s)
                (record { ring = refl; slots = refl; statuses = refl; headers = refl })))

-- The first stripe of the ring in a slot.
abbrev pub dequeued : State → ℕ → State
dequeued s slot =
    let (stripe_idx, queue) = dequeue_stripe s.ch.stripe_fetch_queue in
    set_slot slot (record (s.ch.stripe_fetches slot) { stripe_idx = stripe_idx; active = true })
      (record s { ch = record (s.ch) { stripe_fetch_queue = queue } })

-- A stripe goes from the ring into a free slot, and its read is started.
module _ (n : ℕ) (s : State) (slot : ℕ) (in_slots : slot < max_active_stripe_fetches)
    (free : (s.ch.stripe_fetches slot).active ≡ false)
    (waiting : stripe_queue_empty s.ch.stripe_fetch_queue ≡ false) where
  pub dequeued-Moves : Moves n s (dequeued s slot)
  dequeued-Moves o =
      same-Moves n s (dequeued s slot) dequeue_stripe-IsValid
        (λ i. ground (
          arith,
          count-dequeue_stripe s.ch.stripe_fetch_queue i o.ring waiting,
          slot_count-update s.ch.stripe_fetches slot
              (record (s.ch.stripe_fetches slot) {
                stripe_idx = (dequeue_stripe s.ch.stripe_fetch_queue).0;
                active = true;
              })
              i max_active_stripe_fetches in_slots,
          free,
        ))
        (λ i. refl) (λ i. refl) o

-- The read of a slot in use, whether it can be submitted or not.
module _ (n : ℕ) (s : State) (slot : ℕ) (in_slots : slot < max_active_stripe_fetches)
    (in_use : (s.ch.stripe_fetches slot).active ≡ true) where
  aligned : ℕ → State
  aligned buf = set_slot slot (record (s.ch.stripe_fetches slot) { buf_aligned = buf }) s

  aligned-Moves : (buf : ℕ) → Moves n s (aligned buf)
  unfolding aligned
  aligned-Moves buf =
      same-Moves n s (aligned buf) (λ v. v)
        (λ i. omega (
          arith,
          slot_count-update s.ch.stripe_fetches slot
              (record (s.ch.stripe_fetches slot) { buf_aligned = buf }) i max_active_stripe_fetches
              in_slots,
        ))
        (λ i. refl) (λ i. refl)

  still_in_use : (buf : ℕ) → ((aligned buf).ch.stripe_fetches slot).active ≡ true
  unfolding aligned
  still_in_use buf = ground (arith, in_use)

  -- What io_uring_submit returns.
  abbrev start_ret : Env → ℤ
  start_ret env =
      let buf = align_buf s.bdev.alignment_bytes (env.buf slot) in
      env.ret
        (prep_read (env.get_sqe s.calls) slot buf (stripe_nbytes s.bdev)
            (stripe_offset s.bdev (s.ch.stripe_fetches slot).stripe_idx)
          ∷ s.calls)
        uring_submit

  pub start_fetch-Moves : (env : Env) → Moves n s (ubi_start_fetch_stripe env slot s)
  unfolding ubi_start_fetch_stripe aligned
  start_fetch-Moves env =
      let buf = align_buf s.bdev.alignment_bytes (env.buf slot) in
      let t = emit uring_submit (
        emit
          (prep_read (env.get_sqe s.calls) slot buf (stripe_nbytes s.bdev)
            (stripe_offset s.bdev (s.ch.stripe_fetches slot).stripe_idx))
          (aligned buf)) in
      let moved = Moves-trans n s (aligned buf) t (aligned-Moves buf) (
        Quiet-Moves n (aligned buf) t
          (record { ring = refl; slots = refl; statuses = refl; headers = refl })) in
      if_cases (Moves n s) (is_neg (start_ret env)) (ubi_fail_stripe_fetch slot t) t
        (λ _. Moves-trans n s t _ moved (fail_fetch-Moves n t slot in_slots (still_in_use buf)))
        (λ _. moved)
