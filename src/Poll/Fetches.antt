-- ===== src/Poll/Fetches.antt =====
-- The poller starts the fetches that wait, first come first served.
use bdev_ubi.Prelude.{ℕ, ◌≡◌, refl, sym, ap, ◌∙◌, subst, if_cases, if_intro, List, [], ◌∷◌, arith}
use bdev_ubi.FetchQueue.{stripe_queue_empty}
use bdev_ubi.FetchQueue.Contents.{contents, IsValid}
use bdev_ubi.FetchQueue.Refine.{
  contents-dequeue_stripe, dequeue_stripe-IsValid, stripe_queue_empty_iff,
}
use bdev_ubi.Bdev.{UbiBdev, ubi_set_stripe_status}
use bdev_ubi.Channel.{Call, prep_read, uring_submit, Env, State}
use bdev_ubi.Ownership.Fetching.{dequeued}
use bdev_ubi.Fetch.{
  ubi_fail_stripe_fetch, align_buf, stripe_offset, stripe_nbytes, ubi_start_fetch_stripe,
}
use bdev_ubi.Poll.{start_one, start_fetches}

-- The two calls that start the fetch of a stripe in a slot.
abbrev pub started : Env → UbiBdev → ℕ → ℕ → List Call → List Call
started env b slot stripe calls =
    uring_submit
    ∷ prep_read (env.get_sqe calls) slot (align_buf b.alignment_bytes (env.buf slot))
        (stripe_nbytes b) (stripe_offset b stripe)
    ∷ calls

-- The calls that start the fetches of some stripes, the first in the first of the slots, and so on, for
-- as long as there are both.
abbrev pub starts : Env → UbiBdev → List ℕ → List ℕ → List Call → List Call
starts env b [] stripes calls = calls
starts env b (slot ∷ free) [] calls = calls
starts env b (slot ∷ free) (stripe ∷ stripes) calls =
    starts env b free stripes (started env b slot stripe calls)

-- The stripes for which there is no slot.
abbrev pub left_over : List ℕ → List ℕ → List ℕ
left_over [] stripes = stripes
left_over (slot ∷ free) [] = []
left_over (slot ∷ free) (stripe ∷ stripes) = left_over free stripes

-- What a fetch reads of the bdev.
abbrev SameShape : UbiBdev → UbiBdev → Type 0
SameShape b c = (b.alignment_bytes ≡ c.alignment_bytes) × (b.stripe_size_kb ≡ c.stripe_size_kb)

-- One fetch is started.
record Taken (env : Env) (b : UbiBdev) (slot stripe : ℕ) (rest : List ℕ) (s t : State)
    : Type 0 where
  ring : contents t.ch.stripe_fetch_queue ≡ rest
  valid : IsValid t.ch.stripe_fetch_queue
  shape : SameShape t.bdev b
  calls : t.calls ≡ started env b slot stripe s.calls

module _ (env : Env) (slot : ℕ) (s : State) where
  start_fetch-ring :
      (ubi_start_fetch_stripe env slot s).ch.stripe_fetch_queue ≡ s.ch.stripe_fetch_queue
  unfolding ubi_start_fetch_stripe
  start_fetch-ring = ground arith

  start_fetch-shape : SameShape (ubi_start_fetch_stripe env slot s).bdev s.bdev
  unfolding ubi_start_fetch_stripe ubi_fail_stripe_fetch ubi_set_stripe_status
  start_fetch-shape =
      if_intro (λ (t : State). SameShape t.bdev s.bdev) _ _ _ (refl, refl) (refl, refl)

  start_fetch-started :
      (ubi_start_fetch_stripe env slot s).calls
      ≡ started env s.bdev slot (s.ch.stripe_fetches slot).stripe_idx s.calls
  unfolding ubi_start_fetch_stripe ubi_fail_stripe_fetch
  start_fetch-started =
      if_intro
        (λ (t : State).
          t.calls ≡ started env s.bdev slot (s.ch.stripe_fetches slot).stripe_idx s.calls)
        _ _ _ refl refl

started-SameShape :
    (env : Env) (b c : UbiBdev) (slot stripe : ℕ) (calls : List Call)
    → SameShape b c
    → started env b slot stripe calls ≡ started env c slot stripe calls
unfolding stripe_nbytes stripe_offset
started-SameShape env b c slot stripe calls (a, k) = rw (a, k) refl

start_one-Taken :
    (env : Env) (b : UbiBdev) (slot stripe : ℕ) (rest : List ℕ) (s : State)
    → SameShape s.bdev b
    → IsValid s.ch.stripe_fetch_queue
    → contents s.ch.stripe_fetch_queue ≡ stripe ∷ rest
    → Taken env b slot stripe rest s (start_one env slot s)
unfolding start_one
start_one-Taken env b slot stripe rest s shape v e =
    let (front, others) = contents-dequeue_stripe s.ch.stripe_fetch_queue stripe rest v e in
    let d = dequeued s slot in
    let in_slot : (d.ch.stripe_fetches slot).stripe_idx ≡ stripe = ground (arith, front) in
    let kept = start_fetch-shape env slot d in
    record {
      ring = ap contents (start_fetch-ring env slot d) ∙ others;
      valid = subst IsValid (sym (start_fetch-ring env slot d)) (dequeue_stripe-IsValid v);
      shape = (kept.0 ∙ shape.0, kept.1 ∙ shape.1);
      calls =
          start_fetch-started env slot d
          ∙ ap (λ i. started env s.bdev slot i s.calls) in_slot
          ∙ started-SameShape env s.bdev b slot stripe s.calls shape;
    }

-- What the loop that starts fetches has done.
pub record Served (env : Env) (b : UbiBdev) (free stripes : List ℕ) (s t : State) : Type 0 where
  pub ring : contents t.ch.stripe_fetch_queue ≡ left_over free stripes
  pub calls : t.calls ≡ starts env b free stripes s.calls

pub start_fetches-Served :
    (env : Env) (b : UbiBdev) (free stripes : List ℕ) (s : State)
    → SameShape s.bdev b
    → IsValid s.ch.stripe_fetch_queue
    → contents s.ch.stripe_fetch_queue ≡ stripes
    → Served env b free stripes s (start_fetches env free s)
unfolding start_fetches
start_fetches-Served env b [] stripes s shape v e = record { ring = e; calls = refl }
start_fetches-Served env b (slot ∷ free) [] s shape v e =
    rw ((stripe_queue_empty_iff s.ch.stripe_fetch_queue v).1 e) (record { ring = e; calls = refl })
start_fetches-Served env b (slot ∷ free) (stripe ∷ stripes) s shape v e =
    let one = start_one-Taken env b slot stripe stripes s shape v e in
    let rest =
      start_fetches-Served env b free stripes (start_one env slot s) one.shape one.valid one.ring in
    if_cases (Served env b (slot ∷ free) (stripe ∷ stripes) s)
      (stripe_queue_empty s.ch.stripe_fetch_queue) _ _
      (λ none_left.
        let drained = (stripe_queue_empty_iff s.ch.stripe_fetch_queue v).0 none_left in absurd cc)
      (λ _. record {
        ring = rest.ring;
        calls = rest.calls ∙ ap (starts env b free stripes) one.calls;
      })
