-- ===== src/FetchQueue/Refine.antt =====
-- The ring behaves as a first-in first-out queue of at most 32767 stripes.
use bdev_ubi.Prelude.{
  ℕ, zero, suc, ◌+◌, ◌-◌, ◌%◌, ◌^◌, ◌<◌, ◌≤◌, ◌≡◌, false, ◌↔◌, ap, ap₂, ◌∙◌, List, [], ◌∷◌, ◌++◌,
  length, true, arith,
}
use bdev_ubi.FetchQueue.{
  fetch_queue_size, update, FetchQueue, next_index, enqueue_stripe, dequeue_stripe,
  stripe_queue_empty,
}
use bdev_ubi.FetchQueue.Contents.{
  window, length-window, window-snoc, window-update, count, contents, IsValid, next_index_lem,
}

pub length-contents : (q : FetchQueue) → length (contents q) ≡ count q
length-contents q = length-window q.entries q.head (count q)

pub enqueue_stripe-IsValid : {q : FetchQueue} (i : ℕ) → IsValid q → IsValid (enqueue_stripe q i)
unfolding enqueue_stripe
enqueue_stripe-IsValid {q} i v = omega (arith, next_index_lem q.tail v.tail_in)

pub dequeue_stripe-IsValid : {q : FetchQueue} → IsValid q → IsValid (dequeue_stripe q).1
unfolding dequeue_stripe
dequeue_stripe-IsValid {q} v = omega (arith, next_index_lem q.head v.head_in)

-- enqueue_stripe adds one stripe at most: on a full ring it leaves none.
pub count-enqueue_stripe :
    (q : FetchQueue) (i : ℕ) → IsValid q → count (enqueue_stripe q i) ≤ count q + 1
unfolding enqueue_stripe
count-enqueue_stripe q i v = omega (arith, next_index_lem q.tail v.tail_in, v)

pub count-dequeue_stripe :
    (q : FetchQueue)
    → IsValid q
    → stripe_queue_empty q ≡ false
    → count (dequeue_stripe q).1 + 1 ≡ count q
unfolding dequeue_stripe stripe_queue_empty
count-dequeue_stripe q v waiting = ground (arith, next_index_lem q.head v.head_in, v, waiting)

-- In a valid ring that holds fewer than 32767 stripes, enqueue_stripe puts the stripe, as a
-- 32-bit number, behind those that wait.
pub contents-enqueue_stripe :
    (q : FetchQueue) (i : ℕ)
    → IsValid q
    → length (contents q) + 1 < fetch_queue_size
    → contents (enqueue_stripe q i) ≡ contents q ++ (i % 2 ^ 32 ∷ [])
unfolding enqueue_stripe
contents-enqueue_stripe q i v room =
    let entries' = update q.entries q.tail (i % 2 ^ 32) in
    let n : count (enqueue_stripe q i) ≡ suc (count q) =
      omega (arith, next_index_lem q.tail v.tail_in, length-contents q) in
    let last : (q.head + count q) % fetch_queue_size ≡ q.tail =
      omega (arith, v.head_in, v.tail_in) in
    let written : entries' ((q.head + count q) % fetch_queue_size) ≡ i % 2 ^ 32 =
      rw last (ground arith) in
    ap (window entries' q.head) n
    ∙ window-snoc entries' q.head (count q) v.head_in
    ∙ ap₂ (λ xs x. xs ++ (x ∷ []))
        (window-update q.entries q.tail (i % 2 ^ 32) q.head (count q) v.head_in v.tail_in
          (omega arith))
        written

-- On a valid ring that holds 32767 stripes, enqueue_stripe leaves an empty one: all of them are lost,
-- and the new one with them.
contents-enqueue_stripe_full :
    (q : FetchQueue) (i : ℕ)
    → IsValid q
    → length (contents q) + 1 ≡ fetch_queue_size
    → contents (enqueue_stripe q i) ≡ []
unfolding enqueue_stripe
contents-enqueue_stripe_full q i v full =
    let n : count (enqueue_stripe q i) ≡ 0 =
      omega (arith, next_index_lem q.tail v.tail_in, length-contents q) in
    ap (window (update q.entries q.tail (i % 2 ^ 32)) q.head) n

window-cons :
    (entries : ℕ → ℕ) (h n i : ℕ) (rest : List ℕ)
    → window entries h n ≡ i ∷ rest
    → (entries h ≡ i) × (window entries ((h + 1) % fetch_queue_size) (n - 1) ≡ rest) × (0 < n)
window-cons entries h zero i rest e = cc
window-cons entries h (suc n) i rest e =
    let less : suc n - 1 ≡ n = omega arith in rw less (ground arith)

-- On a valid ring that is not empty, dequeue_stripe returns the oldest stripe and leaves the others.
pub contents-dequeue_stripe :
    (q : FetchQueue) (i : ℕ) (rest : List ℕ)
    → IsValid q
    → contents q ≡ i ∷ rest
    → ((dequeue_stripe q).0 ≡ i) × (contents (dequeue_stripe q).1 ≡ rest)
unfolding dequeue_stripe
contents-dequeue_stripe q i rest v e =
    let (first, others, some_left) = window-cons q.entries q.head (count q) i rest e in
    let step : next_index q.head ≡ (q.head + 1) % fetch_queue_size =
      next_index_lem q.head v.head_in in
    let n : (q.tail + fetch_queue_size - next_index q.head) % fetch_queue_size ≡ count q - 1 =
      omega (arith, step, some_left, v.head_in, v.tail_in) in
    (first, ap₂ (window q.entries) step n ∙ others)

-- stripe_queue_empty tells whether a valid ring holds nothing.
pub stripe_queue_empty_iff :
    (q : FetchQueue) → IsValid q → (stripe_queue_empty q ≡ true) ↔ (contents q ≡ [])
unfolding stripe_queue_empty
stripe_queue_empty_iff q v = (
  λ h. ap (window q.entries q.head) {y = 0} (ground (arith, v.head_in)),
  λ e. ground (arith, ap length e, length-contents q, v.head_in, v.tail_in),
)
