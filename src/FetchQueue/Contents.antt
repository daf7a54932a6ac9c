-- ===== src/FetchQueue/Contents.antt =====
-- The stripes that a ring holds, oldest first.
use bdev_ubi.Prelude.{
  ℕ, zero, suc, ◌+◌, ◌-◌, ◌%◌, ◌^◌, ◌≤◌, ◌<◌, ◌≡◌, refl, ap, ap₂, ◌∙◌, List, [], ◌∷◌, ◌++◌, length,
  arith, bit_and-mask,
}
use bdev_ubi.FetchQueue.{fetch_queue_size, update, FetchQueue, next_index}

module _ (entries : ℕ → ℕ) where
  -- `n` entries from index `h` on, going round at the end of the array.
  abbrev pub window : ℕ → ℕ → List ℕ
  window h zero = []
  window h (suc n) = entries h ∷ window ((h + 1) % fetch_queue_size) n

  pub length-window : (h n : ℕ) → length (window h n) ≡ n
  length-window h zero = refl
  length-window h (suc n) = ap suc (length-window ((h + 1) % fetch_queue_size) n)

  pub window-snoc :
      (h n : ℕ)
      → h < fetch_queue_size
      → window h (suc n) ≡ window h n ++ (entries ((h + n) % fetch_queue_size) ∷ [])
  window-snoc h zero p = ap (λ i. entries i ∷ []) (omega arith)
  window-snoc h (suc n) p = ap (◌∷◌ (entries h)) (
      window-snoc ((h + 1) % fetch_queue_size) n (omega arith)
      ∙ ap (λ i. window ((h + 1) % fetch_queue_size) n ++ (entries i ∷ [])) (omega arith))

-- A write outside the window leaves it alone.
pub window-update :
    (entries : ℕ → ℕ) (t v h n : ℕ)
    → h < fetch_queue_size
    → t < fetch_queue_size
    → n ≤ (t + fetch_queue_size - h) % fetch_queue_size
    → window (update entries t v) h n ≡ window entries h n
window-update entries t v h zero p q r = refl
window-update entries t v h (suc n) p q r =
    ap₂ ◌∷◌ (ground arith)
      (window-update entries t v ((h + 1) % fetch_queue_size) n (omega arith) q (omega arith))

-- How many entries lie between head and tail.
abbrev pub count : FetchQueue → ℕ
count q = (q.tail + fetch_queue_size - q.head) % fetch_queue_size

abbrev pub contents : FetchQueue → List ℕ
contents q = window q.entries q.head (count q)

pub record IsValid (q : FetchQueue) : Type 0 where
  pub head_in : q.head < fetch_queue_size
  pub tail_in : q.tail < fetch_queue_size

pub next_index_lem : (i : ℕ) → i < fetch_queue_size → next_index i ≡ (i + 1) % fetch_queue_size
unfolding next_index
next_index_lem i h = bit_and-mask ((i + 1) % 2 ^ 32) 15 ∙ omega arith
