-- ===== src/Ownership/Counts.antt =====
-- Counting the slots that fetch a stripe, and the ring entries that name one.
use bdev_ubi.Prelude.{
  ℕ, zero, suc, ◌+◌, ◌<◌, ◌≤◌, ◌≡◌, refl, sym, ap, ap₂, ◌∙◌, ◌⊎◌, inl, inr, List, [], ◌∷◌, count,
  arith, true, Bool-cases, ==_iff, subst, false, if◌then◌else◌, ◌==◌, ◌&&◌,
}
use bdev_ubi.FetchQueue.{update, FetchQueue, dequeue_stripe, stripe_queue_empty}
use bdev_ubi.FetchQueue.Contents.{contents, IsValid}
use bdev_ubi.FetchQueue.Refine.{contents-dequeue_stripe, stripe_queue_empty_iff}
use bdev_ubi.Channel.{StripeFetch}
use bdev_ubi.Ownership.{fetches, slot_count}

update_outside :
    (slots : ℕ → StripeFetch) (k : ℕ) (f : StripeFetch) (i n : ℕ)
    → n ≤ k
    → slot_count (update slots k f) i n ≡ slot_count slots i n
unfolding slot_count
update_outside slots k f i zero h = refl
update_outside slots k f i (suc n) h = ground (arith, update_outside slots k f i n (omega arith))

-- A write to one slot.
pub slot_count-update :
    (slots : ℕ → StripeFetch) (k : ℕ) (f : StripeFetch) (i n : ℕ)
    → k < n
    → slot_count (update slots k f) i n + fetches (slots k) i ≡ slot_count slots i n + fetches f i
unfolding slot_count
slot_count-update slots k f i zero h = absurd (omega arith)
slot_count-update slots k f i (suc n) h =
    ground (arith, slot_count-update slots k f i n, update_outside slots k f i n)

pub slot_count-idle :
    (slots : ℕ → StripeFetch) (i n : ℕ)
    → ((k : ℕ) → k < n → (slots k).active ≡ false)
    → slot_count slots i n ≡ 0
unfolding slot_count
slot_count-idle slots i zero h = refl
slot_count-idle slots i (suc n) h =
    ground (arith, h n (omega arith), slot_count-idle slots i n (λ k p. h k (omega arith)))

-- A slot in use counts.
pub slot_count-active :
    (slots : ℕ → StripeFetch) (k n : ℕ)
    → k < n
    → (slots k).active ≡ true
    → 0 < slot_count slots (slots k).stripe_idx n
unfolding slot_count
slot_count-active slots k zero small active = absurd (omega (arith, small))
slot_count-active slots k (suc n) small active = elim (Bool-cases (k == n)) [
  | inl same ↦
      let e : k ≡ n = (==_iff k n).0 same in
      subst
        (λ m. 0 < fetches (slots m) (slots k).stripe_idx + slot_count slots (slots k).stripe_idx n)
        e (ground (arith, active))
  | inr other ↦
      let rest = slot_count-active slots k n (ground (arith, other)) active in omega (arith, rest)
]

-- A slot that counts.
pub slot_count-slot :
    (slots : ℕ → StripeFetch) (i n : ℕ)
    → 0 < slot_count slots i n
    → (slot : ℕ) × (slot < n) × ((slots slot).active ≡ true) × ((slots slot).stripe_idx ≡ i)
unfolding slot_count
slot_count-slot slots i zero h = absurd (omega arith)
slot_count-slot slots i (suc n) h =
    elim (Bool-cases ((slots n).active && (slots n).stripe_idx == i)) [
      | inl here ↦ (n, omega arith, ground (arith, here), ground (arith, here))
      | inr other ↦
          let (slot, inside, active, names) =
            slot_count-slot slots i n (ground (arith, h, other)) in
          (slot, omega arith, active, names)
    ]

list_cases : (xs : List ℕ) → (xs ≡ []) ⊎ ((x : ℕ) × (rest : List ℕ) × (xs ≡ x ∷ rest))
list_cases [] = inl refl
list_cases (x ∷ rest) = inr (x, rest, refl)

-- What dequeue_stripe returns is what the ring no longer holds.
pub count-dequeue_stripe :
    (q : FetchQueue) (i : ℕ)
    → IsValid q
    → stripe_queue_empty q ≡ false
    → count i (contents q)
      ≡ (if (dequeue_stripe q).0 == i then 1 else 0) + count i (contents (dequeue_stripe q).1)
count-dequeue_stripe q i v some_left = elim (list_cases (contents q)) [
  | inl none_left ↦ cc ((stripe_queue_empty_iff q v).1 none_left)
  | inr (x, rest, e) ↦
      let (first, others) = contents-dequeue_stripe q x rest v e in
      let before : count i (contents q) ≡ (if x == i then 1 else 0) + count i rest =
        ap (count i) e in
      before ∙ ap₂ (λ y ys. (if y == i then 1 else 0) + count i ys) (sym first) (sym others)
]
