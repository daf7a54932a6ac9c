-- ===== src/Removal/Owner.antt =====
-- The bdev that is unregistered is the one that owns the base bdev.
use bdev_ubi.Prelude.{
  ℕ, ◌≡◌, ◌≢◌, refl, ◌⊎◌, inl, inr, ap, Option, none, some, List, [], ◌∷◌, ◌++◌, ◌==◌, All, arith,
  if_cases,
}
use bdev_ubi.Removal.{
  Entry, remove_event, other_event, ubi_bdev_find_by_base_bdev, ubi_handle_base_bdev_event,
}

-- The first entry with a base bdev.
pub record Owner (es : List Entry) (base : ℕ) (e : Entry) : Type 0 where
  pub before : List Entry
  pub after : List Entry
  pub place : es ≡ before ++ (e ∷ after)
  pub owns : e.base_bdev ≡ base
  pub first : All (λ f. f.base_bdev ≢ base) before

abbrev pub Search : List Entry → ℕ → Option Entry → Type 0
Search es base none = All (λ f. f.base_bdev ≢ base) es
Search es base (some e) = Owner es base e

Search-next :
    (e : Entry) (es : List Entry) (base : ℕ) (r : Option Entry)
    → e.base_bdev ≢ base
    → Search es base r
    → Search (e ∷ es) base r
Search-next e es base none n h = (n, h)
Search-next e es base (some f) n h = record {
  before = e ∷ h.before;
  after = h.after;
  place = ap (◌∷◌ e) h.place;
  owns = h.owns;
  first = (n, h.first);
}

find-Search : (es : List Entry) (base : ℕ) → Search es base (ubi_bdev_find_by_base_bdev es base)
unfolding ubi_bdev_find_by_base_bdev
find-Search [] base = tt
find-Search (e ∷ es) base =
    if_cases (Search (e ∷ es) base) (e.base_bdev == base) _ _
      (λ h. record { before = []; after = es; place = refl; owns = ground (arith, h); first = tt })
      (λ h.
        Search-next e es base (ubi_bdev_find_by_base_bdev es base) (λ n. ground (arith, h, n))
          (find-Search es base))

-- When a base bdev is removed, the first bdev that has it as its base bdev is unregistered; if none
-- has, nothing is. Any other event unregisters nothing.
pub handle_event-Owner :
    (es : List Entry) (base : ℕ)
    → (((e : Entry) × Owner es base e
          × (ubi_handle_base_bdev_event es remove_event base ≡ some e.ubi_bdev))
        ⊎ (All (λ f. f.base_bdev ≢ base) es
            × (ubi_handle_base_bdev_event es remove_event base ≡ none)))
      × (ubi_handle_base_bdev_event es other_event base ≡ none)
unfolding ubi_handle_base_bdev_event
handle_event-Owner es base = (go (ubi_bdev_find_by_base_bdev es base) (find-Search es base), refl)
  where
    go :
        (r : Option Entry)
        → Search es base r
        → ((e : Entry) × Owner es base e
            × (elim r as (λ _. Option ℕ) [ none ↦ none | some f ↦ some f.ubi_bdev ]
                ≡ some e.ubi_bdev))
          ⊎ (All (λ f. f.base_bdev ≢ base) es
              × (elim r as (λ _. Option ℕ) [ none ↦ none | some f ↦ some f.ubi_bdev ] ≡ none))
    go none h = inr (h, refl)
    go (some e) h = inl (e, h, refl)
