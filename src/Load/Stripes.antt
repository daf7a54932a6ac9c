-- ===== src/Load/Stripes.antt =====
-- What the loop over the stripe headers leaves behind.
use bdev_ubi.Prelude.{
  ℕ, zero, suc, ◌+◌, ◌≤◌, ◌<◌, ◌≡◌, ◌≢◌, refl, sym, subst, inl, inr, ◌⊎◌, ap, ◌∙◌, ◌==◌, true,
  if◌then◌else◌, if_intro, Bool, arith,
}
use native.Mathlib.Decide.{dec_lt}
use bdev_ubi.Bdev.{UbiBdev, not_fetched, inflight, fetched}
use bdev_ubi.Bdev.SameLayout.{SameLayout, SameLayout-refl, SameLayout-trans}
use bdev_ubi.Layout.{max_stripes}
use bdev_ubi.FetchQueue.{update}
use bdev_ubi.Metadata.{ubi_init_metadata, ubi_new_disk}
use bdev_ubi.Load.{header_fetched, read_stripe, read_stripes, ubi_finish_read_metadata}

pub metadata-read_stripe : (i : ℕ) (b : UbiBdev) → (read_stripe i b).metadata ≡ b.metadata
unfolding read_stripe
metadata-read_stripe i b = ground arith

status-read_stripe :
    (i j : ℕ) (b : UbiBdev)
    → (read_stripe i b).stripe_status j ≡ (
        if j == i
        then (if header_fetched b.metadata i then fetched else not_fetched)
        else b.stripe_status j)
unfolding read_stripe
status-read_stripe i j b = ground arith

status-read_stripes_before :
    (n i j : ℕ) (b : UbiBdev) → j < i → (read_stripes n i b).stripe_status j ≡ b.stripe_status j
unfolding read_stripes
status-read_stripes_before zero i j b h = refl
status-read_stripes_before (suc n) i j b h =
    ground
      (arith, status-read_stripes_before n (i + 1) j (read_stripe i b), status-read_stripe i j b)

-- Every stripe that the loop passes has the status that its header names.
pub status-read_stripes :
    (n i j : ℕ) (b : UbiBdev)
    → i ≤ j
    → j < i + n
    → (read_stripes n i b).stripe_status j
      ≡ (if header_fetched b.metadata j then fetched else not_fetched)
unfolding read_stripes
status-read_stripes zero i j b lo hi = absurd (omega arith)
status-read_stripes (suc n) i j b lo hi = elim (dec_lt i j) [
  | yes p ↦
      status-read_stripes n (i + 1) j (read_stripe i b) (omega arith) (omega arith)
      ∙ ap (λ m. if header_fetched m j then fetched else not_fetched) (metadata-read_stripe i b)
  | no p ↦
      let e : j ≡ i = omega arith in
      ground (
        arith,
        e,
        status-read_stripes_before n (i + 1) j (read_stripe i b),
        status-read_stripe i j b,
        ap (header_fetched b.metadata) e,
      )
]

pub metadata-read_stripes : (n i : ℕ) (b : UbiBdev) → (read_stripes n i b).metadata ≡ b.metadata
unfolding read_stripes
metadata-read_stripes zero i b = refl
metadata-read_stripes (suc n) i b =
    metadata-read_stripes n (i + 1) (read_stripe i b) ∙ metadata-read_stripe i b

-- Both counters count the stripes passed that are fetched.
pub counters-read_stripes :
    (n i : ℕ) (b : UbiBdev)
    → b.stripes_fetched ≡ b.stripes_flushed
    → (read_stripes n i b).stripes_fetched ≡ (read_stripes n i b).stripes_flushed
unfolding read_stripes read_stripe
counters-read_stripes zero i b h = h
counters-read_stripes (suc n) i b h =
    counters-read_stripes n (i + 1) (read_stripe i b) (ground arith)

read_stripe-SameLayout : (i : ℕ) (b : UbiBdev) → SameLayout b (read_stripe i b)
unfolding read_stripe
read_stripe-SameLayout i b =
    let marked : UbiBdev = record b {
      stripe_status =
          update b.stripe_status i (if header_fetched b.metadata i then fetched else not_fetched);
    } in
    let same : SameLayout b marked = record {
      blocklen = refl;
      size = refl;
      shift = refl;
      offset = refl;
      image = refl;
    } in
    if_intro (SameLayout b) (header_fetched b.metadata i) _ _
      (record { blocklen = refl; size = refl; shift = refl; offset = refl; image = refl }) same

read_stripes-SameLayout : (n i : ℕ) (b : UbiBdev) → SameLayout b (read_stripes n i b)
unfolding read_stripes
read_stripes-SameLayout zero i b = SameLayout-refl b
read_stripes-SameLayout (suc n) i b =
    SameLayout-trans (read_stripe-SameLayout i b)
      (read_stripes-SameLayout n (i + 1) (read_stripe i b))

-- A stripe that the metadata is read for is not being fetched.
read_stripes-settled :
    (n i : ℕ) (b : UbiBdev)
    → ((j : ℕ) → b.stripe_status j ≢ inflight)
    → (j : ℕ) → (read_stripes n i b).stripe_status j ≢ inflight
unfolding read_stripes
read_stripes-settled zero i b h = h
read_stripes-settled (suc n) i b h =
    read_stripes-settled n (i + 1) (read_stripe i b)
      (λ j e. ground (arith, status-read_stripe i j b, h j, e))

-- What becomes of the bdev.
finish_read-bdev :
    (success : Bool) (b : UbiBdev)
    → let b' = (ubi_finish_read_metadata success b).1 in
      (b' ≡ b)
      ⊎ (b' ≡ record b { metadata = ubi_init_metadata b.stripe_size_kb b.metadata })
      ⊎ (b' ≡ read_stripes max_stripes 0 b)
unfolding ubi_finish_read_metadata
finish_read-bdev success b = ground arith

pub finish_read-SameLayout :
    (success : Bool) (b : UbiBdev) → SameLayout b (ubi_finish_read_metadata success b).1
finish_read-SameLayout success b = elim (finish_read-bdev success b) [
  | inl e ↦ subst (SameLayout b) (sym e) (SameLayout-refl b)
  | inr (inl e) ↦
      subst (SameLayout b) (sym e)
        (record { blocklen = refl; size = refl; shift = refl; offset = refl; image = refl })
  | inr (inr e) ↦ subst (SameLayout b) (sym e) (read_stripes-SameLayout max_stripes 0 b)
]

pub finish_read-settled :
    (success : Bool) (b : UbiBdev)
    → ((j : ℕ) → b.stripe_status j ≢ inflight)
    → (j : ℕ) → (ubi_finish_read_metadata success b).1.stripe_status j ≢ inflight
finish_read-settled success b h =
    let P = λ (b' : UbiBdev). (j : ℕ) → b'.stripe_status j ≢ inflight in
    elim (finish_read-bdev success b) [
      | inl e ↦ subst P (sym e) h
      | inr (inl e) ↦ subst P (sym e) h
      | inr (inr e) ↦ subst P (sym e) (read_stripes-settled max_stripes 0 b h)
    ]

-- On a new disk the statuses are left as they are.
pub finish_read-new_disk :
    (b : UbiBdev) (j : ℕ)
    → ubi_new_disk b.metadata.magic ≡ true
    → (ubi_finish_read_metadata true b).1.stripe_status j ≡ b.stripe_status j
unfolding ubi_finish_read_metadata
finish_read-new_disk b j fresh = ground (arith, fresh)
