-- ===== src/Bdev/Kept.antt =====
-- What no step of a channel undoes: a stripe that has left the status STRIPE_NOT_FETCHED never comes
-- back to it, a stripe that has been fetched stays marked in the metadata, and the layout and the
-- options of the bdev stay.
use bdev_ubi.Prelude.{ℕ, ◌≡◌, ◌≢◌, refl, ◌∙◌, arith}
use bdev_ubi.Metadata.{ubi_get_version}
use bdev_ubi.Bdev.{
  StripeStatus, not_fetched, inflight, failed, fetched, UbiBdev, ubi_get_stripe_status,
  ubi_set_stripe_status,
}
use bdev_ubi.Bdev.Stripe.{get-set_status}

-- A stripe that has been fetched is marked in its header.
abbrev pub Recorded : UbiBdev → ℕ → Type 0
Recorded b i = ubi_get_stripe_status b i ≡ fetched → (b.metadata.stripe_headers i).0 ≡ 1

pub record Kept (b b' : UbiBdev) : Type 0 where
  pub statuses :
      (i : ℕ) → ubi_get_stripe_status b' i ≡ not_fetched → ubi_get_stripe_status b i ≡ not_fetched
  pub recorded : (i : ℕ) → Recorded b i → Recorded b' i
  pub magic : b'.metadata.magic ≡ b.metadata.magic
  pub version : ubi_get_version b'.metadata ≡ ubi_get_version b.metadata
  pub image : b'.image_block_count ≡ b.image_block_count
  pub shift : b'.stripe_shift ≡ b.stripe_shift
  pub copying : b'.copy_on_read ≡ b.copy_on_read
  pub blocklen : b'.blocklen ≡ b.blocklen
  pub size : b'.stripe_size_kb ≡ b.stripe_size_kb
  pub offset : b'.data_offset_blocks ≡ b.data_offset_blocks

pub Kept-refl : (b : UbiBdev) → Kept b b
Kept-refl b = record {
  statuses = λ i h. h;
  recorded = λ i h. h;
  magic = refl;
  version = refl;
  image = refl;
  shift = refl;
  copying = refl;
  blocklen = refl;
  size = refl;
  offset = refl;
}

pub Kept-trans : {b c d : UbiBdev} → Kept b c → Kept c d → Kept b d
Kept-trans h k = record {
  statuses = λ i e. h.statuses i (k.statuses i e);
  recorded = λ i r. k.recorded i (h.recorded i r);
  magic = k.magic ∙ h.magic;
  version = k.version ∙ h.version;
  image = k.image ∙ h.image;
  shift = k.shift ∙ h.shift;
  copying = k.copying ∙ h.copying;
  blocklen = k.blocklen ∙ h.blocklen;
  size = k.size ∙ h.size;
  offset = k.offset ∙ h.offset;
}

set-layout :
    (b : UbiBdev) (i : ℕ) (st : StripeStatus)
    → ((ubi_set_stripe_status b i st).image_block_count ≡ b.image_block_count)
      × ((ubi_set_stripe_status b i st).stripe_shift ≡ b.stripe_shift)
      × ((ubi_set_stripe_status b i st).copy_on_read ≡ b.copy_on_read)
      × ((ubi_set_stripe_status b i st).blocklen ≡ b.blocklen)
      × ((ubi_set_stripe_status b i st).stripe_size_kb ≡ b.stripe_size_kb)
      × ((ubi_set_stripe_status b i st).data_offset_blocks ≡ b.data_offset_blocks)
      × ((ubi_set_stripe_status b i st).metadata.magic ≡ b.metadata.magic)
      × (ubi_get_version (ubi_set_stripe_status b i st).metadata ≡ ubi_get_version b.metadata)
unfolding ubi_set_stripe_status ubi_get_version
set-layout b i fetched = (refl, refl, refl, refl, refl, refl, refl, refl)
set-layout b i _ = (refl, refl, refl, refl, refl, refl, refl, refl)

set-Recorded :
    (b : UbiBdev) (i j : ℕ) (st : StripeStatus)
    → Recorded b j
    → Recorded (ubi_set_stripe_status b i st) j
unfolding ubi_set_stripe_status ubi_get_stripe_status
set-Recorded b i j fetched r e = ground (arith, r)
set-Recorded b i j not_fetched r e = ground (arith, r)
set-Recorded b i j inflight r e = ground (arith, r)
set-Recorded b i j failed r e = ground (arith, r)

pub set-Kept :
    (b : UbiBdev) (i : ℕ) (st : StripeStatus)
    → st ≢ not_fetched
    → Kept b (ubi_set_stripe_status b i st)
set-Kept b i st h = record {
  statuses = λ j e. ground (arith, get-set_status b i j st);
  recorded = λ j r. set-Recorded b i j st r;
  magic = (set-layout b i st).6;
  version = (set-layout b i st).7;
  image = (set-layout b i st).0;
  shift = (set-layout b i st).1;
  copying = (set-layout b i st).2;
  blocklen = (set-layout b i st).3;
  size = (set-layout b i st).4;
  offset = (set-layout b i st).5;
}

-- The counters have no part in it.
pub Kept-counters :
    (b : UbiBdev) (n m : ℕ) → Kept b (record b { stripes_fetched = n; stripes_flushed = m })
unfolding ubi_get_stripe_status
Kept-counters b n m = record {
  statuses = λ i h. h;
  recorded = λ i h. h;
  magic = refl;
  version = refl;
  image = refl;
  shift = refl;
  copying = refl;
  blocklen = refl;
  size = refl;
  offset = refl;
}
