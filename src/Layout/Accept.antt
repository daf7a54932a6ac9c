-- ===== src/Layout/Accept.antt =====
-- src/lib/bdev_ubi.c, ubi_init_layout_params: which requests it accepts.
use bdev_ubi.Prelude.{ℕ, ◌+◌, ◌*◌, ◌%◌, ◌^◌, ◌≤◌, ◌<◌, ◌≡◌, ◌↔◌, ◌⊎◌, some, arith}
use bdev_ubi.Errno.{ok, err, einval}
use bdev_ubi.Layout.{
  Layout, Request, metadata_size, low_bits, layout_of, check_layout, init_layout_params,
}
use bdev_ubi.Layout.Size.{
  StripeSize, low_bits-StripeSize, StripeSize-low_bits, StripeSize-bytes, metadata-divisor,
  two_pow-divides,
}

-- What a request must meet: the image and the metadata area fit on the base bdev, the stripe size
-- is one of the five allowed, and the block length is a power of two that a stripe holds.
pub record Accepts (q : Request) (st_size : ℕ) : Type 0 where
  pub fits : st_size + metadata_size ≤ q.blockcnt * q.blocklen
  pub stripe_size : StripeSize q.stripe_size_kb
  pub block_size : (j : ℕ) × (q.blocklen ≡ 2 ^ j)
  pub block_in_stripe : q.blocklen ≤ q.stripe_size_kb * 1024

-- The sizes in bytes fit 64 bits.
pub record InRange (q : Request) (st_size : ℕ) : Type 0 where
  pub device : q.blockcnt * q.blocklen < 2 ^ 64
  pub image : st_size + metadata_size < 2 ^ 64

module _ (q : Request) (st_size : ℕ) (range : InRange q st_size) where
  check_layout-conditions :
      (l : Layout)
      → check_layout q st_size ≡ ok l
      → (st_size + metadata_size ≤ q.blockcnt * q.blocklen)
        × (64 ≤ q.stripe_size_kb)
        × (q.stripe_size_kb ≤ 1024)
        × (low_bits q.stripe_size_kb ≡ 0)
        × (q.blocklen ≤ q.stripe_size_kb * 1024)
        × (metadata_size % q.blocklen ≡ 0)
        × (l ≡ layout_of q st_size)
  unfolding check_layout
  check_layout-conditions l h = ground arith

  Accepts-check_layout : Accepts q st_size → check_layout q st_size ≡ ok (layout_of q st_size)
  unfolding check_layout
  Accepts-check_layout a =
      let (lo, hi, low) = StripeSize-low_bits q.stripe_size_kb a.stripe_size in
      ground (arith, lo, hi, low, divides, range.device, range.image, a.fits, a.block_in_stripe)
    where
      divides : metadata_size % q.blocklen ≡ 0
      divides =
          let (j, e) = a.block_size in
          let (k, small, f) = StripeSize-bytes q.stripe_size_kb a.stripe_size in
          two_pow-divides j k small q.blocklen e (omega arith)

  pub conditions-Accepts : (l : Layout) → check_layout q st_size ≡ ok l → Accepts q st_size
  conditions-Accepts l h =
      let (fits, lo, hi, low, inside, divides, _) = check_layout-conditions l h in
      record {
        fits = fits;
        stripe_size = low_bits-StripeSize q.stripe_size_kb lo hi low;
        block_size = metadata-divisor q.blocklen divides;
        block_in_stripe = inside;
      }

  pub check_layout-eq : (l : Layout) → check_layout q st_size ≡ ok l → l ≡ layout_of q st_size
  check_layout-eq l h = let (_, _, _, _, _, _, e) = check_layout-conditions l h in e

  check_layout-total :
      (check_layout q st_size ≡ ok (layout_of q st_size)) ⊎ (check_layout q st_size ≡ err einval)
  unfolding check_layout
  check_layout-total = ground arith

  pub init-eq-check : q.stat ≡ some st_size → init_layout_params q ≡ check_layout q st_size
  unfolding init_layout_params
  init-eq-check found = ground arith

  -- With sizes that fit 64 bits and an image file that `stat` finds, ubi_init_layout_params succeeds,
  -- with the layout of `layout_of`, exactly if the image and the metadata area fit on the base bdev,
  -- the stripe size is one of the five allowed, and the block length is a power of two that a stripe
  -- holds; otherwise it returns -EINVAL.
  pub init_layout_params-Accepts :
      q.stat ≡ some st_size
      → ((init_layout_params q ≡ ok (layout_of q st_size)) ↔ Accepts q st_size)
        × ((init_layout_params q ≡ ok (layout_of q st_size)) ⊎ (init_layout_params q ≡ err einval))
  init_layout_params-Accepts found =
      rw (init-eq-check found)
        ((conditions-Accepts (layout_of q st_size), Accepts-check_layout), check_layout-total)
