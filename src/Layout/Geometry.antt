-- ===== src/Layout/Geometry.antt =====
-- src/lib/bdev_ubi.c, ubi_init_layout_params: the geometry that it computes.
use bdev_ubi.Prelude.{
  ℕ, ◌+◌, ◌-◌, ◌*◌, ◌/◌, ◌%◌, ◌^◌, ◌≤◌, ◌<◌, ◌≡◌, ap, sym, ◌∙◌, some, subst, arith, two_pow_add,
  two_pow_pos,
}
use native.Mathlib.Nat.{pow-le-pow_right, add-mul-div_left, mul-le-mul_right}
use native.Mathlib.Decide.{dec_le}
use bdev_ubi.Errno.{ok}
use bdev_ubi.Layout.{
  Layout, Request, metadata_size, stripe_blocks, stripe_size_bytes, halvings, layout_of,
  init_layout_params,
}
use bdev_ubi.Layout.Size.{
  StripeSize-low_bits, StripeSize-bytes, two_pow_div, two_pow-divides, halvings-two_pow,
}
use bdev_ubi.Layout.Accept.{Accepts, InRange, conditions-Accepts, check_layout-eq, init-eq-check}

div-eq-zero_of_lt : (a b : ℕ) → 0 < b → a < b → a / b ≡ 0
div-eq-zero_of_lt a b p h = grind arith

-- Rounding up to whole blocks covers the bytes, and no more blocks than needed.
round_up : (a b : ℕ) → 0 < b → (a ≤ (a + b - 1) / b * b) × ((a + b - 1) / b * b < a + b)
round_up a b p = grind arith

blocks_fit : (m i n b : ℕ) → m * b + i * b < n * b + b → m + i ≤ n
blocks_fit m i n b h = elim (dec_le (m + i) n) [
  | yes p ↦ p
  | no p ↦
      let q : n + 1 ≤ m + i = omega arith in
      absurd (omega (arith, mul-le-mul_right {m = n + 1} {n = m + i} b q))
]

-- How many blocks of 2 ^ j bytes make a stripe of 2 ^ (j + i) bytes.
stripe_blocks_lem :
    (q : Request) (i : ℕ)
    → q.stripe_size_kb * 1024 ≡ q.blocklen * 2 ^ i
    → q.stripe_size_kb ≤ 1024
    → 0 < q.blocklen
    → q.blocklen ≤ q.stripe_size_kb * 1024
    → stripe_blocks q ≡ 2 ^ i
unfolding stripe_blocks stripe_size_bytes
stripe_blocks_lem q i e small p h =
    let top : (q.stripe_size_kb * 1024 % 2 ^ 32 + q.blocklen + 2 ^ 32 - 1) % 2 ^ 32
        ≡ q.blocklen - 1 + q.blocklen * 2 ^ i =
      omega arith in
    ap (λ t. t / q.blocklen) top
    ∙ add-mul-div_left (q.blocklen - 1) (2 ^ i) {y = q.blocklen} p
    ∙ omega (arith, div-eq-zero_of_lt (q.blocklen - 1) q.blocklen p (omega arith))

-- What a layout promises about the request that it was made for.
pub record Geometry (q : Request) (st_size : ℕ) (l : Layout) : Type 0 where
  pub stripe_bytes : l.stripe_block_count * q.blocklen ≡ q.stripe_size_kb * 1024
  pub stripe_power : l.stripe_block_count ≡ 2 ^ l.stripe_shift
  pub metadata_bytes : l.data_offset_blocks * q.blocklen ≡ metadata_size
  pub image_fits : l.data_offset_blocks + l.image_block_count ≤ q.blockcnt
  pub image_covered : st_size ≤ l.image_block_count * q.blocklen
  pub image_tight : l.image_block_count * q.blocklen < st_size + q.blocklen

module _ (q : Request) (st_size : ℕ) (a : Accepts q st_size) where
  blocklen_pos : 0 < q.blocklen
  blocklen_pos = let (j, e) = a.block_size in omega (arith, two_pow_pos j)

  -- The exponent of the number of blocks in a stripe.
  stripe_exponent : (i : ℕ) × (i ≤ 20) × (q.stripe_size_kb * 1024 ≡ q.blocklen * 2 ^ i)
  stripe_exponent =
      let (j, e) = a.block_size in
      let (k, small, f) = StripeSize-bytes q.stripe_size_kb a.stripe_size in
      let (i, g) = two_pow_div j k (omega (arith, a.block_in_stripe)) in
      (i, omega arith, f ∙ ap (λ n. 2 ^ n) g ∙ two_pow_add j i ∙ ap (λ t. t * 2 ^ i) (sym e))

  log2_blocks :
      (i : ℕ) × (i ≤ 20)
      × (q.stripe_size_kb * 1024 ≡ q.blocklen * 2 ^ i)
      × (halvings 32 (stripe_blocks q) 0 ≡ (1, i))
  log2_blocks =
      let (i, small, e) = stripe_exponent in
      let (_, hi, _) = StripeSize-low_bits q.stripe_size_kb a.stripe_size in
      (
        i,
        small,
        e,
        ap (λ r. halvings 32 r 0) (stripe_blocks_lem q i e hi blocklen_pos a.block_in_stripe)
            ∙ halvings-two_pow 32 i 0 (omega arith)
            ∙ ap (λ t. (1, t)) (omega arith),
      )

  metadata_whole : metadata_size / q.blocklen * q.blocklen ≡ metadata_size
  metadata_whole =
      let (j, e) = a.block_size in
      let (k, small, f) = StripeSize-bytes q.stripe_size_kb a.stripe_size in
      let whole : metadata_size % q.blocklen ≡ 0 =
        two_pow-divides j k small q.blocklen e (omega (arith, a.block_in_stripe)) in
      grind (arith, whole)

  -- The block count fits its uint32_t.
  count_fits : let n = (halvings 32 (stripe_blocks q) 0).1 in 2 ^ n % 2 ^ 32 ≡ 2 ^ n
  count_fits =
      let (i, small, _, e) = log2_blocks in
      rw e (omega (arith, pow-le-pow_right {n = 2} (omega arith) {i = i} {j = 20} small))

  layout_of-Geometry : Geometry q st_size (layout_of q st_size)
  unfolding layout_of
  layout_of-Geometry = record {
    stripe_bytes =
        let (i, _, e, f) = log2_blocks in
        ap (λ t. t * q.blocklen) count_fits ∙ rw f (omega (arith, e));
    stripe_power = count_fits;
    metadata_bytes = metadata_whole;
    image_fits =
        blocks_fit (metadata_size / q.blocklen) ((st_size + q.blocklen - 1) / q.blocklen) q.blockcnt
          q.blocklen
          (omega (arith, metadata_whole, (round_up st_size q.blocklen blocklen_pos).1, a.fits));
    image_covered = (round_up st_size q.blocklen blocklen_pos).0;
    image_tight = (round_up st_size q.blocklen blocklen_pos).1;
  }

-- What ubi_init_layout_params returns, whenever it succeeds on sizes that fit 64 bits: a stripe is
-- exactly `stripe_size_kb` KiB, its block count is the power of two that the shift stands for, the
-- data starts exactly behind the metadata area, and the image, rounded up to whole blocks, lies on
-- the base bdev.
pub init_layout_params-Geometry :
    (q : Request) (st_size : ℕ) (l : Layout)
    → InRange q st_size
    → q.stat ≡ some st_size
    → init_layout_params q ≡ ok l
    → Geometry q st_size l
init_layout_params-Geometry q st_size l range found h =
    let checked = sym (init-eq-check q st_size range found) ∙ h in
    subst (Geometry q st_size) (sym (check_layout-eq q st_size range l checked))
      (layout_of-Geometry q st_size (conditions-Accepts q st_size range l checked))
