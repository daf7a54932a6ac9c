-- ===== src/Data/Place.antt =====
-- The blocks that a fetched stripe is read from and written to.
use bdev_ubi.Prelude.{
  ℕ, ◌+◌, ◌*◌, ◌/◌, ◌%◌, ◌^◌, ◌<◌, ◌≤◌, ◌≡◌, ap, ◌∙◌, ◌&&◌, ◌==◌, leb, ltb, arith, two_pow_pos,
  subst, Bool-cases, inl, inr, ==_iff,
}
use native.Mathlib.Nat.{mul-le-mul_right, mul-div_cancel, lt-div-mul-add, div-mul-le_self}
use bdev_ubi.Layout.{metadata_size}
use bdev_ubi.Bdev.{UbiBdev}
use bdev_ubi.Fetch.{stripe_offset, stripe_nbytes}
use bdev_ubi.Fetch.Bounds.{Placed}
use bdev_ubi.Request.{stripe_of}
use bdev_ubi.Data.{in_range}

-- A block lies in a run of blocks if its quotient is the run's number.
range_by_div :
    (j i m off : ℕ)
    → 0 < m
    → (leb (i * m + off) (j + off) && ltb (j + off) (i * m + off + m)) ≡ (j / m == i)
range_by_div j i m off pos = elim (Bool-cases (j / m == i)) [
  | inl same ↦
      let e : j / m ≡ i = (==_iff _ _).0 same in
      let low : i * m ≤ j = subst (λ t. t * m ≤ j) e (div-mul-le_self j m) in
      let high : j < i * m + m = subst (λ t. j < t * m + m) e (lt-div-mul-add pos) in
      rw same (ground arith)
  | inr other ↦ rw other (ground (arith, outside))
]
  where
    outside : i * m ≤ j → j < i * m + m → j / m ≡ i
    outside low high = grind arith

module _ (b : UbiBdev) (p : Placed b) (pos : 0 < b.blocklen) (i : ℕ) (small : i < 2 ^ 32) where
  bytes_bound : b.stripe_size_kb * 1024 * i ≤ 1048576 * i
  bytes_bound = mul-le-mul_right i (omega (arith, p.stripe_size))

  -- The byte at which a stripe starts.
  stripe_offset-eq : stripe_offset b i ≡ i * 2 ^ b.stripe_shift * b.blocklen
  unfolding stripe_offset
  stripe_offset-eq =
      let turned : 2 ^ b.stripe_shift * b.blocklen * i ≡ i * 2 ^ b.stripe_shift * b.blocklen =
        grind arith in
      omega (arith, bytes_bound, turned, ap (λ t. t * i) p.stripe_bytes)

  stripe_offset-bound : stripe_offset b i ≤ 1048576 * i
  unfolding stripe_offset
  stripe_offset-bound = omega (arith, bytes_bound)

  pub offset_block : stripe_offset b i / b.blocklen ≡ i * 2 ^ b.stripe_shift
  offset_block =
      ap (λ t. t / b.blocklen) stripe_offset-eq ∙ mul-div_cancel (i * 2 ^ b.stripe_shift) pos

  pub target_block :
      (stripe_offset b i + metadata_size) % 2 ^ 64 / b.blocklen
      ≡ i * 2 ^ b.stripe_shift + b.data_offset_blocks
  target_block =
      let parts : (i * 2 ^ b.stripe_shift + b.data_offset_blocks) * b.blocklen
          ≡ i * 2 ^ b.stripe_shift * b.blocklen + b.data_offset_blocks * b.blocklen =
        grind arith in
      let bytes : (stripe_offset b i + metadata_size) % 2 ^ 64
          ≡ (i * 2 ^ b.stripe_shift + b.data_offset_blocks) * b.blocklen =
        omega (arith, parts, stripe_offset-bound, stripe_offset-eq, p.metadata_bytes) in
      ap (λ t. t / b.blocklen) bytes
      ∙ mul-div_cancel (i * 2 ^ b.stripe_shift + b.data_offset_blocks) pos

  pub stripe_length : stripe_nbytes b / b.blocklen ≡ 2 ^ b.stripe_shift
  unfolding stripe_nbytes
  stripe_length =
      let bytes : b.stripe_size_kb * 1024 % 2 ^ 32 ≡ 2 ^ b.stripe_shift * b.blocklen =
        omega (arith, p.stripe_bytes, p.stripe_size) in
      ap (λ t. t / b.blocklen) bytes ∙ mul-div_cancel (2 ^ b.stripe_shift) pos

-- The blocks of a stripe.
pub in_range-stripe :
    (b : UbiBdev) (i j : ℕ)
    → in_range
        (i * 2 ^ b.stripe_shift + b.data_offset_blocks)
        (2 ^ b.stripe_shift)
        (j + b.data_offset_blocks)
      ≡ (stripe_of b j == i)
unfolding stripe_of
in_range-stripe b i j =
    range_by_div j i (2 ^ b.stripe_shift) b.data_offset_blocks (two_pow_pos b.stripe_shift)
