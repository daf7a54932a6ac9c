-- ===== src/Layout.antt =====
-- src/lib/bdev_ubi.c, ubi_init_layout_params: where metadata and stripes lie on the base bdev.
-- The constants are those of include/bdev_ubi_internal.h.
pub mod Size
pub mod Loop
pub mod Accept
pub mod Geometry
use bdev_ubi.Prelude.{
  ℕ, zero, suc, ◌+◌, ◌-◌, ◌*◌, ◌/◌, ◌%◌, ◌^◌, Bool, ◌||◌, not, Option, none, some, ltb, ◌==◌,
  if◌then◌else◌, bit_and, pos,
}
use bdev_ubi.Errno.{Result, ok, err, einval}

-- UBI_METADATA_SIZE
abbrev pub metadata_size : ℕ
metadata_size = 8388608

-- UBI_MAX_STRIPES
abbrev pub max_stripes : ℕ
max_stripes = 2 * 1024 * 1024

-- UBI_STRIPE_SIZE_MIN
abbrev pub stripe_size_min : ℕ
stripe_size_min = 64

-- UBI_STRIPE_SIZE_MAX
abbrev pub stripe_size_max : ℕ
stripe_size_max = 1024

-- The fields of `struct ubi_bdev` that ubi_init_layout_params fills in.
pub record Layout : Type 0 where
  pub stripe_block_count : ℕ
  pub stripe_shift : ℕ
  pub data_offset_blocks : ℕ
  pub image_block_count : ℕ

-- What the function reads: the geometry of the base bdev, the stripe size asked for, and the size
-- of the image file, which `stat` gives (`none` where it fails).
pub record Request : Type 0 where
  pub blocklen : ℕ  -- uint32_t
  pub blockcnt : ℕ  -- uint64_t
  pub stripe_size_kb : ℕ  -- uint32_t
  pub stat : Option ℕ  -- off_t

-- `while (r > 1) { r /= 2; log2_r++; }`, with the final `r` beside the counter. The fuel bounds the
-- rounds; a uint32_t needs at most 31.
unfoldable pub halvings : ℕ → ℕ → ℕ → ℕ × ℕ
halvings zero r log2_r = (r, log2_r)
halvings (suc fuel) r log2_r =
    let rest = halvings fuel (r / 2) (log2_r + 1) in if ltb 1 r then rest else (r, log2_r)

-- stripe_size_kb & (stripe_size_kb - 1), on uint32_t
pub low_bits : ℕ → ℕ
low_bits stripe_size_kb = bit_and stripe_size_kb ((stripe_size_kb + 2 ^ 32 - 1) % 2 ^ 32)

-- stripSizeBytes
pub stripe_size_bytes : ℕ → ℕ
stripe_size_bytes stripe_size_kb = stripe_size_kb * 1024 % 2 ^ 32

-- The number of blocks in a stripe, rounded up.
unfoldable pub stripe_blocks : Request → ℕ
unfolding stripe_size_bytes
stripe_blocks q =
    (stripe_size_bytes q.stripe_size_kb + q.blocklen + 2 ^ 32 - 1) % 2 ^ 32 / q.blocklen

unfoldable pub layout_of : Request → ℕ → Layout
layout_of q st_size =
    let (r, log2_r) = halvings 32 (stripe_blocks q) 0 in
    record {
      stripe_block_count = 2 ^ log2_r % 2 ^ 32;
      stripe_shift = log2_r;
      data_offset_blocks = metadata_size / q.blocklen;
      image_block_count = (st_size + q.blocklen - 1) / q.blocklen;
    }

-- The tests after `stat` has succeeded, in the order of the source.
pub check_layout : Request → ℕ → Result Layout
unfolding low_bits stripe_size_bytes
check_layout q st_size =
    if ltb (q.blockcnt * q.blocklen % 2 ^ 64) ((st_size + metadata_size) % 2 ^ 64)
    then err einval
    else if ltb q.stripe_size_kb stripe_size_min || ltb stripe_size_max q.stripe_size_kb
    then err einval
    else if not (low_bits q.stripe_size_kb == 0)
    then err einval
    else if ltb (stripe_size_bytes q.stripe_size_kb) q.blocklen
    then err einval
    else if not (metadata_size % q.blocklen == 0)
    then err einval
    else ok (layout_of q st_size)

unfoldable pub init_layout_params : Request → Result Layout
unfolding check_layout
init_layout_params q = elim q.stat [ none ↦ err einval | some st_size ↦ check_layout q st_size ]
