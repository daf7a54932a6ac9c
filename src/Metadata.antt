-- ===== src/Metadata.antt =====
-- The metadata area at the start of a base bdev: `struct ubi_metadata`
-- (include/bdev_ubi_internal.h), and what src/lib/bdev_ubi.c reads and writes of it.
-- The padding is left out: the source never touches it. A byte is a number below 256.
pub mod Version
use bdev_ubi.Prelude.{
  ℕ, zero, suc, ◌+◌, ◌*◌, ◌/◌, ◌%◌, ◌^◌, Bool, true, false, ◌&&◌, List, [], ◌∷◌, ◌==◌,
  if◌then◌else◌, bit_and, bit_or,
}

pub record Metadata : Type 0 where
  pub magic : List ℕ
  pub version_major : ℕ × ℕ
  pub version_minor : ℕ × ℕ
  pub stripe_size_kb : ℕ
  pub stripe_headers : ℕ → ℕ × ℕ

-- UBI_MAGIC, "BDEV_UBI" with its final zero: UBI_MAGIC_SIZE bytes
abbrev pub ubi_magic : List ℕ
ubi_magic = 0x42 ∷ 0x44 ∷ 0x45 ∷ 0x56 ∷ 0x5f ∷ 0x55 ∷ 0x42 ∷ 0x49 ∷ 0 ∷ []

-- UBI_VERSION_MAJOR
abbrev pub ubi_version_major : ℕ
ubi_version_major = 0

-- UBI_VERSION_MINOR
abbrev pub ubi_version_minor : ℕ
ubi_version_minor = 1

pub store_littleendian_shortint : ℕ → ℕ × ℕ
store_littleendian_shortint n = (bit_and n 0xff, n / 2 ^ 8 % 2 ^ 8)

unfoldable pub load_littleendian_shortint : ℕ × ℕ → ℕ
load_littleendian_shortint (m0, m1) = bit_or m0 (m1 * 2 ^ 8) % 2 ^ 16

pub ubi_set_version : ℕ → ℕ → Metadata → Metadata
ubi_set_version major minor m = record m {
  version_major = store_littleendian_shortint major;
  version_minor = store_littleendian_shortint minor;
}

unfoldable pub ubi_get_version : Metadata → ℕ × ℕ
ubi_get_version m =
    (load_littleendian_shortint m.version_major, load_littleendian_shortint m.version_minor)

-- The magic bytes are all zero: nothing has been written yet.
unfoldable pub ubi_new_disk : List ℕ → Bool
ubi_new_disk [] = true
ubi_new_disk (b ∷ magic) = if b == 0 then ubi_new_disk magic else false

-- !memcmp(a, b, n), on arrays of one length
pub same_bytes : List ℕ → List ℕ → Bool
same_bytes [] [] = true
same_bytes (a ∷ as') (b ∷ bs) = (a == b) && same_bytes as' bs
same_bytes _ _ = false

-- `stripe_size_kb` is a uint32_t of the bdev and a uint8_t of the metadata.
pub ubi_init_metadata : ℕ → Metadata → Metadata
unfolding ubi_set_version store_littleendian_shortint
ubi_init_metadata stripe_size_kb m =
    let n = record m { magic = ubi_magic } in
    let n' = ubi_set_version ubi_version_major ubi_version_minor n in
    record n' { stripe_size_kb = stripe_size_kb % 2 ^ 8 }
