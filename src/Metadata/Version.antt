-- ===== src/Metadata/Version.antt =====
-- The two-byte numbers of the metadata, and what a new disk is given.
use bdev_ubi.Prelude.{
  ℕ, zero, suc, ◌*◌, ◌/◌, ◌%◌, ◌^◌, ◌<◌, ◌≡◌, refl, ap, ap₂, ◌∙◌, true, false, arith, bit_and-mask,
  bit_or-disjoint, bit_or, ltb, if◌then◌else◌,
}
use bdev_ubi.Layout.Size.{StripeSize}
use bdev_ubi.Metadata.{
  Metadata, ubi_magic, store_littleendian_shortint, load_littleendian_shortint, ubi_set_version,
  ubi_get_version, ubi_magic, ubi_new_disk, same_bytes, ubi_init_metadata, ubi_version_major,
  ubi_version_minor,
}

-- Reading back a stored 16-bit number gives that number.
pub load-store :
    (n : ℕ) → n < 2 ^ 16 → load_littleendian_shortint (store_littleendian_shortint n) ≡ n
unfolding store_littleendian_shortint load_littleendian_shortint
load-store n h =
    let low = bit_and-mask n 8 in
    let join = bit_or-disjoint (n % 2 ^ 8) 8 (n / 2 ^ 8 % 2 ^ 8) (omega arith) in
    ap (λ m. bit_or m (n / 2 ^ 8 % 2 ^ 8 * 2 ^ 8) % 2 ^ 16) low ∙ omega (arith, join)

-- The version that is set, of two 16-bit numbers, is the version that is read.
get-set_version :
    (major minor : ℕ) (m : Metadata)
    → major < 2 ^ 16
    → minor < 2 ^ 16
    → ubi_get_version (ubi_set_version major minor m) ≡ (major, minor)
unfolding ubi_get_version ubi_set_version
get-set_version major minor m h k = ap₂ (λ a b. (a, b)) (load-store major h) (load-store minor k)

-- What ubi_init_metadata fills in, and what it leaves.
pub init_metadata_header :
    (stripe_size_kb : ℕ) (m : Metadata)
    → let m' = ubi_init_metadata stripe_size_kb m in
      (m'.magic ≡ ubi_magic)
      × (ubi_get_version m' ≡ (ubi_version_major, ubi_version_minor))
      × (m'.stripe_headers ≡ m.stripe_headers)
unfolding ubi_init_metadata ubi_get_version load_littleendian_shortint
init_metadata_header stripe_size_kb m = (refl, refl, refl)

-- The metadata has one byte for the stripe size: of the five sizes allowed, from 64 to 1024,
-- ubi_init_metadata keeps 64 and 128, and writes 0 for the larger ones.
pub ubi_init_metadata-truncated :
    (stripe_size_kb : ℕ) (m : Metadata)
    → StripeSize stripe_size_kb
    → (ubi_init_metadata stripe_size_kb m).stripe_size_kb
      ≡ (if ltb stripe_size_kb 256 then stripe_size_kb else 0)
unfolding ubi_init_metadata
ubi_init_metadata-truncated kb m (zero, h, e) = rw e refl
ubi_init_metadata-truncated kb m (suc zero, h, e) = rw e refl
ubi_init_metadata-truncated kb m (suc (suc zero), h, e) = rw e refl
ubi_init_metadata-truncated kb m (suc (suc (suc zero)), h, e) = rw e refl
ubi_init_metadata-truncated kb m (suc (suc (suc (suc zero))), h, e) = rw e refl
ubi_init_metadata-truncated kb m (suc (suc (suc (suc (suc k)))), h, e) = absurd (omega arith)

-- The magic of the program is not that of a new disk, and is recognised.
pub magic_known : (ubi_new_disk ubi_magic ≡ false) × (same_bytes ubi_magic ubi_magic ≡ true)
unfolding ubi_new_disk same_bytes
magic_known = (refl, refl)
