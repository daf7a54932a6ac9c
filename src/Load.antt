-- ===== src/Load.antt =====
-- src/lib/bdev_ubi.c, ubi_finish_read_metadata: what a bdev takes from the metadata area of its
-- base bdev. The function's calls of SPDK and of ubi_finish_create are not part of this file: the
-- result is the status that it passes to ubi_finish_create, beside the bdev.
pub mod Stripes
pub mod Restart
use bdev_ubi.Prelude.{
  ℕ, zero, suc, ◌+◌, Bool, true, false, ◌||◌, not, ℤ, pos, ltb, ◌==◌, if◌then◌else◌,
}
use bdev_ubi.Errno.{eio, einval}
use bdev_ubi.FetchQueue.{update}
use bdev_ubi.Layout.{max_stripes}
use bdev_ubi.Metadata.{
  Metadata, ubi_magic, ubi_version_major, ubi_version_minor, ubi_get_version, ubi_new_disk,
  same_bytes, ubi_init_metadata,
}
use bdev_ubi.Bdev.{UbiBdev, not_fetched, fetched}
use bdev_ubi.Channel.{inc64}

-- bool fetched = metadata->stripe_headers[i][0]
unfoldable pub header_fetched : Metadata → ℕ → Bool
header_fetched m i = not ((m.stripe_headers i).0 == 0)

-- One round of the loop over the stripes.
pub read_stripe : ℕ → UbiBdev → UbiBdev
unfolding header_fetched
read_stripe i b =
    let b' = record b {
      stripe_status =
          update b.stripe_status i (if header_fetched b.metadata i then fetched else not_fetched);
    } in
    if header_fetched b.metadata i
    then record b' {
      stripes_fetched = inc64 b.stripes_fetched;
      stripes_flushed = inc64 b.stripes_flushed;
    }
    else b'

-- `n` rounds, from stripe `i` on.
pub read_stripes : ℕ → ℕ → UbiBdev → UbiBdev
read_stripes zero i b = b
read_stripes (suc n) i b = read_stripes n (i + 1) (read_stripe i b)

unfoldable pub ubi_finish_read_metadata : Bool → UbiBdev → ℤ × UbiBdev
ubi_finish_read_metadata success b =
    let (major, minor) = ubi_get_version b.metadata in
    let initialised = record b { metadata = ubi_init_metadata b.stripe_size_kb b.metadata } in
    if not success
    then (eio, b)
    else if ubi_new_disk b.metadata.magic
    then (pos 0, initialised)
    else if not (same_bytes ubi_magic b.metadata.magic)
    then (einval, b)
    else if not (major == ubi_version_major) || not (minor == ubi_version_minor)
    then (einval, b)
    else (pos 0, read_stripes max_stripes 0 b)
