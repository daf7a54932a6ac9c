-- ===== src/Load/Restart.antt =====
-- A bdev that is created again over its base bdev knows which stripes have been fetched.
use bdev_ubi.Prelude.{
  ℕ, ◌<◌, ◌≡◌, ◌↔◌, refl, ap, ◌∙◌, Bool, true, not, ◌==◌, if◌then◌else◌, arith, pos,
}
use bdev_ubi.Layout.{max_stripes}
use bdev_ubi.Metadata.{
  ubi_magic, ubi_version_major, ubi_version_minor, ubi_get_version, ubi_new_disk, same_bytes,
  Metadata, ubi_init_metadata,
}
use bdev_ubi.Metadata.Version.{magic_known, init_metadata_header}
use bdev_ubi.Bdev.{UbiBdev, StripeStatus, not_fetched, fetched}
use bdev_ubi.Load.{header_fetched, read_stripes, ubi_finish_read_metadata}
use bdev_ubi.Load.Stripes.{status-read_stripes, metadata-read_stripes, counters-read_stripes}

-- The metadata in memory names exactly the stripes that have been fetched, under a header that
-- ubi_finish_read_metadata accepts.
pub record Marked (b : UbiBdev) : Type 0 where
  pub magic : b.metadata.magic ≡ ubi_magic
  pub version : ubi_get_version b.metadata ≡ (ubi_version_major, ubi_version_minor)
  pub headers :
      (i : ℕ)
      → i < max_stripes
      → (header_fetched b.metadata i ≡ true) ↔ (b.stripe_status i ≡ fetched)

-- Where a stripe stands after a restart: what was being fetched or had failed starts again.
abbrev pub restarted : StripeStatus → StripeStatus
restarted fetched = fetched
restarted _ = not_fetched

accepted :
    (b : UbiBdev)
    → b.metadata.magic ≡ ubi_magic
    → ubi_get_version b.metadata ≡ (ubi_version_major, ubi_version_minor)
    → ubi_finish_read_metadata true b ≡ (pos 0, read_stripes max_stripes 0 b)
unfolding ubi_finish_read_metadata
accepted b m v = ground (
  arith,
  ap ubi_new_disk m,
  ap (same_bytes ubi_magic) m,
  magic_known.0,
  magic_known.1,
  ap (λ p. p.0) v,
  ap (λ p. p.1) v,
)

marked_status :
    (h : Bool) (st : StripeStatus)
    → (h ≡ true) ↔ (st ≡ fetched)
    → (if h then fetched else not_fetched) ≡ restarted st
marked_status h st e = ground (arith, e.0, e.1)

-- If the metadata of a bdev, under the magic and version of the program, marks exactly the stripes
-- that are fetched, and is read into a new bdev whose two counters are equal: the new one is accepted,
-- keeps the metadata, has each stripe fetched exactly if the old one had and not fetched otherwise,
-- and counts as many stripes flushed as fetched.
pub restart :
    (old new : UbiBdev)
    → Marked old
    → new.metadata ≡ old.metadata
    → new.stripes_fetched ≡ new.stripes_flushed
    → let (status, b) = ubi_finish_read_metadata true new in
      (status ≡ pos 0)
      × (b.metadata ≡ old.metadata)
      × ((i : ℕ) → i < max_stripes → b.stripe_status i ≡ restarted (old.stripe_status i))
      × (b.stripes_fetched ≡ b.stripes_flushed)
restart old new marked same level =
    rw
      (accepted new (ap (λ m. m.magic) same ∙ marked.magic)
        (ap ubi_get_version same ∙ marked.version))
      (
        refl,
        metadata-read_stripes max_stripes 0 new ∙ same,
        λ i h.
            status-read_stripes max_stripes 0 i new (omega arith) (omega arith)
            ∙ ap (λ m. if header_fetched m i then fetched else not_fetched) same
            ∙ marked_status (header_fetched old.metadata i) (old.stripe_status i)
                (marked.headers i h),
        counters-read_stripes max_stripes 0 new level,
      )

-- A metadata area that ubi_init_metadata has filled in is accepted when it is read back, and kept as
-- it is: ubi_finish_read_metadata then passes status 0, and each stripe is fetched or not fetched as
-- the header of that stripe says.
pub finish_read-init_metadata :
    (stripe_size_kb : ℕ) (m : Metadata) (b : UbiBdev)
    → b.metadata ≡ ubi_init_metadata stripe_size_kb m
    → let (status, b') = ubi_finish_read_metadata true b in
      (status ≡ pos 0)
      × (b'.metadata ≡ b.metadata)
      × ((i : ℕ)
          → i < max_stripes
          → b'.stripe_status i ≡ (if header_fetched m i then fetched else not_fetched))
unfolding header_fetched
finish_read-init_metadata kb m b filled =
    let (magic, version, headers) = init_metadata_header kb m in
    rw (accepted b (ap (λ x. x.magic) filled ∙ magic) (ap ubi_get_version filled ∙ version)) (
      refl,
      metadata-read_stripes max_stripes 0 b,
      λ i h.
          status-read_stripes max_stripes 0 i b (omega arith) (omega arith)
          ∙ ap (λ x. if header_fetched x i then fetched else not_fetched) filled
          ∙ ap (λ (t : ℕ → ℕ × ℕ). if not ((t i).0 == 0) then fetched else not_fetched) headers,
    )
