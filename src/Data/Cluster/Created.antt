-- ===== src/Data/Cluster/Created.antt =====
-- A bdev from its creation on.
use bdev_ubi.Prelude.{ℕ, ◌*◌, ◌^◌, ◌<◌, ◌≡◌, ◌≢◌, refl, sym, ◌∙◌, subst, true, some, All, arith}
use bdev_ubi.Errno.{ok}
use bdev_ubi.FetchQueue.{fetch_queue_size}
use bdev_ubi.Layout.{Layout, init_layout_params}
use bdev_ubi.Layout.Accept.{InRange, init-eq-check, conditions-Accepts}
use bdev_ubi.Layout.Size.{StripeSize-low_bits}
use bdev_ubi.Metadata.{Metadata, ubi_new_disk}
use bdev_ubi.Bdev.{UbiBdev, inflight, ubi_get_stripe_status}
use bdev_ubi.Channel.{IoChannel}
use bdev_ubi.Create.{Opts, Answers, request_of, configured}
use bdev_ubi.Create.Placed.{configured-Placed}
use bdev_ubi.Fetch.Bounds.{Placed}
use bdev_ubi.Load.{ubi_finish_read_metadata}
use bdev_ubi.Load.Stripes.{finish_read-new_disk, finish_read-SameLayout, finish_read-settled}
use bdev_ubi.Open.Balance.{Idle}
use bdev_ubi.Request.{stripe_of}
use bdev_ubi.Data.{Outside, shown}
use bdev_ubi.Data.Sim.{Right, Sized}
use bdev_ubi.Data.Change.{Sized-SameLayout}
use bdev_ubi.Data.Cluster.{Cluster, DataReach}
use bdev_ubi.Data.Cluster.Plain.{opened, DataReach-plain}

-- The bdev that bdev_ubi_create configures, with the metadata that its base bdev holds.
abbrev pub created_bdev : Answers → Opts → Layout → Metadata → UbiBdev
created_bdev a o l m =
    (ubi_finish_read_metadata true (record (configured a o l) { metadata = m })).1

stripe_size_some :
    (a : Answers) (o : Opts) (st_size : ℕ) (l : Layout)
    → InRange (request_of a o) st_size
    → a.stat ≡ some st_size
    → init_layout_params (request_of a o) ≡ ok l
    → 0 < o.stripe_size_kb
stripe_size_some a o st_size l range found h =
    let checked = sym (init-eq-check (request_of a o) st_size range found) ∙ h in
    let accepted = conditions-Accepts (request_of a o) st_size range l checked in
    let (low, _, _) = StripeSize-low_bits o.stripe_size_kb accepted.stripe_size in
    omega (arith, low)

module _ (a : Answers) (o : Opts) (l : Layout) (m : Metadata) where
  created-settled : (i : ℕ) → ubi_get_stripe_status (created_bdev a o l m) i ≢ inflight
  unfolding ubi_get_stripe_status configured
  created-settled =
      finish_read-settled true (record (configured a o l) { metadata = m }) (λ j e. cc)

  positive_blocklen :
      (b : UbiBdev) (kb : ℕ) → 2 ^ b.stripe_shift * b.blocklen ≡ kb * 1024 → 0 < kb → 0 < b.blocklen
  positive_blocklen b kb e h = grind arith

  created-Sized :
      (n : ℕ)
      → Placed (configured a o l)
      → 0 < o.stripe_size_kb
      → n < fetch_queue_size
      → l.image_block_count ≡ n * 2 ^ l.stripe_shift
      → Sized n a.base_blocklen (created_bdev a o l m)
  unfolding configured
  created-Sized n p size small whole =
      let b : UbiBdev = record (configured a o l) { metadata = m } in
      let before : Sized n a.base_blocklen b = record {
        placed = record {
          stripe_size = p.stripe_size;
          stripe_bytes = p.stripe_bytes;
          metadata_bytes = p.metadata_bytes;
        };
        length = refl;
        positive = positive_blocklen b o.stripe_size_kb p.stripe_bytes size;
        whole = whole;
        small = small;
      } in
      Sized-SameLayout b (created_bdev a o l m) (finish_read-SameLayout true b) n a.base_blocklen
        before

  -- A new bdev shows its image.
  new_disk-shown :
      {V : Type 0} (x : Outside V) (base : ℕ → V)
      → ubi_new_disk m.magic ≡ true
      → (j : ℕ) → j < l.image_block_count
      → shown x (created_bdev a o l m) base j ≡ x.image j
  unfolding configured ubi_get_stripe_status
  new_disk-shown x base fresh j inside =
      let b : UbiBdev = record (configured a o l) { metadata = m } in
      let image = (finish_read-SameLayout true b).image in
      ground
        (arith, inside, image, finish_read-new_disk b (stripe_of (created_bdev a o l m) j) fresh)

-- With sizes that fit 64 bits, for a bdev that bdev_ubi_create configures over an image of whole
-- stripes, at most 32767 of them, with a layout that ubi_init_layout_params returned, and that has taken
-- over the metadata of its base bdev, whatever that holds: behind any steps of its channels, all of which
-- start as ubi_create_channel_cb leaves them, under the conditions of DataReach-plain, the bdev shows in
-- every block what the plain device holds, which started with what the bdev showed at first, and each
-- read was given in every block what that device held when the read was made. If the metadata was that of
-- a new disk, then what the bdev showed at first in the blocks of the image is the image.
pub created-plain :
    {V : Type 0} (x : Outside V) (a : Answers) (o : Opts) (st_size : ℕ) (l : Layout) (m : Metadata)
    (n : ℕ) (channels : ℕ → IoChannel) (base : ℕ → V)
    → InRange (request_of a o) st_size
    → a.base_blockcnt < 2 ^ 64
    → a.stat ≡ some st_size
    → init_layout_params (request_of a o) ≡ ok l
    → x.blocklen ≡ a.base_blocklen
    → n < fetch_queue_size
    → l.image_block_count ≡ n * 2 ^ l.stripe_shift
    → ((k : ℕ) → Idle (channels k))
    → {d : Cluster V} → DataReach x (opened x (created_bdev a o l m) channels base) d
    → ((j : ℕ) → shown x d.bdev d.base j ≡ d.plain j)
      × All Right d.reads
      × (ubi_new_disk m.magic ≡ true
          → (j : ℕ) → j < l.image_block_count
          → (opened x (created_bdev a o l m) channels base).plain j ≡ x.image j)
created-plain x a o st_size l m n channels base range short found h same small whole idle r =
    let placed = (configured-Placed a o st_size l range short found h).0 in
    let sized : Sized n x.blocklen (created_bdev a o l m) =
      subst (λ t. Sized n t (created_bdev a o l m)) (sym same)
        (created-Sized a o l m n placed (stripe_size_some a o st_size l range found h) small
          whole) in
    let (shows, reads) =
      DataReach-plain x n (created_bdev a o l m) channels base sized (created-settled a o l m) idle
        r in
    (shows, reads, λ fresh j inside. new_disk-shown a o l m x base fresh j inside)
