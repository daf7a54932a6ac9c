-- ===== src/Data/Sim.antt =====
-- The bdev shows what a plain device shows.
use bdev_ubi.Prelude.{ℕ, ◌+◌, ◌*◌, ◌%◌, ◌^◌, ◌<◌, ◌≤◌, ◌≡◌, ◌≢◌, true, All}
use bdev_ubi.FetchQueue.{fetch_queue_size}
use bdev_ubi.Layout.{metadata_size}
use bdev_ubi.Bdev.{UbiBdev, inflight, fetched, ubi_get_stripe_status}
use bdev_ubi.Channel.{
  flush, BdevIo, StripeFetch, Call, prep_read, prep_readv, write_stripe, read_base, write_base,
  write_metadata, max_active_stripe_fetches,
}
use bdev_ubi.Fetch.{stripe_offset, stripe_nbytes}
use bdev_ubi.Fetch.Bounds.{Placed}
use bdev_ubi.Request.{stripe_of}
use bdev_ubi.Poll.Serve.{OnBase}
use bdev_ubi.Data.{Answer, World, Outside, shown}

-- What SPDK promises of a read or write: it lies within a stripe, as `split_on_optimal_io_boundary`
-- asks, and within a device whose blocks and bytes have 64-bit numbers.
pub record Split (b : UbiBdev) (io : BdevIo) : Type 0 where
  pub one_stripe :
      (j : ℕ)
      → io.offset_blocks ≤ j
      → j < io.offset_blocks + io.num_blocks
      → stripe_of b j ≡ stripe_of b io.offset_blocks
  pub blocks : io.offset_blocks + io.num_blocks + b.data_offset_blocks < 2 ^ 64
  pub bytes : io.offset_blocks * b.blocklen < 2 ^ 64

-- A request of the queue. A flush may be of any blocks.
abbrev pub SplitIo : UbiBdev → BdevIo → Type 0
SplitIo b io = io.type ≢ flush → Split b io

-- Each block of a read gets what it should.
abbrev pub Right : {V : Type 0} → Answer V → Type 0
Right a = (i : ℕ) → i < a.num_blocks → a.got i ≡ a.wanted i

-- A bdev laid out over an image of `n` whole stripes, with blocks of a length.
pub record Sized (n blocklen : ℕ) (b : UbiBdev) : Type 0 where
  pub placed : Placed b
  pub length : b.blocklen ≡ blocklen
  pub positive : 0 < b.blocklen
  pub whole : b.image_block_count ≡ n * 2 ^ b.stripe_shift
  pub small : n < fetch_queue_size

-- The active slots fetch stripes of the image that are being fetched.
abbrev pub Busy : ℕ → UbiBdev → (ℕ → StripeFetch) → Type 0
Busy n b slots =
    (k : ℕ)
    → k < max_active_stripe_fetches
    → (slots k).active ≡ true
    → (ubi_get_stripe_status b (slots k).stripe_idx ≡ inflight) × ((slots k).stripe_idx < n)

-- Stripes that are being fetched elsewhere.
abbrev pub Away : ℕ → UbiBdev → (ℕ → Type 0) → Type 0
Away n b foreign = (i : ℕ) → foreign i → (ubi_get_stripe_status b i ≡ inflight) × (i < n)

-- A call that is right for the bdev and the slots. The read of a stripe is not among them: it comes
-- with a change of its slot.
abbrev pub Proper : ℕ → UbiBdev → (ℕ → StripeFetch) → Call → Type 0
Proper n b slots (prep_read sqe slot buf nbytes offset) = ⊥
Proper n b slots (write_stripe slot buf target nbytes) =
    (slot < max_active_stripe_fetches)
    × ((slots slot).active ≡ true)
    × (target ≡ (stripe_offset b (slots slot).stripe_idx + metadata_size) % 2 ^ 64)
    × (nbytes ≡ stripe_nbytes b)
Proper n b slots (read_base u start count) =
    OnBase b u.bdev_io
    × (start ≡ (u.bdev_io.offset_blocks + b.data_offset_blocks) % 2 ^ 64)
    × (count ≡ u.bdev_io.num_blocks)
    × Split b u.bdev_io
Proper n b slots (write_base u start count) =
    OnBase b u.bdev_io
    × (start ≡ (u.bdev_io.offset_blocks + b.data_offset_blocks) % 2 ^ 64)
    × (count ≡ u.bdev_io.num_blocks)
    × Split b u.bdev_io
Proper n b slots (prep_readv u offset) =
    (u.bdev_io.offset_blocks < b.image_block_count)
    × (ubi_get_stripe_status b (stripe_of b u.bdev_io.offset_blocks) ≢ fetched)
    × (offset ≡ u.bdev_io.offset_blocks * b.blocklen % 2 ^ 64)
    × Split b u.bdev_io
Proper n b slots (write_metadata u m count) = count ≤ b.data_offset_blocks
Proper n b slots _ = Unit

module _ {V : Type 0} (x : Outside V) where
  -- The slots' buffers, the blocks shown and the reads made, for a bdev, the slots of a channel, the
  -- stripes that other channels have written, and a world.
  pub record Sim (b : UbiBdev) (slots : ℕ → StripeFetch) (foreign : ℕ → Type 0) (w : World V)
      : Type 0 where
    pub loading :
        (k : ℕ)
        → k < max_active_stripe_fetches
        → (slots k).active ≡ true
        → w.loaded k ≡ stripe_offset b (slots k).stripe_idx
    pub copied :
        (k : ℕ)
        → k < max_active_stripe_fetches
        → (slots k).active ≡ true
        → w.written k ≡ true
        → (j : ℕ) → stripe_of b j ≡ (slots k).stripe_idx
        → w.base (j + b.data_offset_blocks) ≡ x.image j
    pub spared :
        (i : ℕ)
        → foreign i
        → (j : ℕ) → stripe_of b j ≡ i
        → w.base (j + b.data_offset_blocks) ≡ x.image j
    pub shows : (j : ℕ) → shown x b w.base j ≡ w.plain j
    pub reads : All Right w.reads
