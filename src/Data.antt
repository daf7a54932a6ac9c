-- ===== src/Data.antt =====
-- The contents of the blocks: what the base bdev and the image hold, what a client is to see, and what
-- the calls of a channel do to it. The base bdev carries out the calls in the order in which they are
-- made, or refuses them.
pub mod Place
pub mod Sim
pub mod Calls
pub mod Copy
pub mod Perform
pub mod Change
pub mod Good
pub mod Fetching
pub mod Serving
pub mod Flushing
pub mod Polling
pub mod Arriving
pub mod Stepping
pub mod Cluster
use bdev_ubi.Prelude.{
  ℕ, ◌+◌, ◌-◌, ◌*◌, ◌/◌, ◌^◌, ◌<◌, ◌≤◌, ◌≡◌, ◌≢◌, Bool, true, false, ◌&&◌, not, List, [], ◌∷◌, All,
  leb, ltb, if◌then◌else◌,
}
use bdev_ubi.FetchQueue.{update, fetch_queue_size}
use bdev_ubi.Metadata.{Metadata}
use bdev_ubi.Bdev.{UbiBdev, fetched, ubi_get_stripe_status}
use bdev_ubi.Channel.{
  BdevIo, UbiBdevIo, Call, prep_read, prep_readv, write_stripe, read_base, write_base,
  write_metadata, State, max_active_stripe_fetches,
}
use bdev_ubi.Fetch.{stripe_offset}
use bdev_ubi.Fetch.Bounds.{Placed}
use bdev_ubi.ReadWrite.{is_fetched}
use bdev_ubi.Request.{stripe_of}

-- A read: what it gets for each of its blocks, and what it should.
pub record Answer (V : Type 0) : Type 0 where
  pub num_blocks : ℕ
  pub got : ℕ → V
  pub wanted : ℕ → V

-- The blocks of the base bdev; those of a plain device on which only the writes of the clients are
-- carried out; for each slot the place in the image that its buffer is read from, and whether a write
-- of the buffer has been carried out since; and the reads, newest first. The place is that of the read
-- prepared last for the slot. This is what the buffer holds at the end of that read as long as
-- io_uring_submit does not fail, which the theorems ask for: a slot is then used again only when the
-- read before has ended.
pub record World (V : Type 0) : Type 0 where
  pub base : ℕ → V
  pub plain : ℕ → V
  pub loaded : ℕ → ℕ
  pub written : ℕ → Bool
  pub reads : List (Answer V)

abbrev pub in_range : ℕ → ℕ → ℕ → Bool
in_range start n j = leb start j && ltb j (start + n)

-- What lies outside the repository: the image, block by block; the data of a write, and the metadata,
-- likewise; and the length of a block.
pub record Outside (V : Type 0) : Type 0 where
  pub image : ℕ → V
  pub payload : UbiBdevIo → ℕ → V
  pub metadata_block : Metadata → ℕ → V
  pub blocklen : ℕ

-- Whether a call is carried out, given the calls before it.
abbrev pub Carried : Type 0
Carried = List Call → Call → Bool

module _ {V : Type 0} (x : Outside V) where
  -- Some blocks are overwritten.
  abbrev pub overwrite : ℕ → ℕ → (ℕ → V) → (ℕ → V) → ℕ → V
  overwrite start n new old j = if in_range start n j then new (j - start) else old j

  -- A call that is carried out.
  abbrev pub effect : Call → World V → World V
  effect (write_stripe slot buf target nbytes) w = record w {
    base =
        overwrite (target / x.blocklen) (nbytes / x.blocklen)
          (λ i. x.image (w.loaded slot / x.blocklen + i)) w.base;
    written = update w.written slot true;
  }
  effect (write_base u start n) w = record w {
    base = overwrite start n (x.payload u) w.base;
    plain = overwrite u.bdev_io.offset_blocks u.bdev_io.num_blocks (x.payload u) w.plain;
  }
  effect (write_metadata u m n) w = record w { base = overwrite 0 n (x.metadata_block m) w.base }
  effect _ w = w

  -- What a call asks for, whether it is carried out or not.
  abbrev pub request : Call → World V → World V
  request (prep_read sqe slot buf nbytes offset) w = record w {
    loaded = update w.loaded slot offset;
    written = update w.written slot false;
  }
  request (read_base u start n) w = record w {
    reads =
        record {
          num_blocks = n;
          got = λ i. w.base (start + i);
          wanted = λ i. w.plain (u.bdev_io.offset_blocks + i);
        }
        ∷ w.reads;
  }
  request (prep_readv u offset) w = record w {
    reads =
        record {
          num_blocks = u.bdev_io.num_blocks;
          got = λ i. x.image (offset / x.blocklen + i);
          wanted = λ i. w.plain (u.bdev_io.offset_blocks + i);
        }
        ∷ w.reads;
  }
  request _ w = w

  -- A call, given the calls before it.
  abbrev pub perform : Carried → List Call → Call → World V → World V
  perform carried before c w =
      let asked = request c w in if carried before c then effect c asked else asked

  -- The world after some calls, newest first.
  abbrev pub run : Carried → World V → List Call → World V
  run carried w [] = w
  run carried w (c ∷ calls) = perform carried calls c (run carried w calls)

  -- What the bdev shows of a block: the image, until its stripe has been fetched.
  abbrev pub shown : UbiBdev → (ℕ → V) → ℕ → V
  shown b base j =
      if ltb j b.image_block_count && not (is_fetched (ubi_get_stripe_status b (stripe_of b j)))
      then x.image j
      else base (j + b.data_offset_blocks)
