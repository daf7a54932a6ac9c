-- ===== src/Channel.antt =====
-- `struct ubi_io_channel` (include/bdev_ubi_internal.h), the requests that it serves, and the calls
-- that its functions make of SPDK and liburing.
--
-- Those two libraries are not part of the repository. What they answer is the parameter `Env`, a
-- function of the calls made so far; what they are asked is kept in `State.calls`, newest first.
pub mod Evolve
use bdev_ubi.Prelude.{ℕ, Bool, ◌+◌, ◌-◌, ◌%◌, ◌^◌, Option, List, ◌∷◌, ℤ}
use bdev_ubi.FetchQueue.{FetchQueue}
use bdev_ubi.Metadata.{Metadata}
use bdev_ubi.Bdev.{UbiBdev}

-- `enum spdk_bdev_io_type`, as far as the source names it
pub data IoType : Type 0 where
  read write flush write_zeroes reset unmap other : IoType

-- The fields of `struct spdk_bdev_io` that the source reads. `id` stands for its address.
pub record BdevIo : Type 0 where
  pub id : ℕ
  pub type : IoType
  pub offset_blocks : ℕ
  pub num_blocks : ℕ

-- `struct ubi_bdev_io`, the driver's context in a request. The channel and the bdev that it points
-- to are those of the `State` that a function is given.
pub record UbiBdevIo : Type 0 where
  pub bdev_io : BdevIo
  pub block_offset : ℕ
  pub block_count : ℕ
  pub stripes_fetched : ℕ

-- `struct stripe_fetch`; its buffer is known by its address alone.
pub record StripeFetch : Type 0 where
  pub active : Bool
  pub stripe_idx : ℕ
  pub buf_aligned : ℕ

pub record IoChannel : Type 0 where
  pub blocks_read : ℕ
  pub blocks_written : ℕ
  pub stripes_fetched : ℕ
  pub active_reads : ℕ
  pub stripe_fetches : ℕ → StripeFetch  -- UBI_MAX_ACTIVE_STRIPE_FETCHES of them
  pub stripe_fetch_queue : FetchQueue
  pub has_reads : ℕ
  pub io : List BdevIo  -- the TAILQ, head first

-- UBI_MAX_ACTIVE_STRIPE_FETCHES
abbrev pub max_active_stripe_fetches : ℕ
max_active_stripe_fetches = 8

-- UBI_MAX_CONCURRENT_READS
abbrev pub max_concurrent_reads : ℕ
max_concurrent_reads = 24

-- A call of a library, with the arguments that matter here. A slot is an index into
-- `stripe_fetches`; what a callback is given as `cb_arg` is an argument.
pub data Call : Type 0 where
  -- io_uring_prep_read and io_uring_sqe_set_data; whether the entry was got, buffer, bytes, offset
  prep_read : (sqe : Bool) (slot buf nbytes offset : ℕ) → Call
  -- io_uring_prep_readv and io_uring_sqe_set_data, with the offset
  prep_readv : (ubi_io : UbiBdevIo) (offset : ℕ) → Call
  uring_submit : Call
  -- spdk_bdev_write of a fetched stripe: buffer, offset and bytes
  write_stripe : (slot buf offset nbytes : ℕ) → Call
  -- spdk_bdev_readv_blocks_ext, spdk_bdev_writev_blocks_ext: start and count
  read_base : (ubi_io : UbiBdevIo) (start_block num_blocks : ℕ) → Call
  write_base : (ubi_io : UbiBdevIo) (start_block num_blocks : ℕ) → Call
  -- spdk_bdev_flush_blocks, for the data and for the metadata
  flush_data : (ubi_io : UbiBdevIo) (start_block num_blocks : ℕ) → Call
  flush_metadata : (ubi_io : UbiBdevIo) (start_block num_blocks : ℕ) → Call
  -- spdk_bdev_write_blocks of the metadata, at block 0
  write_metadata : (ubi_io : UbiBdevIo) (metadata : Metadata) (num_blocks : ℕ) → Call
  -- spdk_bdev_io_get_buf
  get_buf : (ubi_io : UbiBdevIo) (len : ℕ) → Call
  -- spdk_bdev_io_complete, with success or failure
  io_complete : (bdev_io : BdevIo) (success : Bool) → Call

pub record Env : Type 0 where
  -- what a call that returns an `int` returns
  pub ret : List Call → Call → ℤ
  -- whether io_uring_get_sqe finds a free entry
  pub get_sqe : List Call → Bool
  -- whether spdk_bdev_io_get_buf runs its callback at once, and with which success
  pub buf_now : List Call → UbiBdevIo → Option Bool
  -- the address of the buffer of a slot
  pub buf : ℕ → ℕ

pub record State : Type 0 where
  pub bdev : UbiBdev
  pub ch : IoChannel
  pub calls : List Call

-- A call of a function that returns nothing.
abbrev pub emit : Call → State → State
emit c s = record s { calls = c ∷ s.calls }

-- A call of a function that returns an `int`.
abbrev pub issue : Env → Call → State → ℤ × State
issue env c s = (env.ret s.calls c, emit c s)

-- n++ and n-- on uint64_t
abbrev pub inc64 : ℕ → ℕ
inc64 n = (n + 1) % 2 ^ 64

abbrev pub dec64 : ℕ → ℕ
dec64 n = (n + 2 ^ 64 - 1) % 2 ^ 64
