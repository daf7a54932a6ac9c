-- ===== src/Durable.antt =====
-- What the metadata on the base bdev holds after a flush: the callbacks of src/lib/bdev_ubi_flush.c
-- among the steps of all channels of a bdev, each callback tied to the call that it answers. Writes of
-- the metadata do not overlap here: one is issued only when that of every other flush request has ended
-- and been flushed. The source does not see to this, and the base bdev need not order overlapping writes.
-- The base bdev is taken to keep what it has reported as written and then as flushed.
pub mod Sound
pub mod Flushed
pub mod Reach
use bdev_ubi.Prelude.{ℕ, ◌+◌, ◌<◌, ◌^◌, ◌≡◌, Bool, true, false, List, ◌∷◌, if◌then◌else◌}
use bdev_ubi.FetchQueue.{update}
use bdev_ubi.Metadata.{Metadata}
use bdev_ubi.Bdev.{UbiBdev, StripeStatus, fetched, ubi_get_stripe_status}
use bdev_ubi.Channel.{
  BdevIo, UbiBdevIo, IoChannel, Call, write_metadata, flush_metadata, io_complete, Env, State,
}
use bdev_ubi.Fetch.{write_stripe_io_completion}
use bdev_ubi.Flush.{
  ubi_data_flush_completion, ubi_metadata_write_completion, ubi_metadata_flush_completion,
}
use bdev_ubi.ReadWrite.{get_buf_for_read_cb, ubi_io_completion_cb}
use bdev_ubi.Request.{ubi_submit_request}
use bdev_ubi.Load.{header_fetched}
use bdev_ubi.Poll.{Batch, ubi_io_poll}

-- The flush request whose metadata is being written or flushed, if any, and what it writes.
pub data Phase : Type 0 where
  not_writing : Phase
  writing flushing : (ubi_io : UbiBdevIo) (metadata : Metadata) → Phase

-- The bdev, the flush request that writes, the stripes that the metadata on the base bdev marks as it
-- was last flushed, and for each stripe the count of stripes fetched when it was fetched.
pub record Store : Type 0 where
  pub bdev : UbiBdev
  pub phase : Phase
  pub stable : ℕ → Bool
  pub since : ℕ → ℕ

-- The bdev as a channel finds it.
abbrev pub seen : Store → IoChannel → List Call → State
seen g ch calls = record { bdev = g.bdev; ch = ch; calls = calls }

abbrev pub is_fetched : StripeStatus → Bool
is_fetched fetched = true
is_fetched _ = false

-- The count for a stripe that is fetched: a new one, unless it had been fetched before.
abbrev pub set_since : ℕ → Store → ℕ → ℕ
set_since stripe g i =
    if is_fetched (ubi_get_stripe_status g.bdev stripe)
    then g.since i
    else update g.since stripe (g.bdev.stripes_fetched + 1) i

-- A step of a channel, whatever its own state is.
pub data StoreStep (g : Store) : Store → Type 0 where
  submitted :
      (ch : IoChannel) (calls : List Call) (io : BdevIo)
      → StoreStep g (record g { bdev = (ubi_submit_request io (seen g ch calls)).bdev })
  polled :
      (ch : IoChannel) (calls : List Call) (env : Env) (batch : Batch)
      → StoreStep g (record g { bdev = (ubi_io_poll env batch (seen g ch calls)).1.bdev })
  buf_got :
      (ch : IoChannel) (calls : List Call) (env : Env) (u : UbiBdevIo) (success : Bool)
      → StoreStep g (record g { bdev = (get_buf_for_read_cb env u success (seen g ch calls)).bdev })
  io_done :
      (ch : IoChannel) (calls : List Call) (u : UbiBdevIo) (success : Bool)
      → StoreStep g (record g { bdev = (ubi_io_completion_cb u success (seen g ch calls)).bdev })
  stripe_written :
      (ch : IoChannel) (calls : List Call) (slot : ℕ) (success : Bool)
      → g.bdev.stripes_fetched + 1 < 2 ^ 64
      → StoreStep g (record g {
        bdev = (write_stripe_io_completion slot success (seen g ch calls)).bdev;
        since = set_since (ch.stripe_fetches slot).stripe_idx g;
      })
  -- a data flush after which the metadata is written
  data_flushed :
      (ch : IoChannel) (calls : List Call) (env : Env) (u u' : UbiBdevIo) (m : Metadata) (n : ℕ)
      → g.phase ≡ not_writing
      → (ubi_data_flush_completion env u true (seen g ch calls)).calls
        ≡ write_metadata u' m n ∷ calls
      → StoreStep g (record g {
        bdev = (ubi_data_flush_completion env u true (seen g ch calls)).bdev;
        phase = writing u' m;
      })
  metadata_written :
      (ch : IoChannel) (calls : List Call) (env : Env) (u : UbiBdevIo) (m : Metadata) (n : ℕ)
      → g.phase ≡ writing u m
      → (ubi_metadata_write_completion env u true (seen g ch calls)).calls
        ≡ flush_metadata u 0 n ∷ calls
      → StoreStep g (record g {
        bdev = (ubi_metadata_write_completion env u true (seen g ch calls)).bdev;
        phase = flushing u m;
      })
  metadata_flushed :
      (ch : IoChannel) (calls : List Call) (u : UbiBdevIo) (m : Metadata)
      → g.phase ≡ flushing u m
      → StoreStep g (record g {
        bdev = (ubi_metadata_flush_completion u true (seen g ch calls)).bdev;
        phase = not_writing;
        stable = header_fetched m;
      })
  -- a flush request that ends early: with nothing to write, on a refused call, or on a failure
  data_flush_ended :
      (ch : IoChannel) (calls before : List Call) (env : Env) (u : UbiBdevIo) (success : Bool)
      → (ubi_data_flush_completion env u true (seen g ch calls)).calls
        ≡ io_complete u.bdev_io success ∷ before
      → StoreStep g
          (record g { bdev = (ubi_data_flush_completion env u true (seen g ch calls)).bdev })
  data_flush_failed :
      (ch : IoChannel) (calls : List Call) (env : Env) (u : UbiBdevIo)
      → StoreStep g
          (record g { bdev = (ubi_data_flush_completion env u false (seen g ch calls)).bdev })
  metadata_write_ended :
      (ch : IoChannel) (calls before : List Call) (env : Env) (u : UbiBdevIo) (m : Metadata)
      (success : Bool)
      → g.phase ≡ writing u m
      → (ubi_metadata_write_completion env u success (seen g ch calls)).calls
        ≡ io_complete u.bdev_io false ∷ before
      → StoreStep g (record g {
        bdev = (ubi_metadata_write_completion env u success (seen g ch calls)).bdev;
        phase = not_writing;
      })
  metadata_flush_failed :
      (ch : IoChannel) (calls : List Call) (u : UbiBdevIo) (m : Metadata)
      → g.phase ≡ flushing u m
      → StoreStep g (record g {
        bdev = (ubi_metadata_flush_completion u false (seen g ch calls)).bdev;
        phase = not_writing;
      })

pub data StoreReach (g : Store) : Store → Type 0 where
  start : StoreReach g g
  later : {h j : Store} → StoreReach g h → StoreStep h j → StoreReach g j
