-- ===== src/System/Moving.antt =====
-- Every step of a channel keeps its ring and slots in order.
use bdev_ubi.Prelude.{ℕ, ◌<◌, Bool, arith}
use bdev_ubi.FetchQueue.{fetch_queue_size}
use bdev_ubi.Channel.{UbiBdevIo, Env, State}
use bdev_ubi.Flush.{
  ubi_data_flush_completion, ubi_metadata_write_completion, ubi_metadata_flush_completion,
}
use bdev_ubi.ReadWrite.{get_buf_for_read_cb, ubi_io_completion_cb}
use bdev_ubi.Ownership.{Moves, Fits}
use bdev_ubi.Ownership.Passing.{Quiet, Quiet-Moves}
use bdev_ubi.Ownership.Fetching.{stripe_written-Moves}
use bdev_ubi.Request.Ownership.{submit-Moves}
use bdev_ubi.Poll.Ownership.{ubi_io_poll-Moves}
use bdev_ubi.System.{
  Step, submitted, polled, buf_got, stripe_written, io_done, data_flushed, metadata_written,
  metadata_flushed, elsewhere,
}
use bdev_ubi.System.Shared.{StepDue}

get_buf-Quiet :
    (env : Env) (u : UbiBdevIo) (success : Bool) (s : State)
    → Quiet s (get_buf_for_read_cb env u success s)
unfolding get_buf_for_read_cb
get_buf-Quiet env u success s = record {
  ring = ground arith;
  slots = ground arith;
  statuses = ground arith;
  headers = ground arith;
}

io_done-Quiet :
    (u : UbiBdevIo) (success : Bool) (s : State) → Quiet s (ubi_io_completion_cb u success s)
unfolding ubi_io_completion_cb
io_done-Quiet u success s = record {
  ring = ground arith;
  slots = ground arith;
  statuses = ground arith;
  headers = ground arith;
}

data_flushed-Quiet :
    (env : Env) (u : UbiBdevIo) (success : Bool) (s : State)
    → Quiet s (ubi_data_flush_completion env u success s)
unfolding ubi_data_flush_completion
data_flushed-Quiet env u success s = record {
  ring = ground arith;
  slots = ground arith;
  statuses = ground arith;
  headers = ground arith;
}

metadata_written-Quiet :
    (env : Env) (u : UbiBdevIo) (success : Bool) (s : State)
    → Quiet s (ubi_metadata_write_completion env u success s)
unfolding ubi_metadata_write_completion
metadata_written-Quiet env u success s = record {
  ring = ground arith;
  slots = ground arith;
  statuses = ground arith;
  headers = ground arith;
}

metadata_flushed-Quiet :
    (u : UbiBdevIo) (success : Bool) (s : State)
    → Quiet s (ubi_metadata_flush_completion u success s)
unfolding ubi_metadata_flush_completion
metadata_flushed-Quiet u success s = record {
  ring = ground arith;
  slots = ground arith;
  statuses = ground arith;
  headers = ground arith;
}

pub Step-Moves :
    (n : ℕ) {s t : State} (st : Step s t)
    → n < fetch_queue_size
    → Fits n s.bdev
    → StepDue st
    → Moves n s t
Step-Moves n {s} (submitted io h) small fits due = submit-Moves n io s small fits
Step-Moves n {s} (polled env batch) small fits due = ubi_io_poll-Moves n env batch s due
Step-Moves n {s} (buf_got env u success) small fits due =
    Quiet-Moves n s _ (get_buf-Quiet env u success s)
Step-Moves n {s} (stripe_written slot success) small fits due =
    stripe_written-Moves n s slot due.0 due.1 success
Step-Moves n {s} (io_done u success) small fits due = Quiet-Moves n s _ (io_done-Quiet u success s)
Step-Moves n {s} (data_flushed env u success) small fits due =
    Quiet-Moves n s _ (data_flushed-Quiet env u success s)
Step-Moves n {s} (metadata_written env u success) small fits due =
    Quiet-Moves n s _ (metadata_written-Quiet env u success s)
Step-Moves n {s} (metadata_flushed u success) small fits due =
    Quiet-Moves n s _ (metadata_flushed-Quiet u success s)
Step-Moves n {s} (elsewhere b k) small fits due = absurd due
