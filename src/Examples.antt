-- ===== src/Examples.antt =====
-- Concrete runs of the model, and each theorem at a concrete input.
pub mod Lifecycle
pub mod Opening
pub mod Parts
pub mod Remote
pub mod Sharing
pub mod Promises
pub mod Progress
pub mod Flushing
pub mod Contents
pub mod Accounts
use bdev_ubi.Prelude.{
  ℕ, ◌+◌, ◌*◌, ◌%◌, ◌^◌, ◌≤◌, ◌<◌, ◌≡◌, ◌≢◌, ◌↔◌, ◌⊎◌, refl, true, false, pos, some, [], ◌∷◌, ◌++◌,
  All, arith, ◌==◌, ◌&&◌, if◌then◌else◌,
}
use bdev_ubi.Errno.{ok, err, einval}
use bdev_ubi.Layout.{Request, max_stripes, layout_of, init_layout_params}
use bdev_ubi.Layout.Accept.{Accepts, InRange, init_layout_params-Accepts}
use bdev_ubi.Layout.Geometry.{Geometry, init_layout_params-Geometry}
use bdev_ubi.FetchQueue.{FetchQueue, enqueue_stripe, dequeue_stripe, stripe_queue_empty}
use bdev_ubi.FetchQueue.Contents.{contents, IsValid}
use bdev_ubi.FetchQueue.Refine.{
  length-contents, contents-enqueue_stripe, contents-dequeue_stripe, stripe_queue_empty_iff,
}
use bdev_ubi.Metadata.{
  Metadata, load_littleendian_shortint, ubi_magic, ubi_version_major, ubi_version_minor,
  ubi_set_version, ubi_get_version, ubi_new_disk, same_bytes, ubi_init_metadata,
}
use bdev_ubi.Metadata.Version.{ubi_init_metadata-truncated}
use bdev_ubi.Bdev.{UbiBdev, StripeStatus, not_fetched, fetched, failed, ubi_get_stripe_status}
use bdev_ubi.Channel.{
  read, write, flush, BdevIo, UbiBdevIo, IoChannel, Env, State, flush_data, flush_metadata,
  write_metadata, max_concurrent_reads,
}
use bdev_ubi.Channel.Evolve.{Evolves}
use bdev_ubi.Fetch.{align_buf, stripe_nbytes}
use bdev_ubi.Fetch.Bounds.{buf_size, align_buf_fits, Placed}
use bdev_ubi.Request.{ubi_io_type_supported, stripe_of, wants_stripe, end_block, ubi_submit_request}
use bdev_ubi.Request.Admission.{Admitted}
use bdev_ubi.Flush.{
  ubi_submit_flush_request, metadata_blocks, ubi_data_flush_completion,
  ubi_metadata_write_completion, ubi_metadata_flush_completion,
}
use bdev_ubi.Load.{header_fetched, ubi_finish_read_metadata}
use bdev_ubi.Load.Restart.{Marked, restarted, restart}
use bdev_ubi.Poll.{entries, is_empty, io_loop, submit_reads, ubi_io_poll}
use bdev_ubi.Poll.Serve.{Safe}
use bdev_ubi.Poll.Safety.{ubi_io_poll-Safe}
use bdev_ubi.Poll.Order.{Drained, io_loop-Drained}
use bdev_ubi.Poll.Evolve.{ubi_io_poll-Evolves}
use bdev_ubi.System.{submitted, polled, Reach, start, later}
use bdev_ubi.Bdev.Kept.{Recorded}
use bdev_ubi.System.Admitted.{Reach-Admitted, FailsOnlyFailed, loop_start, Reach-FailsOnlyFailed}

-- A bdev with an image of 64 stripes of 64 KiB, on blocks of 512 bytes; stripe 0 has been fetched.
abbrev pub test_metadata : Metadata
test_metadata = record {
  magic = ubi_magic;
  version_major = (0, 0);
  version_minor = (1, 0);
  stripe_size_kb = 64;
  stripe_headers = λ i. if i == 0 then (1, 0) else (0, 0);
}

abbrev pub test_status : ℕ → StripeStatus
test_status i = if i == 0 then fetched else not_fetched

abbrev pub test_bdev : UbiBdev
test_bdev = record {
  blocklen = 512;
  blockcnt = 40960;
  stripe_size_kb = 64;
  stripe_block_count = 128;
  stripe_shift = 7;
  data_offset_blocks = 16384;
  image_block_count = 8192;
  alignment_bytes = 4096;
  no_sync = false;
  copy_on_read = true;
  directio = false;
  stripe_status = test_status;
  metadata = test_metadata;
  stripes_fetched = 1;
  stripes_flushed = 0;
}

abbrev pub three_waiting : FetchQueue
three_waiting = record { entries = λ i. i % 7; head = 32767; tail = 2 }

abbrev empty_queue : FetchQueue
empty_queue = record { entries = λ i. 0; head = 0; tail = 0 }

abbrev read_io : BdevIo
read_io = record { id = 1; type = read; offset_blocks = 8; num_blocks = 8 }

abbrev pub write_io : BdevIo
write_io = record { id = 2; type = write; offset_blocks = 300; num_blocks = 4 }

abbrev pub test_channel : IoChannel
test_channel = record {
  blocks_read = 0;
  blocks_written = 0;
  stripes_fetched = 0;
  active_reads = 0;
  stripe_fetches = λ i. record { active = false; stripe_idx = 0; buf_aligned = 0 };
  stripe_fetch_queue = empty_queue;
  has_reads = 0;
  io = [];
}

-- No request has arrived.
abbrev pub fresh : State
fresh = record { bdev = test_bdev; ch = test_channel; calls = [] }

-- Two requests wait.
abbrev waiting : State
waiting = record fresh { ch = record test_channel { io = read_io ∷ write_io ∷ [] } }

-- Every call succeeds, and buffers are there at once.
abbrev pub willing : Env
willing = record {
  ret = λ calls c. pos 0;
  get_sqe = λ calls. true;
  buf_now = λ calls u. some true;
  buf = λ slot. 1000 * slot;
}

abbrev pub flush_ctx : UbiBdevIo
flush_ctx = record {
  bdev_io = record { id = 3; type = flush; offset_blocks = 0; num_blocks = 8192 };
  block_offset = 0;
  block_count = 8192;
  stripes_fetched = 1;
}

ubi_io_poll-Safe_example :
    All
      (Safe (ubi_io_poll willing (entries []) waiting).1.bdev)
      (ubi_io_poll willing (entries []) waiting).1.calls
ubi_io_poll-Safe_example = ubi_io_poll-Safe willing (entries []) waiting refl

pub write_supported : ubi_io_type_supported write ≡ true
unfolding ubi_io_type_supported
write_supported = refl

-- A write arrives, and the poller runs.
polled_once : Reach fresh (ubi_io_poll willing (entries []) (ubi_submit_request write_io fresh)).1
polled_once = later (later start (submitted write_io write_supported)) (polled willing (entries []))

Reach-Admitted_example :
    Admitted (ubi_io_poll willing (entries []) (ubi_submit_request write_io fresh)).1
Reach-Admitted_example = Reach-Admitted refl polled_once

one_waits :
    is_empty (ubi_submit_request write_io fresh).ch.io
      && stripe_queue_empty (ubi_submit_request write_io fresh).ch.stripe_fetch_queue
    ≡ false
unfolding ubi_submit_request wants_stripe stripe_of end_block ubi_get_stripe_status
one_waits = refl

Reach-FailsOnlyFailed_example :
    let t = ubi_submit_request write_io fresh in
    let l = loop_start willing (entries []) t in
    ((ubi_io_poll willing (entries []) t).1 ≡ submit_reads willing (io_loop willing l.ch.io l))
    × FailsOnlyFailed willing l.ch.io l
Reach-FailsOnlyFailed_example =
    Reach-FailsOnlyFailed willing (entries []) refl
      (later start (submitted write_io write_supported)) one_waits

io_loop-Drained_example :
    Drained (read_io ∷ write_io ∷ []) [] (io_loop willing (read_io ∷ write_io ∷ []) waiting)
io_loop-Drained_example = io_loop-Drained willing (read_io ∷ write_io ∷ []) waiting refl

pub test_bdev-Marked : Marked test_bdev
unfolding ubi_get_version load_littleendian_shortint header_fetched
test_bdev-Marked = record {
  magic = refl;
  version = refl;
  headers = λ i h. (λ e. ground arith, λ e. ground arith);
}

-- The bdev of a new process, into which the same metadata has been read.
abbrev pub reborn : UbiBdev
reborn = record test_bdev { stripe_status = λ i. not_fetched; stripes_fetched = 0 }

pub three-IsValid : IsValid three_waiting
three-IsValid = record { head_in = omega arith; tail_in = omega arith }
