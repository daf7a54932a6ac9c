-- ===== src/System.antt =====
-- A channel in its surroundings: requests arrive, the poller runs, and the libraries call back, in
-- any order and with any answers. The files are src/lib/bdev_ubi.c (ubi_submit_request),
-- src/lib/bdev_ubi_io_channel.c, src/lib/bdev_ubi_stripe.c and src/lib/bdev_ubi_flush.c.
pub mod Steps
pub mod Admitted
pub mod Recorded
pub mod Shared
pub mod Moving
pub mod Exclusive
pub mod Recovery
pub mod Fresh
use bdev_ubi.Prelude.{ℕ, ◌≡◌, Bool, true, List, []}
use bdev_ubi.Bdev.{UbiBdev}
use bdev_ubi.Bdev.Kept.{Kept}
use bdev_ubi.Channel.{BdevIo, UbiBdevIo, Env, State}
use bdev_ubi.Fetch.{write_stripe_io_completion}
use bdev_ubi.Flush.{
  ubi_data_flush_completion, ubi_metadata_write_completion, ubi_metadata_flush_completion,
}
use bdev_ubi.ReadWrite.{get_buf_for_read_cb, ubi_io_completion_cb}
use bdev_ubi.Request.{ubi_io_type_supported, ubi_submit_request}
use bdev_ubi.Poll.{Batch, ubi_io_poll}

-- One call into the channel. No callback is tied to the call that it answers: a step may be taken
-- with any argument at any time, which allows more than the libraries do. The last step is a change
-- of the bdev by another channel of it.
pub data Step (s : State) : State → Type 0 where
  submitted :
      (io : BdevIo) → ubi_io_type_supported io.type ≡ true → Step s (ubi_submit_request io s)
  polled : (env : Env) (batch : Batch) → Step s (ubi_io_poll env batch s).1
  buf_got :
      (env : Env) (u : UbiBdevIo) (success : Bool) → Step s (get_buf_for_read_cb env u success s)
  stripe_written : (slot : ℕ) (success : Bool) → Step s (write_stripe_io_completion slot success s)
  io_done : (u : UbiBdevIo) (success : Bool) → Step s (ubi_io_completion_cb u success s)
  data_flushed :
      (env : Env) (u : UbiBdevIo) (success : Bool)
      → Step s (ubi_data_flush_completion env u success s)
  metadata_written :
      (env : Env) (u : UbiBdevIo) (success : Bool)
      → Step s (ubi_metadata_write_completion env u success s)
  metadata_flushed :
      (u : UbiBdevIo) (success : Bool) → Step s (ubi_metadata_flush_completion u success s)
  elsewhere : (b : UbiBdev) → Kept s.bdev b → Step s (record s { bdev = b })

-- Any number of steps.
pub data Reach (s : State) : State → Type 0 where
  start : Reach s s
  later : {t u : State} → Reach s t → Step t u → Reach s u
