-- ===== src/System/Shared.antt =====
-- A bdev with any number of channels, each with its own requests, ring and slots.
use bdev_ubi.Prelude.{ℕ, ◌<◌, ◌≡◌, ◌==◌, if◌then◌else◌, true, false, is_neg, List}
use bdev_ubi.Bdev.{UbiBdev}
use bdev_ubi.Channel.{IoChannel, Call, uring_submit, State, max_active_stripe_fetches}
use bdev_ubi.Poll.Ownership.{BatchDue}
use bdev_ubi.System.{
  Step, submitted, polled, buf_got, stripe_written, io_done, data_flushed, metadata_written,
  metadata_flushed, elsewhere,
}

-- What SPDK and liburing promise of a step: the end of a read or write of a stripe is reported for a
-- slot that is in use. All that happens elsewhere is a step of another channel.
abbrev pub StepDue : {s t : State} → Step s t → Type 0
StepDue (submitted io h) = Unit
StepDue {s} (polled env batch) = BatchDue env batch s
StepDue (buf_got env u success) = Unit
StepDue {s} (stripe_written slot success) =
    (slot < max_active_stripe_fetches) × ((s.ch.stripe_fetches slot).active ≡ true)
StepDue (io_done u success) = Unit
StepDue (data_flushed env u success) = Unit
StepDue (metadata_written env u success) = Unit
StepDue (metadata_flushed u success) = Unit
StepDue (elsewhere b k) = ⊥

-- io_uring_submit does not fail in a step. After a failure the slot of a fetch is free while its entry is
-- still prepared, and what is read for a slot is no longer what was asked for last.
abbrev pub Submitting : {s t : State} → Step s t → Type 0
Submitting (polled env batch) = (calls : List Call) → is_neg (env.ret calls uring_submit) ≡ false
Submitting _ = Unit

-- The channels are numbered; one that is not open is idle.
pub record Shared : Type 0 where
  pub bdev : UbiBdev
  pub channels : ℕ → IoChannel
  pub calls : ℕ → List Call

abbrev pub view : Shared → ℕ → State
view g k = record { bdev = g.bdev; ch = g.channels k; calls = g.calls k }

abbrev pub put : ℕ → State → Shared → Shared
put k t g = record {
  bdev = t.bdev;
  channels = λ l. if l == k then t.ch else g.channels l;
  calls = λ l. if l == k then t.calls else g.calls l;
}

-- One channel takes a step.
pub data SharedStep (g : Shared) : Shared → Type 0 where
  by : (k : ℕ) {t : State} (st : Step (view g k) t) → StepDue st → SharedStep g (put k t g)

pub data SharedReach (g : Shared) : Shared → Type 0 where
  start : SharedReach g g
  later : {h j : Shared} → SharedReach g h → SharedStep h j → SharedReach g j
