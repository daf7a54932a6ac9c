-- ===== src/Trace.antt =====
-- The callbacks that the libraries owe a channel: what its calls have promised, and what has been run.
-- The calls are those of src/lib/bdev_ubi_stripe.c, src/lib/bdev_ubi_io_channel.c and
-- src/lib/bdev_ubi_flush.c.
pub mod Reads
pub mod Slots
pub mod Entries
pub mod Even
pub mod Steps
pub mod Reach
pub mod Waiting
pub mod Cost
pub mod Bounded
use bdev_ubi.Prelude.{
  ℕ, ◌+◌, ◌-◌, ◌≤◌, ◌<◌, ◌≡◌, Bool, true, false, is_neg, Option, none, some, List, [], ◌∷◌,
  is_nonzero, ◌==◌, if◌then◌else◌,
}
use bdev_ubi.Channel.{
  UbiBdevIo, Call, prep_read, prep_readv, uring_submit, read_base, write_base, flush_data,
  flush_metadata, write_metadata, write_stripe, get_buf, Env, State,
}
use bdev_ubi.Request.{is_read}
use bdev_ubi.Poll.{IoOp, Cqe, Batch, entries, peek_error, stripe_fetch_op, bdev_io_op}
use bdev_ubi.System.{
  Step, submitted, polled, buf_got, stripe_written, io_done, data_flushed, metadata_written,
  metadata_flushed, elsewhere,
}
use bdev_ubi.System.Shared.{Shared, view, put}
use bdev_ubi.Account.{Uses}

-- The kinds of callbacks: a buffer is there; a read of the base bdev, or of the image, has ended; the read
-- or the write of a stripe has ended, in any slot; a write, a flush of the data, or a write or flush of the
-- metadata has ended; the read into a slot, or the write of the stripe of a slot, has ended.
pub data Kind : Type 0 where
  buffer base image : Kind
  stripe_read stripe_write : Kind
  written data_flush metadata_write metadata_flush : Kind
  reading writing : (slot : ℕ) → Kind

abbrev pub same_slot : ℕ → ℕ → ℕ
same_slot k slot = if slot == k then 1 else 0

-- Whether a call promises a callback of a kind.
abbrev pub promises : Env → Kind → List Call → Call → ℕ
promises env buffer before (get_buf u len) = elim (env.buf_now before u) [
  | none ↦ 1
  | some success ↦ 0
]
promises env base before (read_base u start n) =
    if is_nonzero (env.ret before (read_base u start n)) then 0 else 1
promises env image before (prep_readv u offset) = 1
promises env (reading k) before (prep_read sqe slot buf nbytes offset) = same_slot k slot
promises env (writing k) before (write_stripe slot buf offset nbytes) =
    if is_nonzero (env.ret before (write_stripe slot buf offset nbytes))
    then 0
    else same_slot k slot
promises env stripe_read before (prep_read sqe slot buf nbytes offset) = 1
promises env stripe_write before (write_stripe slot buf offset nbytes) =
    if is_nonzero (env.ret before (write_stripe slot buf offset nbytes)) then 0 else 1
promises env written before (write_base u start n) =
    if is_nonzero (env.ret before (write_base u start n)) then 0 else 1
promises env data_flush before (flush_data u start n) =
    if is_nonzero (env.ret before (flush_data u start n)) then 0 else 1
promises env metadata_write before (write_metadata u m n) =
    if is_nonzero (env.ret before (write_metadata u m n)) then 0 else 1
promises env metadata_flush before (flush_metadata u start n) =
    if is_nonzero (env.ret before (flush_metadata u start n)) then 0 else 1
promises env _ before _ = 0

abbrev pub promised : Env → Kind → List Call → ℕ
promised env κ [] = 0
promised env κ (c ∷ calls) = promises env κ calls c + promised env κ calls

-- The callbacks of a kind that a completion queue entry stands for.
abbrev pub op_answers : Kind → IoOp → ℕ
op_answers image (bdev_io_op u) = 1
op_answers (reading k) (stripe_fetch_op slot) = same_slot k slot
op_answers stripe_read (stripe_fetch_op slot) = 1
op_answers _ _ = 0

abbrev pub cqes_answer : Kind → List Cqe → ℕ
cqes_answer κ [] = 0
cqes_answer κ (c ∷ cs) = op_answers κ c.op + cqes_answer κ cs

abbrev pub batch_answers : Kind → Batch → ℕ
batch_answers κ (entries cs) = cqes_answer κ cs
batch_answers κ (peek_error eagain) = 0

abbrev pub reads : UbiBdevIo → ℕ
reads u = if is_read u.bdev_io.type then 1 else 0

-- How many callbacks of a kind a step runs.
abbrev pub answers : Kind → {s t : State} → Step s t → ℕ
answers κ (submitted io supported) = 0
answers κ (polled env batch) = batch_answers κ batch
answers buffer (buf_got env u success) = 1
answers base (io_done u success) = reads u
answers written (io_done u success) = 1 - reads u
answers data_flush (data_flushed env u success) = 1
answers metadata_write (metadata_written env u success) = 1
answers metadata_flush (metadata_flushed u success) = 1
answers stripe_write (stripe_written slot success) = 1
answers (writing k) (stripe_written slot success) = same_slot k slot
answers _ _ = 0

abbrev pub arrivals : {s t : State} → Step s t → ℕ
arrivals (submitted io supported) = 1
arrivals _ = 0

abbrev pub OpForRead : IoOp → Type 0
OpForRead (stripe_fetch_op slot) = Unit
OpForRead (bdev_io_op u) = is_read u.bdev_io.type ≡ true

abbrev pub CqesForReads : List Cqe → Type 0
CqesForReads [] = Unit
CqesForReads (c ∷ cs) = OpForRead c.op × CqesForReads cs

abbrev pub BatchForReads : Batch → Type 0
BatchForReads (entries cs) = CqesForReads cs
BatchForReads (peek_error eagain) = Unit

-- A buffer is given to a read, and what is read from the image is read for one. What happens elsewhere
-- is a step of another channel.
abbrev pub ForReads : {s t : State} → Step s t → Type 0
ForReads (polled env batch) = BatchForReads batch
ForReads (buf_got env u success) = is_read u.bdev_io.type ≡ true
ForReads (elsewhere b k) = ⊥
ForReads _ = Unit

-- UBI_URING_QUEUE_SIZE
abbrev pub uring_queue_size : ℕ
uring_queue_size = 32

-- The entries that have been prepared since the last io_uring_submit that succeeded.
abbrev pub unsubmitted : Env → List Call → ℕ
unsubmitted env [] = 0
unsubmitted env (prep_read sqe slot buf nbytes offset ∷ calls) = 1 + unsubmitted env calls
unsubmitted env (prep_readv u offset ∷ calls) = 1 + unsubmitted env calls
unsubmitted env (uring_submit ∷ calls) =
    if is_neg (env.ret calls uring_submit) then unsubmitted env calls else 0
unsubmitted env (_ ∷ calls) = unsubmitted env calls

-- How often the fetch of a stripe has been prepared without an entry, through a null pointer.
abbrev pub nulls : List Call → ℕ
nulls [] = 0
nulls (prep_read sqe slot buf nbytes offset ∷ calls) = (if sqe then 0 else 1) + nulls calls
nulls (_ ∷ calls) = nulls calls

-- io_uring_submit does not fail, and io_uring_get_sqe finds an entry while the ring has one that is free.
pub record Obliging (env : Env) : Type 0 where
  pub submits : (calls : List Call) → is_neg (env.ret calls uring_submit) ≡ false
  pub roomy :
      (calls : List Call) → unsubmitted env calls < uring_queue_size → env.get_sqe calls ≡ true

-- Of the callbacks of each kind, a step runs none that is not to come; of `a` it has run before. A read
-- of the image ends only once it has been submitted.
pub record Owed (env : Env) (a : Kind → ℕ) {s t : State} (st : Step s t) : Type 0 where
  pub kept : (κ : Kind) → a κ + answers κ st ≤ promised env κ s.calls
  pub handed : unsubmitted env s.calls + a image + answers image st ≤ promised env image s.calls

-- A bdev with its channels, the callbacks of each kind that each channel has had, and the requests that
-- have arrived there.
pub record Trace : Type 0 where
  pub shared : Shared
  pub answered : ℕ → Kind → ℕ
  pub arrived : ℕ → ℕ

-- Nothing has been called back yet.
abbrev pub untouched : Shared → Trace
untouched g = record { shared = g; answered = λ k κ. 0; arrived = λ k. 0 }

-- A channel takes a step, and has had its callbacks.
abbrev pub after : (k : ℕ) {s t : State} → Step s t → Trace → Trace
after k {s} {t} st g = record {
  shared = put k t g.shared;
  answered = λ l κ. if l == k then g.answered l κ + answers κ st else g.answered l κ;
  arrived = λ l. if l == k then g.arrived l + arrivals st else g.arrived l;
}

-- One channel takes a step that runs only callbacks that are to come.
pub data TraceStep (env : ℕ → Env) (g : Trace) : Trace → Type 0 where
  by :
      (k : ℕ) {t : State} (st : Step (view g.shared k) t)
      → Uses (env k) st
      → ForReads st
      → Owed (env k) (g.answered k) st
      → TraceStep env g (after k st g)

pub data TraceReach (env : ℕ → Env) (g : Trace) : Trace → Type 0 where
  start : TraceReach env g g
  later : {h j : Trace} → TraceReach env g h → TraceStep env h j → TraceReach env g j
