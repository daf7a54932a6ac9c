-- ===== src/Trace/Steps.antt =====
-- A step of a channel that runs only callbacks that are to come keeps its books even.
use bdev_ubi.Prelude.{ℕ, ◌+◌, ◌<◌, ◌≤◌, ◌≡◌, refl, subst, List, [], ◌∷◌, Bool, true, arith}
use bdev_ubi.Channel.{UbiBdevIo, Env, State, max_active_stripe_fetches}
use bdev_ubi.Fetch.{write_stripe_io_completion}
use bdev_ubi.ReadWrite.{get_buf_for_read_cb}
use bdev_ubi.Request.{is_read}
use bdev_ubi.Poll.{IoOp, Cqe, Batch, entries, peek_error, ubi_io_poll}
use bdev_ubi.Poll.Ownership.{BatchDue}
use bdev_ubi.System.{
  Step, submitted, polled, buf_got, stripe_written, io_done, data_flushed, metadata_written,
  metadata_flushed, elsewhere,
}
use bdev_ubi.System.Shared.{StepDue}
use bdev_ubi.Account.{Uses}
use bdev_ubi.Trace.{
  Kind, buffer, base, image, reading, writing, promised, answers, unsubmitted, uring_queue_size,
  Obliging, Owed, ForReads, BatchForReads, op_answers, cqes_answer, batch_answers,
}
use bdev_ubi.Trace.Reads.{Counted, get_buf-Counted, complete_image_io-Counted, ubi_io_poll-Counted}
use bdev_ubi.Trace.Slots.{
  stripe_written-Held, get_buf-Held, ubi_io_poll-Held, in_use-active, batch-BatchDue,
}
use bdev_ubi.Trace.Entries.{get_buf-Listed, ubi_io_poll-Listed}
use bdev_ubi.Trace.Even.{
  Even, recount, submit-Even, data_flushed-Even, metadata_written-Even, metadata_flushed-Even,
  io_done-Even,
}

-- A batch answers no callbacks of a kind of which no completion queue entry is one.
unanswered :
    (κ : Kind) → ((op : IoOp) → op_answers κ op ≡ 0) → (batch : Batch) → batch_answers κ batch ≡ 0
unanswered κ h (peek_error eagain) = refl
unanswered κ h (entries cs) = by_cqes cs
  where
    by_cqes : (cs : List Cqe) → cqes_answer κ cs ≡ 0
    by_cqes [] = refl
    by_cqes (c ∷ cs) = omega (arith, h c.op, by_cqes cs)

module _ (env : Env) (a : Kind → ℕ) (s : State) where
  -- The reads that are served, and the entries that are not submitted, are few enough for the ring.
  room :
      a buffer ≤ promised env buffer s.calls
      → a base ≤ promised env base s.calls
      → unsubmitted env s.calls + a image ≤ promised env image s.calls
      → Even env a s
      → unsubmitted env s.calls < uring_queue_size
  room buffers bases images h = omega (arith, h.counted.count, h.counted.bound)

  -- The completions of a batch that are to come are due.
  pub Owed-BatchDue :
      (batch : Batch) → Even env a s → Owed env a {s = s} (polled env batch) → BatchDue env batch s
  Owed-BatchDue batch h owed =
      batch-BatchDue env batch s
        (λ k. omega (arith, h.held k, owed.kept (reading k), owed.kept (writing k)))

  polled-Even :
      (batch : Batch)
      → Obliging env
      → BatchForReads batch
      → Owed env a {s = s} (polled env batch)
      → Even env a s
      → Even env (λ κ. a κ + batch_answers κ batch) (ubi_io_poll env batch s).1
  polled-Even batch obliging for_reads owed h =
      let buffers = owed.kept buffer in
      let bases = owed.kept base in
      let images = owed.kept image in
      let n = batch_answers image batch in
      let done = a buffer + a base + a image in
      let c : Counted env (done + n) (ubi_io_poll env batch s).1 =
        ubi_io_poll-Counted env batch done s for_reads h.counted
          (omega (arith, images, buffers, bases, h.counted.count)) in
      let same =
        (complete_image_io-Counted env batch done s for_reads h.counted
          (omega (arith, images, buffers, bases, h.counted.count))).1 in
      record {
        counted = record {
          count = omega (
            arith,
            c.count,
            unanswered buffer (λ op. refl) batch,
            unanswered base (λ op. refl) batch,
          );
          bound = c.bound;
        };
        held = λ k. omega (
          arith,
          unanswered (writing k) (λ op. refl) batch,
          ubi_io_poll-Held env k batch (a (reading k) + a (writing k)) s obliging.submits
              (Owed-BatchDue batch h owed) (h.held k),
        );
        listed =
            ubi_io_poll-Listed env batch (a image + n) s obliging
              (room (omega (arith, buffers)) (omega (arith, bases)) (omega (arith, owed.handed)) h)
              same.images (record { waiting = omega (arith, owed.handed); found = h.listed.found });
      }

  buf_got-Even :
      (u : UbiBdevIo) (success : Bool)
      → is_read u.bdev_io.type ≡ true
      → Owed env a {s = s} (buf_got env u success)
      → Even env a s
      → Even env
          (λ κ. a κ + answers κ {s = s} (buf_got env u success))
          (get_buf_for_read_cb env u success s)
  buf_got-Even u success for_read owed h =
      let buffers = owed.kept buffer in
      let bases = owed.kept base in
      let images = owed.kept image in
      let c =
        get_buf-Counted env u success _ s for_read h.counted
          (omega (arith, h.counted.count, buffers, bases, images)) in
      record {
        counted = record { count = omega (arith, c.count); bound = c.bound };
        held = λ k. omega (arith, get_buf-Held env k u success _ s (h.held k));
        listed =
            let l = get_buf-Listed env u success _ s h.listed in
            record { waiting = omega (arith, l.waiting); found = l.found };
      }

  -- The write of a stripe that is to end is that of a slot in use.
  pub Owed-stripe_written :
      (slot : ℕ) (success : Bool)
      → Even env a s
      → Owed env a {s = s} (stripe_written slot success)
      → (slot < max_active_stripe_fetches) × ((s.ch.stripe_fetches slot).active ≡ true)
  Owed-stripe_written slot success h owed =
      let writes = owed.kept (writing slot) in
      let reads = owed.kept (reading slot) in
      in_use-active slot s (ground (arith, h.held slot, writes, reads))

  stripe_written-Even :
      (slot : ℕ) (success : Bool)
      → Owed env a {s = s} (stripe_written slot success)
      → Even env a s
      → Even env
          (λ κ. a κ + answers κ {s = s} (stripe_written slot success))
          (write_stripe_io_completion slot success s)
  unfolding write_stripe_io_completion
  stripe_written-Even slot success owed h =
      let (inside, active) = Owed-stripe_written slot success h owed in
      record {
        counted = record { count = omega (arith, h.counted.count); bound = h.counted.bound };
        held =
            λ k. omega (arith, stripe_written-Held env k slot success _ s inside active (h.held k));
        listed = record { waiting = omega (arith, h.listed.waiting); found = h.listed.found };
      }

pub Step-Even :
    (env : Env) (a : Kind → ℕ) {s t : State} (st : Step s t)
    → Obliging env
    → Uses env st
    → ForReads st
    → Owed env a st
    → Even env a s
    → Even env (λ κ. a κ + answers κ st) t
Step-Even env a {s} (submitted io supported) obliging uses for_reads owed h =
    recount (omega arith) (omega arith) (omega arith) (λ k. omega arith) (submit-Even env a s io h)
Step-Even env a {s} (polled env' batch) obliging uses for_reads owed h =
    subst
      (λ v.
        Obliging v
        → Owed v a {s = s} (polled env' batch)
        → Even v a s
        → Even v (λ κ. a κ + batch_answers κ batch) (ubi_io_poll env' batch s).1)
      uses
      (λ obliging owed h.
        polled-Even env' a s batch obliging for_reads
          (record { kept = owed.kept; handed = owed.handed }) h)
      obliging owed h
Step-Even env a {s} {t} (buf_got env' u success) obliging uses for_reads owed h =
    subst
      (λ v.
        Owed v a {s = s} (buf_got env' u success)
        → Even v a s
        → Even v (λ κ. a κ + answers κ {s = s} (buf_got env' u success)) t)
      uses (λ owed h. buf_got-Even env' a s u success for_reads owed h) owed h
Step-Even env a {s} (stripe_written slot success) obliging uses for_reads owed h =
    stripe_written-Even env a s slot success owed h
Step-Even env a {s} (io_done u success) obliging uses for_reads owed h =
    let buffers = owed.kept buffer in
    let bases = owed.kept base in
    let images = owed.kept image in
    let (c, held, l) =
      io_done-Even env a s u success (omega (arith, h.counted.count, buffers, bases, images)) h in
    record {
      counted = record { count = omega (arith, c.count); bound = c.bound };
      held = λ k. omega (arith, held k);
      listed = record { waiting = omega (arith, l.waiting); found = l.found };
    }
Step-Even env a {s} {t} (data_flushed env' u success) obliging uses for_reads owed h =
    recount (omega arith) (omega arith) (omega arith) (λ k. omega arith)
      (subst (λ v. Even v a s → Even v a t) uses (data_flushed-Even env' a s u success) h)
Step-Even env a {s} {t} (metadata_written env' u success) obliging uses for_reads owed h =
    recount (omega arith) (omega arith) (omega arith) (λ k. omega arith)
      (subst (λ v. Even v a s → Even v a t) uses (metadata_written-Even env' a s u success) h)
Step-Even env a {s} (metadata_flushed u success) obliging uses for_reads owed h =
    recount (omega arith) (omega arith) (omega arith) (λ k. omega arith)
      (metadata_flushed-Even env a s u success h)
Step-Even env a (elsewhere b k) obliging uses for_reads owed h = absurd for_reads

-- Such a step is one in which the end of a read or write of a stripe is reported for a slot in use.
pub Step-StepDue :
    (env : Env) (a : Kind → ℕ) {s t : State} (st : Step s t)
    → Uses env st
    → ForReads st
    → Owed env a st
    → Even env a s
    → StepDue st
Step-StepDue env a (submitted io supported) uses for_reads owed h = tt
Step-StepDue env a {s} (polled env' batch) uses for_reads owed h =
    subst (λ v. Owed v a {s = s} (polled env' batch) → Even v a s → BatchDue env' batch s) uses
      (λ owed h. Owed-BatchDue env' a s batch h owed) owed h
Step-StepDue env a (buf_got env' u success) uses for_reads owed h = tt
Step-StepDue env a {s} (stripe_written slot success) uses for_reads owed h =
    Owed-stripe_written env a s slot success h owed
Step-StepDue env a (io_done u success) uses for_reads owed h = tt
Step-StepDue env a (data_flushed env' u success) uses for_reads owed h = tt
Step-StepDue env a (metadata_written env' u success) uses for_reads owed h = tt
Step-StepDue env a (metadata_flushed u success) uses for_reads owed h = tt
Step-StepDue env a (elsewhere b k) uses for_reads owed h = for_reads
