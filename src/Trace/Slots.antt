-- ===== src/Trace/Slots.antt =====
-- A slot that is in use is one for which a callback is to come.
use bdev_ubi.Prelude.{
  ℕ, ◌+◌, ◌<◌, ◌≤◌, ◌≡◌, ◌&&◌, refl, sym, subst, inl, inr, Bool, true, false, List, [], ◌∷◌, ℤ, pos,
  ltb, is_neg, if◌then◌else◌, if_intro, arith,
}
use bdev_ubi.FetchQueue.{stripe_queue_empty}
use bdev_ubi.Channel.{
  BdevIo, Call, prep_read, uring_submit, UbiBdevIo, Env, State, max_active_stripe_fetches,
}
use bdev_ubi.Ownership.Fetching.{dequeued}
use bdev_ubi.Fetch.{
  align_buf, stripe_nbytes, stripe_offset, ubi_start_fetch_stripe, ubi_fail_stripe_fetch,
  ubi_complete_fetch_stripe, write_stripe_io_completion,
}
use bdev_ubi.Flush.{issue_or_fail, ubi_submit_flush_request}
use bdev_ubi.ReadWrite.{
  ubi_complete_io, ubi_submit_read_request, ubi_submit_write_request, read_from_image,
  get_buf_for_read_cb, ubi_complete_read_from_image,
}
use bdev_ubi.Poll.{
  IoOp, Cqe, Batch, entries, peek_error, stripe_fetch_op, bdev_io_op, complete_cqe, complete_cqes,
  ubi_complete_image_io, start_one, start_fetches, remove_io, serve_read, serve_write, serve_type,
  serve_io, io_loop, submit_reads, free_slots, poll_queues, ubi_io_poll,
}
use bdev_ubi.Poll.Loop.{io_loop_inv, ubi_io_poll-cases}
use bdev_ubi.Poll.Ownership.{Ready, free_slots-Ready, start_one-Ready, OpDue, CqesDue, BatchDue}
use bdev_ubi.Trace.{reading, writing, same_slot, promised, op_answers, cqes_answer, batch_answers}

-- Whether a slot is in use, as 0 or 1.
abbrev pub in_use : ℕ → State → ℕ
in_use k s = if ltb k max_active_stripe_fetches && (s.ch.stripe_fetches k).active then 1 else 0

-- io_uring_submit does not fail.
abbrev pub Submits : Env → Type 0
Submits env = (calls : List Call) → is_neg (env.ret calls uring_submit) ≡ false

module _ (env : Env) (k : ℕ) where
  -- The slot is in use if it has been promised one callback more than the `done` that it has had.
  abbrev pub Held : ℕ → State → Type 0
  Held done s =
      in_use k s + done ≡ promised env (reading k) s.calls + promised env (writing k) s.calls

  -- The slot of a read of a stripe that has been submitted stays in use.
  start_fetch-Held :
      (slot done : ℕ) (s : State)
      → Submits env
      → in_use k s + done
        ≡ same_slot k slot + promised env (reading k) s.calls + promised env (writing k) s.calls
      → Held done (ubi_start_fetch_stripe env slot s)
  unfolding ubi_start_fetch_stripe
  start_fetch-Held slot done s submits h =
      let read =
        prep_read (env.get_sqe s.calls) slot (align_buf s.bdev.alignment_bytes (env.buf slot))
          (stripe_nbytes s.bdev) (stripe_offset s.bdev (s.ch.stripe_fetches slot).stripe_idx) in
      ground (arith, submits (read ∷ s.calls), h)

  start_one-Held :
      (slot done : ℕ) (s : State)
      → Submits env
      → slot < max_active_stripe_fetches
      → (s.ch.stripe_fetches slot).active ≡ false
      → Held done s
      → Held done (start_one env slot s)
  unfolding start_one
  start_one-Held slot done s submits inside free h =
      start_fetch-Held slot done (dequeued s slot) submits (ground (arith, h, free))

  complete_cqe-Held :
      (c : Cqe) (done : ℕ) (s : State)
      → OpDue c.op s
      → Held done s
      → Held (done + op_answers (reading k) c.op) (complete_cqe env c s).1
  unfolding complete_cqe ubi_complete_fetch_stripe ubi_fail_stripe_fetch
      ubi_complete_read_from_image ubi_complete_io
  complete_cqe-Held c done s due h = by_op c.op due
    where
      by_op :
          (op : IoOp)
          → OpDue op s
          → Held
              (done + op_answers (reading k) op)
              (complete_cqe env (record { op = op; res = c.res }) s).1
      by_op (stripe_fetch_op slot) due = ground (arith, h, due.0, due.1)
      by_op (bdev_io_op u) due = ground (arith, h)

  -- A slot that is not answered stays in use.
  complete_cqe-in_use :
      (c : Cqe) (s : State)
      → in_use k s ≤ in_use k (complete_cqe env c s).1 + op_answers (reading k) c.op
  unfolding complete_cqe ubi_complete_fetch_stripe ubi_fail_stripe_fetch
      ubi_complete_read_from_image ubi_complete_io
  complete_cqe-in_use c s = by_op c.op
    where
      by_op :
          (op : IoOp)
          → in_use k s
            ≤ in_use k (complete_cqe env (record { op = op; res = c.res }) s).1
              + op_answers (reading k) op
      by_op (stripe_fetch_op slot) = ground arith
      by_op (bdev_io_op u) = ground arith

  pub stripe_written-Held :
      (slot : ℕ) (success : Bool) (done : ℕ) (s : State)
      → slot < max_active_stripe_fetches
      → (s.ch.stripe_fetches slot).active ≡ true
      → Held done s
      → Held (done + same_slot k slot) (write_stripe_io_completion slot success s)
  unfolding write_stripe_io_completion
  stripe_written-Held slot success done s inside active h = ground (arith, h, active)

  pub get_buf-Held :
      (u : UbiBdevIo) (success : Bool) (done : ℕ) (s : State)
      → Held done s
      → Held done (get_buf_for_read_cb env u success s)
  unfolding get_buf_for_read_cb ubi_submit_read_request read_from_image ubi_complete_io
  get_buf-Held u success done s h = ground (arith, h)

  serve_io-Held :
      (io : BdevIo) (rest : List BdevIo) (done : ℕ) (s : State)
      → Held done s
      → Held done (serve_io env io (remove_io rest s))
  unfolding serve_io serve_type serve_read serve_write ubi_submit_write_request
      ubi_submit_flush_request issue_or_fail get_buf_for_read_cb ubi_submit_read_request
      read_from_image ubi_complete_io
  serve_io-Held io rest done s h = ground (arith, h)

  submit_reads-Held : (done : ℕ) (s : State) → Held done s → Held done (submit_reads env s)
  unfolding submit_reads
  submit_reads-Held done s h = ground (arith, h)

  io_loop-Held :
      (ios : List BdevIo) (done : ℕ) (s : State) → Held done s → Held done (io_loop env ios s)
  io_loop-Held ios done s h =
      io_loop_inv env (Held done) (λ io rest t _ k. omega (arith, k))
        (λ io rest t _ k. serve_io-Held io rest done t k) ios s h

  start_fetches-Held :
      (free : List ℕ) (lo done : ℕ) (s : State)
      → Submits env
      → Ready s lo free
      → Held done s
      → Held done (start_fetches env free s)
  unfolding start_fetches
  start_fetches-Held [] lo done s submits r h = h
  start_fetches-Held (slot ∷ free) lo done s submits r h =
      if_intro (Held done) (stripe_queue_empty s.ch.stripe_fetch_queue) _ _ h (
        start_fetches-Held free (slot + 1) done (start_one env slot s) submits
          (start_one-Ready env slot (slot + 1) s free (omega arith) r.3)
          (start_one-Held slot done s submits r.1 r.2 h))

  poll_queues-Held :
      (done : ℕ) (s : State) → Submits env → Held done s → Held done (poll_queues env s)
  unfolding poll_queues
  poll_queues-Held done s submits h =
      let free = free_slots s.ch.stripe_fetches 0 max_active_stripe_fetches in
      let s1 = start_fetches env free s in
      let s2 = io_loop env s1.ch.io s1 in
      submit_reads-Held done s2 (
        io_loop-Held s1.ch.io done s1 (
          start_fetches-Held free 0 done s submits
            (free_slots-Ready s max_active_stripe_fetches 0 refl) h))

  complete_cqes-Held :
      (cs : List Cqe) (ret : ℤ) (done : ℕ) (s : State)
      → CqesDue env cs s
      → Held done s
      → Held (done + cqes_answer (reading k) cs) (complete_cqes env cs ret s).1
  unfolding complete_cqes
  complete_cqes-Held [] ret done s due h = omega (arith, h)
  complete_cqes-Held (c ∷ cs) ret done s due h =
      let (ret', s') = complete_cqe env c s in
      let answered = done + op_answers (reading k) c.op in
      omega
        (arith, complete_cqes-Held cs ret' answered s' due.1 (complete_cqe-Held c done s due.0 h))

  complete_image_io-Held :
      (batch : Batch) (done : ℕ) (s : State)
      → BatchDue env batch s
      → Held done s
      → Held (done + batch_answers (reading k) batch) (ubi_complete_image_io env batch s).1
  unfolding ubi_complete_image_io
  complete_image_io-Held (entries cs) done s due h = complete_cqes-Held cs (pos 0) done s due h
  complete_image_io-Held (peek_error true) done s due h = omega (arith, h)
  complete_image_io-Held (peek_error false) done s due h = omega (arith, h)

  pub ubi_io_poll-Held :
      (batch : Batch) (done : ℕ) (s : State)
      → Submits env
      → BatchDue env batch s
      → Held done s
      → Held (done + batch_answers (reading k) batch) (ubi_io_poll env batch s).1
  ubi_io_poll-Held batch done s submits due h =
      let answered = done + batch_answers (reading k) batch in
      let s1 = (ubi_complete_image_io env batch s).1 in
      let held = complete_image_io-Held batch done s due h in
      elim (ubi_io_poll-cases env batch s) [
        | inl e ↦ subst (Held answered) (sym e) held
        | inr e ↦ subst (Held answered) (sym e) (poll_queues-Held answered s1 submits held)
      ]

-- A slot of which the end of a read or write is reported is in use, if it counts as one that is.
pub in_use-active :
    (slot : ℕ) (s : State)
    → 1 ≤ in_use slot s
    → (slot < max_active_stripe_fetches) × ((s.ch.stripe_fetches slot).active ≡ true)
in_use-active slot s h = (ground (arith, h), ground (arith, h))

cqes-CqesDue :
    (env : Env) (cs : List Cqe) (s : State)
    → ((k : ℕ) → cqes_answer (reading k) cs ≤ in_use k s)
    → CqesDue env cs s
cqes-CqesDue env [] s h = tt
cqes-CqesDue env (c ∷ cs) s h = (
  by_op c.op (λ k. omega (arith, h k)),
  cqes-CqesDue env cs (complete_cqe env c s).1
      (λ k. omega (arith, h k, complete_cqe-in_use env k c s)),
)
  where
    by_op : (op : IoOp) → ((k : ℕ) → op_answers (reading k) op ≤ in_use k s) → OpDue op s
    by_op (stripe_fetch_op slot) h = in_use-active slot s (ground (arith, h slot))
    by_op (bdev_io_op u) h = tt

-- If each slot is in use that the completions of a batch name, and named once, they are due.
pub batch-BatchDue :
    (env : Env) (batch : Batch) (s : State)
    → ((k : ℕ) → batch_answers (reading k) batch ≤ in_use k s)
    → BatchDue env batch s
batch-BatchDue env (entries cs) s h = cqes-CqesDue env cs s h
batch-BatchDue env (peek_error eagain) s h = tt
