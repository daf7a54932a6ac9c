-- ===== src/Trace/Cost.antt =====
-- How many callbacks a channel may still have: each step that runs some leaves fewer to come.
use bdev_ubi.Prelude.{
  ℕ, ◌+◌, ◌*◌, ◌≤◌, ◌≡◌, refl, sym, subst, ap, inl, inr, Bool, true, false, List, [], ◌∷◌, ℤ, pos,
  if_cases, arith,
}
use bdev_ubi.FetchQueue.{stripe_queue_empty, dequeue_stripe}
use bdev_ubi.FetchQueue.Contents.{IsValid, count}
use bdev_ubi.FetchQueue.Refine.{dequeue_stripe-IsValid, count-dequeue_stripe}
use bdev_ubi.Channel.{
  IoType, read, write, flush, BdevIo, UbiBdevIo, Env, State, emit, io_complete,
  max_active_stripe_fetches,
}
use bdev_ubi.Ownership.Fetching.{dequeued}
use bdev_ubi.Fetch.{ubi_start_fetch_stripe, ubi_fail_stripe_fetch, ubi_complete_fetch_stripe}
use bdev_ubi.Flush.{issue_or_fail, ubi_submit_flush_request}
use bdev_ubi.ReadWrite.{
  ubi_complete_io, ubi_submit_read_request, ubi_submit_write_request, read_from_image,
  get_buf_for_read_cb, ubi_complete_read_from_image,
}
use bdev_ubi.Poll.{
  verdict, IoOp, Cqe, Batch, entries, peek_error, stripe_fetch_op, bdev_io_op, complete_cqe,
  complete_cqes, ubi_complete_image_io, start_one, start_fetches, remove_io, free_slots,
  poll_queues, ubi_io_poll, serve_read, serve_write, serve_type, serve_io, io_loop, submit_reads,
}
use bdev_ubi.Poll.Loop.{Verdict-cases, ubi_io_poll-cases}
use bdev_ubi.Poll.Order.{serve_io-io}
use bdev_ubi.Poll.Ownership.{io_loop-Quiet, submit_reads-Quiet}
use bdev_ubi.Ownership.Passing.{Quiet-trans}
use bdev_ubi.Poll.Turn.{complete_image_io-ring}
use bdev_ubi.Trace.{
  Kind, buffer, base, image, stripe_read, stripe_write, written, data_flush, metadata_write,
  metadata_flush, promised, op_answers, cqes_answer, batch_answers,
}

-- How many callbacks a request may need that waits, by its type.
abbrev pub type_cost : IoType → ℕ
type_cost read = 2
type_cost write = 1
type_cost flush = 3
type_cost _ = 0

abbrev pub queue_cost : List BdevIo → ℕ
queue_cost [] = 0
queue_cost (io ∷ ios) = type_cost io.type + queue_cost ios

-- How many callbacks those of each kind may lead to, themselves included.
abbrev pub chain_cost : (Kind → ℕ) → ℕ
chain_cost a =
    2 * a buffer
    + a base
    + a image
    + 2 * a stripe_read
    + a stripe_write
    + a written
    + 3 * a data_flush
    + 2 * a metadata_write
    + a metadata_flush

-- How many callbacks of all kinds these are.
abbrev pub tally : (Kind → ℕ) → ℕ
tally a =
    a buffer
    + a base
    + a image
    + a stripe_read
    + a stripe_write
    + a written
    + a data_flush
    + a metadata_write
    + a metadata_flush

module _ (env : Env) where
  -- The callbacks that the queue, the ring and the calls may lead to.
  abbrev pub cost : State → ℕ
  cost s =
      queue_cost s.ch.io
      + 2 * count s.ch.stripe_fetch_queue
      + chain_cost (λ κ. promised env κ s.calls)

  complete_io-cost :
      (u : UbiBdevIo) (success : Bool) (s : State) → cost (ubi_complete_io u success s) ≡ cost s
  unfolding ubi_complete_io
  complete_io-cost u success s = ground arith

  pub get_buf-cost :
      (u : UbiBdevIo) (success : Bool) (s : State)
      → cost (get_buf_for_read_cb env u success s) ≤ cost s + 1
  unfolding get_buf_for_read_cb ubi_submit_read_request read_from_image ubi_complete_io
  get_buf-cost u success s = ground arith

  serve_type-cost :
      (t : IoType) (io : BdevIo) (s : State) → cost (serve_type env t io s) ≤ cost s + type_cost t
  unfolding serve_type serve_read serve_write ubi_submit_write_request ubi_submit_flush_request
      issue_or_fail get_buf_for_read_cb ubi_submit_read_request read_from_image ubi_complete_io
  serve_type-cost t io s = ground arith

  start_fetch-cost : (slot : ℕ) (s : State) → cost (ubi_start_fetch_stripe env slot s) ≤ cost s + 2
  unfolding ubi_start_fetch_stripe ubi_fail_stripe_fetch
  start_fetch-cost slot s = ground arith

  complete_cqe-cost :
      (c : Cqe) (s : State)
      → cost (complete_cqe env c s).1 + tally (λ κ. op_answers κ c.op)
        ≤ cost s + chain_cost (λ κ. op_answers κ c.op)
  unfolding complete_cqe ubi_complete_fetch_stripe ubi_fail_stripe_fetch
      ubi_complete_read_from_image ubi_complete_io
  complete_cqe-cost c s = by_op c.op
    where
      by_op :
          (op : IoOp)
          → cost (complete_cqe env (record { op = op; res = c.res }) s).1
              + tally (λ κ. op_answers κ op)
            ≤ cost s + chain_cost (λ κ. op_answers κ op)
      by_op (stripe_fetch_op slot) = ground arith
      by_op (bdev_io_op u) = ground arith

  submit_reads-cost : (s : State) → cost (submit_reads env s) ≡ cost s
  unfolding submit_reads
  submit_reads-cost s = ground arith

  start_one-cost :
      (slot : ℕ) (s : State)
      → IsValid s.ch.stripe_fetch_queue
      → stripe_queue_empty s.ch.stripe_fetch_queue ≡ false
      → cost (start_one env slot s) ≤ cost s
  unfolding start_one
  start_one-cost slot s v waiting = omega (
    arith,
    count-dequeue_stripe s.ch.stripe_fetch_queue v waiting,
    start_fetch-cost slot (dequeued s slot),
  )

  start_one-ring :
      (slot : ℕ) (s : State)
      → (start_one env slot s).ch.stripe_fetch_queue ≡ (dequeue_stripe s.ch.stripe_fetch_queue).1
  unfolding start_one ubi_start_fetch_stripe
  start_one-ring slot s = ground arith

  -- A ring in order, and the cost at most what it was.
  abbrev Cheaper : State → State → Type 0
  Cheaper s t = IsValid t.ch.stripe_fetch_queue × (cost t ≤ cost s)

  start_fetches-cost :
      (free : List ℕ) (s : State)
      → IsValid s.ch.stripe_fetch_queue
      → Cheaper s (start_fetches env free s)
  unfolding start_fetches
  start_fetches-cost [] s v = (v, omega arith)
  start_fetches-cost (slot ∷ free) s v =
      if_cases (Cheaper s) (stripe_queue_empty s.ch.stripe_fetch_queue) _ _ (λ _. (v, omega arith))
        (λ waiting.
          let valid = subst IsValid (sym (start_one-ring slot s)) (dequeue_stripe-IsValid v) in
          let (valid', less) = start_fetches-cost free (start_one env slot s) valid in
          let first = start_one-cost slot s v waiting in (valid', omega (arith, first, less)))

  serve_io-cost :
      (io : BdevIo) (rest : List BdevIo) (s : State)
      → s.ch.io ≡ io ∷ rest
      → cost (serve_io env io (remove_io rest s)) ≤ cost s
  unfolding serve_io
  serve_io-cost io rest s e =
      omega (arith, serve_type-cost io.type io (remove_io rest s), ap queue_cost e)

  io_loop-cost : (ios : List BdevIo) (s : State) → s.ch.io ≡ ios → cost (io_loop env ios s) ≤ cost s
  unfolding io_loop
  io_loop-cost [] s e = omega arith
  io_loop-cost (io ∷ rest) s e =
      let t = remove_io rest s in
      let queue = ap queue_cost e in
      elim (Verdict-cases (verdict io s)) [
        | inl v ↦ rw (v, io_loop) (omega arith)
        | inr (inl v) ↦
            let done = emit (io_complete io false) t in
            rw (v, io_loop) (omega (arith, queue, io_loop-cost rest done refl))
        | inr (inr v) ↦
            let served = serve_io env io t in
            rw (v, io_loop)
              (omega
                (arith, serve_io-cost io rest s e, io_loop-cost rest served (serve_io-io env io t)))
      ]

  poll_queues-cost : (s : State) → IsValid s.ch.stripe_fetch_queue → Cheaper s (poll_queues env s)
  unfolding poll_queues
  poll_queues-cost s v =
      let s1 = start_fetches env (free_slots s.ch.stripe_fetches 0 max_active_stripe_fetches) s in
      let s2 = io_loop env s1.ch.io s1 in
      let (valid, less) = start_fetches-cost _ s v in
      let quiet = Quiet-trans (io_loop-Quiet env s1.ch.io s1) (submit_reads-Quiet env s2) in
      (
        subst IsValid (sym quiet.ring) valid,
        omega (arith, less, io_loop-cost s1.ch.io s1 refl, submit_reads-cost s2),
      )

  complete_cqes-cost :
      (cs : List Cqe) (ret : ℤ) (s : State)
      → cost (complete_cqes env cs ret s).1 + tally (λ κ. cqes_answer κ cs)
        ≤ cost s + chain_cost (λ κ. cqes_answer κ cs)
  unfolding complete_cqes
  complete_cqes-cost [] ret s = omega arith
  complete_cqes-cost (c ∷ cs) ret s =
      let (ret', s') = complete_cqe env c s in
      omega (arith, complete_cqe-cost c s, complete_cqes-cost cs ret' s')

  complete_image_io-cost :
      (batch : Batch) (s : State)
      → cost (ubi_complete_image_io env batch s).1 + tally (λ κ. batch_answers κ batch)
        ≤ cost s + chain_cost (λ κ. batch_answers κ batch)
  unfolding ubi_complete_image_io
  complete_image_io-cost (entries cs) s = complete_cqes-cost cs (pos 0) s
  complete_image_io-cost (peek_error true) s = omega arith
  complete_image_io-cost (peek_error false) s = omega arith

  -- The poller: each completion that it takes leaves fewer to come.
  pub ubi_io_poll-cost :
      (batch : Batch) (s : State)
      → IsValid s.ch.stripe_fetch_queue
      → IsValid (ubi_io_poll env batch s).1.ch.stripe_fetch_queue
        × (cost (ubi_io_poll env batch s).1 + tally (λ κ. batch_answers κ batch)
            ≤ cost s + chain_cost (λ κ. batch_answers κ batch))
  ubi_io_poll-cost batch s v =
      let s1 = (ubi_complete_image_io env batch s).1 in
      let fewer = complete_image_io-cost batch s in
      let valid = subst IsValid (sym (complete_image_io-ring env batch s)) v in
      elim (ubi_io_poll-cases env batch s) [
        | inl e ↦ subst Paid (sym e) (valid, fewer)
        | inr e ↦
            let (valid', less) = poll_queues-cost s1 valid in
            subst Paid (sym e) (valid', omega (arith, fewer, less))
      ]
    where
      Paid : State → Type 0
      Paid t =
          IsValid t.ch.stripe_fetch_queue
          × (cost t + tally (λ κ. batch_answers κ batch)
              ≤ cost s + chain_cost (λ κ. batch_answers κ batch))
