-- ===== src/Trace/Reads.antt =====
-- The active reads of a channel are those for which a callback is to come.
use bdev_ubi.Prelude.{
  ℕ, ◌+◌, ◌≤◌, ◌≡◌, refl, sym, subst, inl, inr, Bool, true, false, List, [], ◌∷◌, ℤ, pos, if_intro,
  arith,
}
use bdev_ubi.FetchQueue.{stripe_queue_empty}
use bdev_ubi.Channel.{
  BdevIo, UbiBdevIo, Env, State, max_active_stripe_fetches, max_concurrent_reads,
}
use bdev_ubi.Request.{is_read}
use bdev_ubi.Fetch.{ubi_start_fetch_stripe, ubi_fail_stripe_fetch, ubi_complete_fetch_stripe}
use bdev_ubi.Flush.{issue_or_fail, ubi_submit_flush_request}
use bdev_ubi.ReadWrite.{
  ubi_complete_io, ubi_submit_read_request, ubi_submit_write_request, read_from_image,
  get_buf_for_read_cb, ubi_complete_read_from_image,
}
use bdev_ubi.Poll.{
  serve, verdict, IoOp, Cqe, Batch, entries, peek_error, stripe_fetch_op, bdev_io_op, complete_cqe,
  complete_cqes, ubi_complete_image_io, start_one, start_fetches, remove_io, serve_read,
  serve_write, serve_type, serve_io, io_loop, submit_reads, free_slots, poll_queues, ubi_io_poll,
}
use bdev_ubi.Poll.Loop.{io_loop_inv, ubi_io_poll-cases}
use bdev_ubi.Poll.Reads.{serve-room}
use bdev_ubi.Trace.{
  buffer, base, image, promised, op_answers, cqes_answer, batch_answers, reads, OpForRead,
  CqesForReads, BatchForReads,
}

module _ (env : Env) where
  -- The callbacks that have been promised to reads.
  abbrev pub promised_reads : State → ℕ
  promised_reads s =
      promised env buffer s.calls + promised env base s.calls + promised env image s.calls

  -- The active reads are those that have been promised a callback, less `done` that have had it.
  pub record Counted (done : ℕ) (s : State) : Type 0 where
    pub count : s.ch.active_reads + done ≡ promised_reads s
    pub bound : s.ch.active_reads ≤ max_concurrent_reads

  pub complete_io-Counted :
      (u : UbiBdevIo) (success : Bool) (done : ℕ) (s : State)
      → Counted done s
      → reads u ≤ s.ch.active_reads
      → Counted (done + reads u) (ubi_complete_io u success s)
  unfolding ubi_complete_io
  complete_io-Counted u success done s h active = record {
    count = ground (arith, h.count, h.bound);
    bound = ground (arith, h.bound);
  }

  pub get_buf-Counted :
      (u : UbiBdevIo) (success : Bool) (done : ℕ) (s : State)
      → is_read u.bdev_io.type ≡ true
      → Counted done s
      → 1 ≤ s.ch.active_reads
      → Counted (done + 1) (get_buf_for_read_cb env u success s)
  unfolding get_buf_for_read_cb ubi_submit_read_request read_from_image ubi_complete_io
  get_buf-Counted u success done s reading h active = record {
    count = ground (arith, h.count, h.bound, reading);
    bound = ground (arith, h.bound);
  }

  serve_io-Counted :
      (io : BdevIo) (rest : List BdevIo) (done : ℕ) (s : State)
      → verdict io s ≡ serve
      → Counted done s
      → Counted done (serve_io env io (remove_io rest s))
  unfolding serve_io serve_type serve_read serve_write ubi_submit_write_request
      ubi_submit_flush_request issue_or_fail get_buf_for_read_cb ubi_submit_read_request
      read_from_image ubi_complete_io
  serve_io-Counted io rest done s v h = record {
    count = ground (arith, h.count, h.bound, serve-room io s v);
    bound = ground (arith, h.bound, serve-room io s v);
  }

  -- A read of the image that ends is not active any more.
  complete_cqe-active :
      (c : Cqe) (s : State)
      → OpForRead c.op
      → op_answers image c.op ≤ s.ch.active_reads
      → s.ch.active_reads ≤ max_concurrent_reads
      → (complete_cqe env c s).1.ch.active_reads + op_answers image c.op ≡ s.ch.active_reads
  unfolding complete_cqe ubi_complete_fetch_stripe ubi_fail_stripe_fetch
      ubi_complete_read_from_image ubi_complete_io
  complete_cqe-active c s reading active bound = by_op c.op reading active
    where
      by_op :
          (op : IoOp)
          → OpForRead op
          → op_answers image op ≤ s.ch.active_reads
          → (complete_cqe env (record { op = op; res = c.res }) s).1.ch.active_reads
              + op_answers image op
            ≡ s.ch.active_reads
      by_op (stripe_fetch_op slot) reading active = ground arith
      by_op (bdev_io_op u) reading active = ground (arith, bound, reading, active)

  -- The promises made to reads are those that there were.
  pub record Unpromising (s t : State) : Type 0 where
    pub buffers : promised env buffer t.calls ≡ promised env buffer s.calls
    pub bases : promised env base t.calls ≡ promised env base s.calls
    pub images : promised env image t.calls ≡ promised env image s.calls

  complete_cqe-Unpromising : (c : Cqe) (s : State) → Unpromising s (complete_cqe env c s).1
  unfolding complete_cqe ubi_complete_fetch_stripe ubi_fail_stripe_fetch
      ubi_complete_read_from_image ubi_complete_io
  complete_cqe-Unpromising c s = by_op c.op
    where
      by_op : (op : IoOp) → Unpromising s (complete_cqe env (record { op = op; res = c.res }) s).1
      by_op (stripe_fetch_op slot) = record {
        buffers = ground arith;
        bases = ground arith;
        images = ground arith;
      }
      by_op (bdev_io_op u) = record {
        buffers = ground arith;
        bases = ground arith;
        images = ground arith;
      }

  complete_cqes-Counted :
      (cs : List Cqe) (ret : ℤ) (done : ℕ) (s : State)
      → CqesForReads cs
      → Counted done s
      → cqes_answer image cs ≤ s.ch.active_reads
      → Counted (done + cqes_answer image cs) (complete_cqes env cs ret s).1
        × Unpromising s (complete_cqes env cs ret s).1
  unfolding complete_cqes
  complete_cqes-Counted [] ret done s reading h active = (
    record { count = omega (arith, h.count); bound = h.bound },
    record { buffers = refl; bases = refl; images = refl },
  )
  complete_cqes-Counted (c ∷ cs) ret done s reading h active =
      let (ret', s') = complete_cqe env c s in
      let u = complete_cqe-Unpromising c s in
      let ended = complete_cqe-active c s reading.0 (omega (arith, active)) h.bound in
      let counted : Counted (done + op_answers image c.op) s' = record {
        count = omega (arith, h.count, ended, u.buffers, u.bases, u.images);
        bound = omega (arith, ended, h.bound);
      } in
      let (counted', u') =
        complete_cqes-Counted cs ret' (done + op_answers image c.op) s' reading.1 counted
          (omega (arith, ended, active)) in
      (
        record { count = omega (arith, counted'.count); bound = counted'.bound },
        record {
          buffers = omega (arith, u.buffers, u'.buffers);
          bases = omega (arith, u.bases, u'.bases);
          images = omega (arith, u.images, u'.images);
        },
      )

  pub complete_image_io-Counted :
      (batch : Batch) (done : ℕ) (s : State)
      → BatchForReads batch
      → Counted done s
      → batch_answers image batch ≤ s.ch.active_reads
      → Counted (done + batch_answers image batch) (ubi_complete_image_io env batch s).1
        × Unpromising s (ubi_complete_image_io env batch s).1
  unfolding ubi_complete_image_io
  complete_image_io-Counted (entries cs) done s reading h active =
      complete_cqes-Counted cs (pos 0) done s reading h active
  complete_image_io-Counted (peek_error true) done s reading h active = (
    record { count = omega (arith, h.count); bound = h.bound },
    record { buffers = refl; bases = refl; images = refl },
  )
  complete_image_io-Counted (peek_error false) done s reading h active = (
    record { count = omega (arith, h.count); bound = h.bound },
    record { buffers = refl; bases = refl; images = refl },
  )

  start_one-Counted :
      (slot done : ℕ) (s : State) → Counted done s → Counted done (start_one env slot s)
  unfolding start_one ubi_start_fetch_stripe ubi_fail_stripe_fetch
  start_one-Counted slot done s h = record {
    count = ground (arith, h.count);
    bound = ground (arith, h.bound);
  }

  start_fetches-Counted :
      (free : List ℕ) (done : ℕ) (s : State)
      → Counted done s
      → Counted done (start_fetches env free s)
  unfolding start_fetches
  start_fetches-Counted [] done s h = h
  start_fetches-Counted (slot ∷ free) done s h =
      if_intro (Counted done) (stripe_queue_empty s.ch.stripe_fetch_queue) _ _ h
        (start_fetches-Counted free done (start_one env slot s) (start_one-Counted slot done s h))

  io_loop-Counted :
      (ios : List BdevIo) (done : ℕ) (s : State) → Counted done s → Counted done (io_loop env ios s)
  io_loop-Counted ios done s h =
      io_loop_inv env (Counted done)
        (λ io rest t _ k. record { count = omega (arith, k.count); bound = k.bound })
        (λ io rest t v k. serve_io-Counted io rest done t v k) ios s h

  submit_reads-Counted : (done : ℕ) (s : State) → Counted done s → Counted done (submit_reads env s)
  unfolding submit_reads
  submit_reads-Counted done s h = record {
    count = ground (arith, h.count);
    bound = ground (arith, h.bound);
  }

  poll_queues-Counted : (done : ℕ) (s : State) → Counted done s → Counted done (poll_queues env s)
  unfolding poll_queues
  poll_queues-Counted done s h =
      let s1 = start_fetches env (free_slots s.ch.stripe_fetches 0 max_active_stripe_fetches) s in
      let s2 = io_loop env s1.ch.io s1 in
      submit_reads-Counted done s2
        (io_loop-Counted s1.ch.io done s1 (start_fetches-Counted _ done s h))

  pub ubi_io_poll-Counted :
      (batch : Batch) (done : ℕ) (s : State)
      → BatchForReads batch
      → Counted done s
      → batch_answers image batch ≤ s.ch.active_reads
      → Counted (done + batch_answers image batch) (ubi_io_poll env batch s).1
  ubi_io_poll-Counted batch done s reading h active =
      let answered = done + batch_answers image batch in
      let s1 = (ubi_complete_image_io env batch s).1 in
      let counted : Counted answered s1 =
        (complete_image_io-Counted batch done s reading h active).0 in
      elim (ubi_io_poll-cases env batch s) [
        | inl e ↦ subst (Counted answered) (sym e) counted
        | inr e ↦ subst (Counted answered) (sym e) (poll_queues-Counted answered s1 counted)
      ]
