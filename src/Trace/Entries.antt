-- ===== src/Trace/Entries.antt =====
-- src/lib/bdev_ubi_stripe.c: ubi_start_fetch_stripe does not test what io_uring_get_sqe returns.
use bdev_ubi.Prelude.{
  ℕ, ◌+◌, ◌<◌, ◌≤◌, ◌≡◌, refl, sym, subst, inl, inr, Bool, true, false, List, [], ◌∷◌, ℤ, pos,
  if_intro, arith,
}
use bdev_ubi.FetchQueue.{stripe_queue_empty}
use bdev_ubi.Channel.{BdevIo, prep_read, UbiBdevIo, Env, State, max_active_stripe_fetches}
use bdev_ubi.Ownership.Fetching.{dequeued}
use bdev_ubi.Fetch.{
  align_buf, stripe_nbytes, stripe_offset, ubi_start_fetch_stripe, ubi_fail_stripe_fetch,
  ubi_complete_fetch_stripe,
}
use bdev_ubi.Flush.{issue_or_fail, ubi_submit_flush_request}
use bdev_ubi.ReadWrite.{
  ubi_complete_io, ubi_submit_read_request, ubi_submit_write_request, read_from_image,
  get_buf_for_read_cb, ubi_complete_read_from_image,
}
use bdev_ubi.Poll.{
  IoOp, Cqe, Batch, entries, peek_error, stripe_fetch_op, bdev_io_op, complete_cqe, complete_cqes,
  ubi_complete_image_io, start_one, start_fetches, remove_io, serve_read, serve_write, serve_type,
  serve_io, io_loop, submit_reads, free_slots, poll_queues, ubi_io_poll,
}
use bdev_ubi.Poll.Loop.{io_loop_inv, ubi_io_poll-cases}
use bdev_ubi.Trace.{image, promised, unsubmitted, uring_queue_size, nulls, Obliging}

module _ (env : Env) where
  -- The reads of the image that have not been submitted have not ended, and each fetch had its entry.
  pub record Listed (done : ℕ) (s : State) : Type 0 where
    pub waiting : unsubmitted env s.calls + done ≤ promised env image s.calls
    pub found : nulls s.calls ≡ 0

  pub get_buf-Listed :
      (u : UbiBdevIo) (success : Bool) (done : ℕ) (s : State)
      → Listed done s
      → Listed done (get_buf_for_read_cb env u success s)
  unfolding get_buf_for_read_cb ubi_submit_read_request read_from_image ubi_complete_io
  get_buf-Listed u success done s h = record {
    waiting = ground (arith, h.waiting);
    found = ground (arith, h.found);
  }

  serve_io-Listed :
      (io : BdevIo) (rest : List BdevIo) (done : ℕ) (s : State)
      → Listed done s
      → Listed done (serve_io env io (remove_io rest s))
  unfolding serve_io serve_type serve_read serve_write ubi_submit_write_request
      ubi_submit_flush_request issue_or_fail get_buf_for_read_cb ubi_submit_read_request
      read_from_image ubi_complete_io
  serve_io-Listed io rest done s h = record {
    waiting = ground (arith, h.waiting);
    found = ground (arith, h.found);
  }

  io_loop-Listed :
      (ios : List BdevIo) (done : ℕ) (s : State) → Listed done s → Listed done (io_loop env ios s)
  io_loop-Listed ios done s h =
      io_loop_inv env (Listed done)
        (λ io rest t _ k. record { waiting = omega (arith, k.waiting); found = k.found })
        (λ io rest t _ k. serve_io-Listed io rest done t k) ios s h

  submit_reads-Listed : (done : ℕ) (s : State) → Listed done s → Listed done (submit_reads env s)
  unfolding submit_reads
  submit_reads-Listed done s h = record {
    waiting = ground (arith, h.waiting);
    found = ground (arith, h.found);
  }

  -- While the ring has a free entry, the fetch of a stripe gets one, and leaves all of them free.
  start_fetch-Listed :
      (slot done : ℕ) (s : State)
      → Obliging env
      → unsubmitted env s.calls < uring_queue_size
      → Listed done s
      → Listed done (ubi_start_fetch_stripe env slot s)
        × (unsubmitted env (ubi_start_fetch_stripe env slot s).calls < uring_queue_size)
  unfolding ubi_start_fetch_stripe
  start_fetch-Listed slot done s obliging room h =
      let read =
        prep_read (env.get_sqe s.calls) slot (align_buf s.bdev.alignment_bytes (env.buf slot))
          (stripe_nbytes s.bdev) (stripe_offset s.bdev (s.ch.stripe_fetches slot).stripe_idx) in
      let submitted = obliging.submits (read ∷ s.calls) in
      let entry = obliging.roomy s.calls room in
      (
        record {
          waiting = ground (arith, submitted, h.waiting);
          found = ground (arith, submitted, entry, h.found);
        },
        ground (arith, submitted),
      )

  start_fetches-Listed :
      (free : List ℕ) (done : ℕ) (s : State)
      → Obliging env
      → unsubmitted env s.calls < uring_queue_size
      → Listed done s
      → Listed done (start_fetches env free s)
  unfolding start_fetches start_one
  start_fetches-Listed [] done s obliging room h = h
  start_fetches-Listed (slot ∷ free) done s obliging room h =
      if_intro (Listed done) (stripe_queue_empty s.ch.stripe_fetch_queue) _ _ h (
        start_fetches-Listed free done (start_one env slot s) obliging started.1
          (record { waiting = started.0.waiting; found = started.0.found }))
    where
      started :
          Listed done (ubi_start_fetch_stripe env slot (dequeued s slot))
          × (unsubmitted env (ubi_start_fetch_stripe env slot (dequeued s slot)).calls
              < uring_queue_size)
      started =
          start_fetch-Listed slot done (dequeued s slot) obliging room
            (record { waiting = h.waiting; found = h.found })

  poll_queues-Listed :
      (done : ℕ) (s : State)
      → Obliging env
      → unsubmitted env s.calls < uring_queue_size
      → Listed done s
      → Listed done (poll_queues env s)
  unfolding poll_queues
  poll_queues-Listed done s obliging room h =
      let s1 = start_fetches env (free_slots s.ch.stripe_fetches 0 max_active_stripe_fetches) s in
      let s2 = io_loop env s1.ch.io s1 in
      submit_reads-Listed done s2
        (io_loop-Listed s1.ch.io done s1 (start_fetches-Listed _ done s obliging room h))

  -- The end of a read prepares and submits nothing.
  record Unprepared (s t : State) : Type 0 where
    entries_left : unsubmitted env t.calls ≡ unsubmitted env s.calls
    nulls_left : nulls t.calls ≡ nulls s.calls

  complete_cqe-Unprepared : (c : Cqe) (s : State) → Unprepared s (complete_cqe env c s).1
  unfolding complete_cqe ubi_complete_fetch_stripe ubi_fail_stripe_fetch
      ubi_complete_read_from_image ubi_complete_io
  complete_cqe-Unprepared c s = by_op c.op
    where
      by_op : (op : IoOp) → Unprepared s (complete_cqe env (record { op = op; res = c.res }) s).1
      by_op (stripe_fetch_op slot) = record {
        entries_left = ground arith;
        nulls_left = ground arith;
      }
      by_op (bdev_io_op u) = record { entries_left = ground arith; nulls_left = ground arith }

  complete_cqes-Unprepared :
      (cs : List Cqe) (ret : ℤ) (s : State) → Unprepared s (complete_cqes env cs ret s).1
  unfolding complete_cqes
  complete_cqes-Unprepared [] ret s = record { entries_left = refl; nulls_left = refl }
  complete_cqes-Unprepared (c ∷ cs) ret s =
      let (ret', s') = complete_cqe env c s in
      let first = complete_cqe-Unprepared c s in
      let others = complete_cqes-Unprepared cs ret' s' in
      record {
        entries_left = omega (arith, first.entries_left, others.entries_left);
        nulls_left = omega (arith, first.nulls_left, others.nulls_left);
      }

  complete_image_io-Unprepared :
      (batch : Batch) (s : State) → Unprepared s (ubi_complete_image_io env batch s).1
  unfolding ubi_complete_image_io
  complete_image_io-Unprepared (entries cs) s = complete_cqes-Unprepared cs (pos 0) s
  complete_image_io-Unprepared (peek_error true) s = record {
    entries_left = refl;
    nulls_left = refl;
  }
  complete_image_io-Unprepared (peek_error false) s = record {
    entries_left = refl;
    nulls_left = refl;
  }

  -- The poller, if the entries that have been taken were submitted ones: a fetch finds a free entry.
  pub ubi_io_poll-Listed :
      (batch : Batch) (done : ℕ) (s : State)
      → Obliging env
      → unsubmitted env s.calls < uring_queue_size
      → promised env image (ubi_complete_image_io env batch s).1.calls ≡ promised env image s.calls
      → Listed done s
      → Listed done (ubi_io_poll env batch s).1
  ubi_io_poll-Listed batch done s obliging room same h =
      let s1 = (ubi_complete_image_io env batch s).1 in
      let u = complete_image_io-Unprepared batch s in
      let listed : Listed done s1 = record {
        waiting = omega (arith, h.waiting, u.entries_left, same);
        found = omega (arith, h.found, u.nulls_left);
      } in
      elim (ubi_io_poll-cases env batch s) [
        | inl e ↦ subst (Listed done) (sym e) listed
        | inr e ↦
            subst (Listed done) (sym e)
              (poll_queues-Listed done s1 obliging (omega (arith, room, u.entries_left)) listed)
      ]
