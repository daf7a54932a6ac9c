-- ===== src/Account/Balance.antt =====
-- What a function adds to the books is what it takes out.
use bdev_ubi.Prelude.{
  ℕ, ◌+◌, ◌≡◌, refl, sym, subst, ap, inl, inr, Bool, true, false, List, [], ◌∷◌, ◌++◌, ℤ, pos,
  is_neg, if◌then◌else◌, if_intro, arith,
}
use bdev_ubi.FetchQueue.{stripe_queue_empty}
use bdev_ubi.Channel.{BdevIo, UbiBdevIo, Env, State, emit, io_complete, max_active_stripe_fetches}
use bdev_ubi.Fetch.{
  ubi_start_fetch_stripe, ubi_fail_stripe_fetch, ubi_complete_fetch_stripe,
  write_stripe_io_completion,
}
use bdev_ubi.Flush.{
  issue_or_fail, ubi_submit_flush_request, ubi_data_flush_completion, ubi_metadata_write_completion,
  ubi_metadata_flush_completion, set_flushed,
}
use bdev_ubi.ReadWrite.{
  ubi_complete_io, ubi_io_completion_cb, ubi_submit_read_request, ubi_submit_write_request,
  read_from_image, get_buf_for_read_cb, ubi_complete_read_from_image,
}
use bdev_ubi.Request.{ubi_submit_request}
use bdev_ubi.Poll.{
  verdict, IoOp, Cqe, Batch, entries, peek_error, stripe_fetch_op, bdev_io_op, complete_cqe,
  complete_cqes, ubi_complete_image_io, free_slots, start_one, start_fetches, remove_io, driver_ctx,
  serve_read, serve_write, serve_type, serve_io, io_loop, submit_reads, poll_queues, ubi_io_poll,
}
use bdev_ubi.Poll.Loop.{Verdict-cases, ubi_io_poll-cases}
use bdev_ubi.Poll.Order.{serve_io-io}
use bdev_ubi.Account.{
  is_it, queued, promised, ended, dropped, op_answers, cqes_answer, batch_answers,
}

module _ (env : Env) (r : ℕ) where
  -- What is known of a request: it waits, a callback for it is to come, it has been completed, or dropped.
  abbrev pub known : State → ℕ
  known s = queued r s.ch.io + promised env r s.calls + ended r s.calls + dropped env r s.calls

  complete_io-known :
      (u : UbiBdevIo) (success : Bool) (s : State)
      → known (ubi_complete_io u success s) ≡ known s + is_it r u.bdev_io
  unfolding ubi_complete_io
  complete_io-known u success s = ground arith

  pub get_buf-known :
      (u : UbiBdevIo) (success : Bool) (s : State)
      → known (get_buf_for_read_cb env u success s) ≡ known s + is_it r u.bdev_io
  unfolding get_buf_for_read_cb ubi_submit_read_request read_from_image ubi_complete_io
  get_buf-known u success s = ground arith

  serve_read-known :
      (u : UbiBdevIo) (s : State) → known (serve_read env u s) ≡ known s + is_it r u.bdev_io
  unfolding serve_read get_buf_for_read_cb ubi_submit_read_request read_from_image ubi_complete_io
  serve_read-known u s = ground arith

  serve_io-known : (io : BdevIo) (s : State) → known (serve_io env io s) ≡ known s + is_it r io
  unfolding serve_io serve_type serve_write ubi_submit_write_request ubi_submit_flush_request
      issue_or_fail
  serve_io-known io s = ground (arith, serve_read-known (driver_ctx io) s)

  remove-known :
      (io : BdevIo) (rest : List BdevIo) (s : State)
      → s.ch.io ≡ io ∷ rest
      → known (remove_io rest s) + is_it r io ≡ known s
  remove-known io rest s e = omega (arith, ap (queued r) e)

  pub data_flushed-known :
      (u : UbiBdevIo) (success : Bool) (s : State)
      → known (ubi_data_flush_completion env u success s)
          + (if success then 0 else is_it r u.bdev_io)
        ≡ known s + is_it r u.bdev_io
  unfolding ubi_data_flush_completion issue_or_fail
  data_flushed-known u success s = ground arith

  pub metadata_written-known :
      (u : UbiBdevIo) (success : Bool) (s : State)
      → known (ubi_metadata_write_completion env u success s) ≡ known s + is_it r u.bdev_io
  unfolding ubi_metadata_write_completion issue_or_fail
  metadata_written-known u success s = ground arith

  pub metadata_flushed-known :
      (u : UbiBdevIo) (success : Bool) (s : State)
      → known (ubi_metadata_flush_completion u success s) ≡ known s + is_it r u.bdev_io
  unfolding ubi_metadata_flush_completion set_flushed
  metadata_flushed-known u success s = ground arith

  pub io_done-known :
      (u : UbiBdevIo) (success : Bool) (s : State)
      → known (ubi_io_completion_cb u success s) ≡ known s + is_it r u.bdev_io
  unfolding ubi_io_completion_cb
  io_done-known u success s = omega (arith, complete_io-known u success s)

  queued-append :
      (ios : List BdevIo) (io : BdevIo) → queued r (ios ++ (io ∷ [])) ≡ queued r ios + is_it r io
  queued-append [] io = omega arith
  queued-append (i ∷ ios) io = omega (arith, queued-append ios io)

  pub submit-known :
      (io : BdevIo) (s : State) → known (ubi_submit_request io s) ≡ known s + is_it r io
  unfolding ubi_submit_request
  submit-known io s = ground (arith, queued-append s.ch.io io)

  submit_reads-known : (s : State) → known (submit_reads env s) ≡ known s
  unfolding submit_reads
  submit_reads-known s = ground arith

  start_one-known : (slot : ℕ) (s : State) → known (start_one env slot s) ≡ known s
  unfolding start_one ubi_start_fetch_stripe ubi_fail_stripe_fetch
  start_one-known slot s = ground arith

  start_fetches-known : (free : List ℕ) (s : State) → known (start_fetches env free s) ≡ known s
  unfolding start_fetches
  start_fetches-known [] s = refl
  start_fetches-known (slot ∷ free) s =
      if_intro (λ t. known t ≡ known s) (stripe_queue_empty s.ch.stripe_fetch_queue) _ _ refl
        (omega (arith, start_fetches-known free (start_one env slot s), start_one-known slot s))

  complete_fetch-known :
      (slot : ℕ) (res : ℤ) (s : State)
      → known (ubi_complete_fetch_stripe env slot res s).1 ≡ known s
  unfolding ubi_complete_fetch_stripe ubi_fail_stripe_fetch
  complete_fetch-known slot res s = ground arith

  complete_read-known :
      (u : UbiBdevIo) (res : ℤ) (s : State)
      → known (ubi_complete_read_from_image u res s).1 ≡ known s + is_it r u.bdev_io
  unfolding ubi_complete_read_from_image
  complete_read-known u res s =
      if_intro (λ (p : ℤ × State). known p.1 ≡ known s + is_it r u.bdev_io) (is_neg res) _ _
        (complete_io-known u false s) (complete_io-known u true s)

  complete_cqe-known :
      (c : Cqe) (s : State) → known (complete_cqe env c s).1 ≡ known s + op_answers r c.op
  unfolding complete_cqe
  complete_cqe-known c s = by_op c.op
    where
      by_op :
          (op : IoOp)
          → known (complete_cqe env (record { op = op; res = c.res }) s).1
            ≡ known s + op_answers r op
      by_op (stripe_fetch_op slot) = omega (arith, complete_fetch-known slot c.res s)
      by_op (bdev_io_op u) = complete_read-known u c.res s

  complete_cqes-known :
      (cs : List Cqe) (ret : ℤ) (s : State)
      → known (complete_cqes env cs ret s).1 ≡ known s + cqes_answer r cs
  unfolding complete_cqes
  complete_cqes-known [] ret s = omega arith
  complete_cqes-known (c ∷ cs) ret s =
      let (ret', s') = complete_cqe env c s in
      omega (arith, complete_cqe-known c s, complete_cqes-known cs ret' s')

  complete_image_io-known :
      (batch : Batch) (s : State)
      → known (ubi_complete_image_io env batch s).1 ≡ known s + batch_answers r batch
  unfolding ubi_complete_image_io
  complete_image_io-known (entries cs) s = complete_cqes-known cs (pos 0) s
  complete_image_io-known (peek_error true) s = omega arith
  complete_image_io-known (peek_error false) s = omega arith

  io_loop-known :
      (ios : List BdevIo) (s : State) → s.ch.io ≡ ios → known (io_loop env ios s) ≡ known s
  unfolding io_loop
  io_loop-known [] s e = omega arith
  io_loop-known (io ∷ rest) s e =
      let t = remove_io rest s in
      let removed = remove-known io rest s e in
      elim (Verdict-cases (verdict io s)) [
        | inl v ↦ rw (v, io_loop) (omega arith)
        | inr (inl v) ↦
            let done = emit (io_complete io false) t in
            rw (v, io_loop) (omega (arith, removed, io_loop-known rest done refl))
        | inr (inr v) ↦
            let served = serve_io env io t in
            rw (v, io_loop)
              (omega (
                arith,
                removed,
                serve_io-known io t,
                io_loop-known rest served (serve_io-io env io t),
              ))
      ]

  poll_queues-known : (s : State) → known (poll_queues env s) ≡ known s
  unfolding poll_queues
  poll_queues-known s =
      let free = free_slots s.ch.stripe_fetches 0 max_active_stripe_fetches in
      let s1 = start_fetches env free s in
      omega (
        arith,
        start_fetches-known free s,
        io_loop-known s1.ch.io s1 refl,
        submit_reads-known (io_loop env s1.ch.io s1),
      )

  pub ubi_io_poll-known :
      (batch : Batch) (s : State)
      → known (ubi_io_poll env batch s).1 ≡ known s + batch_answers r batch
  ubi_io_poll-known batch s =
      let s1 = (ubi_complete_image_io env batch s).1 in
      let completed = complete_image_io-known batch s in
      elim (ubi_io_poll-cases env batch s) [
        | inl e ↦
            subst (λ t. known t ≡ known s + batch_answers r batch) (sym e)
              (omega (arith, completed))
        | inr e ↦
            subst (λ t. known t ≡ known s + batch_answers r batch) (sym e)
              (omega (arith, completed, poll_queues-known s1))
      ]

  pub stripe_written-known :
      (slot : ℕ) (success : Bool) (s : State)
      → known (write_stripe_io_completion slot success s) ≡ known s
  unfolding write_stripe_io_completion
  stripe_written-known slot success s = refl
