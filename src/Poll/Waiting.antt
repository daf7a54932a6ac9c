-- ===== src/Poll/Waiting.antt =====
-- Why a request still waits after a poll.
use bdev_ubi.Prelude.{
  ◌≤◌, ◌≡◌, ◌⊎◌, refl, sym, ap, ◌∙◌, subst, true, false, ◌&&◌, List, [], ◌∷◌, ℤ, pos, if_cases,
  if_intro, arith, Bool-cases, inl, inr, is_neg,
}
use bdev_ubi.FetchQueue.{stripe_queue_empty}
use bdev_ubi.Bdev.{inflight, ubi_get_stripe_status}
use bdev_ubi.Channel.{
  BdevIo, Call, uring_submit, Env, State, max_active_stripe_fetches, max_concurrent_reads,
}
use bdev_ubi.Request.{is_read, stripe_of}
use bdev_ubi.Fetch.{ubi_fail_stripe_fetch, ubi_complete_fetch_stripe}
use bdev_ubi.ReadWrite.{ubi_complete_read_from_image}
use bdev_ubi.Poll.Loop.{ubi_io_poll-work}
use bdev_ubi.Poll.Order.{Waits, io_loop-Drained}
use bdev_ubi.Poll.{
  halt, verdict, PollerResult, is_empty, stripe_fetch_op, bdev_io_op, IoOp, Batch, Cqe, entries,
  peek_error, complete_cqe, complete_cqes, ubi_complete_image_io, free_slots, start_fetches,
  io_loop, submit_reads, poll_queues, ubi_io_poll,
}

complete_cqe-io : (env : Env) (c : Cqe) (s : State) → (complete_cqe env c s).1.ch.io ≡ s.ch.io
unfolding complete_cqe ubi_complete_fetch_stripe ubi_complete_read_from_image ubi_fail_stripe_fetch
complete_cqe-io env c s = by_op c.op
  where
    by_op : (op : IoOp) → (complete_cqe env (record { op = op; res = c.res }) s).1.ch.io ≡ s.ch.io
    by_op (stripe_fetch_op slot) = ground arith
    by_op (bdev_io_op u) = ground arith

complete_cqes-io :
    (env : Env) (cs : List Cqe) (ret : ℤ) (s : State)
    → (complete_cqes env cs ret s).1.ch.io ≡ s.ch.io
unfolding complete_cqes
complete_cqes-io env [] ret s = refl
complete_cqes-io env (c ∷ cs) ret s =
    let (ret', s') = complete_cqe env c s in
    complete_cqes-io env cs ret' s' ∙ complete_cqe-io env c s

complete_image_io-io :
    (env : Env) (batch : Batch) (s : State) → (ubi_complete_image_io env batch s).1.ch.io ≡ s.ch.io
unfolding ubi_complete_image_io
complete_image_io-io env (entries cs) s = complete_cqes-io env cs (pos 0) s
complete_image_io-io env (peek_error true) s = refl
complete_image_io-io env (peek_error false) s = refl

submit_reads-io : (env : Env) (s : State) → (submit_reads env s).ch.io ≡ s.ch.io
unfolding submit_reads
submit_reads-io env s = ground arith

submit_reads-verdict :
    (env : Env) (io : BdevIo) (s : State) → verdict io (submit_reads env s) ≡ verdict io s
unfolding submit_reads verdict
submit_reads-verdict env io s = ground arith

-- Once the reads that the loop has prepared are submitted, none is counted as prepared.
poll_queues-has_reads :
    (env : Env) (s : State)
    → ((calls : List Call) → is_neg (env.ret calls uring_submit) ≡ false)
    → (poll_queues env s).ch.has_reads ≡ 0
unfolding poll_queues submit_reads
poll_queues-has_reads env s submits =
    let s1 = start_fetches env (free_slots s.ch.stripe_fetches 0 max_active_stripe_fetches) s in
    let s2 = io_loop env s1.ch.io s1 in ground (arith, submits s2.calls)

-- The request at the head of the queue, after the part of a poll that works on the queues.
poll_queues-halt :
    (env : Env) (io : BdevIo) (rest : List BdevIo) (s : State)
    → (poll_queues env s).ch.io ≡ io ∷ rest
    → verdict io (poll_queues env s) ≡ halt
unfolding poll_queues
poll_queues-halt env io rest s e =
    let s1 = start_fetches env (free_slots s.ch.stripe_fetches 0 max_active_stripe_fetches) s in
    let s2 = io_loop env s1.ch.io s1 in
    submit_reads-verdict env io s2
    ∙ subst (Waits s2) (sym (submit_reads-io env s2) ∙ e)
        (io_loop-Drained env s1.ch.io s1 refl).waits

-- A poll that leaves a request at the head of the queue has worked on its queues.
module _ (env : Env) (batch : Batch) (io : BdevIo) (rest : List BdevIo) (s : State)
    (left : (ubi_io_poll env batch s).1.ch.io ≡ io ∷ rest) where
  abbrev s1 : State
  s1 = (ubi_complete_image_io env batch s).1

  worked : (ubi_io_poll env batch s).1 ≡ poll_queues env s1
  unfolding ubi_io_poll
  worked = elim (Bool-cases (is_empty s.ch.io && stripe_queue_empty s.ch.stripe_fetch_queue)) [
    | inr work ↦ ubi_io_poll-work env batch s work
    | inl none_left ↦
        let io_left : s1.ch.io ≡ io ∷ rest =
          if_cases (λ (r : PollerResult × State). r.1.ch.io ≡ io ∷ rest → s1.ch.io ≡ io ∷ rest)
            (is_empty s.ch.io && stripe_queue_empty s.ch.stripe_fetch_queue) _ _
            (λ _.
              if_intro (λ (r : PollerResult × State). r.1.ch.io ≡ io ∷ rest → s1.ch.io ≡ io ∷ rest)
                _ _ _ (λ e. e) (λ e. e))
            (λ e. absurd (ground (arith, e, none_left))) left in
        let was : is_empty s.ch.io ≡ false =
          ap is_empty (sym (complete_image_io-io env batch s) ∙ io_left) in
        absurd (ground (arith, none_left, was))
  ]

  -- The verdict on that request is to wait.
  pub ubi_io_poll-halt : verdict io (ubi_io_poll env batch s).1 ≡ halt
  ubi_io_poll-halt =
      ap (verdict io) worked
      ∙ poll_queues-halt env io rest s1 (sym (ap (λ (t : State). t.ch.io) worked) ∙ left)

  -- Where io_uring_submit does not fail, no read that the loop has prepared is left unsubmitted.
  pub ubi_io_poll-has_reads :
      ((calls : List Call) → is_neg (env.ret calls uring_submit) ≡ false)
      → (ubi_io_poll env batch s).1.ch.has_reads ≡ 0
  ubi_io_poll-has_reads submits =
      ap (λ (t : State). t.ch.has_reads) worked ∙ poll_queues-has_reads env s1 submits

-- The verdict is to wait on a read when there are enough active ones, and on a request whose stripe is
-- being fetched; on no other.
pub halt-cases :
    (io : BdevIo) (s : State)
    → verdict io s ≡ halt
    → ((is_read io.type ≡ true) × (max_concurrent_reads ≤ s.ch.active_reads))
      ⊎ (ubi_get_stripe_status s.bdev (stripe_of s.bdev io.offset_blocks) ≡ inflight)
unfolding verdict
halt-cases io s v = ground (arith, v)
