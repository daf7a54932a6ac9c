-- ===== src/System/Admitted.antt =====
-- The poller never meets a request whose stripe nobody has asked for.
use bdev_ubi.Prelude.{◌≡◌, false, ◌&&◌, List, ◌∷◌, sym, subst, All, [], inl, inr}
use bdev_ubi.Bdev.{UbiBdev, failed, ubi_get_stripe_status}
use bdev_ubi.Channel.{BdevIo, Env, State, emit, io_complete, max_active_stripe_fetches}
use bdev_ubi.FetchQueue.{stripe_queue_empty}
use bdev_ubi.Request.{stripe_of}
use bdev_ubi.Request.Admission.{AdmittedIo, Admitted, Evolves-Admitted, submit-Admitted}
use bdev_ubi.Poll.{
  Batch, verdict, fail, serve, remove_io, serve_io, is_empty, ubi_complete_image_io, free_slots,
  start_fetches, io_loop, submit_reads, poll_queues, ubi_io_poll,
}
use bdev_ubi.Poll.Evolve.{start_fetches-Evolves, complete_image_io-Evolves}
use bdev_ubi.Poll.Loop.{ubi_io_poll-work}
use bdev_ubi.Poll.Serve.{serve_io-bdev}
use bdev_ubi.Poll.Verdicts.{fail-failed}
use bdev_ubi.System.{Step, Reach, start, later}
use bdev_ubi.System.Steps.{Step-cases}

Step-Admitted : {s t : State} → Step s t → Admitted s → Admitted t
Step-Admitted {s} st a = elim (Step-cases st) [
  | inl arrival ↦
      subst Admitted (sym arrival.submission) (submit-Admitted arrival.io s arrival.supported a)
  | inr e ↦ Evolves-Admitted e a
]

-- In every state that a channel reaches from one with an empty queue, each request in the queue that
-- wants its stripe of the image finds that stripe asked for, and each is of a supported type.
pub Reach-Admitted : {s t : State} → s.ch.io ≡ [] → Reach s t → Admitted t
Reach-Admitted {s} e start = subst (All (AdmittedIo s.bdev)) (sym e) tt
Reach-Admitted e (later r st) = Step-Admitted st (Reach-Admitted e r)

-- Whenever the loop over some requests fails one of them for its stripe, the fetch of that stripe has
-- failed; the loop goes on as io_loop does.
abbrev pub FailsOnlyFailed : Env → List BdevIo → State → Type 0
FailsOnlyFailed env [] s = Unit
FailsOnlyFailed env (io ∷ rest) s =
    (verdict io s ≡ fail
      → ubi_get_stripe_status s.bdev (stripe_of s.bdev io.offset_blocks) ≡ failed)
    × (verdict io s ≡ fail
        → FailsOnlyFailed env rest (emit (io_complete io false) (remove_io rest s)))
    × (verdict io s ≡ serve → FailsOnlyFailed env rest (serve_io env io (remove_io rest s)))

Admitted-FailsOnlyFailed :
    (env : Env) (requests : List BdevIo) (s : State)
    → All (AdmittedIo s.bdev) requests
    → FailsOnlyFailed env requests s
Admitted-FailsOnlyFailed env [] s a = tt
Admitted-FailsOnlyFailed env (io ∷ rest) s (a, others) = (
  (fail-failed s (io ∷ rest) (a, others)).0,
  λ _. Admitted-FailsOnlyFailed env rest _ others,
  λ _. Admitted-FailsOnlyFailed env rest _ (
      subst (λ (b : UbiBdev). All (AdmittedIo b) rest)
        (sym (serve_io-bdev env io (remove_io rest s))) others),
)

-- The state in which a poll that has work in its queues begins with the requests: the completions have
-- been taken and the fetches started.
abbrev pub loop_start : Env → Batch → State → State
loop_start env batch t =
    let s = (ubi_complete_image_io env batch t).1 in
    start_fetches env (free_slots s.ch.stripe_fetches 0 max_active_stripe_fetches) s

-- In every state that a channel reaches from one with an empty queue: a poll that finds work in its
-- queues runs its loop over the requests from the state that its completions and started fetches leave,
-- and whenever this loop fails a request for its stripe, without trying to serve it, the fetch of that
-- stripe has failed: the branch of the source marked BUG is never taken.
pub Reach-FailsOnlyFailed :
    {s t : State} (env : Env) (batch : Batch)
    → s.ch.io ≡ []
    → Reach s t
    → is_empty t.ch.io && stripe_queue_empty t.ch.stripe_fetch_queue ≡ false
    → let l = loop_start env batch t in
      ((ubi_io_poll env batch t).1 ≡ submit_reads env (io_loop env l.ch.io l))
      × FailsOnlyFailed env l.ch.io l
unfolding poll_queues
Reach-FailsOnlyFailed {s} {t} env batch e r work =
    let t1 = (ubi_complete_image_io env batch t).1 in
    let l = loop_start env batch t in
    (
      ubi_io_poll-work env batch t work,
      Admitted-FailsOnlyFailed env l.ch.io l (
          Evolves-Admitted
            (start_fetches-Evolves env (free_slots t1.ch.stripe_fetches 0 max_active_stripe_fetches)
              t1)
            (Evolves-Admitted (complete_image_io-Evolves env batch t) (Reach-Admitted e r))),
    )
