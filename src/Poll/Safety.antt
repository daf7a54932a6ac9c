-- ===== src/Poll/Safety.antt =====
-- The poller never sends the data of a request to a stripe that has not been fetched.
use bdev_ubi.Prelude.{
  ◌≡◌, inl, inr, refl, sym, subst, true, false, ℤ, pos, ℕ, List, [], ◌∷◌, arith, All,
}
use bdev_ubi.Bdev.{UbiBdev}
use bdev_ubi.Channel.{Env, State}
use bdev_ubi.ReadWrite.{ubi_complete_read_from_image}
use bdev_ubi.Fetch.{ubi_start_fetch_stripe, ubi_complete_fetch_stripe}
use bdev_ubi.Poll.{
  Cqe, Batch, entries, peek_error, complete_cqe, complete_cqes, ubi_complete_image_io, start_one,
  start_fetches, submit_reads, io_loop, poll_queues, ubi_io_poll, free_slots,
}
use bdev_ubi.Channel.{max_active_stripe_fetches}
use bdev_ubi.Poll.Loop.{ubi_io_poll-cases}
use bdev_ubi.Poll.Serve.{Safe, SafeOn, io_loop-SafeOn}

-- The calls before the loop over the requests move no request's data.
start_one-Safe :
    (b : UbiBdev) (env : Env) (slot : ℕ) (s : State)
    → All (Safe b) s.calls
    → All (Safe b) (start_one env slot s).calls
unfolding start_one ubi_start_fetch_stripe
start_one-Safe b env slot s h = ground arith

start_fetches-Safe :
    (b : UbiBdev) (env : Env) (free : List ℕ) (s : State)
    → All (Safe b) s.calls
    → All (Safe b) (start_fetches env free s).calls
unfolding start_fetches
start_fetches-Safe b env [] s h = h
start_fetches-Safe b env (slot ∷ free) s h =
    ground
      (arith, start_one-Safe b env slot s, start_fetches-Safe b env free (start_one env slot s))

complete_cqe-Safe :
    (b : UbiBdev) (env : Env) (c : Cqe) (s : State)
    → All (Safe b) s.calls
    → All (Safe b) (complete_cqe env c s).1.calls
unfolding complete_cqe ubi_complete_fetch_stripe ubi_complete_read_from_image
complete_cqe-Safe b env c s h = ground arith

complete_cqes-Safe :
    (b : UbiBdev) (env : Env) (cs : List Cqe) (ret : ℤ) (s : State)
    → All (Safe b) s.calls
    → All (Safe b) (complete_cqes env cs ret s).1.calls
unfolding complete_cqes
complete_cqes-Safe b env [] ret s h = h
complete_cqes-Safe b env (c ∷ cs) ret s h =
    complete_cqes-Safe b env cs (complete_cqe env c s).0 (complete_cqe env c s).1
      (complete_cqe-Safe b env c s h)

complete_image_io-Safe :
    (b : UbiBdev) (env : Env) (batch : Batch) (s : State)
    → All (Safe b) s.calls
    → All (Safe b) (ubi_complete_image_io env batch s).1.calls
unfolding ubi_complete_image_io
complete_image_io-Safe b env (entries cs) s h = complete_cqes-Safe b env cs (pos 0) s h
complete_image_io-Safe b env (peek_error true) s h = h
complete_image_io-Safe b env (peek_error false) s h = h

submit_reads-SafeOn :
    (b : UbiBdev) (env : Env) (s : State) → SafeOn b s → SafeOn b (submit_reads env s)
unfolding submit_reads
submit_reads-SafeOn b env s h = ground arith

poll_queues-Safe :
    (env : Env) (s : State)
    → ((b : UbiBdev) → All (Safe b) s.calls)
    → All (Safe (poll_queues env s).bdev) (poll_queues env s).calls
unfolding poll_queues
poll_queues-Safe env s h =
    subst (λ b. All (Safe b) (submit_reads env looped).calls) (sym done.0) done.1
  where
    started : State
    started = start_fetches env (free_slots s.ch.stripe_fetches 0 max_active_stripe_fetches) s

    looped : State
    looped = io_loop env started.ch.io started

    done : SafeOn started.bdev (submit_reads env looped)
    done = submit_reads-SafeOn started.bdev env looped (
        io_loop-SafeOn started.bdev env started.ch.io started
          (refl, start_fetches-Safe started.bdev env _ s (h started.bdev)))

-- In one call of the poller, counting its own calls only, whatever the libraries answer: each read or write that it sends to the
-- base bdev goes to the request's block, moved behind the metadata, and that block lies past the
-- image or in a fetched stripe; each read that it prepares from the image is for a block of the
-- image in a stripe that is not fetched and not being fetched, on a bdev without copy_on_read.
pub ubi_io_poll-Safe :
    (env : Env) (batch : Batch) (s : State)
    → s.calls ≡ []
    → let s' = (ubi_io_poll env batch s).1 in All (Safe s'.bdev) s'.calls
ubi_io_poll-Safe env batch s none_yet = elim (ubi_io_poll-cases env batch s) [
  | inl e ↦ subst (λ t. All (Safe t.bdev) t.calls) (sym e) (completed s1.bdev)
  | inr e ↦ subst (λ t. All (Safe t.bdev) t.calls) (sym e) (poll_queues-Safe env s1 completed)
]
  where
    s1 : State
    s1 = (ubi_complete_image_io env batch s).1

    completed : (b : UbiBdev) → All (Safe b) s1.calls
    completed b = complete_image_io-Safe b env batch s (subst (All (Safe b)) (sym none_yet) tt)
