-- ===== src/Poll/Loop.antt =====
-- The rule for the loop over the requests of a channel.
use bdev_ubi.Prelude.{
  ◌≡◌, refl, ◌⊎◌, ◌&&◌, inl, inr, Bool, true, false, if◌then◌else◌, List, [], ◌∷◌,
}
use bdev_ubi.Channel.{BdevIo, Env, State, emit, io_complete}
use bdev_ubi.FetchQueue.{stripe_queue_empty}
use bdev_ubi.Poll.{
  Verdict, halt, fail, serve, verdict, remove_io, serve_io, io_loop, Batch, ubi_complete_image_io,
  PollerResult, idle, busy, poll_queues, ubi_io_poll, is_empty,
}

pub Verdict-cases : (v : Verdict) → (v ≡ halt) ⊎ (v ≡ fail) ⊎ (v ≡ serve)
Verdict-cases halt = inl refl
Verdict-cases fail = inr (inl refl)
Verdict-cases serve = inr (inr refl)

-- What holds before the loop and is kept by each request that it handles holds behind it.
pub io_loop_inv {ℓ} :
    (env : Env) (P : State → Type ℓ)
    → ((io : BdevIo) (rest : List BdevIo) (s : State)
        → verdict io s ≡ fail
        → P s
        → P (emit (io_complete io false) (remove_io rest s)))
    → ((io : BdevIo) (rest : List BdevIo) (s : State)
        → verdict io s ≡ serve
        → P s
        → P (serve_io env io (remove_io rest s)))
    → (ios : List BdevIo) (s : State) → P s
    → P (io_loop env ios s)
unfolding io_loop
io_loop_inv env P on_fail on_serve [] s h = h
io_loop_inv env P on_fail on_serve (io ∷ rest) s h = elim (Verdict-cases (verdict io s)) [
  | inl e ↦ rw (e, io_loop) h
  | inr (inl e) ↦
      rw (e, io_loop) (io_loop_inv env P on_fail on_serve rest _ (on_fail io rest s e h))
  | inr (inr e) ↦
      rw (e, io_loop) (io_loop_inv env P on_fail on_serve rest _ (on_serve io rest s e h))
]

-- A poll completes what the ring has finished, and then may work on its queues.
pub ubi_io_poll-cases :
    (env : Env) (batch : Batch) (s : State)
    → let s1 = (ubi_complete_image_io env batch s).1 in
      ((ubi_io_poll env batch s).1 ≡ s1) ⊎ ((ubi_io_poll env batch s).1 ≡ poll_queues env s1)
unfolding ubi_io_poll
ubi_io_poll-cases env batch s = split _ _ _
  where
    split :
        (queues_empty nothing_done : Bool) (s1 : State)
        → let r : PollerResult × State =
            if queues_empty
            then (if nothing_done then (idle, s1) else (busy, s1))
            else (busy, poll_queues env s1) in
          (r.1 ≡ s1) ⊎ (r.1 ≡ poll_queues env s1)
    split true true s1 = inl refl
    split true false s1 = inl refl
    split false _ s1 = inr refl

-- A poll that finds work in its queues works on them.
pub ubi_io_poll-work :
    (env : Env) (batch : Batch) (s : State)
    → is_empty s.ch.io && stripe_queue_empty s.ch.stripe_fetch_queue ≡ false
    → (ubi_io_poll env batch s).1 ≡ poll_queues env (ubi_complete_image_io env batch s).1
unfolding ubi_io_poll
ubi_io_poll-work env batch s work = rw work refl
