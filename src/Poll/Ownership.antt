-- ===== src/Poll/Ownership.antt =====
-- The poller keeps a channel's ring and slots in order.
use bdev_ubi.Prelude.{
  ℕ, zero, suc, ◌+◌, ◌<◌, ◌≤◌, ◌≡◌, ◌≢◌, refl, inl, inr, subst, sym, ◌∙◌, List, [], ◌∷◌, ℤ, pos,
  true, false, if_cases, arith,
}
use bdev_ubi.FetchQueue.{stripe_queue_empty}
use bdev_ubi.Channel.{State, max_active_stripe_fetches, Env, BdevIo, UbiBdevIo}
use bdev_ubi.Fetch.{ubi_start_fetch_stripe}
use bdev_ubi.Flush.{ubi_submit_flush_request}
use bdev_ubi.ReadWrite.{get_buf_for_read_cb, ubi_submit_write_request, ubi_complete_read_from_image}
use bdev_ubi.Poll.{
  IoOp, Cqe, Batch, entries, peek_error, complete_cqe, complete_cqes, ubi_complete_image_io,
  start_one, start_fetches, io_loop, submit_reads, poll_queues, ubi_io_poll, stripe_fetch_op,
  bdev_io_op, free_slots, serve_io, serve_type, serve_read, serve_write, remove_io,
}
use bdev_ubi.Poll.Loop.{io_loop_inv, ubi_io_poll-cases}
use bdev_ubi.Ownership.{Moves}
use bdev_ubi.Ownership.Passing.{Moves-trans, Quiet, Quiet-trans, Quiet-Moves}
use bdev_ubi.Ownership.Fetching.{dequeued, dequeued-Moves, start_fetch-Moves, complete_fetch-Moves}

unchanged : (n : ℕ) (s : State) → Moves n s s
unchanged n s =
    Quiet-Moves n s s (record { ring = refl; slots = refl; statuses = refl; headers = refl })

-- One round of the loop that starts fetches.
pub start_one-Moves :
    (n : ℕ) (s : State) (slot : ℕ) (env : Env)
    → slot < max_active_stripe_fetches
    → (s.ch.stripe_fetches slot).active ≡ false
    → stripe_queue_empty s.ch.stripe_fetch_queue ≡ false
    → Moves n s (start_one env slot s)
unfolding start_one
start_one-Moves n s slot env in_slots free waiting =
    let d = dequeued s slot in
    let t = ubi_start_fetch_stripe env slot d in
    Moves-trans n s d _ (dequeued-Moves n s slot in_slots free waiting) (
      Moves-trans n d t _ (start_fetch-Moves n d slot in_slots (ground arith) env)
        (Quiet-Moves n t _ (record { ring = refl; slots = refl; statuses = refl; headers = refl })))

-- Free slots from `lo` on, in ascending order.
abbrev pub Ready : State → ℕ → List ℕ → Type 0
Ready s lo [] = Unit
Ready s lo (slot ∷ free) =
    (lo ≤ slot)
    × (slot < max_active_stripe_fetches)
    × ((s.ch.stripe_fetches slot).active ≡ false)
    × Ready s (slot + 1) free

Ready-weaken : (s : State) (lo hi : ℕ) (free : List ℕ) → lo ≤ hi → Ready s hi free → Ready s lo free
Ready-weaken s lo hi [] h r = tt
Ready-weaken s lo hi (slot ∷ free) h r = (omega arith, r.1, r.2, r.3)

pub free_slots-Ready :
    (s : State) (n i : ℕ)
    → i + n ≡ max_active_stripe_fetches
    → Ready s i (free_slots s.ch.stripe_fetches i n)
unfolding free_slots
free_slots-Ready s zero i h = tt
free_slots-Ready s (suc n) i h =
    let rest = free_slots-Ready s n (i + 1) (omega arith) in
    if_cases (Ready s i) (s.ch.stripe_fetches i).active _ _
      (λ _. Ready-weaken s i (i + 1) _ (omega arith) rest)
      (λ e. (omega arith, omega arith, e, rest))

start_one-others :
    (env : Env) (slot j : ℕ) (s : State)
    → j ≢ slot
    → ((start_one env slot s).ch.stripe_fetches j).active ≡ (s.ch.stripe_fetches j).active
unfolding start_one ubi_start_fetch_stripe
start_one-others env slot j s h = ground arith

pub start_one-Ready :
    (env : Env) (slot lo : ℕ) (s : State) (free : List ℕ)
    → slot < lo
    → Ready s lo free
    → Ready (start_one env slot s) lo free
start_one-Ready env slot lo s [] h r = tt
start_one-Ready env slot lo s (k ∷ free) h r = (
  r.0,
  r.1,
  start_one-others env slot k s (λ e. omega (arith, e, r.0)) ∙ r.2,
  start_one-Ready env slot (k + 1) s free (omega (arith, r.0)) r.3,
)

pub start_fetches-Moves :
    (n : ℕ) (env : Env) (lo : ℕ) (free : List ℕ) (s : State)
    → Ready s lo free
    → Moves n s (start_fetches env free s)
unfolding start_fetches
start_fetches-Moves n env lo [] s r = unchanged n s
start_fetches-Moves n env lo (slot ∷ free) s r =
    if_cases (Moves n s) (stripe_queue_empty s.ch.stripe_fetch_queue) _ _ (λ _. unchanged n s)
      (λ e. Moves-trans n s (start_one env slot s) _ (start_one-Moves n s slot env r.1 r.2 e) (
        start_fetches-Moves n env (slot + 1) free (start_one env slot s)
          (start_one-Ready env slot (slot + 1) s free (omega arith) r.3)))

serve_io-Quiet :
    (env : Env) (io : BdevIo) (rest : List BdevIo) (s : State)
    → Quiet s (serve_io env io (remove_io rest s))
unfolding serve_io serve_type serve_read serve_write ubi_submit_write_request
    ubi_submit_flush_request get_buf_for_read_cb
serve_io-Quiet env io rest s = record {
  ring = ground arith;
  slots = ground arith;
  statuses = ground arith;
  headers = ground arith;
}

pub io_loop-Quiet : (env : Env) (ios : List BdevIo) (s : State) → Quiet s (io_loop env ios s)
io_loop-Quiet env ios s =
    io_loop_inv env (Quiet s)
      (λ io rest t _ q. record {
        ring = q.ring;
        slots = q.slots;
        statuses = q.statuses;
        headers = q.headers;
      })
      (λ io rest t _ q. Quiet-trans q (serve_io-Quiet env io rest t)) ios s
      (record { ring = refl; slots = refl; statuses = refl; headers = refl })

pub submit_reads-Quiet : (env : Env) (s : State) → Quiet s (submit_reads env s)
unfolding submit_reads
submit_reads-Quiet env s = record {
  ring = ground arith;
  slots = ground arith;
  statuses = ground arith;
  headers = ground arith;
}

poll_queues-Moves : (n : ℕ) (env : Env) (s : State) → Moves n s (poll_queues env s)
unfolding poll_queues
poll_queues-Moves n env s =
    let free = free_slots s.ch.stripe_fetches 0 max_active_stripe_fetches in
    let s1 = start_fetches env free s in
    let s2 = io_loop env s1.ch.io s1 in
    Moves-trans n s s1 _
      (start_fetches-Moves n env 0 free s (free_slots-Ready s max_active_stripe_fetches 0 refl))
      (Quiet-Moves n s1 _ (Quiet-trans (io_loop-Quiet env s1.ch.io s1) (submit_reads-Quiet env s2)))

-- What a completion answers: a slot in use, or a read of the image.
abbrev pub OpDue : IoOp → State → Type 0
OpDue (stripe_fetch_op slot) s =
    (slot < max_active_stripe_fetches) × ((s.ch.stripe_fetches slot).active ≡ true)
OpDue (bdev_io_op ubi_io) s = Unit

-- Each completion of a batch answers a slot that is in use when its turn comes.
abbrev pub CqesDue : Env → List Cqe → State → Type 0
CqesDue env [] s = Unit
CqesDue env (c ∷ cs) s = OpDue c.op s × CqesDue env cs (complete_cqe env c s).1

abbrev pub BatchDue : Env → Batch → State → Type 0
BatchDue env (entries cs) s = CqesDue env cs s
BatchDue env (peek_error eagain) s = Unit

complete_read-Quiet :
    (u : UbiBdevIo) (res : ℤ) (s : State) → Quiet s (ubi_complete_read_from_image u res s).1
unfolding ubi_complete_read_from_image
complete_read-Quiet u res s = record {
  ring = ground arith;
  slots = ground arith;
  statuses = ground arith;
  headers = ground arith;
}

pub complete_cqe-Moves :
    (n : ℕ) (env : Env) (c : Cqe) (s : State) → OpDue c.op s → Moves n s (complete_cqe env c s).1
unfolding complete_cqe
complete_cqe-Moves n env c s = by_op c.op
  where
    by_op :
        (op : IoOp)
        → OpDue op s
        → Moves n s (complete_cqe env (record { op = op; res = c.res }) s).1
    by_op (stripe_fetch_op slot) due = complete_fetch-Moves n s slot due.0 due.1 env c.res
    by_op (bdev_io_op u) due = Quiet-Moves n s _ (complete_read-Quiet u c.res s)

complete_cqes-Moves :
    (n : ℕ) (env : Env) (cs : List Cqe) (ret : ℤ) (s : State)
    → CqesDue env cs s
    → Moves n s (complete_cqes env cs ret s).1
unfolding complete_cqes
complete_cqes-Moves n env [] ret s due = unchanged n s
complete_cqes-Moves n env (c ∷ cs) ret s due =
    let (ret', s') = complete_cqe env c s in
    Moves-trans n s s' _ (complete_cqe-Moves n env c s due.0)
      (complete_cqes-Moves n env cs ret' s' due.1)

complete_image_io-Moves :
    (n : ℕ) (env : Env) (batch : Batch) (s : State)
    → BatchDue env batch s
    → Moves n s (ubi_complete_image_io env batch s).1
unfolding ubi_complete_image_io
complete_image_io-Moves n env (entries cs) s due = complete_cqes-Moves n env cs (pos 0) s due
complete_image_io-Moves n env (peek_error true) s due = unchanged n s
complete_image_io-Moves n env (peek_error false) s due = unchanged n s

-- A call of the poller, if the completions that it takes are due.
pub ubi_io_poll-Moves :
    (n : ℕ) (env : Env) (batch : Batch) (s : State)
    → BatchDue env batch s
    → Moves n s (ubi_io_poll env batch s).1
ubi_io_poll-Moves n env batch s due =
    let s1 = (ubi_complete_image_io env batch s).1 in
    let completed = complete_image_io-Moves n env batch s due in
    elim (ubi_io_poll-cases env batch s) [
      | inl e ↦ subst (Moves n s) (sym e) completed
      | inr e ↦
          subst (Moves n s) (sym e) (Moves-trans n s s1 _ completed (poll_queues-Moves n env s1))
    ]
