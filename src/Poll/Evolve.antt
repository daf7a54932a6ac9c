-- ===== src/Poll/Evolve.antt =====
-- What the poller does to the bdev and to the queue of requests.
use bdev_ubi.Prelude.{
  ℕ, refl, sym, subst, inl, inr, true, false, if_intro, ℤ, pos, List, [], ◌∷◌, arith,
}
use bdev_ubi.Bdev.Kept.{Kept, Kept-refl}
use bdev_ubi.FetchQueue.{stripe_queue_empty, dequeue_stripe}
use bdev_ubi.Channel.{UbiBdevIo, Env, State, max_active_stripe_fetches}
use bdev_ubi.Channel.Evolve.{Evolves, Evolves-trans, same_bdev}
use bdev_ubi.Fetch.{set_slot}
use bdev_ubi.Fetch.Outcome.{start_fetch-Evolves, complete_fetch-Evolves}
use bdev_ubi.ReadWrite.{ubi_complete_read_from_image}
use bdev_ubi.Poll.{
  IoOp, Cqe, Batch, entries, peek_error, complete_cqe, complete_cqes, ubi_complete_image_io,
  start_one, start_fetches, io_loop, submit_reads, poll_queues, ubi_io_poll, stripe_fetch_op,
  bdev_io_op, free_slots,
}
use bdev_ubi.Poll.Loop.{ubi_io_poll-cases}
use bdev_ubi.Poll.Order.{io_loop-Drained}
use bdev_ubi.Poll.Serve.{io_loop-bdev}

complete_read-Evolves :
    (u : UbiBdevIo) (res : ℤ) (s : State) → Evolves s (ubi_complete_read_from_image u res s).1
unfolding ubi_complete_read_from_image
complete_read-Evolves u res s = same_bdev s _ (ground arith) (ground arith)

pub complete_cqe-Evolves : (env : Env) (c : Cqe) (s : State) → Evolves s (complete_cqe env c s).1
unfolding complete_cqe
complete_cqe-Evolves env c s = by_op c.op
  where
    by_op : (op : IoOp) → Evolves s (complete_cqe env (record { op = op; res = c.res }) s).1
    by_op (stripe_fetch_op slot) = complete_fetch-Evolves env slot c.res s
    by_op (bdev_io_op u) = complete_read-Evolves u c.res s

complete_cqes-Evolves :
    (env : Env) (cs : List Cqe) (ret : ℤ) (s : State) → Evolves s (complete_cqes env cs ret s).1
unfolding complete_cqes
complete_cqes-Evolves env [] ret s = same_bdev s s refl refl
complete_cqes-Evolves env (c ∷ cs) ret s =
    Evolves-trans (complete_cqe-Evolves env c s)
      (complete_cqes-Evolves env cs (complete_cqe env c s).0 (complete_cqe env c s).1)

pub complete_image_io-Evolves :
    (env : Env) (batch : Batch) (s : State) → Evolves s (ubi_complete_image_io env batch s).1
unfolding ubi_complete_image_io
complete_image_io-Evolves env (entries cs) s = complete_cqes-Evolves env cs (pos 0) s
complete_image_io-Evolves env (peek_error true) s = same_bdev s s refl refl
complete_image_io-Evolves env (peek_error false) s = same_bdev s s refl refl

pub start_one-Evolves : (env : Env) (slot : ℕ) (s : State) → Evolves s (start_one env slot s)
unfolding start_one
start_one-Evolves env slot s =
    let (stripe_idx, queue) = dequeue_stripe s.ch.stripe_fetch_queue in
    let s1 = record s { ch = record (s.ch) { stripe_fetch_queue = queue } } in
    let f = record (s.ch.stripe_fetches slot) { stripe_idx = stripe_idx; active = true } in
    let e = start_fetch-Evolves env slot (set_slot slot f s1) in
    record { kept = e.kept; taken = e.taken; queue = e.queue }

pub start_fetches-Evolves :
    (env : Env) (free : List ℕ) (s : State) → Evolves s (start_fetches env free s)
unfolding start_fetches
start_fetches-Evolves env [] s = same_bdev s s refl refl
start_fetches-Evolves env (slot ∷ free) s =
    if_intro (Evolves s) (stripe_queue_empty s.ch.stripe_fetch_queue) _ _ (same_bdev s s refl refl)
      (Evolves-trans (start_one-Evolves env slot s)
        (start_fetches-Evolves env free (start_one env slot s)))

pub io_loop-Evolves : (env : Env) (s : State) → Evolves s (io_loop env s.ch.io s)
io_loop-Evolves env s =
    let d = io_loop-Drained env s.ch.io s refl in
    record {
      kept = subst (Kept s.bdev) (sym (io_loop-bdev env s.ch.io s)) (Kept-refl s.bdev);
      taken = d.taken;
      queue = d.split;
    }

pub submit_reads-Evolves : (env : Env) (s : State) → Evolves s (submit_reads env s)
unfolding submit_reads
submit_reads-Evolves env s = same_bdev s _ (ground arith) (ground arith)

poll_queues-Evolves : (env : Env) (s : State) → Evolves s (poll_queues env s)
unfolding poll_queues
poll_queues-Evolves env s =
    let free = free_slots s.ch.stripe_fetches 0 max_active_stripe_fetches in
    let s1 = start_fetches env free s in
    Evolves-trans (start_fetches-Evolves env free s)
      (Evolves-trans (io_loop-Evolves env s1) (submit_reads-Evolves env (io_loop env s1.ch.io s1)))

-- The poller keeps the image size, the stripe size and shift, the block length, the place of the data
-- and copy_on_read, takes no stripe back to the status STRIPE_NOT_FETCHED, keeps fetched stripes marked in the metadata, and takes requests from
-- the queue at its head only.
pub ubi_io_poll-Evolves :
    (env : Env) (batch : Batch) (s : State) → Evolves s (ubi_io_poll env batch s).1
ubi_io_poll-Evolves env batch s = elim (ubi_io_poll-cases env batch s) [
  | inl e ↦ subst (Evolves s) (sym e) (complete_image_io-Evolves env batch s)
  | inr e ↦
      subst (Evolves s) (sym e)
        (Evolves-trans (complete_image_io-Evolves env batch s) (poll_queues-Evolves env _))
]
