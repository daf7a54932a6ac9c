-- ===== src/Poll/Turn.antt =====
-- What a poll that has fetches to start does.
use bdev_ubi.Prelude.{◌≡◌, refl, ◌∙◌, true, false, ℤ, pos, List, [], ◌∷◌, ◌++◌, arith}
use bdev_ubi.FetchQueue.Contents.{contents}
use bdev_ubi.Channel.{Call, Env, State, max_active_stripe_fetches}
use bdev_ubi.Fetch.{ubi_fail_stripe_fetch, ubi_complete_fetch_stripe}
use bdev_ubi.ReadWrite.{ubi_complete_read_from_image}
use bdev_ubi.Poll.{
  stripe_fetch_op, bdev_io_op, IoOp, Batch, Cqe, entries, peek_error, complete_cqe, complete_cqes,
  ubi_complete_image_io, free_slots,
}
use bdev_ubi.Poll.Fetches.{starts, left_over}

complete_cqe-ring :
    (env : Env) (c : Cqe) (s : State)
    → (complete_cqe env c s).1.ch.stripe_fetch_queue ≡ s.ch.stripe_fetch_queue
unfolding complete_cqe ubi_complete_fetch_stripe ubi_complete_read_from_image ubi_fail_stripe_fetch
complete_cqe-ring env c s = by_op c.op
  where
    by_op :
        (op : IoOp)
        → (complete_cqe env (record { op = op; res = c.res }) s).1.ch.stripe_fetch_queue
          ≡ s.ch.stripe_fetch_queue
    by_op (stripe_fetch_op slot) = ground arith
    by_op (bdev_io_op u) = ground arith

complete_cqes-ring :
    (env : Env) (cs : List Cqe) (ret : ℤ) (s : State)
    → (complete_cqes env cs ret s).1.ch.stripe_fetch_queue ≡ s.ch.stripe_fetch_queue
unfolding complete_cqes
complete_cqes-ring env [] ret s = refl
complete_cqes-ring env (c ∷ cs) ret s =
    let (ret', s') = complete_cqe env c s in
    complete_cqes-ring env cs ret' s' ∙ complete_cqe-ring env c s

pub complete_image_io-ring :
    (env : Env) (batch : Batch) (s : State)
    → (ubi_complete_image_io env batch s).1.ch.stripe_fetch_queue ≡ s.ch.stripe_fetch_queue
unfolding ubi_complete_image_io
complete_image_io-ring env (entries cs) s = complete_cqes-ring env cs (pos 0) s
complete_image_io-ring env (peek_error true) s = refl
complete_image_io-ring env (peek_error false) s = refl

-- Calls that are only added to.
abbrev Grows : List Call → List Call → Type 0
Grows before after = (later : List Call) × (after ≡ later ++ before)

-- What a poll that has fetches to start does.
pub record Turn (env : Env) (batch : Batch) (s t : State) : Type 0 where
  pub ring :
      let s1 = (ubi_complete_image_io env batch s).1 in
      contents t.ch.stripe_fetch_queue
      ≡ left_over
          (free_slots s1.ch.stripe_fetches 0 max_active_stripe_fetches)
          (contents s.ch.stripe_fetch_queue)
  pub calls :
      let s1 = (ubi_complete_image_io env batch s).1 in
      Grows
        (starts env s1.bdev
          (free_slots s1.ch.stripe_fetches 0 max_active_stripe_fetches)
          (contents s.ch.stripe_fetch_queue)
          s1.calls)
        t.calls
