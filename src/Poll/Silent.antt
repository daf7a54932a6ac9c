-- ===== src/Poll/Silent.antt =====
-- The poller fetches no stripe by itself: it only starts fetches and gives some up.
use bdev_ubi.Prelude.{
  negsuc, ◌+◌, ◌%◌, ◌^◌, ℕ, ◌≡◌, ◌∙◌, sym, subst, inl, inr, true, false, ℤ, pos, List, [], ◌∷◌,
  arith, if_intro, is_neg, is_nonzero, if◌then◌else◌,
}
use bdev_ubi.Bdev.{failed}
use bdev_ubi.Layout.{metadata_size}
use bdev_ubi.Channel.{write_stripe, emit, State, Env, UbiBdevIo, max_active_stripe_fetches}
use bdev_ubi.Fetch.{
  stripe_offset, stripe_nbytes, ubi_fail_stripe_fetch, ubi_start_fetch_stripe,
  ubi_complete_fetch_stripe,
}
use bdev_ubi.ReadWrite.{ubi_complete_read_from_image}
use bdev_ubi.Poll.{
  IoOp, stripe_fetch_op, bdev_io_op, Cqe, Batch, entries, peek_error, complete_cqe, complete_cqes,
  ubi_complete_image_io, free_slots, start_one, start_fetches, io_loop, submit_reads, poll_queues,
  ubi_io_poll,
}
use bdev_ubi.Poll.Loop.{ubi_io_poll-cases}
use bdev_ubi.Poll.Serve.{io_loop-bdev}
use bdev_ubi.Bdev.Silent.{Silent, Silent-refl, Silent-trans, same-Silent, set-Silent}

abbrev pub SilentStep : State → State → Type 0
SilentStep s t = Silent s.bdev t.bdev

fail_fetch-Silent : (slot : ℕ) (s : State) → SilentStep s (ubi_fail_stripe_fetch slot s)
unfolding ubi_fail_stripe_fetch
fail_fetch-Silent slot s = set-Silent s.bdev _ failed (λ e. cc)

start_fetch-Silent :
    (env : Env) (slot : ℕ) (s : State) → SilentStep s (ubi_start_fetch_stripe env slot s)
unfolding ubi_start_fetch_stripe ubi_fail_stripe_fetch
start_fetch-Silent env slot s =
    if_intro (λ (t : State). SilentStep s t) _ _ _ (set-Silent s.bdev _ failed (λ e. cc))
      (Silent-refl s.bdev)

complete_fetch-Silent :
    (env : Env) (slot : ℕ) (res : ℤ) (s : State)
    → SilentStep s (ubi_complete_fetch_stripe env slot res s).1
unfolding ubi_complete_fetch_stripe ubi_fail_stripe_fetch
complete_fetch-Silent env slot res s =
    let f = s.ch.stripe_fetches slot in
    let c =
      write_stripe slot f.buf_aligned ((stripe_offset s.bdev f.stripe_idx + metadata_size) % 2 ^ 64)
        (stripe_nbytes s.bdev) in
    let given_up = set-Silent s.bdev f.stripe_idx failed (λ e. cc) in
    let refused : ℤ × State = (negsuc 0, ubi_fail_stripe_fetch slot (emit c s)) in
    let accepted : ℤ × State = (pos 1, emit c s) in
    let silent = λ (r : ℤ × State). SilentStep s r.1 in
    if_intro silent (is_neg res) (negsuc 0, ubi_fail_stripe_fetch slot s)
      (if is_nonzero (env.ret s.calls c) then refused else accepted) given_up
      (if_intro silent (is_nonzero (env.ret s.calls c)) refused accepted given_up
        (Silent-refl s.bdev))

start_one-Silent : (env : Env) (slot : ℕ) (s : State) → SilentStep s (start_one env slot s)
unfolding start_one
start_one-Silent env slot s = start_fetch-Silent env slot _

start_fetches-Silent :
    (env : Env) (free : List ℕ) (s : State) → SilentStep s (start_fetches env free s)
unfolding start_fetches
start_fetches-Silent env [] s = Silent-refl s.bdev
start_fetches-Silent env (slot ∷ free) s = if_intro (SilentStep s) _ _ _ (Silent-refl s.bdev) (
    Silent-trans (start_one-Silent env slot s)
      (start_fetches-Silent env free (start_one env slot s)))

complete_read-Silent :
    (u : UbiBdevIo) (res : ℤ) (s : State) → SilentStep s (ubi_complete_read_from_image u res s).1
unfolding ubi_complete_read_from_image
complete_read-Silent u res s = same-Silent (ground arith)

complete_cqe-Silent : (env : Env) (c : Cqe) (s : State) → SilentStep s (complete_cqe env c s).1
unfolding complete_cqe
complete_cqe-Silent env c s = by_op c.op
  where
    by_op : (op : IoOp) → SilentStep s (complete_cqe env (record { op = op; res = c.res }) s).1
    by_op (stripe_fetch_op slot) = complete_fetch-Silent env slot c.res s
    by_op (bdev_io_op u) = complete_read-Silent u c.res s

complete_cqes-Silent :
    (env : Env) (cs : List Cqe) (ret : ℤ) (s : State) → SilentStep s (complete_cqes env cs ret s).1
unfolding complete_cqes
complete_cqes-Silent env [] ret s = Silent-refl s.bdev
complete_cqes-Silent env (c ∷ cs) ret s =
    let (ret', s') = complete_cqe env c s in
    Silent-trans (complete_cqe-Silent env c s) (complete_cqes-Silent env cs ret' s')

complete_image_io-Silent :
    (env : Env) (batch : Batch) (s : State) → SilentStep s (ubi_complete_image_io env batch s).1
unfolding ubi_complete_image_io
complete_image_io-Silent env (entries cs) s = complete_cqes-Silent env cs (pos 0) s
complete_image_io-Silent env (peek_error true) s = Silent-refl s.bdev
complete_image_io-Silent env (peek_error false) s = Silent-refl s.bdev

submit_reads-bdev : (env : Env) (s : State) → (submit_reads env s).bdev ≡ s.bdev
unfolding submit_reads
submit_reads-bdev env s = ground arith

poll_queues-Silent : (env : Env) (s : State) → SilentStep s (poll_queues env s)
unfolding poll_queues
poll_queues-Silent env s =
    let free = free_slots s.ch.stripe_fetches 0 max_active_stripe_fetches in
    let s1 = start_fetches env free s in
    Silent-trans (start_fetches-Silent env free s)
      (same-Silent (submit_reads-bdev env (io_loop env s1.ch.io s1) ∙ io_loop-bdev env s1.ch.io s1))

pub ubi_io_poll-Silent :
    (env : Env) (batch : Batch) (s : State) → Silent s.bdev (ubi_io_poll env batch s).1.bdev
ubi_io_poll-Silent env batch s =
    let s1 = (ubi_complete_image_io env batch s).1 in
    let completed = complete_image_io-Silent env batch s in
    elim (ubi_io_poll-cases env batch s) [
      | inl e ↦ subst (SilentStep s) (sym e) completed
      | inr e ↦ subst (SilentStep s) (sym e) (Silent-trans completed (poll_queues-Silent env s1))
    ]
