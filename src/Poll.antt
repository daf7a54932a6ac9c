-- ===== src/Poll.antt =====
-- src/lib/bdev_ubi_io_channel.c: the poller of an I/O channel.
pub mod Loop
pub mod Serve
pub mod Safety
pub mod Order
pub mod Reads
pub mod Evolve
pub mod Verdicts
pub mod Ownership
pub mod Fetches
pub mod Turn
pub mod Silent
pub mod Waiting
pub mod Busy
use bdev_ubi.Prelude.{
  ℕ, zero, suc, ◌+◌, ◌-◌, ◌*◌, ◌%◌, ◌^◌, Bool, true, false, ◌&&◌, ◌||◌, not, ℤ, pos, negsuc, is_neg,
  Option, none, some, List, [], ◌∷◌, ltb, leb, ◌==◌, if◌then◌else◌,
}
use bdev_ubi.FetchQueue.{dequeue_stripe, stripe_queue_empty}
use bdev_ubi.Bdev.{StripeStatus, not_fetched, inflight, failed, fetched, ubi_get_stripe_status}
use bdev_ubi.Channel.{
  IoType, read, write, flush, BdevIo, UbiBdevIo, StripeFetch, IoChannel, max_active_stripe_fetches,
  max_concurrent_reads, Env, State, emit, issue, inc64, get_buf, io_complete, uring_submit,
}
use bdev_ubi.Fetch.{set_slot, ubi_start_fetch_stripe, ubi_complete_fetch_stripe}
use bdev_ubi.Flush.{ubi_submit_flush_request}
use bdev_ubi.ReadWrite.{get_buf_for_read_cb, ubi_submit_write_request, ubi_complete_read_from_image}
use bdev_ubi.Request.{is_read, is_flush, stripe_of}

-- The user data of a completion: a `struct ubi_io_op`, first field of either structure.
pub data IoOp : Type 0 where
  stripe_fetch_op : (slot : ℕ) → IoOp
  bdev_io_op : (ubi_io : UbiBdevIo) → IoOp

-- A completion queue entry: its user data and its `res`.
pub record Cqe : Type 0 where
  pub op : IoOp
  pub res : ℤ

-- What io_uring_peek_batch_cqe finds: entries, or a negative result.
pub data Batch : Type 0 where
  entries : List Cqe → Batch
  peek_error : (eagain : Bool) → Batch

unfoldable pub complete_cqe : Env → Cqe → State → ℤ × State
complete_cqe env c s = elim c.op [
  | stripe_fetch_op slot ↦ ubi_complete_fetch_stripe env slot c.res s
  | bdev_io_op ubi_io ↦ ubi_complete_read_from_image ubi_io c.res s
]

-- `ret` is the result of the last entry.
unfoldable pub complete_cqes : Env → List Cqe → ℤ → State → ℤ × State
complete_cqes env [] ret s = (ret, s)
complete_cqes env (c ∷ cs) ret s =
    let (ret', s') = complete_cqe env c s in complete_cqes env cs ret' s'

unfoldable pub ubi_complete_image_io : Env → Batch → State → ℤ × State
ubi_complete_image_io env (entries cs) s = complete_cqes env cs (pos 0) s
ubi_complete_image_io env (peek_error true) s = (pos 0, s)
ubi_complete_image_io env (peek_error false) s = (negsuc 0, s)

-- free_stripe_fetches: `n` slots from `i` on, those that are not active.
pub free_slots : (ℕ → StripeFetch) → ℕ → ℕ → List ℕ
free_slots fetches i zero = []
free_slots fetches i (suc n) =
    let rest = free_slots fetches (i + 1) n in if (fetches i).active then rest else (i ∷ rest)

-- Dequeue one stripe and start its fetch in a slot.
unfoldable pub start_one : Env → ℕ → State → State
start_one env slot s =
    let (stripe_idx, queue) = dequeue_stripe s.ch.stripe_fetch_queue in
    let s1 = record s { ch = record (s.ch) { stripe_fetch_queue = queue } } in
    let f = record (s.ch.stripe_fetches slot) { stripe_idx = stripe_idx; active = true } in
    let s2 = ubi_start_fetch_stripe env slot (set_slot slot f s1) in
    record s2 { ch = record (s2.ch) { stripes_fetched = inc64 s2.ch.stripes_fetched } }

unfoldable pub start_fetches : Env → List ℕ → State → State
start_fetches env [] s = s
start_fetches env (slot ∷ free) s =
    if stripe_queue_empty s.ch.stripe_fetch_queue
    then s
    else start_fetches env free (start_one env slot s)

-- What the loop over the requests does with the first one.
pub data Verdict : Type 0 where
  halt fail serve : Verdict

-- The verdict on a request whose stripe is one of the image.
pub image_verdict : Bool → Bool → StripeStatus → Verdict
image_verdict reading copy_on_read failed = fail
image_verdict reading copy_on_read inflight = halt
image_verdict reading copy_on_read not_fetched = if not reading || copy_on_read then fail else serve
image_verdict reading copy_on_read fetched = serve

pub verdict : BdevIo → State → Verdict
unfolding image_verdict
verdict io s =
    if is_read io.type && leb max_concurrent_reads s.ch.active_reads
    then halt
    else if not (is_flush io.type) && ltb io.offset_blocks s.bdev.image_block_count
    then image_verdict (is_read io.type) s.bdev.copy_on_read
        (ubi_get_stripe_status s.bdev (stripe_of s.bdev io.offset_blocks))
    else serve

-- TAILQ_REMOVE(&ch->io, bdev_io, module_link) of the first request
abbrev pub remove_io : List BdevIo → State → State
remove_io rest s = record s { ch = record (s.ch) { io = rest } }

-- The driver's context; `stripes_fetched` is written later, before it is read.
abbrev pub driver_ctx : BdevIo → UbiBdevIo
driver_ctx io = record {
  bdev_io = io;
  block_offset = io.offset_blocks;
  block_count = io.num_blocks;
  stripes_fetched = 0;
}

-- ch->active_reads++ and ch->blocks_read += block_count
abbrev pub count_read : UbiBdevIo → State → State
count_read ubi_io s = record s {
  ch = record (s.ch) {
    active_reads = inc64 s.ch.active_reads;
    blocks_read = (s.ch.blocks_read + ubi_io.block_count) % 2 ^ 64;
  };
}

unfoldable pub serve_read : Env → UbiBdevIo → State → State
serve_read env ubi_io s =
    let len = ubi_io.bdev_io.num_blocks * s.bdev.blocklen % 2 ^ 64 in
    let s1 = emit (get_buf ubi_io len) (count_read ubi_io s) in
    elim (env.buf_now s.calls ubi_io) [
      | none ↦ s1
      | some success ↦ get_buf_for_read_cb env ubi_io success s1
    ]

unfoldable pub serve_write : Env → UbiBdevIo → State → State
serve_write env ubi_io s =
    let s1 = record s {
      ch = record (s.ch) { blocks_written = (s.ch.blocks_written + ubi_io.block_count) % 2 ^ 64 };
    } in
    (ubi_submit_write_request env ubi_io s1).1

-- The `switch` on the type of a request.
unfoldable pub serve_type : Env → IoType → BdevIo → State → State
serve_type env read io s = serve_read env (driver_ctx io) s
serve_type env write io s = serve_write env (driver_ctx io) s
serve_type env flush io s = ubi_submit_flush_request env (driver_ctx io) s
serve_type env _ io s = emit (io_complete io false) s

unfoldable pub serve_io : Env → BdevIo → State → State
unfolding serve_type
serve_io env io s = serve_type env io.type io s

-- The loop over the requests, which are those of `s.ch.io`. A client is taken not to submit a request
-- to the channel from within a callback that spdk_bdev_io_complete runs: the source reads the head of
-- the queue anew in each round, so that such a request would be handled in the same loop.
unfoldable pub io_loop : Env → List BdevIo → State → State
io_loop env [] s = s
io_loop env (io ∷ rest) s = elim (verdict io s) [
  | halt ↦ s
  | fail ↦ io_loop env rest (emit (io_complete io false) (remove_io rest s))
  | serve ↦ io_loop env rest (serve_io env io (remove_io rest s))
]

-- The reads from the image that the loop has prepared are submitted together.
unfoldable pub submit_reads : Env → State → State
submit_reads env s =
    let (ret, s1) = issue env uring_submit s in
    if s.ch.has_reads == 0
    then s
    else if is_neg ret
    then s1
    else record s1 { ch = record (s1.ch) { has_reads = 0 } }

-- SPDK_POLLER_IDLE and SPDK_POLLER_BUSY
pub data PollerResult : Type 0 where
  idle busy : PollerResult

abbrev pub is_empty {ℓ} : {A : Type ℓ} → List A → Bool
is_empty [] = true
is_empty (x ∷ xs) = false

-- image_ios_completed < 1
abbrev pub less_than_one : ℤ → Bool
less_than_one (pos zero) = true
less_than_one (pos (suc n)) = false
less_than_one (negsuc n) = true

-- The part of the poll that has work in its queues.
unfoldable pub poll_queues : Env → State → State
unfolding submit_reads
poll_queues env s =
    let free = free_slots s.ch.stripe_fetches 0 max_active_stripe_fetches in
    let s1 = start_fetches env free s in submit_reads env (io_loop env s1.ch.io s1)

pub ubi_io_poll : Env → Batch → State → PollerResult × State
ubi_io_poll env batch s =
    let queues_empty = is_empty s.ch.io && stripe_queue_empty s.ch.stripe_fetch_queue in
    let (image_ios_completed, s1) = ubi_complete_image_io env batch s in
    if queues_empty
    then (if less_than_one image_ios_completed then (idle, s1) else (busy, s1))
    else (busy, poll_queues env s1)
