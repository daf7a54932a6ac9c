-- ===== src/Request.antt =====
-- src/lib/bdev_ubi.c: what happens to a request when it arrives.
pub mod Admission
pub mod Ownership
pub mod Silent
use bdev_ubi.Prelude.{
  ℕ, ◌+◌, ◌-◌, ◌/◌, ◌%◌, ◌^◌, Bool, true, false, ◌&&◌, ◌||◌, not, List, [], ◌∷◌, ◌++◌, ltb, ◌==◌,
  if◌then◌else◌,
}
use bdev_ubi.FetchQueue.{enqueue_stripe}
use bdev_ubi.Bdev.{
  UbiBdev, StripeStatus, not_fetched, inflight, failed, fetched, ubi_get_stripe_status,
  ubi_set_stripe_status,
}
use bdev_ubi.Channel.{
  IoType, read, write, flush, write_zeroes, reset, unmap, other, BdevIo, IoChannel, State, emit,
  io_complete,
}

unfoldable pub ubi_io_type_supported : IoType → Bool
ubi_io_type_supported read = true
ubi_io_type_supported write = true
ubi_io_type_supported flush = true
ubi_io_type_supported _ = false

abbrev pub is_read : IoType → Bool
is_read read = true
is_read _ = false

abbrev pub is_write : IoType → Bool
is_write write = true
is_write _ = false

abbrev pub is_flush : IoType → Bool
is_flush flush = true
is_flush _ = false

abbrev pub is_not_fetched : StripeStatus → Bool
is_not_fetched not_fetched = true
is_not_fetched _ = false

-- start_block >> stripe_shift, on uint64_t
unfoldable pub stripe_of : UbiBdev → ℕ → ℕ
stripe_of b block = block / 2 ^ b.stripe_shift

-- start_block + num_blocks - 1, on uint64_t
unfoldable pub end_block : BdevIo → ℕ
end_block io = (io.offset_blocks + io.num_blocks + 2 ^ 64 - 1) % 2 ^ 64

-- TAILQ_INSERT_TAIL(&ch->io, bdev_io, module_link)
abbrev pub insert_io : BdevIo → State → State
insert_io io s = record s { ch = record (s.ch) { io = s.ch.io ++ (io ∷ []) } }

-- Whether a request wants its stripe fetched: a write does, and a read with copy_on_read.
unfoldable pub wants_stripe : UbiBdev → BdevIo → Bool
wants_stripe b io = is_write io.type || (is_read io.type && b.copy_on_read)

abbrev pub enqueue_fetch : ℕ → State → State
enqueue_fetch stripe s = record s {
  ch = record (s.ch) { stripe_fetch_queue = enqueue_stripe s.ch.stripe_fetch_queue stripe };
  bdev = ubi_set_stripe_status s.bdev stripe inflight;
}

unfoldable pub ubi_submit_request : BdevIo → State → State
ubi_submit_request io s =
    let start_stripe = stripe_of s.bdev io.offset_blocks in
    let end_stripe = stripe_of s.bdev (end_block io) in
    if wants_stripe s.bdev io
    then (if not (start_stripe == end_stripe)
        then emit (io_complete io false) s
        else if ltb io.offset_blocks s.bdev.image_block_count
            && is_not_fetched (ubi_get_stripe_status s.bdev start_stripe)
        then insert_io io (enqueue_fetch start_stripe s)
        else insert_io io s)
    else insert_io io s
