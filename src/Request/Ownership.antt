-- ===== src/Request/Ownership.antt =====
-- A request that arrives keeps a channel's ring and slots in order.
use bdev_ubi.Prelude.{
  ℕ, ◌*◌, ◌/◌, ◌^◌, ◌<◌, refl, false, ltb, ◌&&◌, not, ◌==◌, if_cases, arith, two_pow_pos,
}
use bdev_ubi.FetchQueue.{fetch_queue_size}
use bdev_ubi.Bdev.{UbiBdev, ubi_get_stripe_status}
use bdev_ubi.Channel.{BdevIo, State, emit, io_complete}
use bdev_ubi.Request.{
  stripe_of, end_block, wants_stripe, is_not_fetched, insert_io, enqueue_fetch, ubi_submit_request,
}
use bdev_ubi.Ownership.{Moves, Fits}
use bdev_ubi.Ownership.Passing.{Moves-trans, Quiet, Quiet-Moves}
use bdev_ubi.Ownership.Fetching.{enqueue-Moves}

div-lt_of_lt_mul : (a n d : ℕ) → 0 < d → a < n * d → a / d < n
div-lt_of_lt_mul a n d p h = grind arith

-- A block of the image lies in one of its stripes.
pub stripe_of-Fits :
    (n : ℕ) (b : UbiBdev) (block : ℕ)
    → Fits n b
    → block < b.image_block_count
    → stripe_of b block < n
unfolding stripe_of
stripe_of-Fits n b block fits h =
    div-lt_of_lt_mul block n (2 ^ b.stripe_shift) (two_pow_pos b.stripe_shift) (omega arith)

pub submit-Moves :
    (n : ℕ) (io : BdevIo) (s : State)
    → n < fetch_queue_size
    → Fits n s.bdev
    → Moves n s (ubi_submit_request io s)
unfolding ubi_submit_request
submit-Moves n io s small fits =
    let stripe = stripe_of s.bdev io.offset_blocks in
    let q = enqueue_fetch stripe s in
    let same = λ (t : State) (h : Quiet s t). Quiet-Moves n s t h in
    if_cases (Moves n s) (wants_stripe s.bdev io) _ _
      (λ _.
        if_cases (Moves n s) (not (stripe == stripe_of s.bdev (end_block io)))
          (emit (io_complete io false) s) _
          (λ _.
            Quiet-Moves n s _
              (record { ring = refl; slots = refl; statuses = refl; headers = refl }))
          (λ _.
            if_cases (Moves n s)
              (ltb io.offset_blocks s.bdev.image_block_count
                && is_not_fetched (ubi_get_stripe_status s.bdev stripe))
              (insert_io io q) (insert_io io s)
              (λ e.
                Moves-trans n s q _
                  (enqueue-Moves n s stripe small
                    (stripe_of-Fits n s.bdev io.offset_blocks fits (ground arith)) (ground arith))
                  (Quiet-Moves n q _
                    (record { ring = refl; slots = refl; statuses = refl; headers = refl })))
              (λ _.
                Quiet-Moves n s _
                  (record { ring = refl; slots = refl; statuses = refl; headers = refl }))))
      (λ _.
        Quiet-Moves n s _ (record { ring = refl; slots = refl; statuses = refl; headers = refl }))
