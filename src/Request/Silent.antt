-- ===== src/Request/Silent.antt =====
-- A request that arrives fetches no stripe.
use bdev_ubi.Prelude.{not, ltb, ◌&&◌, false, if_intro, ◌==◌}
use bdev_ubi.Bdev.{inflight, ubi_get_stripe_status}
use bdev_ubi.Channel.{emit, io_complete, State, BdevIo}
use bdev_ubi.Request.{
  wants_stripe, end_block, is_not_fetched, stripe_of, enqueue_fetch, insert_io, ubi_submit_request,
}
use bdev_ubi.Bdev.Silent.{Silent, Silent-refl, set-Silent}

pub submit-Silent : (io : BdevIo) (s : State) → Silent s.bdev (ubi_submit_request io s).bdev
unfolding ubi_submit_request
submit-Silent io s =
    let stripe = stripe_of s.bdev io.offset_blocks in
    let again = Silent-refl s.bdev in
    if_intro (λ (t : State). Silent s.bdev t.bdev) (wants_stripe s.bdev io) _ _
      (if_intro (λ (t : State). Silent s.bdev t.bdev)
        (not (stripe == stripe_of s.bdev (end_block io))) (emit (io_complete io false) s) _ again
        (if_intro (λ (t : State). Silent s.bdev t.bdev)
          (ltb io.offset_blocks s.bdev.image_block_count
            && is_not_fetched (ubi_get_stripe_status s.bdev stripe))
          (insert_io io (enqueue_fetch stripe s)) (insert_io io s)
          (set-Silent s.bdev stripe inflight (λ e. cc)) again))
      again
