-- ===== src/System/Fresh.antt =====
-- A bdev whose channels have just been opened.
use bdev_ubi.Prelude.{ℕ, ◌≡◌, ◌≢◌, ap, count, [], arith}
use bdev_ubi.Bdev.{inflight, ubi_get_stripe_status}
use bdev_ubi.Channel.{IoChannel, max_active_stripe_fetches}
use bdev_ubi.FetchQueue.Contents.{contents}
use bdev_ubi.FetchQueue.Refine.{stripe_queue_empty_iff}
use bdev_ubi.Open.Balance.{Idle}
use bdev_ubi.Ownership.{occurrences, Fits}
use bdev_ubi.Ownership.Counts.{slot_count-idle}
use bdev_ubi.System.Shared.{Shared}
use bdev_ubi.System.Exclusive.{Exclusive}

-- An idle channel names no stripe.
occurrences-Idle : (ch : IoChannel) (i : ℕ) → Idle ch → occurrences ch i ≡ 0
occurrences-Idle ch i h =
    let none_waits : contents ch.stripe_fetch_queue ≡ [] =
      (stripe_queue_empty_iff ch.stripe_fetch_queue h.ring_valid).0 h.no_stripes in
    omega (
      arith,
      ap (count i) none_waits,
      slot_count-idle ch.stripe_fetches i max_active_stripe_fetches h.free,
    )

-- If no stripe is being fetched and all channels are as ubi_create_channel_cb leaves them, then the
-- channels are in order.
pub Idle-Exclusive :
    (n : ℕ) (g : Shared)
    → Fits n g.bdev
    → ((i : ℕ) → ubi_get_stripe_status g.bdev i ≢ inflight)
    → ((k : ℕ) → Idle (g.channels k))
    → Exclusive n g
Idle-Exclusive n g fits none_asked idle = record {
  fits = fits;
  each = λ k. record {
    ring = (idle k).ring_valid;
    once = λ i. omega (arith, occurrences-Idle (g.channels k) i (idle k));
    below = λ i h. occurrences-Idle (g.channels k) i (idle k);
  };
  alone = λ k l i h. absurd (omega (arith, occurrences-Idle (g.channels k) i (idle k), h));
  someone = λ i e. absurd (none_asked i e);
}
