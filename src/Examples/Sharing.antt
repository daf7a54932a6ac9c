-- ===== src/Examples/Sharing.antt =====
-- Many channels on one bdev: the theorems at concrete runs.
use bdev_ubi.Prelude.{ℕ, ◌+◌, ◌<◌, ◌≡◌, ◌≢◌, refl, [], arith, length}
use bdev_ubi.FetchQueue.{fetch_queue_size, stripe_queue_empty}
use bdev_ubi.FetchQueue.Contents.{contents}
use bdev_ubi.Bdev.{UbiBdev, inflight, not_fetched, ubi_get_stripe_status}
use bdev_ubi.Open.Balance.{Idle}
use bdev_ubi.Poll.{entries, ubi_io_poll}
use bdev_ubi.Request.{ubi_submit_request}
use bdev_ubi.System.{submitted, polled}
use bdev_ubi.System.Shared.{Shared, view, put, by, SharedReach, start, later}
use bdev_ubi.System.Exclusive.{Exclusive, SharedReach-Exclusive, SharedReach-room}
use bdev_ubi.System.Fresh.{Idle-Exclusive}
use bdev_ubi.Examples.{test_bdev, test_channel, write_io, willing, reborn, write_supported}

-- Nothing has arrived on any channel.
abbrev pub at_rest : Shared
at_rest = record { bdev = test_bdev; channels = λ k. test_channel; calls = λ k. [] }

-- A write has arrived on channel 4.
abbrev asked : Shared
asked = put 4 (ubi_submit_request write_io (view at_rest 4)) at_rest

-- The poller of channel 7 has run, then that of channel 4.
abbrev seven_ran : Shared
seven_ran = put 7 (ubi_io_poll willing (entries []) (view asked 7)).1 asked

abbrev four_ran : Shared
four_ran = put 4 (ubi_io_poll willing (entries []) (view seven_ran 4)).1 seven_ran

run : SharedReach at_rest four_ran
run =
    later
      (later (later start (by 4 (submitted write_io write_supported) tt))
        (by 7 (polled willing (entries [])) tt))
      (by 4 (polled willing (entries [])) tt)

pub test_channel-Idle : Idle test_channel
unfolding stripe_queue_empty
test_channel-Idle = record {
  no_requests = refl;
  ring_valid = record { head_in = omega arith; tail_in = omega arith };
  no_stripes = refl;
  free = λ i h. refl;
}

pub none_asked : (i : ℕ) → ubi_get_stripe_status test_bdev i ≢ inflight
unfolding ubi_get_stripe_status
none_asked i e = ground arith

at_rest-Exclusive : Exclusive 64 at_rest
at_rest-Exclusive = Idle-Exclusive 64 at_rest (omega arith) none_asked (λ k. test_channel-Idle)

SharedReach-Exclusive_example : Exclusive 64 four_ran
SharedReach-Exclusive_example = SharedReach-Exclusive 64 (omega arith) at_rest-Exclusive run

five_fresh : ubi_get_stripe_status at_rest.bdev 5 ≡ not_fetched
unfolding ubi_get_stripe_status
five_fresh = refl

SharedReach-room_example :
    length (contents (at_rest.channels 4).stripe_fetch_queue) + 1 < fetch_queue_size
SharedReach-room_example =
    SharedReach-room 64 (omega arith) at_rest-Exclusive start 4 5 (omega arith) five_fresh

-- The bdev of a new process, into which the metadata of the bdev that runs has been read.
abbrev restarted_bdev : UbiBdev
restarted_bdev = record reborn { metadata = four_ran.bdev.metadata }
