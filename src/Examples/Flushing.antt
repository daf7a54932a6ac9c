-- ===== src/Examples/Flushing.antt =====
-- A flush from its data to the metadata on the base bdev, at concrete answers.
use bdev_ubi.Prelude.{◌≡◌, refl, true, false, [], ◌∷◌, arith}
use bdev_ubi.Bdev.{ubi_get_stripe_status, fetched}
use bdev_ubi.Channel.{write_metadata, flush_metadata, io_complete}
use bdev_ubi.Flush.{
  metadata_blocks, ubi_data_flush_completion, ubi_metadata_write_completion,
  ubi_metadata_flush_completion,
}
use bdev_ubi.Load.{header_fetched}
use bdev_ubi.Durable.{
  Store, not_writing, writing, flushing, seen, data_flushed, metadata_written, metadata_flushed,
  StoreReach, start, later,
}
use bdev_ubi.Durable.Sound.{Sound}
use bdev_ubi.Durable.Reach.{StoreReach-Sound, flush_completed-durable}
use bdev_ubi.Examples.{test_bdev, test_channel, test_metadata, willing, flush_ctx}

-- One stripe has been fetched, and nothing has been flushed.
abbrev unflushed : Store
unflushed = record { bdev = test_bdev; phase = not_writing; stable = λ i. false; since = λ i. 1 }

-- The metadata is being written for the request.
abbrev is_written : Store
is_written = record unflushed {
  bdev = (ubi_data_flush_completion willing flush_ctx true (seen unflushed test_channel [])).bdev;
  phase = writing flush_ctx test_metadata;
}

abbrev is_flushed : Store
is_flushed = record is_written {
  bdev =
      (ubi_metadata_write_completion willing flush_ctx true (seen is_written test_channel [])).bdev;
  phase = flushing flush_ctx test_metadata;
}

abbrev has_ended : Store
has_ended = record is_flushed {
  bdev = (ubi_metadata_flush_completion flush_ctx true (seen is_flushed test_channel [])).bdev;
  phase = not_writing;
  stable = header_fetched test_metadata;
}

metadata_due :
    (ubi_data_flush_completion willing flush_ctx true (seen unflushed test_channel [])).calls
    ≡ write_metadata flush_ctx test_metadata (metadata_blocks test_bdev) ∷ []
unfolding ubi_data_flush_completion
metadata_due = refl

flush_due :
    (ubi_metadata_write_completion willing flush_ctx true (seen is_written test_channel [])).calls
    ≡ flush_metadata flush_ctx 0 (metadata_blocks test_bdev) ∷ []
unfolding ubi_metadata_write_completion ubi_data_flush_completion
flush_due = refl

flush_run : StoreReach unflushed has_ended
flush_run =
    later
      (later
        (later start (
          data_flushed test_channel [] willing flush_ctx flush_ctx test_metadata
            (metadata_blocks test_bdev) refl metadata_due))
        (metadata_written test_channel [] willing flush_ctx test_metadata
          (metadata_blocks test_bdev) refl flush_due))
      (metadata_flushed test_channel [] flush_ctx test_metadata refl)

unflushed-Sound : Sound unflushed
unfolding ubi_get_stripe_status header_fetched
unflushed-Sound = record {
  counters = omega arith;
  counted = λ i e. omega arith;
  marked = λ i e. ground (arith, e);
  pending = tt;
  durable = λ i f. absurd (omega (arith, f.by_then));
}

StoreReach-Sound_example : Sound has_ended
StoreReach-Sound_example = StoreReach-Sound unflushed-Sound flush_run

-- A second flush has nothing to write.
second_complete :
    (ubi_data_flush_completion willing flush_ctx true (seen has_ended test_channel [])).calls
    ≡ io_complete flush_ctx.bdev_io true ∷ []
unfolding ubi_data_flush_completion ubi_metadata_write_completion ubi_metadata_flush_completion
second_complete = refl

still_fetched : ubi_get_stripe_status has_ended.bdev 0 ≡ fetched
unfolding ubi_get_stripe_status ubi_data_flush_completion ubi_metadata_write_completion
    ubi_metadata_flush_completion
still_fetched = refl

flush_completed-durable_example : has_ended.stable 0 ≡ true
flush_completed-durable_example =
    flush_completed-durable test_channel [] willing flush_ctx 0 unflushed-Sound flush_run
      second_complete still_fetched
