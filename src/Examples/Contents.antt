-- ===== src/Examples/Contents.antt =====
-- The blocks of a bdev: the theorems at a concrete run.
use bdev_ubi.Prelude.{ℕ, ◌+◌, ◌*◌, ◌^◌, ◌<◌, ◌≡◌, refl, true, some, [], ◌∷◌, All, arith}
use bdev_ubi.Errno.{ok}
use bdev_ubi.Layout.{Layout, layout_of, halvings, stripe_blocks, init_layout_params}
use bdev_ubi.Metadata.{Metadata, ubi_new_disk}
use bdev_ubi.Bdev.{UbiBdev}
use bdev_ubi.Channel.{read, write, BdevIo, State}
use bdev_ubi.Create.{Answers, Opts, configured, request_of}
use bdev_ubi.Load.{ubi_finish_read_metadata}
use bdev_ubi.Poll.{entries, ubi_io_poll}
use bdev_ubi.Request.{ubi_io_type_supported, stripe_of, ubi_submit_request}
use bdev_ubi.System.{submitted, polled}
use bdev_ubi.System.Shared.{view}
use bdev_ubi.Data.{Outside, Carried, run, shown}
use bdev_ubi.Data.Sim.{Split, SplitIo, Right, Sized}
use bdev_ubi.Data.Change.{Split-SameLayout}
use bdev_ubi.Bdev.SameLayout.{SameLayout, SameLayout-trans}
use bdev_ubi.Data.Cluster.{Cluster, shared, world, leave, DataReach, turn, start, later}
use bdev_ubi.Data.Cluster.Served.{DataReach-SameLayout}
use bdev_ubi.Data.Cluster.Plain.{opened, DataReach-plain}
use bdev_ubi.Data.Cluster.Created.{created_bdev, created-plain}
use bdev_ubi.Examples.{
  test_bdev, test_metadata, test_channel, write_io, willing, reborn, write_supported,
}
use bdev_ubi.Examples.Lifecycle.{all_well, options}
use bdev_ubi.Examples.Sharing.{test_channel-Idle, none_asked}

abbrev numbers : Outside ℕ
numbers = record {
  image = λ j. 1000000 + j;
  payload = λ u i. 2000000 + i;
  metadata_block = λ m i. 7;
  blocklen = 512;
}

abbrev all_carried : Carried
all_carried before c = true

abbrev next : ℕ → State → Cluster ℕ → Cluster ℕ
next k t c = leave k t (run numbers all_carried (world k c) t.calls) c

-- Nothing has arrived on any channel.
abbrev began : Cluster ℕ
began = opened numbers test_bdev (λ k. test_channel) (λ j. 0)

-- A write to stripe 0, which has been fetched, arrives on channel 4 and is carried out; a read of the
-- same blocks arrives on channel 7; then a write to stripe 2, whose fetch is started.
abbrev write_0 : BdevIo
write_0 = record { id = 5; type = write; offset_blocks = 8; num_blocks = 8 }

abbrev pub read_0 : BdevIo
read_0 = record { id = 6; type = read; offset_blocks = 8; num_blocks = 8 }

abbrev arrived : Cluster ℕ
arrived = next 4 (ubi_submit_request write_0 (view (shared began) 4)) began

abbrev written_0 : Cluster ℕ
written_0 = next 4 (ubi_io_poll willing (entries []) (view (shared arrived) 4)).1 arrived

abbrev read_arrived : Cluster ℕ
read_arrived = next 7 (ubi_submit_request read_0 (view (shared written_0) 7)) written_0

abbrev read_done : Cluster ℕ
read_done = next 7 (ubi_io_poll willing (entries []) (view (shared read_arrived) 7)).1 read_arrived

abbrev write_arrived : Cluster ℕ
write_arrived = next 4 (ubi_submit_request write_io (view (shared read_done) 4)) read_done

abbrev fetching : Cluster ℕ
fetching = next 4 (ubi_io_poll willing (entries []) (view (shared write_arrived) 4)).1 write_arrived

write_io-Split : Split test_bdev write_io
unfolding stripe_of
write_io-Split = record {
  one_stripe = λ j low high. omega (arith, low, high);
  blocks = omega arith;
  bytes = omega arith;
}

write_0-Split : Split test_bdev write_0
unfolding stripe_of
write_0-Split = record {
  one_stripe = λ j low high. omega (arith, low, high);
  blocks = omega arith;
  bytes = omega arith;
}

read_0-Split : Split test_bdev read_0
unfolding stripe_of
read_0-Split = record {
  one_stripe = λ j low high. omega (arith, low, high);
  blocks = omega arith;
  bytes = omega arith;
}

-- A request that is split for the bdev at the start is split for it later.
later_request :
    {c : Cluster ℕ} (io : BdevIo)
    → Split test_bdev io
    → DataReach numbers began c
    → SplitIo c.bdev io
later_request {c} io p r _ = Split-SameLayout test_bdev c.bdev (DataReach-SameLayout r) io p

pub read_supported : ubi_io_type_supported read ≡ true
unfolding ubi_io_type_supported
read_supported = refl

write_run : DataReach numbers began written_0
write_run =
    later
      (later start
        (turn 4 all_carried (submitted write_0 write_supported) tt (λ _. write_0-Split) tt))
      (turn 4 all_carried (polled willing (entries [])) tt tt (λ calls. refl))

read_run : DataReach numbers began read_done
read_run =
    later
      (later write_run (
        turn 7 all_carried (submitted read_0 read_supported) tt
          (later_request read_0 read_0-Split write_run) tt))
      (turn 7 all_carried (polled willing (entries [])) tt tt (λ calls. refl))

then_fetch : {c : Cluster ℕ} → DataReach numbers c read_done → DataReach numbers c fetching
then_fetch r =
    later
      (later r (
        turn 4 all_carried (submitted write_io write_supported) tt
          (later_request write_io write_io-Split read_run) tt))
      (turn 4 all_carried (polled willing (entries [])) tt tt (λ calls. refl))

test_bdev-Sized : Sized 64 512 test_bdev
test_bdev-Sized = record {
  placed = record { stripe_size = omega arith; stripe_bytes = refl; metadata_bytes = refl };
  length = refl;
  positive = omega arith;
  whole = refl;
  small = omega arith;
}

DataReach-plain_example :
    ((j : ℕ) → shown numbers fetching.bdev fetching.base j ≡ fetching.plain j)
    × All Right fetching.reads
DataReach-plain_example =
    DataReach-plain numbers 64 test_bdev (λ k. test_channel) (λ j. 0) test_bdev-Sized none_asked
      (λ k. test_channel-Idle) (then_fetch read_run)

-- The metadata that the bdev held after the read.
abbrev again : UbiBdev
again = record reborn { metadata = read_done.bdev.metadata }

-- A bdev that is created over a new base bdev, with an image of 64 stripes of 64 KiB.
abbrev small_stripes : Opts
small_stripes = record options { stripe_size_kb = 64 }

abbrev whole_image : Answers
whole_image = record all_well { stat = some 4194304 }

abbrev whole_layout : Layout
whole_layout = layout_of (request_of whole_image small_stripes) 4194304

whole_image_accepted : init_layout_params (request_of whole_image small_stripes) ≡ ok whole_layout
unfolding init_layout_params
whole_image_accepted = refl

stripes_64 : whole_layout.image_block_count ≡ 64 * 2 ^ whole_layout.stripe_shift
unfolding layout_of halvings stripe_blocks
stripes_64 = refl

abbrev blank_metadata : Metadata
blank_metadata = record test_metadata { magic = 0 ∷ 0 ∷ 0 ∷ 0 ∷ 0 ∷ 0 ∷ 0 ∷ 0 ∷ 0 ∷ [] }

abbrev new_bdev : UbiBdev
new_bdev = created_bdev whole_image small_stripes whole_layout blank_metadata

abbrev new_began : Cluster ℕ
new_began = opened numbers new_bdev (λ k. test_channel) (λ j. 0)

-- A write to stripe 2 arrives on channel 4, its fetch is started, and a read arrives on channel 7.
abbrev new_asked : Cluster ℕ
new_asked = next 4 (ubi_submit_request write_io (view (shared new_began) 4)) new_began

abbrev new_polled : Cluster ℕ
new_polled = next 4 (ubi_io_poll willing (entries []) (view (shared new_asked) 4)).1 new_asked

abbrev new_read : Cluster ℕ
new_read = next 7 (ubi_submit_request read_0 (view (shared new_polled) 7)) new_polled

abbrev new_ran : Cluster ℕ
new_ran = next 7 (ubi_io_poll willing (entries []) (view (shared new_read) 7)).1 new_read

new_bdev-SameLayout : SameLayout test_bdev new_bdev
unfolding ubi_finish_read_metadata layout_of halvings stripe_blocks ubi_new_disk configured
new_bdev-SameLayout = record {
  blocklen = refl;
  size = refl;
  shift = refl;
  offset = refl;
  image = refl;
}

new_request :
    {c : Cluster ℕ} (io : BdevIo)
    → Split test_bdev io
    → DataReach numbers new_began c
    → SplitIo c.bdev io
new_request {c} io p r _ =
    Split-SameLayout test_bdev c.bdev
      (SameLayout-trans new_bdev-SameLayout (DataReach-SameLayout r)) io p

new_fetch : DataReach numbers new_began new_polled
new_fetch =
    later
      (later start (
        turn 4 all_carried (submitted write_io write_supported) tt
          (new_request write_io write_io-Split start) tt))
      (turn 4 all_carried (polled willing (entries [])) tt tt (λ calls. refl))

new_run : DataReach numbers new_began new_ran
new_run =
    later
      (later new_fetch (
        turn 7 all_carried (submitted read_0 read_supported) tt
          (new_request read_0 read_0-Split new_fetch) tt))
      (turn 7 all_carried (polled willing (entries [])) tt tt (λ calls. refl))

created-plain_example :
    ((j : ℕ) → shown numbers new_ran.bdev new_ran.base j ≡ new_ran.plain j)
    × All Right new_ran.reads
    × (ubi_new_disk blank_metadata.magic ≡ true
        → (j : ℕ) → j < whole_layout.image_block_count
        → new_began.plain j ≡ numbers.image j)
created-plain_example =
    created-plain numbers whole_image small_stripes 4194304 whole_layout blank_metadata 64
      (λ k. test_channel) (λ j. 0) (record { device = omega arith; image = omega arith })
      (omega arith) refl whole_image_accepted refl (omega arith) stripes_64 (λ k. test_channel-Idle)
      new_run
