-- ===== src/Examples/Parts.antt =====
-- The layout, the ring, the metadata and the place of a fetch, at concrete inputs.
use bdev_ubi.Prelude.{
  ◌+◌, ◌%◌, ◌^◌, ◌≤◌, ◌<◌, ◌≡◌, ◌↔◌, ◌⊎◌, ℕ, pos, if◌then◌else◌, refl, true, some, [], ◌∷◌, ◌++◌,
  arith,
}
use bdev_ubi.Errno.{ok, err, einval}
use bdev_ubi.Layout.{max_stripes, Request, layout_of, init_layout_params}
use bdev_ubi.Layout.Accept.{Accepts, InRange, init_layout_params-Accepts}
use bdev_ubi.Layout.Geometry.{Geometry, init_layout_params-Geometry}
use bdev_ubi.FetchQueue.{FetchQueue, enqueue_stripe, dequeue_stripe}
use bdev_ubi.FetchQueue.Contents.{contents, IsValid}
use bdev_ubi.FetchQueue.Refine.{contents-enqueue_stripe, contents-dequeue_stripe}
use bdev_ubi.Metadata.{ubi_init_metadata}
use bdev_ubi.Metadata.Version.{ubi_init_metadata-truncated}
use bdev_ubi.Fetch.{align_buf, stripe_nbytes, ubi_complete_fetch_stripe}
use bdev_ubi.Fetch.Bounds.{buf_size, align_buf_fits, Placed, Covers, complete_fetch-Covers}
use bdev_ubi.Request.{stripe_of}
use bdev_ubi.Bdev.{UbiBdev, fetched, not_fetched}
use bdev_ubi.Load.{header_fetched, ubi_finish_read_metadata}
use bdev_ubi.Load.Restart.{finish_read-init_metadata}
use bdev_ubi.Examples.{
  test_metadata, test_bdev, three_waiting, three-IsValid, fresh, test_channel, willing,
}
use bdev_ubi.Channel.{State, write_stripe}

-- Its head and tail are as far apart as they can be.
abbrev full_queue : FetchQueue
full_queue = record { entries = λ i. i; head = 5; tail = 4 }

-- A request for an image of 4 MiB and 100 bytes.
abbrev request : Request
request = record { blocklen = 512; blockcnt = 40960; stripe_size_kb = 256; stat = some 4194404 }

request-InRange : InRange request 4194404
request-InRange = record { device = omega arith; image = omega arith }

request_accepted : init_layout_params request ≡ ok (layout_of request 4194404)
unfolding init_layout_params
request_accepted = refl

init_layout_params-Accepts_example :
    ((init_layout_params request ≡ ok (layout_of request 4194404)) ↔ Accepts request 4194404)
    × ((init_layout_params request ≡ ok (layout_of request 4194404))
        ⊎ (init_layout_params request ≡ err einval))
init_layout_params-Accepts_example = init_layout_params-Accepts request 4194404 request-InRange refl

init_layout_params-Geometry_example : Geometry request 4194404 (layout_of request 4194404)
init_layout_params-Geometry_example =
    init_layout_params-Geometry request 4194404 (layout_of request 4194404) request-InRange refl
      request_accepted

test_bdev-Placed : Placed test_bdev
test_bdev-Placed = record { stripe_size = omega arith; stripe_bytes = refl; metadata_bytes = refl }

small_stripe : stripe_of test_bdev 300 < 2 ^ 32
unfolding stripe_of
small_stripe = omega arith

-- The fetch of the stripe of block 300 has been read into slot 5.
abbrev fetched_2 : State
fetched_2 = record fresh {
  ch = record test_channel {
    stripe_fetches = λ i. record { active = true; stripe_idx = 2; buf_aligned = 8192 };
  };
}

in_stripe_2 : stripe_of test_bdev 300 ≡ 2
unfolding stripe_of
in_stripe_2 = refl

complete_fetch-Covers_example :
    (target : ℕ) × (nbytes : ℕ) × ((ubi_complete_fetch_stripe willing 5
        (pos 65536)
        fetched_2).1.calls
      ≡ write_stripe 5 8192 target nbytes ∷ [])
    × Covers test_bdev 300 target nbytes
complete_fetch-Covers_example =
    complete_fetch-Covers willing 5 (pos 65536) fetched_2 300 test_bdev-Placed refl in_stripe_2
      small_stripe

align_buf_fits_example :
    (align_buf 4096 10000 % 4096 ≡ 0)
    × (10000 ≤ align_buf 4096 10000)
    × (align_buf 4096 10000 + stripe_nbytes test_bdev ≤ 10000 + buf_size)
align_buf_fits_example = align_buf_fits test_bdev 10000 (omega arith)

full-IsValid : IsValid full_queue
full-IsValid = record { head_in = omega arith; tail_in = omega arith }

contents-enqueue_stripe_example :
    contents (enqueue_stripe three_waiting 9) ≡ contents three_waiting ++ (9 ∷ [])
contents-enqueue_stripe_example =
    contents-enqueue_stripe three_waiting 9 three-IsValid (omega arith)

contents-dequeue_stripe_example :
    ((dequeue_stripe three_waiting).0 ≡ 0)
    × (contents (dequeue_stripe three_waiting).1 ≡ 0 ∷ 1 ∷ [])
contents-dequeue_stripe_example =
    contents-dequeue_stripe three_waiting 0 (0 ∷ 1 ∷ []) three-IsValid refl

-- A bdev into which a metadata area that has been filled in is read.
abbrev filled_in : UbiBdev
filled_in = record test_bdev { metadata = ubi_init_metadata 64 test_metadata }

finish_read-init_metadata_example :
    let (status, b) = ubi_finish_read_metadata true filled_in in
    (status ≡ pos 0)
    × (b.metadata ≡ ubi_init_metadata 64 test_metadata)
    × ((i : ℕ)
        → i < max_stripes
        → b.stripe_status i ≡ (if header_fetched test_metadata i then fetched else not_fetched))
finish_read-init_metadata_example = finish_read-init_metadata 64 test_metadata filled_in refl

ubi_init_metadata-truncated_example : (ubi_init_metadata 512 test_metadata).stripe_size_kb ≡ 0
ubi_init_metadata-truncated_example =
    ubi_init_metadata-truncated 512 test_metadata (3, omega arith, refl)
