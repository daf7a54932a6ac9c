-- ===== src/Create/Placed.antt =====
-- The bdev that is created lies on its base bdev as fetches and requests need it.
use bdev_ubi.Prelude.{◌≡◌, ◌<◌, ◌≤◌, ◌*◌, ◌^◌, ap, sym, ◌∙◌, some, ℕ, arith}
use bdev_ubi.Errno.{ok}
use bdev_ubi.Layout.{Layout, init_layout_params}
use bdev_ubi.Layout.Size.{StripeSize-low_bits}
use bdev_ubi.Layout.Accept.{InRange, conditions-Accepts, init-eq-check}
use bdev_ubi.Layout.Geometry.{init_layout_params-Geometry}
use bdev_ubi.Fetch.Bounds.{Placed}
use bdev_ubi.Create.{Opts, Answers, request_of, configured}

-- With sizes that fit 64 bits: a bdev that bdev_ubi_create configures with a layout that
-- ubi_init_layout_params returned is laid out as the fetch of a stripe needs it, and the image lies
-- within its blocks.
pub configured-Placed :
    (a : Answers) (o : Opts) (st_size : ℕ) (l : Layout)
    → InRange (request_of a o) st_size
    → a.base_blockcnt < 2 ^ 64
    → a.stat ≡ some st_size
    → init_layout_params (request_of a o) ≡ ok l
    → Placed (configured a o l)
      × ((configured a o l).image_block_count ≤ (configured a o l).blockcnt)
unfolding configured
configured-Placed a o st_size l range small found h =
    let g = init_layout_params-Geometry (request_of a o) st_size l range found h in
    let checked = sym (init-eq-check (request_of a o) st_size range found) ∙ h in
    let accepted = conditions-Accepts (request_of a o) st_size range l checked in
    let (_, hi, _) = StripeSize-low_bits o.stripe_size_kb accepted.stripe_size in
    (
      record {
        stripe_size = hi;
        stripe_bytes = ap (λ t. t * a.base_blocklen) (sym g.stripe_power) ∙ g.stripe_bytes;
        metadata_bytes = g.metadata_bytes;
      },
      omega (arith, g.image_fits, small),
    )
