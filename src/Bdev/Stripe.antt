-- ===== src/Bdev/Stripe.antt =====
-- What setting a stripe's status changes.
use bdev_ubi.Prelude.{ℕ, ◌≡◌, refl, ◌==◌, if◌then◌else◌}
use bdev_ubi.Bdev.{
  StripeStatus, not_fetched, inflight, failed, fetched, UbiBdev, ubi_get_stripe_status,
  ubi_set_stripe_status,
}

pub get-set_status :
    (b : UbiBdev) (i j : ℕ) (st : StripeStatus)
    → ubi_get_stripe_status (ubi_set_stripe_status b i st) j
      ≡ (if j == i then st else ubi_get_stripe_status b j)
unfolding ubi_get_stripe_status ubi_set_stripe_status
get-set_status b i j not_fetched = refl
get-set_status b i j inflight = refl
get-set_status b i j failed = refl
get-set_status b i j fetched = refl
