-- ===== src/Poll/Verdicts.antt =====
-- Why the loop of the poller fails a request.
use bdev_ubi.Prelude.{◌≡◌, List, [], ◌∷◌, All, arith}
use bdev_ubi.Bdev.{failed, ubi_get_stripe_status}
use bdev_ubi.Channel.{BdevIo, State}
use bdev_ubi.Request.{stripe_of, wants_stripe}
use bdev_ubi.Request.Admission.{AdmittedIo, supported_type}
use bdev_ubi.Poll.{verdict, fail}

-- A request fails for its stripe, which has failed or has not been asked for.
fail-status :
    (io : BdevIo) (s : State)
    → AdmittedIo s.bdev io
    → verdict io s ≡ fail
    → ubi_get_stripe_status s.bdev (stripe_of s.bdev io.offset_blocks) ≡ failed
unfolding verdict wants_stripe
fail-status io s a h = ground (arith, a.asked, supported_type io.type a.supported)

pub fail-failed :
    (s : State) (ios : List BdevIo)
    → All (AdmittedIo s.bdev) ios
    → All
        (λ io.
          verdict io s ≡ fail
          → ubi_get_stripe_status s.bdev (stripe_of s.bdev io.offset_blocks) ≡ failed)
        ios
fail-failed s [] a = tt
fail-failed s (io ∷ ios) a = (fail-status io s a.0, fail-failed s ios a.1)
