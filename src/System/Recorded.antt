-- ===== src/System/Recorded.antt =====
-- What a channel never forgets about the stripes of its bdev.
use bdev_ubi.Prelude.{ℕ, ◌≢◌}
use bdev_ubi.Bdev.{not_fetched, ubi_get_stripe_status}
use bdev_ubi.Bdev.Kept.{Recorded}
use bdev_ubi.Channel.{State}
use bdev_ubi.System.{Reach}
use bdev_ubi.System.Steps.{Reach-Kept}

-- Whatever steps a channel takes, a stripe that has been asked for stays asked for: no stripe comes
-- back to the status STRIPE_NOT_FETCHED.
Reach-asked :
    {s t : State}
    → Reach s t
    → (i : ℕ) → ubi_get_stripe_status s.bdev i ≢ not_fetched
    → ubi_get_stripe_status t.bdev i ≢ not_fetched
Reach-asked r i asked e = asked ((Reach-Kept r).statuses i e)

-- If at the start the stripes fetched are marked in the headers of the metadata, then whatever steps
-- a channel takes, the stripes fetched at the end are marked in the headers.
Reach-Recorded :
    {s t : State} → ((i : ℕ) → Recorded s.bdev i) → Reach s t → (i : ℕ) → Recorded t.bdev i
Reach-Recorded h r i = (Reach-Kept r).recorded i (h i)
