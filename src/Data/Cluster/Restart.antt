-- ===== src/Data/Cluster/Restart.antt =====
-- A bdev that is created again shows what the one before it did.
use bdev_ubi.Prelude.{ℕ, ◌<◌, ◌≡◌, refl, ap, ◌∙◌, arith}
use bdev_ubi.Layout.{max_stripes}
use bdev_ubi.Bdev.{
  UbiBdev, StripeStatus, not_fetched, inflight, failed, fetched, ubi_get_stripe_status,
}
use bdev_ubi.Load.Restart.{restarted}
use bdev_ubi.ReadWrite.{is_fetched}
use bdev_ubi.Request.{stripe_of}
use bdev_ubi.Data.{Outside}
use bdev_ubi.Data.Cluster.{Cluster, DataReach, Shows}
use bdev_ubi.Bdev.SameLayout.{SameLayout}
use bdev_ubi.Data.Calls.{stripe_in_image}
use bdev_ubi.Data.Cluster.Served.{DataReach-Shows}

is_fetched-restarted : (st : StripeStatus) → is_fetched (restarted st) ≡ is_fetched st
is_fetched-restarted fetched = refl
is_fetched-restarted not_fetched = refl
is_fetched-restarted inflight = refl
is_fetched-restarted failed = refl

module _ {V : Type 0} (x : Outside V) where
  -- What a bdev shows that has read the metadata of `c`, over the base bdev of `d`.
  module _ (n : ℕ) {c d : Cluster V} (q : Shows x n c) (r : DataReach x c d) (b' : UbiBdev)
      (laid : SameLayout d.bdev b')
      (statuses : (i : ℕ)
        → i < max_stripes
        → b'.stripe_status i ≡ restarted (c.bdev.stripe_status i)) where
    abbrev in_c : ℕ → StripeStatus
    in_c j = ubi_get_stripe_status c.bdev (stripe_of d.bdev j)

    abbrev in_d : ℕ → StripeStatus
    in_d j = ubi_get_stripe_status d.bdev (stripe_of d.bdev j)

    known :
        (j : ℕ)
        → j < d.bdev.image_block_count
        → is_fetched (ubi_get_stripe_status b' (stripe_of d.bdev j)) ≡ is_fetched (in_c j)
    unfolding ubi_get_stripe_status
    known j inside =
        let i = stripe_of d.bdev j in
        let reached = DataReach-Shows x n q r in
        let small : i < max_stripes =
          omega
            (arith, stripe_in_image n x.blocklen d.bdev reached.sized j inside, q.sized.small) in
        ap is_fetched (statuses i small) ∙ is_fetched-restarted (c.bdev.stripe_status i)
