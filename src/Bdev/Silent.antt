-- ===== src/Bdev/Silent.antt =====
-- Changes of a bdev that fetch no stripe.
use bdev_ubi.Prelude.{ℕ, ◌≡◌, ◌≢◌, refl, ◌∙◌, sym, subst, arith}
use bdev_ubi.Bdev.{
  UbiBdev, StripeStatus, not_fetched, inflight, failed, fetched, ubi_get_stripe_status,
  ubi_set_stripe_status,
}

-- No stripe is fetched, and neither the metadata nor the counters change.
pub record Silent (b c : UbiBdev) : Type 0 where
  pub metadata : c.metadata ≡ b.metadata
  pub fetched_count : c.stripes_fetched ≡ b.stripes_fetched
  pub flushed_count : c.stripes_flushed ≡ b.stripes_flushed
  pub statuses : (i : ℕ) → ubi_get_stripe_status c i ≡ fetched → ubi_get_stripe_status b i ≡ fetched

pub Silent-refl : (b : UbiBdev) → Silent b b
Silent-refl b = record {
  metadata = refl;
  fetched_count = refl;
  flushed_count = refl;
  statuses = λ i e. e;
}

pub same-Silent : {b c : UbiBdev} → c ≡ b → Silent b c
same-Silent {b} e = subst (Silent b) (sym e) (Silent-refl b)

pub Silent-trans : {b c d : UbiBdev} → Silent b c → Silent c d → Silent b d
Silent-trans p q = record {
  metadata = q.metadata ∙ p.metadata;
  fetched_count = q.fetched_count ∙ p.fetched_count;
  flushed_count = q.flushed_count ∙ p.flushed_count;
  statuses = λ i e. p.statuses i (q.statuses i e);
}

pub set-Silent :
    (b : UbiBdev) (i : ℕ) (st : StripeStatus)
    → st ≢ fetched
    → Silent b (ubi_set_stripe_status b i st)
unfolding ubi_set_stripe_status ubi_get_stripe_status
set-Silent b i fetched h = absurd (h refl)
set-Silent b i not_fetched h = record {
  metadata = refl;
  fetched_count = refl;
  flushed_count = refl;
  statuses = λ j e. ground arith;
}
set-Silent b i inflight h = record {
  metadata = refl;
  fetched_count = refl;
  flushed_count = refl;
  statuses = λ j e. ground arith;
}
set-Silent b i failed h = record {
  metadata = refl;
  fetched_count = refl;
  flushed_count = refl;
  statuses = λ j e. ground arith;
}
