-- ===== src/System/Recovery.antt =====
-- What the metadata of a running bdev is worth after a crash.
use bdev_ubi.Prelude.{ℕ, ◌<◌, ◌≡◌, ◌≢◌, ◌⊎◌, refl, ap, sym, ◌∙◌, inl, inr, true, not, ◌==◌, arith}
use bdev_ubi.FetchQueue.{fetch_queue_size}
use bdev_ubi.Bdev.{StripeStatus, fetched, not_fetched, inflight, failed, ubi_get_stripe_status}
use bdev_ubi.Channel.{State}
use bdev_ubi.Ownership.{Owned, Mine, Passes}
use bdev_ubi.Load.{header_fetched}
use bdev_ubi.Load.Restart.{Marked}
use bdev_ubi.System.Steps.{Step-Kept}
use bdev_ubi.System.Shared.{Shared, view, SharedStep, by}
use bdev_ubi.System.Moving.{Step-Moves}
use bdev_ubi.System.Exclusive.{Exclusive, named-status}

is_fetched_cases : (st : StripeStatus) → (st ≡ fetched) ⊎ (st ≢ fetched)
is_fetched_cases fetched = inl refl
is_fetched_cases not_fetched = inr (λ e. cc)
is_fetched_cases inflight = inr (λ e. cc)
is_fetched_cases failed = inr (λ e. cc)

-- Nobody touches a stripe that has been fetched.
pub fetched_not_Mine :
    (n : ℕ) (s : State) (i : ℕ)
    → Owned n s
    → ubi_get_stripe_status s.bdev i ≡ fetched
    → Mine s i
    → ⊥
fetched_not_Mine n s i o e (inl fresh) = cc
fetched_not_Mine n s i o e (inr mine) = let was = named-status n s i o mine in cc

header_fetched_lem :
    (s t : State) (i : ℕ)
    → (t.bdev.metadata.stripe_headers i).0 ≡ (s.bdev.metadata.stripe_headers i).0
    → header_fetched t.bdev.metadata i ≡ header_fetched s.bdev.metadata i
unfolding header_fetched
header_fetched_lem s t i e = ap (λ b. not (b == 0)) e

set_header :
    (s : State) (i : ℕ)
    → (s.bdev.metadata.stripe_headers i).0 ≡ 1
    → header_fetched s.bdev.metadata i ≡ true
unfolding header_fetched
set_header s i e = ground arith

module _ (n : ℕ) (s t : State) (o : Owned n s) (i : ℕ) (p : Passes s t i) where
  marked-fetched :
      (header_fetched s.bdev.metadata i ≡ true → ubi_get_stripe_status s.bdev i ≡ fetched)
      → header_fetched t.bdev.metadata i ≡ true
      → ubi_get_stripe_status t.bdev i ≡ fetched
  marked-fetched before h = elim p.marked [
    | inr (e, m) ↦ e
    | inl same ↦
        let was = before (sym (header_fetched_lem s t i same) ∙ h) in
        elim p.others [ inl e ↦ e ∙ was | inr m ↦ absurd (fetched_not_Mine n s i o was m) ]
  ]

  fetched-marked :
      ((ubi_get_stripe_status s.bdev i ≢ fetched)
        → ubi_get_stripe_status t.bdev i ≡ fetched
        → (t.bdev.metadata.stripe_headers i).0 ≡ 1)
      → (ubi_get_stripe_status s.bdev i ≡ fetched → header_fetched s.bdev.metadata i ≡ true)
      → ubi_get_stripe_status t.bdev i ≡ fetched
      → header_fetched t.bdev.metadata i ≡ true
  fetched-marked anew before e = elim (is_fetched_cases (ubi_get_stripe_status s.bdev i)) [
    | inr fresh ↦ set_header t i (anew fresh e)
    | inl was ↦ elim p.marked [
      | inl same ↦ header_fetched_lem s t i same ∙ before was
      | inr (f, m) ↦ absurd (fetched_not_Mine n s i o was m)
    ]
  ]

pub SharedStep-Marked :
    (n : ℕ) {g h : Shared}
    → n < fetch_queue_size
    → SharedStep g h
    → Exclusive n g
    → Marked g.bdev
    → Marked h.bdev
unfolding ubi_get_stripe_status
SharedStep-Marked n {g} small (by k {t} st due) e m =
    let (o, p) = Step-Moves n st small e.fits due (e.each k) in
    let kept = Step-Kept st in
    record {
      magic = kept.magic ∙ m.magic;
      version = kept.version ∙ m.version;
      headers = λ i h. (
        marked-fetched n (view g k) t (e.each k) i (p i) (m.headers i h).0,
        fetched-marked n (view g k) t (e.each k) i (p i)
            (λ fresh. kept.recorded i (λ was. absurd (fresh was))) (m.headers i h).1,
      );
    }
