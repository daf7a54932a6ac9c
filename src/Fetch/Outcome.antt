-- ===== src/Fetch/Outcome.antt =====
-- A fetch never takes a stripe back to the status STRIPE_NOT_FETCHED.
use bdev_ubi.Prelude.{ℕ, ◌≡◌, refl, sym, subst, ◌⊎◌, inl, inr, Bool, ℤ, if_intro, arith}
use bdev_ubi.Bdev.{failed, fetched, ubi_set_stripe_status}
use bdev_ubi.Bdev.Kept.{Kept, Kept-trans, set-Kept, Kept-counters}
use bdev_ubi.Channel.{Env, State}
use bdev_ubi.Channel.Evolve.{Evolves, still, same_bdev, failed-Kept}
use bdev_ubi.Fetch.{ubi_start_fetch_stripe, ubi_complete_fetch_stripe, write_stripe_io_completion}

pub start_fetch-Evolves :
    (env : Env) (slot : ℕ) (s : State) → Evolves s (ubi_start_fetch_stripe env slot s)
unfolding ubi_start_fetch_stripe
start_fetch-Evolves env slot s =
    if_intro (Evolves s) _ _ _ (still s _ (failed-Kept s.bdev _) refl) (same_bdev s _ refl refl)

-- A completion leaves the bdev alone, or marks the stripe of the slot as failed.
complete_fetch-bdev :
    (env : Env) (slot : ℕ) (res : ℤ) (s : State)
    → let b = (ubi_complete_fetch_stripe env slot res s).1.bdev in
      (b ≡ s.bdev) ⊎ (b ≡ ubi_set_stripe_status s.bdev (s.ch.stripe_fetches slot).stripe_idx failed)
unfolding ubi_complete_fetch_stripe
complete_fetch-bdev env slot res s = ground arith

complete_fetch-io :
    (env : Env) (slot : ℕ) (res : ℤ) (s : State)
    → (ubi_complete_fetch_stripe env slot res s).1.ch.io ≡ s.ch.io
unfolding ubi_complete_fetch_stripe
complete_fetch-io env slot res s = ground arith

pub complete_fetch-Evolves :
    (env : Env) (slot : ℕ) (res : ℤ) (s : State)
    → Evolves s (ubi_complete_fetch_stripe env slot res s).1
complete_fetch-Evolves env slot res s =
    let io = complete_fetch-io env slot res s in
    elim (complete_fetch-bdev env slot res s) [
      | inl e ↦ same_bdev s _ e io
      | inr e ↦ still s _ (subst (Kept s.bdev) (sym e) (failed-Kept s.bdev _)) io
    ]

pub stripe_written-Evolves :
    (slot : ℕ) (success : Bool) (s : State) → Evolves s (write_stripe_io_completion slot success s)
unfolding write_stripe_io_completion
stripe_written-Evolves slot success s =
    still s _ (Kept-trans (set-Kept s.bdev _ fetched (λ e. cc)) (Kept-counters _ _ _)) refl
