-- ===== src/Channel/Evolve.antt =====
-- What a step of a channel may do to its bdev and to its queue of requests.
use bdev_ubi.Prelude.{◌≡◌, sym, ap, subst, ◌∙◌, List, [], ◌++◌, ℕ}
use mathlib.Core.List.{append_assoc}
use bdev_ubi.Bdev.{UbiBdev, failed, ubi_set_stripe_status}
use bdev_ubi.Bdev.Kept.{Kept, Kept-refl, Kept-trans, set-Kept}
use bdev_ubi.Channel.{BdevIo, State}

-- The bdev is kept, and requests leave the queue at its head only.
pub record Evolves (s t : State) : Type 0 where
  pub kept : Kept s.bdev t.bdev
  pub taken : List BdevIo
  pub queue : s.ch.io ≡ taken ++ t.ch.io

pub Evolves-trans : {s t u : State} → Evolves s t → Evolves t u → Evolves s u
Evolves-trans {s} {t} {u} h k = record {
  kept = Kept-trans h.kept k.kept;
  taken = h.taken ++ k.taken;
  queue = h.queue ∙ ap (◌++◌ h.taken) k.queue ∙ sym (append_assoc h.taken k.taken u.ch.io);
}

-- A step that leaves the queue alone.
pub still : (s t : State) → Kept s.bdev t.bdev → t.ch.io ≡ s.ch.io → Evolves s t
still s t k e = record { kept = k; taken = []; queue = sym e }

pub same_bdev : (s t : State) → t.bdev ≡ s.bdev → t.ch.io ≡ s.ch.io → Evolves s t
same_bdev s t b e = still s t (subst (Kept s.bdev) (sym b) (Kept-refl s.bdev)) e

pub failed-Kept : (b : UbiBdev) (i : ℕ) → Kept b (ubi_set_stripe_status b i failed)
failed-Kept b i = set-Kept b i failed (λ e. cc)
