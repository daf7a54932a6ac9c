-- ===== src/Data/Change.antt =====
-- Changes of the bdev and of the slots that leave the blocks shown as they are.
use bdev_ubi.Prelude.{
  ℕ, ◌+◌, ◌*◌, ◌^◌, ◌<◌, ◌≤◌, ◌≡◌, ◌≢◌, refl, ap, sym, ◌∙◌, subst, true, false, ◌==◌, Bool-cases,
  inl, inr, List, [], ◌∷◌, All, arith,
}
use bdev_ubi.Layout.{stripe_size_max}
use bdev_ubi.FetchQueue.{update}
use bdev_ubi.Bdev.{UbiBdev, StripeStatus, not_fetched, ubi_get_stripe_status, ubi_set_stripe_status}
use bdev_ubi.Bdev.Kept.{set-Kept}
use bdev_ubi.Bdev.SameLayout.{SameLayout, Kept-SameLayout}
use bdev_ubi.Bdev.Stripe.{get-set_status}
use bdev_ubi.Channel.{BdevIo, StripeFetch}
use bdev_ubi.Fetch.{stripe_offset}
use bdev_ubi.Fetch.Bounds.{Placed}
use bdev_ubi.ReadWrite.{is_fetched}
use bdev_ubi.Request.{stripe_of}
use bdev_ubi.Data.{World, Outside, shown}
use bdev_ubi.Data.Sim.{Split, SplitIo, Sized, Sim}

module _ (b b' : UbiBdev) (l : SameLayout b b') where
  pub stripe_of-SameLayout : (j : ℕ) → stripe_of b' j ≡ stripe_of b j
  unfolding stripe_of
  stripe_of-SameLayout j = rw l.shift refl

  pub stripe_offset-SameLayout : (i : ℕ) → stripe_offset b' i ≡ stripe_offset b i
  unfolding stripe_offset
  stripe_offset-SameLayout i = rw l.size refl

  Placed-SameLayout : Placed b → Placed b'
  Placed-SameLayout p = record {
    stripe_size = subst (λ k. k ≤ stripe_size_max) (sym l.size) p.stripe_size;
    stripe_bytes = rw (l.shift, l.blocklen, l.size) p.stripe_bytes;
    metadata_bytes = rw (l.offset, l.blocklen) p.metadata_bytes;
  }

  pub Sized-SameLayout : (n blocklen : ℕ) → Sized n blocklen b → Sized n blocklen b'
  Sized-SameLayout n blocklen z = record {
    placed = Placed-SameLayout z.placed;
    length = l.blocklen ∙ z.length;
    positive = subst (λ k. 0 < k) (sym l.blocklen) z.positive;
    whole = rw (l.image, l.shift) z.whole;
    small = z.small;
  }

  pub Split-SameLayout : (io : BdevIo) → Split b io → Split b' io
  Split-SameLayout io p = record {
    one_stripe = λ j low high.
        stripe_of-SameLayout j
        ∙ p.one_stripe j low high
        ∙ sym (stripe_of-SameLayout io.offset_blocks);
    blocks = omega (arith, p.blocks, l.offset);
    bytes = subst (λ k. io.offset_blocks * k < 2 ^ 64) (sym l.blocklen) p.bytes;
  }

  pub All-Split-SameLayout : (ios : List BdevIo) → All (SplitIo b) ios → All (SplitIo b') ios
  All-Split-SameLayout [] p = tt
  All-Split-SameLayout (io ∷ ios) (p, ps) =
      (λ e. Split-SameLayout io (p e), All-Split-SameLayout ios ps)

  -- The slots in use are among those that were, with the same stripes.
  pub change-Sim :
      {V : Type 0} (x : Outside V) (slots slots' : ℕ → StripeFetch) (foreign : ℕ → Type 0)
      (w : World V)
      → ((k : ℕ)
          → (slots' k).active ≡ true
          → ((slots k).active ≡ true) × ((slots' k).stripe_idx ≡ (slots k).stripe_idx))
      → ((j : ℕ) → shown x b' w.base j ≡ shown x b w.base j)
      → Sim x b slots foreign w
      → Sim x b' slots' foreign w
  change-Sim x slots slots' foreign w fewer same sim = record {
    loading = λ k small active.
        sim.loading k small (fewer k active).0
        ∙ ap (stripe_offset b) (sym (fewer k active).1)
        ∙ sym (stripe_offset-SameLayout (slots' k).stripe_idx);
    copied = λ k small active done j e.
        ap (λ o. w.base (j + o)) l.offset
        ∙ sim.copied k small (fewer k active).0 done j
            (sym (stripe_of-SameLayout j) ∙ e ∙ (fewer k active).1);
    spared = λ i out j e.
        ap (λ o. w.base (j + o)) l.offset ∙ sim.spared i out j (sym (stripe_of-SameLayout j) ∙ e);
    shows = λ j. same j ∙ sim.shows j;
    reads = sim.reads;
  }

  -- Whether its stripe has been fetched decides what is shown of a block.
  pub shown-at :
      {V : Type 0} (x : Outside V) (base : ℕ → V) (j : ℕ)
      → (j < b.image_block_count
          → is_fetched (ubi_get_stripe_status b' (stripe_of b j))
            ≡ is_fetched (ubi_get_stripe_status b (stripe_of b j)))
      → shown x b' base j ≡ shown x b base j
  unfolding ubi_get_stripe_status stripe_of
  shown-at x base j same = rw (l.image, l.offset, stripe_of-SameLayout j) (ground (arith, same))

-- A stripe is marked that has not been fetched, and will not be with it.
pub shown-set :
    {V : Type 0} (x : Outside V) (w : World V) (b : UbiBdev) (i : ℕ) (st : StripeStatus)
    → st ≢ not_fetched
    → is_fetched st ≡ false
    → is_fetched (ubi_get_stripe_status b i) ≡ false
    → (j : ℕ) → shown x (ubi_set_stripe_status b i st) w.base j ≡ shown x b w.base j
shown-set x w b i st some after before j =
    shown-at b (ubi_set_stripe_status b i st) (Kept-SameLayout (set-Kept b i st some)) x w.base j
      (λ _. ground (arith, get-set_status b i (stripe_of b j) st))

-- A slot gives its stripe up.
pub released-fewer :
    (slots : ℕ → StripeFetch) (slot k : ℕ)
    → (update slots slot (record (slots slot) { active = false }) k).active ≡ true
    → ((slots k).active ≡ true)
      × ((update slots slot (record (slots slot) { active = false }) k).stripe_idx
          ≡ (slots k).stripe_idx)
released-fewer slots slot k h = elim (Bool-cases (k == slot)) [
  | inl same ↦ absurd (ground (arith, same, h))
  | inr other ↦ (ground (arith, other, h), ground (arith, other))
]
