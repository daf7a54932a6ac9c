-- ===== src/Data/Copy.antt =====
-- The write of a fetched stripe keeps the bdev showing what a plain device shows.
use bdev_ubi.Prelude.{
  ℕ, ◌+◌, ◌-◌, ◌*◌, ◌/◌, ◌^◌, ◌<◌, ◌≡◌, refl, ap, sym, ◌∙◌, ap₂, Bool-cases, inl, inr, true, false,
  ◌==◌, ==_iff, if◌then◌else◌, arith,
}
use bdev_ubi.FetchQueue.{update}
use bdev_ubi.Bdev.{UbiBdev}
use bdev_ubi.Channel.{StripeFetch, write_stripe, max_active_stripe_fetches}
use bdev_ubi.Request.{stripe_of}
use bdev_ubi.Data.{World, Outside, in_range, effect}
use bdev_ubi.Data.Place.{offset_block, target_block, stripe_length, in_range-stripe}
use bdev_ubi.Data.Sim.{Sized, Busy, Proper, Sim}
use bdev_ubi.Data.Calls.{in_image}

index :
    (first count j distance : ℕ)
    → in_range (first + distance) count (j + distance) ≡ true
    → first + (j + distance - (first + distance)) ≡ j
index first count j distance h = ground arith

module _ {V : Type 0} (x : Outside V) (n : ℕ) (b : UbiBdev) (slots : ℕ → StripeFetch)
    (z : Sized n x.blocklen b) (busy : Busy n b slots) (foreign : ℕ → Type 0) (w : World V)
    (sim : Sim x b slots foreign w) (slot buf target nbytes : ℕ)
    (proper : Proper n b slots (write_stripe slot buf target nbytes)) where
  idx_small : (slots slot).stripe_idx < 2 ^ 32
  idx_small = omega (arith, (busy slot proper.0 proper.1).1, z.small)

  after :
      (j : ℕ)
      → (effect x (write_stripe slot buf target nbytes) w).base (j + b.data_offset_blocks) ≡ (
          if stripe_of b j == (slots slot).stripe_idx
          then x.image j
          else w.base (j + b.data_offset_blocks))
  after j =
      let idx : ℕ = (slots slot).stripe_idx in
      let pos : 0 < x.blocklen = omega (arith, z.positive, z.length) in
      let at : target / x.blocklen ≡ idx * 2 ^ b.stripe_shift + b.data_offset_blocks =
        ap₂ (λ t l. t / l) proper.2 (sym z.length)
        ∙ target_block b z.placed z.positive idx idx_small in
      let len : nbytes / x.blocklen ≡ 2 ^ b.stripe_shift =
        ap₂ (λ t l. t / l) proper.3 (sym z.length)
        ∙ stripe_length b z.placed z.positive idx idx_small in
      let from : w.loaded slot / x.blocklen ≡ idx * 2 ^ b.stripe_shift =
        ap₂ (λ t l. t / l) (sim.loading slot proper.0 proper.1) (sym z.length)
        ∙ offset_block b z.placed z.positive idx idx_small in
      let inside = in_range-stripe b idx j in
      elim (Bool-cases (
        in_range (idx * 2 ^ b.stripe_shift + b.data_offset_blocks) (2 ^ b.stripe_shift)
          (j + b.data_offset_blocks))) [
            | inl covered ↦
                rw (at, len, from, covered, sym inside ∙ covered)
                  ((ap x.image (
                    index (idx * 2 ^ b.stripe_shift) (2 ^ b.stripe_shift) j b.data_offset_blocks
                      covered)))
            | inr free ↦ rw (at, len, from, free, sym inside ∙ free) refl
          ]

  pub write_stripe-Sim : Sim x b slots foreign (effect x (write_stripe slot buf target nbytes) w)
  write_stripe-Sim = record {
    loading = sim.loading;
    copied = λ k small active done j e.
        elim (Bool-cases (stripe_of b j == (slots slot).stripe_idx)) [
          | inl mine ↦ ground (arith, after j, mine)
          | inr other ↦ ground (arith, after j, other, copied_before k small active done j e other)
        ];
    spared = λ i out j e. ground (arith, after j, sim.spared i out j e);
    shows = λ j. ground (
      arith,
      after j,
      sim.shows j,
      (busy slot proper.0 proper.1).0,
      in_image n x.blocklen b z j,
      (busy slot proper.0 proper.1).1,
    );
    reads = sim.reads;
  }
    where
      copied_before :
          (k : ℕ)
          → k < max_active_stripe_fetches
          → (slots k).active ≡ true
          → update w.written slot true k ≡ true
          → (j : ℕ) → stripe_of b j ≡ (slots k).stripe_idx
          → (stripe_of b j == (slots slot).stripe_idx) ≡ false
          → w.base (j + b.data_offset_blocks) ≡ x.image j
      copied_before k small active done j e other = elim (Bool-cases (k == slot)) [
        | inl same ↦ absurd (
            ground (arith, same, other, e, ap (λ t. (slots t).stripe_idx) ((==_iff k slot).0 same)))
        | inr differ ↦ sim.copied k small active (ground (arith, differ, done)) j e
      ]
