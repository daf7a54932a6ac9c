-- ===== src/Data/Good.antt =====
-- The states of a channel in which the bdev shows what a plain device shows.
use bdev_ubi.Prelude.{
  ℕ, ◌+◌, ◌<◌, ◌≡◌, ap, sym, ◌∙◌, Bool, true, false, ◌==◌, ==_iff, Bool-cases, inl, inr, List, ◌∷◌,
  All, arith, if_intro,
}
use bdev_ubi.FetchQueue.{update}
use bdev_ubi.Bdev.{UbiBdev, inflight, ubi_get_stripe_status}
use bdev_ubi.Channel.{StripeFetch, Call, prep_read, State, max_active_stripe_fetches}
use bdev_ubi.Fetch.{stripe_offset}
use bdev_ubi.Ownership.{Owned, occurrences}
use bdev_ubi.Request.{stripe_of}
use bdev_ubi.Ownership.Counts.{slot_count-active}
use bdev_ubi.System.Exclusive.{named-status}
use bdev_ubi.Data.{Carried, World, Outside, request, run}
use bdev_ubi.Data.Sim.{SplitIo, Sized, Busy, Away, Sim}

pub Owned-Busy : (n : ℕ) (s : State) → Owned n s → Busy n s.bdev s.ch.stripe_fetches
Owned-Busy n s o k small active =
    let idx : ℕ = (s.ch.stripe_fetches k).stripe_idx in
    let named : 0 < occurrences s.ch idx =
      omega
        (arith, slot_count-active s.ch.stripe_fetches k max_active_stripe_fetches small active) in
    (named-status n s idx o named, ground (arith, o.below idx, named))

module _ {V : Type 0} (x : Outside V) (b : UbiBdev) (slots slots' : ℕ → StripeFetch)
    (foreign : ℕ → Type 0) (slot : ℕ)
    (others : (k : ℕ)
      → (k == slot) ≡ false
      → ((slots' k).active ≡ (slots k).active)
        × ((slots' k).stripe_idx ≡ (slots k).stripe_idx)) where
  read_loading :
      (w : World V) (offset : ℕ)
      → offset ≡ stripe_offset b (slots' slot).stripe_idx
      → Sim x b slots foreign w
      → (k : ℕ) → k < max_active_stripe_fetches
      → (slots' k).active ≡ true
      → update w.loaded slot offset k ≡ stripe_offset b (slots' k).stripe_idx
  read_loading w offset at sim k small active = elim (Bool-cases (k == slot)) [
    | inl same ↦
        let e : k ≡ slot = (==_iff k slot).0 same in
        ground (arith, same) ∙ at ∙ ap (λ m. stripe_offset b (slots' m).stripe_idx) (sym e)
    | inr other ↦
        let was = sim.loading k small (sym (others k other).0 ∙ active) in
        ground (arith, other) ∙ was ∙ ap (stripe_offset b) (sym (others k other).1)
  ]

  read_copied :
      (w : World V)
      → Sim x b slots foreign w
      → (k : ℕ) → k < max_active_stripe_fetches
      → (slots' k).active ≡ true
      → update w.written slot false k ≡ true
      → (j : ℕ) → stripe_of b j ≡ (slots' k).stripe_idx
      → w.base (j + b.data_offset_blocks) ≡ x.image j
  read_copied w sim k small active done j e = elim (Bool-cases (k == slot)) [
    | inl same ↦ absurd (ground (arith, same, done))
    | inr other ↦
        sim.copied k small (sym (others k other).0 ∙ active) (ground (arith, other, done)) j
          (e ∙ (others k other).1)
  ]

  read_asked-Sim :
      (w : World V)
      → Sim x b slots foreign w
      → (sqe : Bool) (buf nbytes offset : ℕ) → offset ≡ stripe_offset b (slots' slot).stripe_idx
      → Sim x b slots' foreign (request x (prep_read sqe slot buf nbytes offset) w)
  read_asked-Sim w sim sqe buf nbytes offset at = record {
    loading = λ k small active. read_loading w offset at sim k small active;
    copied = λ k small active done j e. read_copied w sim k small active done j e;
    spared = sim.spared;
    shows = sim.shows;
    reads = sim.reads;
  }

  -- A slot is given a stripe, whose read into its buffer is asked for.
  pub prep_read-Sim :
      (carried : Carried) (w₀ : World V) (calls : List Call) (sqe : Bool) (buf nbytes offset : ℕ)
      → offset ≡ stripe_offset b (slots' slot).stripe_idx
      → Sim x b slots foreign (run x carried w₀ calls)
      → Sim x b slots' foreign (run x carried w₀ (prep_read sqe slot buf nbytes offset ∷ calls))
  prep_read-Sim carried w₀ calls sqe buf nbytes offset at sim =
      let w = run x carried w₀ calls in
      let asked = read_asked-Sim w sim sqe buf nbytes offset at in
      if_intro (Sim x b slots' foreign) (carried calls (prep_read sqe slot buf nbytes offset)) _ _
        asked asked

module _ {V : Type 0} (x : Outside V) (n : ℕ) (foreign : ℕ → Type 0) (carried : Carried)
    (w₀ : World V) where
  -- The bdev, the slots and the calls so far.
  abbrev pub SimAt : State → Type 0
  SimAt s = Sim x s.bdev s.ch.stripe_fetches foreign (run x carried w₀ s.calls)

  -- The ring and slots are in order, the layout is as it should be, and the requests of the queue are
  -- as SPDK splits them.
  pub record Good (s : State) : Type 0 where
    pub owned : Owned n s
    pub sized : Sized n x.blocklen s.bdev
    pub queue : All (SplitIo s.bdev) s.ch.io
    -- what other channels fetch
    pub away :
        (i : ℕ)
        → foreign i
        → (ubi_get_stripe_status s.bdev i ≡ inflight) × (i < n) × (occurrences s.ch i ≡ 0)
    pub sim : SimAt s

pub Good-Away :
    {V : Type 0} {x : Outside V} {n : ℕ} {foreign : ℕ → Type 0} {carried : Carried} {w₀ : World V}
    {s : State}
    → Good x n foreign carried w₀ s
    → Away n s.bdev foreign
Good-Away g i out = ((g.away i out).0, (g.away i out).1)
