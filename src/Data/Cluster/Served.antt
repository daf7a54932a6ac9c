-- ===== src/Data/Cluster/Served.antt =====
-- A bdev serves the clients of all its channels as a plain device does.
use bdev_ubi.Prelude.{
  ℕ, ◌+◌, ◌<◌, ◌≡◌, ◌≢◌, refl, sym, subst, ◌∙◌, Bool, true, [], All, inl, inr, ◌==◌, ==_iff,
  Bool-cases, arith,
}
use bdev_ubi.Bdev.{inflight, ubi_get_stripe_status}
use bdev_ubi.Bdev.Kept.{Kept}
use bdev_ubi.Channel.{IoChannel, State, max_active_stripe_fetches}
use bdev_ubi.Ownership.{occurrences}
use bdev_ubi.Ownership.Counts.{slot_count-active}
use bdev_ubi.System.{Step}
use bdev_ubi.System.Exclusive.{Exclusive, SharedStep-Exclusive}
use bdev_ubi.System.Shared.{Shared, view, StepDue, by}
use bdev_ubi.System.Steps.{Step-Kept}
use bdev_ubi.Request.{stripe_of}
use bdev_ubi.Bdev.SameLayout.{SameLayout, SameLayout-refl, SameLayout-trans, Kept-SameLayout}
use bdev_ubi.Data.{Outside, Carried, run}
use bdev_ubi.Data.Sim.{SplitIo}
use bdev_ubi.Fetch.{stripe_offset}
use bdev_ubi.Data.Change.{All-Split-SameLayout, stripe_offset-SameLayout}
use bdev_ubi.Data.Good.{Owned-Busy, Good}
use bdev_ubi.Data.Stepping.{DataDue, Step-Good}
use bdev_ubi.Data.Cluster.{
  Cluster, shared, slots, world, leave, turn, DataReach, start, later, Shows,
}

module _ {V : Type 0} (x : Outside V) (n : ℕ) where
  -- What the other channels have written and not yet reported.
  abbrev Foreign : ℕ → Cluster V → ℕ → Type 0
  Foreign k c i =
      (l : ℕ) × (m : ℕ) × (l ≢ k)
      × (m < max_active_stripe_fetches)
      × ((slots c l m).active ≡ true)
      × (c.written l m ≡ true)
      × ((slots c l m).stripe_idx ≡ i)

  Foreign-away :
      (k : ℕ) (c : Cluster V)
      → Shows x n c
      → (i : ℕ) → Foreign k c i
      → (ubi_get_stripe_status c.bdev i ≡ inflight) × (i < n) × (occurrences (c.channels k) i ≡ 0)
  Foreign-away k c q i (l, m, other, small, active, done, e) =
      let busy = Owned-Busy n (view (shared c) l) (q.exclusive.each l) m small active in
      let there : 0 < occurrences (c.channels l) (slots c l m).stripe_idx =
        omega (arith, slot_count-active (slots c l) m max_active_stripe_fetches small active) in
      let named : 0 < occurrences (c.channels l) i =
        subst (λ t. 0 < occurrences (c.channels l) t) e there in
      (
        subst (λ t. ubi_get_stripe_status c.bdev t ≡ inflight) e busy.0,
        subst (λ t. t < n) e busy.1,
        elim (Bool-cases (occurrences (c.channels k) i == 0)) [
          | inl none ↦ (==_iff _ _).0 none
          | inr some ↦ absurd (other (q.exclusive.alone l k i named (ground (arith, some))))
        ],
      )

  -- A channel finds all in order.
  Shows-Good :
      (k : ℕ) (carried : Carried) (c : Cluster V)
      → Shows x n c
      → Good x n (Foreign k c) carried (world k c) (view (shared c) k)
  Shows-Good k carried c q = record {
    owned = q.exclusive.each k;
    sized = q.sized;
    queue = q.queues k;
    away = λ i out. Foreign-away k c q i out;
    sim = record {
      loading = λ m small active. q.loading k m small active;
      copied = λ m small active done j e. q.copied k m small active done j e;
      spared = λ i out j e.
          let (l, m, _, small, active, done, f) = out in
          q.copied l m small active done j (e ∙ sym f);
      shows = q.shows;
      reads = q.reads;
    };
  }

  -- Without the calls, which it does not depend on.
  forget-Exclusive : (g : Shared) → Exclusive n g → Exclusive n (record g { calls = λ _. [] })
  forget-Exclusive g e = record {
    fits = e.fits;
    each = λ k. let o = e.each k in record { ring = o.ring; once = o.once; below = o.below };
    alone = e.alone;
    someone = e.someone;
  }

  -- Every channel is in order behind a step of one.
  module _ (k : ℕ) (carried : Carried) (c : Cluster V) (q : Shows x n c) {t : State}
      (st : Step (view (shared c) k) t) (due : StepDue st) (data_due : DataDue (world k c) st) where
    abbrev after : Cluster V
    after = leave k t (run x carried (world k c) t.calls) c

    stepped : Good x n (Foreign k c) carried (world k c) t
    stepped =
        Step-Good x n (Foreign k c) carried (world k c) st due data_due (Shows-Good k carried c q)

    kept : Kept c.bdev t.bdev
    kept = Step-Kept st

    -- What holds of the channel that took the step, and of the others, holds of all.
    by_channel :
        (P : IoChannel → (ℕ → ℕ) → (ℕ → Bool) → Type 0)
        → P t.ch
            (run x carried (world k c) t.calls).loaded
            (run x carried (world k c) t.calls).written
        → ((l : ℕ) → l ≢ k → P (c.channels l) (c.loaded l) (c.written l))
        → (l : ℕ) → P (after.channels l) (after.loaded l) (after.written l)
    by_channel P here there l = elim (Bool-cases (l == k)) [
      | inl same ↦ rw same here
      | inr differ ↦ rw differ (there l (λ e. ground (arith, differ, e)))
    ]

    after-Shows : Shows x n after
    after-Shows = record {
      exclusive =
          forget-Exclusive _ (SharedStep-Exclusive n q.sized.small (by k st due) q.exclusive);
      sized = stepped.sized;
      queues =
          by_channel (λ ch _ _. All (SplitIo t.bdev) ch.io) stepped.queue
            (λ l _.
              All-Split-SameLayout c.bdev t.bdev (Kept-SameLayout kept) (c.channels l).io
                (q.queues l));
      loading =
          by_channel
            (λ ch loaded _.
              (m : ℕ)
              → m < max_active_stripe_fetches
              → (ch.stripe_fetches m).active ≡ true
              → loaded m ≡ stripe_offset t.bdev (ch.stripe_fetches m).stripe_idx)
            stepped.sim.loading
            (λ l _ m small active.
              q.loading l m small active
              ∙ sym (stripe_offset-SameLayout c.bdev t.bdev (Kept-SameLayout kept) _));
      copied =
          by_channel
            (λ ch _ written.
              (m : ℕ)
              → m < max_active_stripe_fetches
              → (ch.stripe_fetches m).active ≡ true
              → written m ≡ true
              → (j : ℕ) → stripe_of t.bdev j ≡ (ch.stripe_fetches m).stripe_idx
              → after.base (j + t.bdev.data_offset_blocks) ≡ x.image j)
            stepped.sim.copied
            (λ l other m small active done j e.
              stepped.sim.spared (slots c l m).stripe_idx (l, m, other, small, active, done, refl) j
                e);
      shows = stepped.sim.shows;
      reads = stepped.sim.reads;
    }

  pub DataReach-Shows : {c d : Cluster V} → Shows x n c → DataReach x c d → Shows x n d
  DataReach-Shows q start = q
  DataReach-Shows q (later r (turn k carried st due data_due submitting)) =
      after-Shows k carried _ (DataReach-Shows q r) st due data_due

-- The layout of the bdev stays.
pub DataReach-SameLayout :
    {V : Type 0} {x : Outside V} {c d : Cluster V} → DataReach x c d → SameLayout c.bdev d.bdev
DataReach-SameLayout {c} start = SameLayout-refl c.bdev
DataReach-SameLayout (later r (turn k carried st due data_due submitting)) =
    SameLayout-trans (DataReach-SameLayout r) (Kept-SameLayout (Step-Kept st))
