-- ===== src/Durable/Sound.antt =====
-- The agreement of counters, headers, flush requests and base bdev, and the steps that are no flush.
use bdev_ubi.Prelude.{ℕ, ◌+◌, ◌<◌, ◌≤◌, ◌^◌, ◌≡◌, refl, ap, ◌∙◌, Bool, true, List, arith}
use bdev_ubi.Bdev.{UbiBdev, fetched, ubi_get_stripe_status, ubi_set_stripe_status}
use bdev_ubi.Bdev.Silent.{Silent}
use bdev_ubi.Channel.{IoChannel, Call}
use bdev_ubi.Fetch.{write_stripe_io_completion}
use bdev_ubi.Load.{header_fetched}
use bdev_ubi.Durable.{Phase, not_writing, writing, flushing, Store, seen, set_since}

-- A stripe that is fetched, and was when the count was `n`.
pub record FetchedBy (g : Store) (n i : ℕ) : Type 0 where
  pub now : ubi_get_stripe_status g.bdev i ≡ fetched
  pub by_then : g.since i ≤ n

-- What the flush request that writes has counted lies between the two counters, and what it writes
-- names the stripes that were fetched at its count.
abbrev pub Pending : Store → Phase → Type 0
Pending g not_writing = Unit
Pending g (writing u m) =
    (g.bdev.stripes_flushed ≤ u.stripes_fetched)
    × (u.stripes_fetched ≤ g.bdev.stripes_fetched)
    × ((i : ℕ) → FetchedBy g u.stripes_fetched i → header_fetched m i ≡ true)
Pending g (flushing u m) =
    (g.bdev.stripes_flushed ≤ u.stripes_fetched)
    × (u.stripes_fetched ≤ g.bdev.stripes_fetched)
    × ((i : ℕ) → FetchedBy g u.stripes_fetched i → header_fetched m i ≡ true)

-- The counters, the headers, the flush requests and the base bdev agree. In particular the stripes
-- fetched by the count `stripes_flushed` are marked on the base bdev for good.
pub record Sound (g : Store) : Type 0 where
  pub counters : g.bdev.stripes_flushed ≤ g.bdev.stripes_fetched
  pub counted :
      (i : ℕ) → ubi_get_stripe_status g.bdev i ≡ fetched → g.since i ≤ g.bdev.stripes_fetched
  pub marked :
      (i : ℕ) → ubi_get_stripe_status g.bdev i ≡ fetched → header_fetched g.bdev.metadata i ≡ true
  pub pending : Pending g g.phase
  pub durable : (i : ℕ) → FetchedBy g g.bdev.stripes_flushed i → g.stable i ≡ true

-- A request's claim stays true while no stripe gets an earlier count and the counter of those flushed stays.
pub Pending-kept :
    (g h : Store) (p : Phase)
    → h.bdev.stripes_flushed ≡ g.bdev.stripes_flushed
    → g.bdev.stripes_fetched ≤ h.bdev.stripes_fetched
    → ((n i : ℕ) → n ≤ g.bdev.stripes_fetched → FetchedBy h n i → FetchedBy g n i)
    → Pending g p
    → Pending h p
Pending-kept g h not_writing level up back q = tt
Pending-kept g h (writing u m) level up back (low, n, q) =
    (omega (arith, low, level), omega arith, λ i f. q i (back u.stripes_fetched i n f))
Pending-kept g h (flushing u m) level up back (low, n, q) =
    (omega (arith, low, level), omega arith, λ i f. q i (back u.stripes_fetched i n f))

-- A change of the bdev that fetches no stripe.
pub Silent-Sound :
    (g : Store) (b : UbiBdev) → Silent g.bdev b → Sound g → Sound (record g { bdev = b })
Silent-Sound g b q s =
    let h : Store = record g { bdev = b } in
    record {
      counters = omega (arith, s.counters, q.fetched_count, q.flushed_count);
      counted = λ i e. omega (arith, s.counted i (q.statuses i e), q.fetched_count);
      marked = λ i e. ap (λ m. header_fetched m i) q.metadata ∙ s.marked i (q.statuses i e);
      pending =
          Pending-kept g h g.phase q.flushed_count (omega (arith, q.fetched_count))
            (λ n i _ f. record { now = q.statuses i f.now; by_then = f.by_then }) s.pending;
      durable = λ i f. s.durable i (record {
        now = q.statuses i f.now;
        by_then = omega (arith, f.by_then, q.flushed_count);
      });
    }

-- The phase is set to one whose claim holds.
pub phase-Sound : (g : Store) (p : Phase) → Pending g p → Sound g → Sound (record g { phase = p })
phase-Sound g p q s =
    let h : Store = record g { phase = p } in
    record {
      counters = s.counters;
      counted = s.counted;
      marked = s.marked;
      pending =
          Pending-kept g h p refl (omega arith)
            (λ n i _ f. record { now = f.now; by_then = f.by_then }) q;
      durable = λ i f. s.durable i (record { now = f.now; by_then = f.by_then });
    }

-- The end of the write of a stripe, which gives it the next count.
module _ (g : Store) (ch : IoChannel) (calls : List Call) (slot : ℕ) (success : Bool)
    (room : g.bdev.stripes_fetched + 1 < 2 ^ 64) where
  abbrev stripe : ℕ
  stripe = (ch.stripe_fetches slot).stripe_idx

  abbrev after_write : Store
  after_write = record g {
    bdev = (write_stripe_io_completion slot success (seen g ch calls)).bdev;
    since = set_since stripe g;
  }

  -- A stripe that is fetched now, at a count that had been reached before, was fetched before.
  fetched_before :
      (n i : ℕ) → n ≤ g.bdev.stripes_fetched → FetchedBy after_write n i → FetchedBy g n i
  unfolding write_stripe_io_completion ubi_set_stripe_status ubi_get_stripe_status
  fetched_before n i h f = record {
    now = ground (arith, f.now, f.by_then);
    by_then = ground (arith, f.now, f.by_then);
  }

  count_after : after_write.bdev.stripes_fetched ≡ g.bdev.stripes_fetched + 1
  unfolding write_stripe_io_completion ubi_set_stripe_status
  count_after = ground arith

  flushed_after : after_write.bdev.stripes_flushed ≡ g.bdev.stripes_flushed
  unfolding write_stripe_io_completion ubi_set_stripe_status
  flushed_after = ground arith

  pub written-Sound : Sound g → Sound after_write
  unfolding write_stripe_io_completion ubi_set_stripe_status ubi_get_stripe_status header_fetched
  written-Sound s = record {
    counters = omega (arith, s.counters, count_after);
    counted = λ i e. ground (arith, s.counted i, count_after);
    marked = λ i e. ground (arith, s.marked i);
    pending =
        Pending-kept g after_write g.phase flushed_after (omega (arith, count_after)) fetched_before
          s.pending;
    durable = λ i f. s.durable i (fetched_before g.bdev.stripes_flushed i s.counters f);
  }
