-- ===== src/Data/Cluster.antt =====
-- The channels of a bdev on one base bdev. What a channel reads and writes, all see.
pub mod Served
pub mod Plain
pub mod Restart
pub mod Created
use bdev_ubi.Prelude.{ℕ, ◌+◌, ◌<◌, ◌≡◌, ◌≢◌, Bool, true, List, [], All, ◌==◌, if◌then◌else◌}
use bdev_ubi.Bdev.{UbiBdev}
use bdev_ubi.Channel.{BdevIo, StripeFetch, IoChannel, State, max_active_stripe_fetches}
use bdev_ubi.Fetch.{stripe_offset}
use bdev_ubi.Request.{stripe_of}
use bdev_ubi.System.{Step}
use bdev_ubi.System.Exclusive.{Exclusive}
use bdev_ubi.System.Shared.{Shared, view, StepDue, Submitting}
use bdev_ubi.Data.{Answer, World, Outside, Carried, run, shown}
use bdev_ubi.Data.Sim.{SplitIo, Right, Sized}
use bdev_ubi.Data.Stepping.{DataDue}

-- The bdev and its channels, numbered; the blocks of the base bdev, and those of a plain device; for
-- each slot of each channel what `World` keeps of it; and the reads of all channels, newest first.
pub record Cluster (V : Type 0) : Type 0 where
  pub bdev : UbiBdev
  pub channels : ℕ → IoChannel
  pub base : ℕ → V
  pub plain : ℕ → V
  pub loaded : ℕ → ℕ → ℕ
  pub written : ℕ → ℕ → Bool
  pub reads : List (Answer V)

-- The calls of a channel are counted from the step on that it takes.
abbrev pub shared : {V : Type 0} → Cluster V → Shared
shared c = record { bdev = c.bdev; channels = c.channels; calls = λ _. [] }

abbrev pub slots : {V : Type 0} → Cluster V → ℕ → ℕ → StripeFetch
slots c k = (c.channels k).stripe_fetches

-- What a channel meets.
abbrev pub world : {V : Type 0} → ℕ → Cluster V → World V
world k c = record {
  base = c.base;
  plain = c.plain;
  loaded = c.loaded k;
  written = c.written k;
  reads = c.reads;
}

-- What it leaves.
abbrev pub leave : {V : Type 0} → ℕ → State → World V → Cluster V → Cluster V
leave k t w c = record {
  bdev = t.bdev;
  channels = λ l. if l == k then t.ch else c.channels l;
  base = w.base;
  plain = w.plain;
  loaded = λ l. if l == k then w.loaded else c.loaded l;
  written = λ l. if l == k then w.written else c.written l;
  reads = w.reads;
}

module _ {V : Type 0} (x : Outside V) where
  -- One channel takes a step, in which io_uring_submit does not fail; of its calls the base bdev carries
  -- out those it likes.
  pub data DataStep (c : Cluster V) : Cluster V → Type 0 where
    turn :
        (k : ℕ) (carried : Carried) {t : State} (st : Step (view (shared c) k) t)
        → StepDue st
        → DataDue (world k c) st
        → Submitting st
        → DataStep c (leave k t (run x carried (world k c) t.calls) c)

  pub data DataReach (c : Cluster V) : Cluster V → Type 0 where
    start : DataReach c c
    later : {d e : Cluster V} → DataReach c d → DataStep d e → DataReach c e

  -- The bdev shows what a plain device shows, and each read has got what it should; what the channels
  -- have to fetch and have in their slots is in order.
  pub record Shows (n : ℕ) (c : Cluster V) : Type 0 where
    pub exclusive : Exclusive n (shared c)
    pub sized : Sized n x.blocklen c.bdev
    pub queues : (k : ℕ) → All (SplitIo c.bdev) (c.channels k).io
    pub loading :
        (k m : ℕ)
        → m < max_active_stripe_fetches
        → (slots c k m).active ≡ true
        → c.loaded k m ≡ stripe_offset c.bdev (slots c k m).stripe_idx
    pub copied :
        (k m : ℕ)
        → m < max_active_stripe_fetches
        → (slots c k m).active ≡ true
        → c.written k m ≡ true
        → (j : ℕ) → stripe_of c.bdev j ≡ (slots c k m).stripe_idx
        → c.base (j + c.bdev.data_offset_blocks) ≡ x.image j
    pub shows : (j : ℕ) → shown x c.bdev c.base j ≡ c.plain j
    pub reads : All Right c.reads
