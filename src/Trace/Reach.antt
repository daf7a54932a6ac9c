-- ===== src/Trace/Reach.antt =====
-- The callbacks that are to come, in every state that the channels of a bdev reach.
use bdev_ubi.Prelude.{
  ℕ, ◌+◌, ◌≤◌, ◌≡◌, refl, sym, subst, ap, Bool, true, false, if◌then◌else◌, [], ◌==◌, ==_iff, arith,
}
use bdev_ubi.Channel.{Env, max_concurrent_reads}
use bdev_ubi.Open.Balance.{Idle}
use bdev_ubi.System.Shared.{
  Shared, view, by as shared_by, SharedReach, start as shared_start, later as shared_later,
}
use bdev_ubi.Trace.{
  Kind, buffer, base, image, reading, writing, promised, unsubmitted, answers, nulls, Obliging,
  Trace, untouched, TraceStep, by, TraceReach, start, later,
}
use bdev_ubi.Trace.Slots.{in_use}
use bdev_ubi.Trace.Even.{Even}
use bdev_ubi.Trace.Steps.{Step-Even, Step-StepDue}

-- The channels of a bdev have just been opened, in memory that has been cleared.
pub record AtRest (g : Shared) : Type 0 where
  pub no_calls : (k : ℕ) → g.calls k ≡ []
  pub idle : (k : ℕ) → Idle (g.channels k)
  pub no_reads : (k : ℕ) → (g.channels k).active_reads ≡ 0

abbrev AllEven : (ℕ → Env) → Trace → Type 0
AllEven env g = (k : ℕ) → Even (env k) (g.answered k) (view g.shared k)

AtRest-AllEven : (env : ℕ → Env) (g : Shared) → AtRest g → AllEven env (untouched g)
AtRest-AllEven env g h k =
    let unpromised : (κ : Kind) → promised (env k) κ (g.calls k) ≡ 0 =
      λ κ. ap (promised (env k) κ) (h.no_calls k) in
    record {
      counted = record {
        count = omega (arith, h.no_reads k, unpromised buffer, unpromised base, unpromised image);
        bound = omega (arith, h.no_reads k);
      };
      held = λ slot.
          let free = (h.idle k).free slot in
          ground (arith, free, unpromised (reading slot), unpromised (writing slot));
      listed = record {
        waiting = omega (arith, ap (unsubmitted (env k)) (h.no_calls k));
        found = ap nulls (h.no_calls k);
      };
    }

module _ (env : ℕ → Env) (obliging : (k : ℕ) → Obliging (env k)) where
  TraceStep-AllEven : {g h : Trace} → TraceStep env g h → AllEven env g → AllEven env h
  TraceStep-AllEven {g} (by k {t} st uses for_reads owed) even l = by_channel (l == k) refl
    where
      by_channel :
          (here : Bool)
          → l == k ≡ here
          → Even
              (env l)
              (λ κ. if here then g.answered l κ + answers κ st else g.answered l κ)
              (record {
                bdev = t.bdev;
                ch = if here then t.ch else g.shared.channels l;
                calls = if here then t.calls else g.shared.calls l;
              })
      by_channel true here =
          subst (λ m. Even (env m) (λ κ. g.answered m κ + answers κ st) t)
            (sym ((==_iff l k).0 here))
            (Step-Even (env k) (g.answered k) st (obliging k) uses for_reads owed (even k))
      by_channel false there = record {
        counted = record { count = (even l).counted.count; bound = (even l).counted.bound };
        held = (even l).held;
        listed = record { waiting = (even l).listed.waiting; found = (even l).listed.found };
      }

  TraceReach-AllEven : {g h : Trace} → AllEven env g → TraceReach env g h → AllEven env h
  TraceReach-AllEven even start = even
  TraceReach-AllEven even (later r st) = TraceStep-AllEven st (TraceReach-AllEven even r)

  -- If io_uring_submit does not fail, and io_uring_get_sqe finds an entry while fewer than 32 have
  -- been prepared since it was last called: from channels that have just been opened, in cleared
  -- memory, on, whatever steps are taken in which no more callbacks of a kind run than the calls of
  -- the channel have promised, buffers and ends of reads of the image come for reads only, and no
  -- read of the image ends that has not been submitted, the buffers, reads of the base bdev and
  -- reads of the image that a channel has been promised are as many as those that it has had and
  -- its active_reads. These are at most UBI_MAX_CONCURRENT_READS.
  pub TraceReach-reads :
      {g : Shared} {h : Trace}
      → AtRest g
      → TraceReach env (untouched g) h
      → (k : ℕ)
      → let calls = h.shared.calls k in
        ((h.shared.channels k).active_reads
            + (h.answered k buffer + h.answered k base + h.answered k image)
          ≡ promised (env k) buffer calls
            + promised (env k) base calls
            + promised (env k) image calls)
        × ((h.shared.channels k).active_reads ≤ max_concurrent_reads)
  TraceReach-reads {g} rest r k =
      let even = TraceReach-AllEven (AtRest-AllEven env g rest) r k in
      (even.counted.count, even.counted.bound)

  -- A read of the image has not ended before it has been submitted.
  pub TraceReach-waiting :
      {g : Shared} {h : Trace}
      → AtRest g
      → TraceReach env (untouched g) h
      → (k : ℕ)
      → unsubmitted (env k) (h.shared.calls k) + h.answered k image
        ≤ promised (env k) image (h.shared.calls k)
  TraceReach-waiting {g} rest r k =
      (TraceReach-AllEven (AtRest-AllEven env g rest) r k).listed.waiting

  -- A slot of a channel is in use exactly while the end of its read or of its write is to come: the
  -- ends that have been promised for it are one more than those that have been reported, or, if it
  -- is free, as many.
  pub TraceReach-slots :
      {g : Shared} {h : Trace}
      → AtRest g
      → TraceReach env (untouched g) h
      → (k slot : ℕ)
      → in_use slot (view h.shared k) + (h.answered k (reading slot) + h.answered k (writing slot))
        ≡ promised (env k) (reading slot) (h.shared.calls k)
          + promised (env k) (writing slot) (h.shared.calls k)
  TraceReach-slots {g} rest r k slot =
      (TraceReach-AllEven (AtRest-AllEven env g rest) r k).held slot

  -- If io_uring_submit does not fail, and io_uring_get_sqe finds an entry while fewer than 32 have
  -- been prepared since it was last called: from channels that have just been opened, in cleared
  -- memory, on, whatever steps are taken in which no more callbacks of a kind run than the calls of
  -- the channel have promised, buffers and ends of reads of the image come for reads only, and no
  -- read of the image ends that has not been submitted, ubi_start_fetch_stripe, which does not test
  -- what io_uring_get_sqe returns, never prepares a read through a null pointer.
  pub TraceReach-entries :
      {g : Shared} {h : Trace}
      → AtRest g
      → TraceReach env (untouched g) h
      → (k : ℕ) → nulls (h.shared.calls k) ≡ 0
  TraceReach-entries {g} rest r k =
      (TraceReach-AllEven (AtRest-AllEven env g rest) r k).listed.found

  -- If io_uring_submit does not fail, and io_uring_get_sqe finds an entry while fewer than 32 have
  -- been prepared since it was last called: from channels that have just been opened, in cleared
  -- memory, on, whatever steps are taken in which no more callbacks of a kind run than the calls of
  -- the channel have promised, buffers and ends of reads of the image come for reads only, and no
  -- read of the image ends that has not been submitted, each step is one that reports the end of a
  -- read or write of a stripe only for a slot in use.
  pub TraceReach-SharedReach :
      {g : Shared} {h : Trace} → AtRest g → TraceReach env (untouched g) h → SharedReach g h.shared
  TraceReach-SharedReach rest start = shared_start
  TraceReach-SharedReach {g} rest (later {h = h} r (by k st uses for_reads owed)) =
      let even = TraceReach-AllEven (AtRest-AllEven env g rest) r k in
      shared_later (TraceReach-SharedReach rest r)
        (shared_by k st (Step-StepDue (env k) (h.answered k) st uses for_reads owed even))
