-- ===== src/Data/Flushing.antt =====
-- The callbacks of a flush keep the bdev showing what a plain device shows.
use bdev_ubi.Prelude.{ℕ, ◌/◌, ◌≤◌, sym, ap, ◌∙◌, Bool, true, if_intro, is_nonzero, arith, ltb}
use native.Mathlib.Nat.{mul-div_cancel}
use bdev_ubi.Bdev.{ubi_get_stripe_status}
use bdev_ubi.Channel.{UbiBdevIo, Call, io_complete, Env, State, emit}
use bdev_ubi.Flush.{
  set_flushed, metadata_blocks, issue_or_fail, ubi_data_flush_completion,
  ubi_metadata_write_completion, ubi_metadata_flush_completion,
}
use bdev_ubi.Request.{stripe_of}
use bdev_ubi.Bdev.SameLayout.{Kept-SameLayout}
use bdev_ubi.Data.{Carried, World, Outside}
use bdev_ubi.Data.Sim.{Proper}
use bdev_ubi.Data.Serving.{InOrder, called}
use bdev_ubi.Fetch.{stripe_offset, stripe_nbytes}
use bdev_ubi.Data.Change.{Sized-SameLayout}
use bdev_ubi.Bdev.Kept.{Kept-counters}

module _ {V : Type 0} (x : Outside V) (n : ℕ) (foreign : ℕ → Type 0) (carried : Carried)
    (w₀ : World V) where
  abbrev Here : State → Type 0
  Here = InOrder x n foreign carried w₀

  -- A call of the base bdev; if it is refused, the request fails.
  issue_or_fail-InOrder :
      (env : Env) (u : UbiBdevIo) (c : Call) (s : State)
      → Proper n s.bdev s.ch.stripe_fetches c
      → Here s
      → Here (issue_or_fail env u c s)
  unfolding issue_or_fail
  issue_or_fail-InOrder env u c s p r =
      let asked = called x n foreign carried w₀ s c p r in
      if_intro Here (is_nonzero (env.ret s.calls c)) _ _
        (called x n foreign carried w₀ (emit c s) _ tt asked) asked

  -- The metadata lies before the data.
  metadata_first : (s : State) → Here s → metadata_blocks s.bdev ≤ s.bdev.data_offset_blocks
  unfolding metadata_blocks
  metadata_first s r =
      let exact =
        ap (λ t. t / s.bdev.blocklen) (sym r.sized.placed.metadata_bytes)
        ∙ mul-div_cancel s.bdev.data_offset_blocks r.sized.positive in
      omega (arith, exact)

  pub data_flushed-InOrder :
      (env : Env) (u : UbiBdevIo) (success : Bool) (s : State)
      → Here s
      → Here (ubi_data_flush_completion env u success s)
  unfolding ubi_data_flush_completion
  data_flushed-InOrder env u success s r =
      if_intro Here success _ _
        (if_intro Here _ _ _ (called x n foreign carried w₀ s _ tt r) (
          issue_or_fail-InOrder env (record u { stripes_fetched = s.bdev.stripes_fetched }) _ s
            (metadata_first s r) r))
        r

  pub metadata_written-InOrder :
      (env : Env) (u : UbiBdevIo) (success : Bool) (s : State)
      → Here s
      → Here (ubi_metadata_write_completion env u success s)
  unfolding ubi_metadata_write_completion
  metadata_written-InOrder env u success s r =
      if_intro Here success _ _ (issue_or_fail-InOrder env u _ s tt r)
        (called x n foreign carried w₀ s _ tt r)

  counter-InOrder :
      (s : State) (count : ℕ)
      → Here s
      → Here (record s { bdev = record (s.bdev) { stripes_flushed = count } })
  unfolding ubi_get_stripe_status stripe_offset stripe_nbytes stripe_of
  counter-InOrder s count r = record {
    sized =
        Sized-SameLayout s.bdev _
          (Kept-SameLayout (Kept-counters s.bdev s.bdev.stripes_fetched count)) n x.blocklen
          r.sized;
    busy = r.busy;
    away = r.away;
    sim = record {
      loading = r.sim.loading;
      copied = r.sim.copied;
      spared = r.sim.spared;
      shows = r.sim.shows;
      reads = r.sim.reads;
    };
  }

  pub metadata_flushed-InOrder :
      (u : UbiBdevIo) (success : Bool) (s : State)
      → Here s
      → Here (ubi_metadata_flush_completion u success s)
  unfolding ubi_metadata_flush_completion set_flushed
  metadata_flushed-InOrder u success s r =
      if_intro Here success _ _
        (if_intro (λ t. Here (emit (io_complete u.bdev_io true) t))
          (ltb s.bdev.stripes_flushed u.stripes_fetched) _ s
          (called x n foreign carried w₀ _ _ tt (counter-InOrder s u.stripes_fetched r))
          (called x n foreign carried w₀ s _ tt r))
        (called x n foreign carried w₀ s _ tt r)
