-- ===== src/Durable/Flushed.antt =====
-- The callbacks of a flush keep the agreement.
use bdev_ubi.Prelude.{
  ℕ, ◌≤◌, ◌≡◌, refl, sym, subst, Bool, true, false, ◌⊎◌, inl, inr, Bool-cases, ap, List, ◌∷◌, ltb,
  arith, if_intro,
}
use bdev_ubi.Metadata.{Metadata}
use bdev_ubi.Bdev.{UbiBdev, ubi_get_stripe_status}
use bdev_ubi.Channel.{UbiBdevIo, IoChannel, Call, write_metadata, io_complete, Env, State}
use bdev_ubi.Flush.{
  ubi_data_flush_completion, ubi_metadata_write_completion, ubi_metadata_flush_completion,
}
use bdev_ubi.Load.{header_fetched}
use bdev_ubi.Durable.{Phase, not_writing, flushing, Store, seen}
use bdev_ubi.Durable.Sound.{FetchedBy, Pending, Sound, phase-Sound}

-- What a data flush has the metadata written for.
module _ (g : Store) (ch : IoChannel) (calls : List Call) (env : Env) (u : UbiBdevIo) where
  pub data_flush-bdev :
      (success : Bool) → (ubi_data_flush_completion env u success (seen g ch calls)).bdev ≡ g.bdev
  unfolding ubi_data_flush_completion
  data_flush-bdev success = ground arith

  pub metadata_write-bdev :
      (success : Bool)
      → (ubi_metadata_write_completion env u success (seen g ch calls)).bdev ≡ g.bdev
  unfolding ubi_metadata_write_completion
  metadata_write-bdev success = ground arith

  pub data_flush-written :
      (u' : UbiBdevIo) (m : Metadata) (n : ℕ)
      → (ubi_data_flush_completion env u true (seen g ch calls)).calls
        ≡ write_metadata u' m n ∷ calls
      → (u'.stripes_fetched ≡ g.bdev.stripes_fetched) × (m ≡ g.bdev.metadata)
  unfolding ubi_data_flush_completion
  data_flush-written u' m n e = (ground (arith, e), ground (arith, e))

  -- A flush that is completed at once has nothing to write.
  pub data_flush_complete :
      (ubi_data_flush_completion env u true (seen g ch calls)).calls
        ≡ io_complete u.bdev_io true ∷ calls
      → g.bdev.stripes_fetched ≡ g.bdev.stripes_flushed
  unfolding ubi_data_flush_completion
  data_flush_complete e = ground (arith, e)

pub data_flushed-Sound :
    (g : Store) (b : UbiBdev) (p : Phase)
    → b ≡ g.bdev
    → Pending g p
    → Sound g
    → Sound (record g { bdev = b; phase = p })
data_flushed-Sound g b p e q s =
    subst (λ (c : UbiBdev). Sound (record g { bdev = c; phase = p })) (sym e) (phase-Sound g p q s)

-- The metadata on the base bdev is replaced, and the counter of the stripes flushed is set to one that
-- the new metadata covers.
replaced-Sound :
    (g : Store) (m : Metadata) (n : ℕ)
    → n ≤ g.bdev.stripes_fetched
    → ((i : ℕ) → FetchedBy g n i → header_fetched m i ≡ true)
    → Sound g
    → Sound (record g {
      bdev = record (g.bdev) { stripes_flushed = n };
      phase = not_writing;
      stable = header_fetched m;
    })
unfolding ubi_get_stripe_status
replaced-Sound g m n bound covered s = record {
  counters = bound;
  counted = s.counted;
  marked = s.marked;
  pending = tt;
  durable = λ i f. covered i (record { now = f.now; by_then = f.by_then });
}

-- The end of the flush of the metadata, which makes it last.
module _ (g : Store) (ch : IoChannel) (calls : List Call) (u : UbiBdevIo) where
  pub flush_failed-bdev : (ubi_metadata_flush_completion u false (seen g ch calls)).bdev ≡ g.bdev
  unfolding ubi_metadata_flush_completion
  flush_failed-bdev = refl

  -- The counter moves up to what the request counted, or is there already.
  counter_after :
      u.stripes_fetched ≡ g.bdev.stripes_flushed
        ⊎ (ltb g.bdev.stripes_flushed u.stripes_fetched ≡ true)
      → (ubi_metadata_flush_completion u true (seen g ch calls)).bdev
        ≡ record (g.bdev) { stripes_flushed = u.stripes_fetched }
  unfolding ubi_metadata_flush_completion
  counter_after (inl e) =
      if_intro (λ (t : State). t.bdev ≡ record (g.bdev) { stripes_flushed = u.stripes_fetched })
        (ltb g.bdev.stripes_flushed u.stripes_fetched) _ _ refl
        (ap (λ (n : ℕ). record (g.bdev) { stripes_flushed = n }) (sym e))
  counter_after (inr e) = rw e refl

  pub flushed-Sound :
      (m : Metadata)
      → Pending g (flushing u m)
      → Sound g
      → Sound (record g {
        bdev = (ubi_metadata_flush_completion u true (seen g ch calls)).bdev;
        phase = not_writing;
        stable = header_fetched m;
      })
  flushed-Sound m (low, bound, named) s =
      subst
        (λ (b : UbiBdev).
          Sound (record g { bdev = b; phase = not_writing; stable = header_fetched m }))
        (sym (counter_after (level low))) (replaced-Sound g m u.stripes_fetched bound named s)
    where
      level :
          g.bdev.stripes_flushed ≤ u.stripes_fetched
          → u.stripes_fetched ≡ g.bdev.stripes_flushed
            ⊎ (ltb g.bdev.stripes_flushed u.stripes_fetched ≡ true)
      level low = elim (Bool-cases (ltb g.bdev.stripes_flushed u.stripes_fetched)) [
        | inl e ↦ inr e
        | inr e ↦ inl (ground (arith, e, low))
      ]
