-- ===== src/Create/Stages.antt =====
-- The creation of a bdev from its layout to the read of the metadata.
use bdev_ubi.Prelude.{
  ◌≡◌, ◌⊎◌, refl, Bool, true, false, ℤ, is_nonzero, Option, none, some, arith, if_cases, inl, inr,
}
use bdev_ubi.Errno.{Result, ok, err, enomem}
use bdev_ubi.Load.{ubi_finish_read_metadata}
use bdev_ubi.Layout.{Layout, Request, init_layout_params}
use bdev_ubi.Bdev.{UbiBdev}
use bdev_ubi.Metadata.{Metadata}
use bdev_ubi.Resources.{acquire, release, memory, io_device, base_channel, holds}
use bdev_ubi.Create.{
  clean_up, did, configured, request_of, Opts, Answers, Creation, ubi_finish_create,
  ubi_start_read_metadata, lay_out, finish_read_metadata,
}
use bdev_ubi.Create.Finish.{is_some, Settled, Consistent, Complete, finish_create-Settled}

module _ (a : Answers) where
  -- The read of the metadata is under way.
  pub record Reading (c : Creation) : Type 0 where
    pub unfinished : c.done ≡ none
    pub complete : Complete c
    pub channel_held : holds base_channel c.acts ≡ true
    pub consistent : Consistent c

  abbrev pub Ongoing : Creation → Type 0
  Ongoing c = Settled a c ⊎ Reading c

  with_channel :
      (c : Creation)
      → Consistent c
      → holds base_channel c.acts ≡ false
      → Consistent (did (acquire base_channel) c)
  with_channel c h free = record {
    orderly = ground (arith, free, h.orderly);
    context_held = h.context_held;
    unregistered = h.unregistered;
    with_memory = h.with_memory;
    with_name = h.with_name;
    with_desc = h.with_desc;
    with_claim = h.with_claim;
    with_device = h.with_device;
    in_memory = h.in_memory;
  }

  start_read-Ongoing :
      (c : Creation)
      → Consistent c
      → Complete c
      → c.done ≡ none
      → holds base_channel c.acts ≡ false
      → Ongoing (ubi_start_read_metadata a c)
  unfolding ubi_start_read_metadata ubi_finish_create clean_up
  start_read-Ongoing c h all d free =
      let k = with_channel c h free in
      if_cases Ongoing a.get_io_channel _ _
        (λ _.
          if_cases Ongoing (is_nonzero a.read_blocks) _ _
            (λ e. inl (
              finish_create-Settled a a.read_blocks (did (acquire base_channel) c) k (inr (e, e))
                (inl e)))
            (λ _.
              inr (record { unfinished = d; complete = all; channel_held = refl; consistent = k })))
        (λ _. inl (finish_create-Settled a enomem c h (inl free) (inl refl)))

  layout_error : (q : Request) (rc : ℤ) → init_layout_params q ≡ err rc → is_nonzero rc ≡ true
  unfolding init_layout_params
  layout_error q rc e = ground arith

  -- A bdev with its name and its base bdev.
  pub record Based (c : Creation) : Type 0 where
    pub consistent : Consistent c
    pub unfinished : c.done ≡ none
    pub named : c.named ≡ true
    pub opened : c.opened ≡ true
    pub no_channel : holds base_channel c.acts ≡ false
    pub has_memory : holds memory c.acts ≡ true
    pub no_device : holds io_device c.acts ≡ false

  with_device :
      (b : UbiBdev) (c : Creation)
      → Based c
      → Consistent
          (record (did (acquire io_device) c) { bdev = some b; registered_io_device = true })
  with_device b c h =
      let k = h.consistent in
      record {
        orderly = ground (arith, h.no_device, k.orderly);
        context_held = k.context_held;
        unregistered = k.unregistered;
        with_memory = h.has_memory;
        with_name = k.with_name;
        with_desc = k.with_desc;
        with_claim = k.with_claim;
        with_device = refl;
        in_memory = inl refl;
      }

  pub lay_out-Ongoing : (o : Opts) (c : Creation) → Based c → Ongoing (lay_out a o c)
  unfolding lay_out ubi_start_read_metadata ubi_finish_create clean_up
  lay_out-Ongoing o c h =
      go (init_layout_params (request_of a o)) (λ rc e. layout_error (request_of a o) rc e)
    where
      go :
          (r : Result Layout)
          → ((rc : ℤ) → r ≡ err rc → is_nonzero rc ≡ true)
          → Ongoing (elim r as (λ _. Creation) [
            | err rc ↦ ubi_finish_create a rc c
            | ok l ↦ ubi_start_read_metadata a (record (did (acquire io_device) c) {
              bdev = some (configured a o l);
              registered_io_device = true;
            })
          ])
      go (err rc) bad =
          inl (finish_create-Settled a rc c h.consistent (inl h.no_channel) (inl (bad rc refl)))
      go (ok l) bad =
          start_read-Ongoing _ (with_device (configured a o l) c h) (refl, h.named, h.opened, refl)
            h.unfinished h.no_channel

  -- The channel is put back before the creation ends.
  channel_back :
      (b : UbiBdev) (c : Creation)
      → Reading c
      → Consistent (record (did (release base_channel) c) { bdev = some b })
  channel_back b c r =
      let k = r.consistent in
      record {
        orderly = ground (arith, r.channel_held, k.orderly);
        context_held = k.context_held;
        unregistered = k.unregistered;
        with_memory = ground (arith, k.with_memory, r.complete.0);
        with_name = k.with_name;
        with_desc = k.with_desc;
        with_claim = k.with_claim;
        with_device = k.with_device;
        in_memory = inl refl;
      }

  pub finish_read-Settled :
      (success : Bool) (m : Metadata) (c : Creation)
      → Reading c
      → Settled a (finish_read_metadata a success m c)
  unfolding finish_read_metadata ubi_finish_create
  finish_read-Settled success m c r = go c.bdev r.complete.0
    where
      go :
          (d : Option UbiBdev)
          → is_some d ≡ true
          → Settled a (elim d as (λ _. Creation) [
            | none ↦ c
            | some b ↦
                let (status, b') = ubi_finish_read_metadata success (record b { metadata = m }) in
                ubi_finish_create a status
                  (record (did (release base_channel) c) { bdev = some b' })
          ])
      go none e = cc
      go (some b) e =
          let (status, b') = ubi_finish_read_metadata success (record b { metadata = m }) in
          finish_create-Settled a status (record (did (release base_channel) c) { bdev = some b' })
            (channel_back b' c r) (inl refl) (inr (refl, r.complete.1, r.complete.2, r.complete.3))
