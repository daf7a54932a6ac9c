-- ===== src/Create/Balance.antt =====
-- What the creation of a bdev holds when it has ended: nothing after a failure, but for the channel of
-- the base bdev if the read of the metadata was refused.
use bdev_ubi.Prelude.{
  ◌≡◌, ◌⊎◌, refl, Bool, true, false, ℤ, is_nonzero, Option, none, some, arith, if_cases, inl, inr,
  ap, if◌then◌else◌,
}
use bdev_ubi.Errno.{enomem, einval}
use bdev_ubi.Metadata.{Metadata}
use bdev_ubi.Resources.{acquire, release, memory, name, desc, claim, base_channel, holds, legal}
use bdev_ubi.Create.{
  did, zeroed, Opts, Answers, Creation, ubi_finish_create, configure_base_bdev, lay_out,
  bdev_ubi_create, finish_read_metadata, asked, create, ubi_destruct,
}
use bdev_ubi.Create.Finish.{is_some, GivenBack, Settled, Consistent, finish_create-Settled}
use bdev_ubi.Create.Stages.{Reading, Ongoing, lay_out-Ongoing, finish_read-Settled}

module _ (a : Answers) where
  -- A creation whose acts are written out.
  abbrev started : Creation
  started = record (did (acquire memory) asked) { bdev = some zeroed }

  abbrev with_label : Creation
  with_label = record (did (acquire name) started) { named = true }

  abbrev with_base : Creation
  with_base = record (did (acquire claim) (did (acquire desc) with_label)) { opened = true }

  abbrev unclaimed : Creation
  unclaimed = did (release desc) (did (acquire desc) with_label)

  asked-Consistent : Consistent asked
  asked-Consistent = record {
    orderly = refl;
    context_held = refl;
    unregistered = refl;
    with_memory = refl;
    with_name = refl;
    with_desc = refl;
    with_claim = refl;
    with_device = refl;
    in_memory = inr (refl, refl, refl);
  }

  started-Consistent : Consistent started
  started-Consistent = record {
    orderly = refl;
    context_held = refl;
    unregistered = refl;
    with_memory = refl;
    with_name = refl;
    with_desc = refl;
    with_claim = refl;
    with_device = refl;
    in_memory = inl refl;
  }

  label-Consistent : Consistent with_label
  label-Consistent = record {
    orderly = refl;
    context_held = refl;
    unregistered = refl;
    with_memory = refl;
    with_name = refl;
    with_desc = refl;
    with_claim = refl;
    with_device = refl;
    in_memory = inl refl;
  }

  unclaimed-Consistent : Consistent unclaimed
  unclaimed-Consistent = record {
    orderly = refl;
    context_held = refl;
    unregistered = refl;
    with_memory = refl;
    with_name = refl;
    with_desc = refl;
    with_claim = refl;
    with_device = refl;
    in_memory = inl refl;
  }

  base-Consistent : Consistent with_base
  base-Consistent = record {
    orderly = refl;
    context_held = refl;
    unregistered = refl;
    with_memory = refl;
    with_name = refl;
    with_desc = refl;
    with_claim = refl;
    with_device = refl;
    in_memory = inl refl;
  }

  -- How bdev_ubi_create goes on with the result of configure_base_bdev.
  abbrev goes_on : Opts → ℤ × Creation → Creation
  goes_on o p = if is_nonzero p.0 then ubi_finish_create a p.0 p.1 else lay_out a o p.1

  not_based :
      (o : Opts) (rc : ℤ) (c : Creation)
      → Consistent c
      → holds base_channel c.acts ≡ false
      → is_nonzero rc ≡ true
      → Ongoing a (goes_on o (rc, c))
  not_based o rc c h free e =
      if_cases (Ongoing a) (is_nonzero rc) _ _
        (λ _. inl (finish_create-Settled a rc c h (inl free) (inl e))) (λ f. absurd (clash e f))
    where
      clash : is_nonzero rc ≡ true → is_nonzero rc ≡ false → ⊥
      clash e f = cc

  based-Ongoing : (o : Opts) → Ongoing a (goes_on o (configure_base_bdev a with_label))
  unfolding configure_base_bdev
  based-Ongoing o =
      if_cases (λ p. Ongoing a (goes_on o p)) (is_nonzero a.open_base) _ _
        (λ e. not_based o a.open_base with_label label-Consistent refl e)
        (λ _.
          if_cases (λ p. Ongoing a (goes_on o p)) (is_nonzero a.claim_base) _ _
            (λ e. not_based o a.claim_base unclaimed unclaimed-Consistent refl e)
            (λ _. lay_out-Ongoing a o with_base (record {
              consistent = base-Consistent;
              unfinished = refl;
              named = refl;
              opened = refl;
              no_channel = refl;
              has_memory = refl;
              no_device = refl;
            })))

  bdev_ubi_create-Ongoing : (opts : Option Opts) → Ongoing a (bdev_ubi_create a opts asked)
  unfolding bdev_ubi_create lay_out ubi_finish_create configure_base_bdev
  bdev_ubi_create-Ongoing none =
      inl (finish_create-Settled a einval asked asked-Consistent (inl refl) (inl refl))
  bdev_ubi_create-Ongoing (some o) =
      if_cases (Ongoing a) a.calloc _ _
        (λ _.
          if_cases (Ongoing a) a.strdup _ _ (λ _. based-Ongoing o)
            (λ _.
              inl
                (finish_create-Settled a enomem started started-Consistent (inl refl) (inl refl))))
        (λ _. inl (finish_create-Settled a enomem asked asked-Consistent (inl refl) (inl refl)))

  -- A creation that has ended stays as it is; one that goes on is ended by the callback.
  ended :
      (success : Bool) (m : Metadata) (c : Creation) (d : Option ℤ)
      → (Settled a c × (is_some d ≡ true)) ⊎ (Reading a c × (is_some d ≡ false))
      → Settled a (elim d as (λ _. Creation) [
        | some status ↦ c
        | none ↦ finish_read_metadata a success m c
      ])
  ended success m c none (inl (h, e)) = cc
  ended success m c none (inr (r, e)) = finish_read-Settled a success m c r
  ended success m c (some status) (inl (h, e)) = h
  ended success m c (some status) (inr (r, e)) = cc

  -- Whatever the libraries answer, the creation of a bdev calls done_fn once it has ended, acquires
  -- nothing twice, releases only what it holds, and frees its context. With status 0 the bdev is
  -- registered and holds its base bdev; with any other status nothing is held any more, but for the
  -- channel of the base bdev if the read of the metadata was refused.
  pub create-Settled :
      (opts : Option Opts) (success : Bool) (m : Metadata) → Settled a (create a opts success m)
  unfolding create bdev_ubi_create finish_read_metadata
  create-Settled opts success m =
      let c = bdev_ubi_create a opts asked in
      elim (bdev_ubi_create-Ongoing opts) [
        | inl h ↦ ended success m c c.done (inl (h, ap is_some h.called))
        | inr r ↦ ended success m c c.done (inr (r, ap is_some r.unfinished))
      ]

-- After a creation with status 0, ubi_destruct releases only what is held, and of what the creation
-- acquired nothing is held any more: memory, name, descriptor, claim, the two registrations, the context
-- and the channel of the base bdev.
pub destruct-GivenBack :
    (a : Answers) (opts : Option Opts) (success : Bool) (m : Metadata) (status : ℤ)
    → (create a opts success m).done ≡ some status
    → is_nonzero status ≡ false
    → let acts = ubi_destruct (create a opts success m).acts in
      (legal acts ≡ true)
      × GivenBack (record (create a opts success m) { acts = acts })
      × (holds base_channel acts ≡ false)
unfolding ubi_destruct
destruct-GivenBack a opts success m status e zero_status =
    let h = create-Settled a opts success m in
    ground (arith, h.orderly, h.called, h.outcome, h.channel, h.context_freed, e, zero_status)
