-- ===== src/Create/Finish.antt =====
-- What ubi_finish_create gives back, and what it leaves in use.
use bdev_ubi.Prelude.{
  ◌≡◌, ◌⊎◌, refl, Bool, true, false, ℤ, is_nonzero, Option, none, some, arith, if◌then◌else◌,
}
use bdev_ubi.Resources.{
  memory, name, context, desc, claim, io_device, registration, base_channel, holds, legal,
}
use bdev_ubi.Create.{clean_up, Answers, Creation, ubi_finish_create}

abbrev pub is_some {ℓ} : {A : Type ℓ} → Option A → Bool
is_some none = false
is_some (some x) = true

-- A bdev and its io_device are there, with the base bdev claimed.
abbrev pub InUse : Creation → Type 0
InUse c =
    (holds memory c.acts ≡ true)
    × (holds name c.acts ≡ true)
    × (holds desc c.acts ≡ true)
    × (holds claim c.acts ≡ true)
    × (holds io_device c.acts ≡ true)
    × (holds registration c.acts ≡ true)

-- What a bdev and the context of its creation take is not held; the channel of the base bdev is apart.
abbrev pub GivenBack : Creation → Type 0
GivenBack c =
    (holds memory c.acts ≡ false)
    × (holds name c.acts ≡ false)
    × (holds desc c.acts ≡ false)
    × (holds claim c.acts ≡ false)
    × (holds io_device c.acts ≡ false)
    × (holds registration c.acts ≡ false)
    × (holds context c.acts ≡ false)

-- The fields of a creation that goes on tell what it holds.
pub record Consistent (c : Creation) : Type 0 where
  pub orderly : legal c.acts ≡ true
  pub context_held : holds context c.acts ≡ true
  pub unregistered : holds registration c.acts ≡ false
  pub with_memory : holds memory c.acts ≡ is_some c.bdev
  pub with_name : holds name c.acts ≡ c.named
  pub with_desc : holds desc c.acts ≡ c.opened
  pub with_claim : holds claim c.acts ≡ c.opened
  pub with_device : holds io_device c.acts ≡ c.registered_io_device
  pub in_memory :
      (is_some c.bdev ≡ true)
      ⊎ ((c.named ≡ false) × (c.opened ≡ false) × (c.registered_io_device ≡ false))

abbrev pub Complete : Creation → Type 0
Complete c =
    (is_some c.bdev ≡ true) × (c.named ≡ true) × (c.opened ≡ true) × (c.registered_io_device ≡ true)

clean_up-GivenBack :
    (c : Creation)
    → Consistent c
    → ((holds memory (clean_up c).acts ≡ false)
        × (holds name (clean_up c).acts ≡ false)
        × (holds desc (clean_up c).acts ≡ false)
        × (holds claim (clean_up c).acts ≡ false)
        × (holds io_device (clean_up c).acts ≡ false)
        × (holds registration (clean_up c).acts ≡ false))
      × (legal (clean_up c).acts ≡ true)
      × (holds context (clean_up c).acts ≡ true)
      × (holds base_channel (clean_up c).acts ≡ holds base_channel c.acts)
unfolding clean_up
clean_up-GivenBack c h = ground (
  arith, h.orderly, h.context_held, h.unregistered, h.with_memory, h.with_name, h.with_desc,
  h.with_claim, h.with_device, h.in_memory,
)

module _ (a : Answers) where
  -- The channel of the base bdev has been put back, or the read of the metadata was refused, and the
  -- creation fails.
  abbrev pub ChannelBack : ℤ → Creation → Type 0
  ChannelBack status c =
      (holds base_channel c.acts ≡ false)
      ⊎ ((is_nonzero a.read_blocks ≡ true) × (is_nonzero status ≡ true))

  -- How a creation ends: with one call of done_fn; on success the bdev is in use, and on failure
  -- everything is given back, but for the channel if the read of the metadata was refused.
  pub record Settled (c : Creation) : Type 0 where
    pub orderly : legal c.acts ≡ true
    pub context_freed : holds context c.acts ≡ false
    pub status : ℤ
    pub channel : ChannelBack status c
    pub called : c.done ≡ some status
    pub outcome : if is_nonzero status then GivenBack c else InUse c

  pub finish_create-Settled :
      (status : ℤ) (c : Creation)
      → Consistent c
      → ChannelBack status c
      → (is_nonzero status ≡ true) ⊎ Complete c
      → Settled (ubi_finish_create a status c)
  unfolding ubi_finish_create
  finish_create-Settled status c h back may =
      let (gone, orderly, context_held, channel) = clean_up-GivenBack c h in
      record {
        orderly = ground (arith, orderly, context_held, h.orderly, h.context_held, h.unregistered);
        context_freed = ground arith;
        channel = ground (arith, channel, back);
        status = if is_nonzero status then status else a.register;
        called = refl;
        outcome = ground (
          arith, gone, may, h.with_memory, h.with_name, h.with_desc, h.with_claim, h.with_device,
        );
      }
