-- ===== src/Open/Balance.antt =====
-- A channel that is not opened leaves nothing behind, and one that is opened starts idle.
use bdev_ubi.Prelude.{
  ℕ, zero, suc, ◌+◌, ◌<◌, ◌≤◌, ◌≡◌, ◌⊎◌, refl, true, false, pos, ℤ, is_neg, List, [], arith,
}
use native.Mathlib.Decide.{dec_lt}
use bdev_ubi.FetchQueue.{stripe_queue_empty, update}
use bdev_ubi.FetchQueue.Contents.{IsValid}
use bdev_ubi.Channel.{IoChannel, StripeFetch, max_active_stripe_fetches}
use bdev_ubi.Resources.{Act, poller, base_channel, image_file, ring, holds, legal}
use bdev_ubi.Open.{
  Opening, clear_slots, empty_io, clear_fetches, ubi_create_channel_cb, ubi_destroy_channel_cb,
}

clear_slots-before :
    (n i j : ℕ) (slots : ℕ → StripeFetch) → j < i → clear_slots n i slots j ≡ slots j
unfolding clear_slots
clear_slots-before zero i j slots h = refl
clear_slots-before (suc n) i j slots h =
    ground
      (arith, clear_slots-before n (i + 1) j (update slots i (record (slots i) { active = false })))

clear_slots-active :
    (n i j : ℕ) (slots : ℕ → StripeFetch)
    → i ≤ j
    → j < i + n
    → (clear_slots n i slots j).active ≡ false
unfolding clear_slots
clear_slots-active zero i j slots lo hi = absurd (omega arith)
clear_slots-active (suc n) i j slots lo hi =
    let next = update slots i (record (slots i) { active = false }) in
    elim (dec_lt i j) [
      | yes p ↦ clear_slots-active n (i + 1) j next (omega arith) (omega arith)
      | no p ↦ let e : j ≡ i = omega arith in ground (arith, e, clear_slots-before n (i + 1) j next)
    ]

-- No resource of a channel is held.
abbrev pub Released : List Act → Type 0
Released acts =
    (holds poller acts ≡ false)
    × (holds base_channel acts ≡ false)
    × (holds image_file acts ≡ false)
    × (holds ring acts ≡ false)

-- Every resource of a channel is held.
abbrev pub Opened : List Act → Type 0
Opened acts =
    (holds poller acts ≡ true)
    × (holds base_channel acts ≡ true)
    × (holds image_file acts ≡ true)
    × (holds ring acts ≡ true)

-- A channel without requests, without stripes to fetch and with all slots free.
pub record Idle (ch : IoChannel) : Type 0 where
  pub no_requests : ch.io ≡ []
  pub ring_valid : IsValid ch.stripe_fetch_queue
  pub no_stripes : stripe_queue_empty ch.stripe_fetch_queue ≡ true
  pub free : (i : ℕ) → i < max_active_stripe_fetches → (ch.stripe_fetches i).active ≡ false

clear_fetches-Idle : (ch : IoChannel) → Idle (clear_fetches (empty_io ch))
unfolding clear_fetches stripe_queue_empty
clear_fetches-Idle ch = record {
  no_requests = refl;
  ring_valid = record { head_in = omega arith; tail_in = omega arith };
  no_stripes = refl;
  free = λ i h. clear_slots-active max_active_stripe_fetches 0 i ch.stripe_fetches (omega arith) h;
}

-- How the creation of a channel ends.
abbrev pub Settled : ℤ → IoChannel → List Act → Type 0
Settled rc ch acts =
    (legal acts ≡ true)
    × (((rc ≡ pos 0) × Opened acts × Idle ch) ⊎ ((is_neg rc ≡ true) × Released acts))

-- Whatever the libraries answer, ubi_create_channel_cb acquires nothing twice and releases only what
-- it holds; it either succeeds, holds the poller, the channel of the base bdev, the image file and
-- the ring, and leaves a channel without requests, without stripes to fetch and with all slots free;
-- or it returns an error and holds none of them.
pub create_channel-Settled :
    (o : Opening) (ch : IoChannel)
    → let (rc, ch', acts) = ubi_create_channel_cb o ch in Settled rc ch' acts
unfolding ubi_create_channel_cb
create_channel-Settled o ch = ground (arith, clear_fetches-Idle ch)

-- After a success of ubi_create_channel_cb, ubi_destroy_channel_cb releases only what is held, and
-- nothing is held any more.
pub destroy_channel-Released :
    (o : Opening) (ch : IoChannel)
    → (ubi_create_channel_cb o ch).0 ≡ pos 0
    → let acts = ubi_destroy_channel_cb (ubi_create_channel_cb o ch).2 in
      (legal acts ≡ true) × Released acts
unfolding ubi_create_channel_cb ubi_destroy_channel_cb
destroy_channel-Released o ch h = ground arith
