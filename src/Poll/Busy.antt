-- ===== src/Poll/Busy.antt =====
-- A poll that has started its fetches leaves a stripe in the ring only for want of a slot.
use bdev_ubi.Prelude.{ℕ, ◌<◌, ◌≡◌, ◌⊎◌, true, false, List, [], count}
use bdev_ubi.FetchQueue.{stripe_queue_empty}
use bdev_ubi.Channel.{State, max_active_stripe_fetches}
use bdev_ubi.Poll.{free_slots}

-- A slot that is not in use is among some.
abbrev Listed : State → List ℕ → Type 0
Listed s free =
    (slot : ℕ)
    → slot < max_active_stripe_fetches
    → (s.ch.stripe_fetches slot).active ≡ false
    → 0 < count slot free

-- The ring is empty, or no slot is free.
abbrev pub Busy : State → Type 0
Busy s =
    (stripe_queue_empty s.ch.stripe_fetch_queue ≡ true)
    ⊎ (free_slots s.ch.stripe_fetches 0 max_active_stripe_fetches ≡ [])
