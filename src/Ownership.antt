-- ===== src/Ownership.antt =====
-- Which channel is to fetch a stripe: the one that has it in its ring, or in an active slot. The
-- state is that of include/bdev_ubi_internal.h, `struct ubi_io_channel`.
pub mod Counts
pub mod Passing
pub mod Fetching
use bdev_ubi.Prelude.{
  ℕ, zero, suc, ◌+◌, ◌*◌, ◌^◌, ◌≤◌, ◌<◌, ◌≡◌, ◌⊎◌, Bool, true, false, ◌&&◌, count, ◌==◌,
  if◌then◌else◌,
}
use bdev_ubi.FetchQueue.Contents.{contents, IsValid}
use bdev_ubi.Bdev.{
  StripeStatus, not_fetched, inflight, failed, fetched, UbiBdev, ubi_get_stripe_status,
}
use bdev_ubi.Channel.{StripeFetch, IoChannel, State, max_active_stripe_fetches}

-- Whether a slot fetches a stripe, as 0 or 1.
abbrev pub fetches : StripeFetch → ℕ → ℕ
fetches f i = if f.active && f.stripe_idx == i then 1 else 0

-- How many of the first `n` slots fetch a stripe.
pub slot_count : (ℕ → StripeFetch) → ℕ → ℕ → ℕ
slot_count slots i zero = 0
slot_count slots i (suc n) = fetches (slots n) i + slot_count slots i n

-- How many ring entries and active slots of a channel name a stripe.
abbrev pub occurrences : IoChannel → ℕ → ℕ
occurrences ch i =
    count i (contents ch.stripe_fetch_queue)
    + slot_count ch.stripe_fetches i max_active_stripe_fetches

abbrev pub mark : StripeStatus → ℕ
mark inflight = 1
mark _ = 0

-- A channel's ring and slots, with `n` a bound of the stripes of the image: no stripe is named twice,
-- and only stripes that are being fetched are named.
pub record Owned (n : ℕ) (s : State) : Type 0 where
  pub ring : IsValid s.ch.stripe_fetch_queue
  pub once : (i : ℕ) → occurrences s.ch i ≤ mark (ubi_get_stripe_status s.bdev i)
  pub below : (i : ℕ) → n ≤ i → occurrences s.ch i ≡ 0

-- A stripe that a channel may touch: one that nobody has asked for, or one of its own.
abbrev pub Mine : State → ℕ → Type 0
Mine s i = (ubi_get_stripe_status s.bdev i ≡ not_fetched) ⊎ (0 < occurrences s.ch i)

-- Whether a stripe is marked in its header: the first byte.
abbrev pub header : State → ℕ → ℕ
header s i = (s.bdev.metadata.stripe_headers i).0

-- What a channel promises the others of the same bdev, for one stripe.
pub record Passes (s t : State) (i : ℕ) : Type 0 where
  pub others : (ubi_get_stripe_status t.bdev i ≡ ubi_get_stripe_status s.bdev i) ⊎ Mine s i
  pub marked : (header t i ≡ header s i) ⊎ ((ubi_get_stripe_status t.bdev i ≡ fetched) × Mine s i)
  pub taken : 0 < occurrences t.ch i → Mine s i
  pub held : ubi_get_stripe_status t.bdev i ≡ inflight → Mine s i → 0 < occurrences t.ch i

-- A step of a channel keeps its ring and slots in order, and its promise.
abbrev pub Moves : ℕ → State → State → Type 0
Moves n s t = Owned n s → Owned n t × ((i : ℕ) → Passes s t i)

-- An image of at most `n` stripes.
abbrev pub Fits : ℕ → UbiBdev → Type 0
Fits n b = b.image_block_count ≤ n * 2 ^ b.stripe_shift
