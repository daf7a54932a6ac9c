-- ===== src/Open.antt =====
-- src/lib/bdev_ubi_io_channel.c, ubi_create_channel_cb and ubi_destroy_channel_cb: what a channel
-- needs, and what it starts from.
pub mod Balance
use bdev_ubi.Prelude.{
  ℕ, zero, suc, ◌+◌, Bool, true, false, ℤ, pos, is_neg, is_nonzero, List, [], ◌∷◌, if◌then◌else◌,
}
use bdev_ubi.Errno.{enomem, einval}
use bdev_ubi.FetchQueue.{update}
use bdev_ubi.Channel.{StripeFetch, IoChannel, max_active_stripe_fetches}
use bdev_ubi.Resources.{Act, acquire, release, poller, base_channel, image_file, ring}

-- What the calls of SPDK, liburing and `open` answer; a switch of the test control that makes one
-- fail counts as its answer.
pub record Opening : Type 0 where
  pub register_poller : Bool
  pub get_io_channel : Bool
  pub open_image : ℤ
  pub queue_init : ℤ

-- stripe_fetches[i].active = false, for `n` slots from `i` on
pub clear_slots : ℕ → ℕ → (ℕ → StripeFetch) → ℕ → StripeFetch
clear_slots zero i slots = slots
clear_slots (suc n) i slots =
    clear_slots n (i + 1) (update slots i (record (slots i) { active = false }))

abbrev pub empty_io : IoChannel → IoChannel
empty_io ch = record ch { io = [] }

pub clear_fetches : IoChannel → IoChannel
clear_fetches ch = record ch {
  stripe_fetch_queue = record (ch.stripe_fetch_queue) { head = 0; tail = 0 };
  stripe_fetches = clear_slots max_active_stripe_fetches 0 ch.stripe_fetches;
}

-- The result, the channel, and what has been acquired and released, newest first.
unfoldable pub ubi_create_channel_cb : Opening → IoChannel → ℤ × IoChannel × List Act
unfolding clear_fetches
ubi_create_channel_cb o ch =
    let ch1 = empty_io ch in
    let ch2 = clear_fetches ch1 in
    let with_poller = acquire poller ∷ [] in
    let with_base = acquire base_channel ∷ with_poller in
    let with_image = acquire image_file ∷ with_base in
    if o.register_poller
    then (if o.get_io_channel
        then (if is_neg o.open_image
            then (einval, ch2, release base_channel ∷ release poller ∷ with_base)
            else if is_nonzero o.queue_init
            then (
              einval,
              ch2,
              release image_file ∷ release base_channel ∷ release poller ∷ with_image,
            )
            else (pos 0, ch2, acquire ring ∷ with_image))
        else (enomem, ch1, release poller ∷ with_poller))
    else (enomem, ch1, [])

-- What is released is added to what has been done before. A failed `close` is only logged.
pub ubi_destroy_channel_cb : List Act → List Act
ubi_destroy_channel_cb acts =
    release base_channel ∷ release ring ∷ release image_file ∷ release poller ∷ acts
