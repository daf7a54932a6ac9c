-- ===== src/Fetch.antt =====
-- src/lib/bdev_ubi_stripe.c: fetching a stripe of the image into the base bdev. A slot of
-- `stripe_fetches` stands for the pointer to a `struct stripe_fetch`; its `ubi_bdev` is the bdev of
-- the channel, as ubi_create_channel_cb sets it.
pub mod Bounds
pub mod Outcome
use bdev_ubi.Prelude.{
  ℕ, ◌+◌, ◌-◌, ◌*◌, ◌%◌, ◌^◌, Bool, true, false, ℤ, pos, negsuc, is_neg, is_nonzero, ◌==◌,
  if◌then◌else◌, bit_and,
}
use bdev_ubi.FetchQueue.{update}
use bdev_ubi.Layout.{metadata_size}
use bdev_ubi.Bdev.{UbiBdev, StripeStatus, failed, fetched, ubi_set_stripe_status}
use bdev_ubi.Channel.{
  StripeFetch, IoChannel, Env, State, emit, issue, inc64, prep_read, uring_submit, write_stripe,
}

-- A change to one slot.
abbrev pub set_slot : ℕ → StripeFetch → State → State
set_slot slot f s = record s {
  ch = record (s.ch) { stripe_fetches = update s.ch.stripe_fetches slot f };
}

abbrev pub set_status : ℕ → StripeStatus → State → State
set_status stripe_idx status s = record s { bdev = ubi_set_stripe_status s.bdev stripe_idx status }

-- stripe_fetch->active = false
abbrev pub release_slot : ℕ → State → State
release_slot slot s = set_slot slot (record (s.ch.stripe_fetches slot) { active = false }) s

unfoldable pub ubi_fail_stripe_fetch : ℕ → State → State
ubi_fail_stripe_fetch slot s =
    release_slot slot (set_status (s.ch.stripe_fetches slot).stripe_idx failed s)

-- The first address from `buf` on that is a multiple of `alignment`, on the uint64_t of an address
-- and the uint32_t of the offset.
pub align_buf : ℕ → ℕ → ℕ
align_buf alignment buf =
    let remainder = bit_and buf (alignment - 1) in
    let alignment_offset = if remainder == 0 then 0 else (alignment - remainder) % 2 ^ 32 in
    buf + alignment_offset

-- Where a stripe lies in the image, as uint64_t, and its size, as uint32_t.
unfoldable pub stripe_offset : UbiBdev → ℕ → ℕ
stripe_offset b stripe_idx = b.stripe_size_kb * 1024 * stripe_idx % 2 ^ 64

unfoldable pub stripe_nbytes : UbiBdev → ℕ
stripe_nbytes b = b.stripe_size_kb * 1024 % 2 ^ 32

unfoldable pub ubi_start_fetch_stripe : Env → ℕ → State → State
unfolding align_buf stripe_offset stripe_nbytes ubi_fail_stripe_fetch
ubi_start_fetch_stripe env slot s =
    let f = s.ch.stripe_fetches slot in
    let aligned = align_buf s.bdev.alignment_bytes (env.buf slot) in
    let s1 = set_slot slot (record f { buf_aligned = aligned }) s in
    let read =
      prep_read (env.get_sqe s.calls) slot aligned (stripe_nbytes s.bdev)
        (stripe_offset s.bdev f.stripe_idx) in
    let (r, s2) = issue env uring_submit (emit read s1) in
    if is_neg r then ubi_fail_stripe_fetch slot s2 else s2

unfoldable pub ubi_complete_fetch_stripe : Env → ℕ → ℤ → State → ℤ × State
unfolding stripe_offset stripe_nbytes ubi_fail_stripe_fetch
ubi_complete_fetch_stripe env slot res s =
    let f = s.ch.stripe_fetches slot in
    let target = (stripe_offset s.bdev f.stripe_idx + metadata_size) % 2 ^ 64 in
    let (r, s1) = issue env (write_stripe slot f.buf_aligned target (stripe_nbytes s.bdev)) s in
    if is_neg res
    then (negsuc 0, ubi_fail_stripe_fetch slot s)
    else if is_nonzero r
    then (negsuc 0, ubi_fail_stripe_fetch slot s1)
    else (pos 1, s1)

-- The source does not look at `success`.
unfoldable pub write_stripe_io_completion : ℕ → Bool → State → State
write_stripe_io_completion slot success s =
    let s1 = set_status (s.ch.stripe_fetches slot).stripe_idx fetched s in
    let s2 = record s1 {
      bdev = record (s1.bdev) { stripes_fetched = inc64 s1.bdev.stripes_fetched };
    } in
    release_slot slot s2
