-- ===== src/Fetch/Bounds.antt =====
-- Where a fetched stripe is read to and written to.
use bdev_ubi.Prelude.{
  ℕ, ◌+◌, ◌*◌, ◌/◌, ◌%◌, ◌^◌, ◌≤◌, ◌<◌, ◌≡◌, refl, subst, ap, Bool, false, ℤ, is_neg, ◌∷◌, if_intro,
  arith, bit_and-mask, two_pow_pos,
}
use native.Mathlib.Nat.{mul-le-mul_right}
use bdev_ubi.Layout.{metadata_size, stripe_size_max}
use bdev_ubi.Bdev.{UbiBdev, fetched, ubi_get_stripe_status, ubi_set_stripe_status}
use bdev_ubi.Channel.{Env, State, write_stripe}
use bdev_ubi.Request.{stripe_of}
use bdev_ubi.Fetch.{
  align_buf, stripe_offset, stripe_nbytes, write_stripe_io_completion, ubi_complete_fetch_stripe,
  ubi_fail_stripe_fetch,
}

-- The size of `buf` in `struct stripe_fetch`
abbrev pub buf_size : ℕ
buf_size = 1024 * stripe_size_max + 8192

-- With the alignment of 4096 that bdev_ubi_create sets, the aligned buffer is aligned, and a stripe
-- of a size allowed lies within `buf`, wherever `buf` lies.
pub align_buf_fits :
    (b : UbiBdev) (buf : ℕ)
    → b.stripe_size_kb ≤ stripe_size_max
    → (align_buf 4096 buf % 4096 ≡ 0)
      × (buf ≤ align_buf 4096 buf)
      × (align_buf 4096 buf + stripe_nbytes b ≤ buf + buf_size)
unfolding align_buf stripe_nbytes
align_buf_fits b buf h = ground (arith, bit_and-mask buf 12)

-- A bdev that is laid out as ubi_init_layout_params does it.
pub record Placed (b : UbiBdev) : Type 0 where
  pub stripe_size : b.stripe_size_kb ≤ stripe_size_max
  pub stripe_bytes : 2 ^ b.stripe_shift * b.blocklen ≡ b.stripe_size_kb * 1024
  pub metadata_bytes : b.data_offset_blocks * b.blocklen ≡ metadata_size

div_bounds : (n d : ℕ) → 0 < d → (n / d * d ≤ n) × (n + 1 ≤ n / d * d + d)
div_bounds n d h = grind arith

-- The bytes of a block on the base bdev lie within `nbytes` from `target` on.
abbrev pub Covers : UbiBdev → ℕ → ℕ → ℕ → Type 0
Covers b block target nbytes =
    (target ≤ (block + b.data_offset_blocks) * b.blocklen)
    × ((block + b.data_offset_blocks + 1) * b.blocklen ≤ target + nbytes)

target-Covers :
    (b : UbiBdev) (block : ℕ)
    → Placed b
    → stripe_of b block < 2 ^ 32
    → Covers b block
        ((stripe_offset b (stripe_of b block) + metadata_size) % 2 ^ 64)
        (stripe_nbytes b)
unfolding stripe_of stripe_offset stripe_nbytes
target-Covers b block p small = omega (
  arith,
  within.0,
  within.1,
  no_wrap,
  p.stripe_size,
  p.stripe_bytes,
  ap (λ t. t * i) p.stripe_bytes,
  p.metadata_bytes,
)
  where
    i : ℕ
    i = block / 2 ^ b.stripe_shift

    bounds :
        (i * 2 ^ b.stripe_shift ≤ block) × (block + 1 ≤ i * 2 ^ b.stripe_shift + 2 ^ b.stripe_shift)
    bounds = div_bounds block (2 ^ b.stripe_shift) (two_pow_pos b.stripe_shift)

    within :
        (i * 2 ^ b.stripe_shift * b.blocklen ≤ block * b.blocklen)
        × ((block + 1) * b.blocklen ≤ (i * 2 ^ b.stripe_shift + 2 ^ b.stripe_shift) * b.blocklen)
    within = (mul-le-mul_right b.blocklen bounds.0, mul-le-mul_right b.blocklen bounds.1)

    no_wrap : b.stripe_size_kb * 1024 * i ≤ 1048576 * i
    no_wrap = mul-le-mul_right i (omega (arith, p.stripe_size))

-- On a bdev laid out as ubi_init_layout_params does it, when the read of a stripe into a slot has ended
-- without an error, the one call that ubi_complete_fetch_stripe makes is a write to the base bdev, of the
-- buffer of that slot; and for each block whose stripe is that of the slot and has a number that fits 32
-- bits, this write covers the whole of the block where requests find it on the base bdev.
pub complete_fetch-Covers :
    (env : Env) (slot : ℕ) (res : ℤ) (s : State) (block : ℕ)
    → Placed s.bdev
    → is_neg res ≡ false
    → stripe_of s.bdev block ≡ (s.ch.stripe_fetches slot).stripe_idx
    → stripe_of s.bdev block < 2 ^ 32
    → (target : ℕ) × (nbytes : ℕ) × ((ubi_complete_fetch_stripe env slot res s).1.calls
        ≡ write_stripe slot (s.ch.stripe_fetches slot).buf_aligned target nbytes ∷ s.calls)
      × Covers s.bdev block target nbytes
unfolding ubi_complete_fetch_stripe ubi_fail_stripe_fetch
complete_fetch-Covers env slot res s block placed well same small = (
  (stripe_offset s.bdev (s.ch.stripe_fetches slot).stripe_idx + metadata_size) % 2 ^ 64,
  stripe_nbytes s.bdev,
  rw well (
      if_intro
        (λ (r : ℤ × State).
          r.1.calls
          ≡ write_stripe slot (s.ch.stripe_fetches slot).buf_aligned
              ((stripe_offset s.bdev (s.ch.stripe_fetches slot).stripe_idx + metadata_size)
                % 2 ^ 64)
              (stripe_nbytes s.bdev)
            ∷ s.calls)
        _ _ _ refl refl),
  subst
      (λ i.
        Covers s.bdev block ((stripe_offset s.bdev i + metadata_size) % 2 ^ 64)
          (stripe_nbytes s.bdev))
      same (target-Covers s.bdev block placed small),
)

-- The end of the write of a fetched stripe, successful or not, marks the stripe as fetched, in memory
-- and in its header on the metadata, and frees the slot.
pub write_completion-fetched :
    (slot : ℕ) (success : Bool) (s : State)
    → let stripe = (s.ch.stripe_fetches slot).stripe_idx in
      let s' = write_stripe_io_completion slot success s in
      (ubi_get_stripe_status s'.bdev stripe ≡ fetched)
      × ((s'.bdev.metadata.stripe_headers stripe).0 ≡ 1)
      × (s'.bdev.stripes_fetched ≡ (s.bdev.stripes_fetched + 1) % 2 ^ 64)
      × ((s'.ch.stripe_fetches slot).active ≡ false)
unfolding write_stripe_io_completion ubi_set_stripe_status ubi_get_stripe_status
write_completion-fetched slot success s = ground arith
