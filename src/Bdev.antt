-- ===== src/Bdev.antt =====
-- `struct ubi_bdev` (include/bdev_ubi_internal.h), without the fields that only name the bdev,
-- and the access to its stripes of src/lib/bdev_ubi_stripe.c.
pub mod Stripe
pub mod SameLayout
pub mod Kept
pub mod Silent
use bdev_ubi.Prelude.{ℕ, ◌≡◌, Bool, true, false}
use bdev_ubi.FetchQueue.{update}
use bdev_ubi.Metadata.{Metadata}

-- `enum stripe_status`
pub data StripeStatus : Type 0 where
  not_fetched inflight failed fetched : StripeStatus

pub record UbiBdev : Type 0 where
  pub blocklen : ℕ  -- bdev.blocklen, uint32_t
  pub blockcnt : ℕ  -- bdev.blockcnt, uint64_t
  pub stripe_size_kb : ℕ
  pub stripe_block_count : ℕ
  pub stripe_shift : ℕ
  pub data_offset_blocks : ℕ
  pub image_block_count : ℕ
  pub alignment_bytes : ℕ
  pub no_sync : Bool
  pub copy_on_read : Bool
  pub directio : Bool
  pub stripe_status : ℕ → StripeStatus  -- UBI_MAX_STRIPES of them
  pub metadata : Metadata
  pub stripes_fetched : ℕ
  pub stripes_flushed : ℕ

unfoldable pub ubi_get_stripe_status : UbiBdev → ℕ → StripeStatus
ubi_get_stripe_status b index = b.stripe_status index

-- metadata.stripe_headers[index][0] = 1
pub mark_fetched : Metadata → ℕ → Metadata
mark_fetched m index = record m {
  stripe_headers = update m.stripe_headers index (1, (m.stripe_headers index).1);
}

unfoldable pub ubi_set_stripe_status : UbiBdev → ℕ → StripeStatus → UbiBdev
unfolding mark_fetched
ubi_set_stripe_status b index status =
    let b' = record b { stripe_status = update b.stripe_status index status } in
    elim status [ fetched ↦ record b' { metadata = mark_fetched b.metadata index } | _ ↦ b' ]
