-- ===== src/FetchQueue.antt =====
-- src/lib/bdev_ubi_stripe.c: the ring of stripes that wait for a fetch, `stripe_fetch_queue` of
-- `struct ubi_io_channel` (include/bdev_ubi_internal.h).
pub mod Contents
pub mod Refine
use bdev_ubi.Prelude.{ℕ, ◌+◌, ◌-◌, ◌%◌, ◌^◌, Bool, ◌==◌, if◌then◌else◌, bit_and}

-- UBI_FETCH_QUEUE_SIZE
abbrev pub fetch_queue_size : ℕ
fetch_queue_size = 32768

-- An array with one element written.
abbrev pub update {ℓ} : {A : Type ℓ} → (ℕ → A) → ℕ → A → ℕ → A
update f i a j = if j == i then a else f j

pub record FetchQueue : Type 0 where
  pub entries : ℕ → ℕ
  pub head : ℕ
  pub tail : ℕ

-- (i + 1) & (UBI_FETCH_QUEUE_SIZE - 1), on uint32_t
pub next_index : ℕ → ℕ
next_index i = bit_and ((i + 1) % 2 ^ 32) (fetch_queue_size - 1)

-- There is no test for a full ring. The number passes an int into a uint32_t.
pub enqueue_stripe : FetchQueue → ℕ → FetchQueue
enqueue_stripe q stripe_idx = record q {
  entries = update q.entries q.tail (stripe_idx % 2 ^ 32);
  tail = next_index q.tail;
}

pub dequeue_stripe : FetchQueue → ℕ × FetchQueue
dequeue_stripe q = (q.entries q.head, record q { head = next_index q.head })

unfoldable pub stripe_queue_empty : FetchQueue → Bool
stripe_queue_empty q = q.head == q.tail
