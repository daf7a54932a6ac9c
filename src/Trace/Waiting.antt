-- ===== src/Trace/Waiting.antt =====
-- The request at the head of a queue: what stops the loop over the requests is under way.
use bdev_ubi.Prelude.{ℕ, ◌+◌, ◌<◌, ◌≡◌, true, List, [], ◌∷◌, count}
use bdev_ubi.FetchQueue.Contents.{contents}
use bdev_ubi.Bdev.{inflight, ubi_get_stripe_status}
use bdev_ubi.Channel.{BdevIo, Env, max_concurrent_reads}
use bdev_ubi.Request.{is_read, stripe_of}
use bdev_ubi.System.Shared.{Shared}
use bdev_ubi.Trace.{buffer, base, image, reading, writing, promised, Trace}

-- A stripe is on its way: it stands in the ring of a channel, or in a slot of one that has been promised
-- one end of a read or write more than have been reported.
pub data Awaited (env : ℕ → Env) (h : Trace) (i : ℕ) : Type 0 where
  in_ring :
      (l : ℕ) → 0 < count i (contents (h.shared.channels l).stripe_fetch_queue) → Awaited env h i
  in_slot :
      (l slot : ℕ)
      → ((h.shared.channels l).stripe_fetches slot).stripe_idx ≡ i
      → 1 + (h.answered l (reading slot) + h.answered l (writing slot))
        ≡ promised (env l) (reading slot) (h.shared.calls l)
          + promised (env l) (writing slot) (h.shared.calls l)
      → Awaited env h i

-- What a request at the head of a queue waits for: it is a read, 24 callbacks are to come for reads of
-- its channel, and no read prepared is left unsubmitted; or its stripe, which is on its way.
pub data HeldUp (env : ℕ → Env) (h : Trace) (k : ℕ) (io : BdevIo) : Type 0 where
  by_reads :
      is_read io.type ≡ true
      → max_concurrent_reads + (h.answered k buffer + h.answered k base + h.answered k image)
        ≡ promised (env k) buffer (h.shared.calls k)
          + promised (env k) base (h.shared.calls k)
          + promised (env k) image (h.shared.calls k)
      → (h.shared.channels k).has_reads ≡ 0
      → HeldUp env h k io
  by_stripe :
      ubi_get_stripe_status h.shared.bdev (stripe_of h.shared.bdev io.offset_blocks) ≡ inflight
      → Awaited env h (stripe_of h.shared.bdev io.offset_blocks)
      → HeldUp env h k io

-- The request at the head of a queue, if there is one, is held up.
abbrev pub HeadHeldUp : (ℕ → Env) → Trace → ℕ → List BdevIo → Type 0
HeadHeldUp env h k [] = Unit
HeadHeldUp env h k (io ∷ others) = HeldUp env h k io
