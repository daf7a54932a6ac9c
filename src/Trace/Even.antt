-- ===== src/Trace/Even.antt =====
-- The books of a channel: what its calls have promised, against what has been called back.
use bdev_ubi.Prelude.{ℕ, ◌+◌, ◌≤◌, ◌≡◌, Bool, arith}
use bdev_ubi.Channel.{BdevIo, UbiBdevIo, Env, State, max_concurrent_reads}
use bdev_ubi.Flush.{
  issue_or_fail, ubi_data_flush_completion, ubi_metadata_write_completion,
  ubi_metadata_flush_completion, set_flushed,
}
use bdev_ubi.ReadWrite.{ubi_complete_io, ubi_io_completion_cb}
use bdev_ubi.Request.{ubi_submit_request}
use bdev_ubi.Trace.{
  Kind, buffer, base, image, reading, writing, reads, promised, unsubmitted, nulls,
}
use bdev_ubi.Trace.Reads.{promised_reads, Counted, complete_io-Counted}
use bdev_ubi.Trace.Slots.{Held}
use bdev_ubi.Trace.Entries.{Listed}

-- The callbacks that a channel has had, `a`, against its calls, its active reads and its slots.
pub record Even (env : Env) (a : Kind → ℕ) (s : State) : Type 0 where
  pub counted : Counted env (a buffer + a base + a image) s
  pub held : (k : ℕ) → Held env k (a (reading k) + a (writing k)) s
  pub listed : Listed env (a image) s

-- The five facts that make the books even.
facts-Even :
    {env : Env} {a : Kind → ℕ} {s : State}
    → s.ch.active_reads + (a buffer + a base + a image) ≡ promised_reads env s
    → s.ch.active_reads ≤ max_concurrent_reads
    → ((k : ℕ) → Held env k (a (reading k) + a (writing k)) s)
    → unsubmitted env s.calls + a image ≤ promised env image s.calls
    → nulls s.calls ≡ 0
    → Even env a s
facts-Even count bound held waiting found = record {
  counted = record { count = count; bound = bound };
  held = held;
  listed = record { waiting = waiting; found = found };
}

-- The same callbacks, counted otherwise.
pub recount :
    {env : Env} {a b : Kind → ℕ} {s : State}
    → b buffer ≡ a buffer
    → b base ≡ a base
    → b image ≡ a image
    → ((k : ℕ) → b (reading k) + b (writing k) ≡ a (reading k) + a (writing k))
    → Even env a s
    → Even env b s
recount buffers bases images slots h =
    facts-Even (omega (arith, h.counted.count, buffers, bases, images)) h.counted.bound
      (λ k. omega (arith, h.held k, slots k)) (omega (arith, h.listed.waiting, images))
      h.listed.found

module _ (env : Env) (a : Kind → ℕ) (s : State) where
  pub submit-Even : (io : BdevIo) → Even env a s → Even env a (ubi_submit_request io s)
  unfolding ubi_submit_request
  submit-Even io h =
      facts-Even (ground (arith, h.counted.count)) (ground (arith, h.counted.bound))
        (λ k. ground (arith, h.held k)) (ground (arith, h.listed.waiting))
        (ground (arith, h.listed.found))

  pub data_flushed-Even :
      (u : UbiBdevIo) (success : Bool)
      → Even env a s
      → Even env a (ubi_data_flush_completion env u success s)
  unfolding ubi_data_flush_completion issue_or_fail
  data_flushed-Even u success h =
      facts-Even (ground (arith, h.counted.count)) (ground (arith, h.counted.bound))
        (λ k. ground (arith, h.held k)) (ground (arith, h.listed.waiting))
        (ground (arith, h.listed.found))

  pub metadata_written-Even :
      (u : UbiBdevIo) (success : Bool)
      → Even env a s
      → Even env a (ubi_metadata_write_completion env u success s)
  unfolding ubi_metadata_write_completion issue_or_fail
  metadata_written-Even u success h =
      facts-Even (ground (arith, h.counted.count)) (ground (arith, h.counted.bound))
        (λ k. ground (arith, h.held k)) (ground (arith, h.listed.waiting))
        (ground (arith, h.listed.found))

  pub metadata_flushed-Even :
      (u : UbiBdevIo) (success : Bool)
      → Even env a s
      → Even env a (ubi_metadata_flush_completion u success s)
  unfolding ubi_metadata_flush_completion set_flushed
  metadata_flushed-Even u success h =
      facts-Even (ground (arith, h.counted.count)) (ground (arith, h.counted.bound))
        (λ k. ground (arith, h.held k)) (ground (arith, h.listed.waiting))
        (ground (arith, h.listed.found))

  pub io_done-Even :
      (u : UbiBdevIo) (success : Bool)
      → reads u ≤ s.ch.active_reads
      → Even env a s
      → Counted env (a buffer + (a base + reads u) + a image) (ubi_io_completion_cb u success s)
        × ((k : ℕ) → Held env k (a (reading k) + a (writing k)) (ubi_io_completion_cb u success s))
        × Listed env (a image) (ubi_io_completion_cb u success s)
  unfolding ubi_io_completion_cb ubi_complete_io
  io_done-Even u success active h =
      let c = complete_io-Counted env u success _ s h.counted active in
      (
        record { count = omega (arith, c.count); bound = c.bound },
        λ k. ground (arith, h.held k),
        record {
          waiting = ground (arith, h.listed.waiting);
          found = ground (arith, h.listed.found);
        },
      )
