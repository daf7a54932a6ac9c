-- ===== src/System/Steps.antt =====
-- What every step of a channel has in common.
use bdev_ubi.Prelude.{◌≡◌, refl, ◌⊎◌, inl, inr, true, subst, sym}
use bdev_ubi.Bdev.Kept.{Kept, Kept-refl, Kept-trans}
use bdev_ubi.Channel.{BdevIo, State}
use bdev_ubi.Channel.Evolve.{Evolves, still}
use bdev_ubi.Fetch.Outcome.{stripe_written-Evolves}
use bdev_ubi.Flush.Protocol.{data_flush-Evolves, metadata_write-Evolves, metadata_flush-Evolves}
use bdev_ubi.ReadWrite.Target.{get_buf-Evolves, io_completion-Evolves}
use bdev_ubi.Request.{ubi_io_type_supported, ubi_submit_request}
use bdev_ubi.Request.Admission.{submit-Kept}
use bdev_ubi.Poll.Evolve.{ubi_io_poll-Evolves}
use bdev_ubi.System.{
  Step, submitted, polled, buf_got, stripe_written, io_done, data_flushed, metadata_written,
  metadata_flushed, elsewhere, Reach, start, later,
}

-- A supported request has arrived.
pub record Arrival (s t : State) : Type 0 where
  pub io : BdevIo
  pub supported : ubi_io_type_supported io.type ≡ true
  pub submission : t ≡ ubi_submit_request io s

pub Step-cases : {s t : State} → Step s t → Arrival s t ⊎ Evolves s t
Step-cases (submitted io h) = inl (record { io = io; supported = h; submission = refl })
Step-cases {s} (polled env batch) = inr (ubi_io_poll-Evolves env batch s)
Step-cases {s} (buf_got env u success) = inr (get_buf-Evolves env u success s)
Step-cases {s} (stripe_written slot success) = inr (stripe_written-Evolves slot success s)
Step-cases {s} (io_done u success) = inr (io_completion-Evolves u success s)
Step-cases {s} (data_flushed env u success) = inr (data_flush-Evolves env u success s)
Step-cases {s} (metadata_written env u success) = inr (metadata_write-Evolves env u success s)
Step-cases {s} (metadata_flushed u success) = inr (metadata_flush-Evolves u success s)
Step-cases {s} (elsewhere b k) = inr (still s (record s { bdev = b }) k refl)

pub Step-Kept : {s t : State} → Step s t → Kept s.bdev t.bdev
Step-Kept {s} st = elim (Step-cases st) [
  | inl a ↦ subst (λ t. Kept s.bdev t.bdev) (sym a.submission) (submit-Kept a.io s)
  | inr e ↦ e.kept
]

pub Reach-Kept : {s t : State} → Reach s t → Kept s.bdev t.bdev
Reach-Kept {s} start = Kept-refl s.bdev
Reach-Kept (later r st) = Kept-trans (Reach-Kept r) (Step-Kept st)
