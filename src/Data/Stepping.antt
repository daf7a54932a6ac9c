-- ===== src/Data/Stepping.antt =====
-- A step of a channel keeps the bdev showing what a plain device shows.
use bdev_ubi.Prelude.{ℕ, ◌≡◌, true}
use bdev_ubi.Channel.{State}
use bdev_ubi.Channel.Evolve.{Evolves}
use bdev_ubi.Fetch.Outcome.{stripe_written-Evolves}
use bdev_ubi.Flush.Protocol.{data_flush-Evolves, metadata_write-Evolves, metadata_flush-Evolves}
use bdev_ubi.ReadWrite.Target.{get_buf-Evolves, io_completion-Evolves}
use bdev_ubi.System.{
  Step, submitted, polled, buf_got, stripe_written, io_done, data_flushed, metadata_written,
  metadata_flushed, elsewhere,
}
use bdev_ubi.System.Moving.{Step-Moves}
use bdev_ubi.System.Shared.{StepDue}
use bdev_ubi.Data.{Carried, World, Outside, run}
use bdev_ubi.Data.Sim.{Split, SplitIo}
use bdev_ubi.Data.Good.{SimAt, Good}
use bdev_ubi.Data.Fetching.{stripe_written-Sim}
use bdev_ubi.Data.Serving.{InOrder, get_buf-InOrder, io_done-InOrder}
use bdev_ubi.Data.Flushing.{
  data_flushed-InOrder, metadata_written-InOrder, metadata_flushed-InOrder,
}
use bdev_ubi.Data.Polling.{Good-InOrder, advance, ubi_io_poll-Good}
use bdev_ubi.Data.Arriving.{submit-Good, Sized-Fits}

-- What SPDK promises of the data: requests are split at the ends of stripes, and the write of a stripe
-- whose end is reported has been carried out.
abbrev pub DataDue : {V : Type 0} → World V → {s t : State} → Step s t → Type 0
DataDue w {s} (submitted io h) = SplitIo s.bdev io
DataDue w {s} (buf_got env u success) = Split s.bdev u.bdev_io
DataDue w (stripe_written slot success) = w.written slot ≡ true
DataDue w _ = Unit

module _ {V : Type 0} (x : Outside V) (n : ℕ) (foreign : ℕ → Type 0) (carried : Carried)
    (w₀ : World V) where
  abbrev Fine : State → Type 0
  Fine = Good x n foreign carried w₀

  -- The ring and slots stay in order, and what is left is to be shown of the data.
  by_sim :
      {s t : State} (st : Step s t)
      → StepDue st
      → Fine s
      → Evolves s t
      → (InOrder x n foreign carried w₀ s → SimAt x n foreign carried w₀ t)
      → Fine t
  by_sim {s} {t} st due g evolves sim =
      let fits = Sized-Fits n x.blocklen s g.sized in
      advance x n foreign carried w₀ s t g (Step-Moves n st g.sized.small fits due) evolves
        (sim (Good-InOrder x n foreign carried w₀ s g))

  pub Step-Good :
      {s t : State} (st : Step s t)
      → StepDue st
      → DataDue (run x carried w₀ s.calls) st
      → Fine s
      → Fine t
  Step-Good {s} (submitted io h) due split g = submit-Good x n foreign carried w₀ io s split g
  Step-Good {s} (polled env batch) due _ g =
      ubi_io_poll-Good x n foreign carried w₀ env batch s due g
  Step-Good {s} (buf_got env u success) due split g =
      by_sim (buf_got env u success) due g (get_buf-Evolves env u success s)
        (λ r. (get_buf-InOrder x n foreign carried w₀ env u success s split r).sim)
  Step-Good {s} (stripe_written slot success) due done g =
      by_sim (stripe_written slot success) due g (stripe_written-Evolves slot success s)
        (λ _. stripe_written-Sim x n foreign carried w₀ slot success s due.0 due.1 done g)
  Step-Good {s} (io_done u success) due _ g =
      by_sim (io_done u success) due g (io_completion-Evolves u success s)
        (λ r. (io_done-InOrder x n foreign carried w₀ u success s r).sim)
  Step-Good {s} (data_flushed env u success) due _ g =
      by_sim (data_flushed env u success) due g (data_flush-Evolves env u success s)
        (λ r. (data_flushed-InOrder x n foreign carried w₀ env u success s r).sim)
  Step-Good {s} (metadata_written env u success) due _ g =
      by_sim (metadata_written env u success) due g (metadata_write-Evolves env u success s)
        (λ r. (metadata_written-InOrder x n foreign carried w₀ env u success s r).sim)
  Step-Good {s} (metadata_flushed u success) due _ g =
      by_sim (metadata_flushed u success) due g (metadata_flush-Evolves u success s)
        (λ r. (metadata_flushed-InOrder x n foreign carried w₀ u success s r).sim)
  Step-Good (elsewhere b k) due _ g = absurd due
