-- ===== src/Data/Perform.antt =====
-- A call that is right keeps the bdev showing what a plain device shows, whether it is carried out or
-- refused.
use bdev_ubi.Prelude.{ℕ, List, if_intro}
use bdev_ubi.Bdev.{UbiBdev}
use bdev_ubi.Channel.{
  StripeFetch, Call, prep_read, prep_readv, write_stripe, read_base, write_base, write_metadata,
}
use bdev_ubi.Data.{Carried, World, Outside, effect, request, perform}
use bdev_ubi.Data.Sim.{Sized, Busy, Away, Proper, Sim}
use bdev_ubi.Data.Calls.{write_base-Sim, write_metadata-Sim, read_base-Sim, prep_readv-Sim}
use bdev_ubi.Data.Copy.{write_stripe-Sim}

module _ {V : Type 0} (x : Outside V) (n : ℕ) (b : UbiBdev) (slots : ℕ → StripeFetch)
    (z : Sized n x.blocklen b) (busy : Busy n b slots) (foreign : ℕ → Type 0)
    (away : Away n b foreign) (w : World V) (sim : Sim x b slots foreign w) where
  asked-Sim : (c : Call) → Proper n b slots c → Sim x b slots foreign (request x c w)
  asked-Sim (read_base u start count) p =
      read_base-Sim x n b slots z busy foreign away w sim u start count p
  asked-Sim (prep_readv u offset) p =
      prep_readv-Sim x n b slots z busy foreign away w sim u offset p
  asked-Sim (prep_read sqe slot buf nbytes offset) p = absurd p
  asked-Sim _ p = sim

  done-Sim : (c : Call) → Proper n b slots c → Sim x b slots foreign (effect x c (request x c w))
  done-Sim (write_stripe slot buf target nbytes) p =
      write_stripe-Sim x n b slots z busy foreign w sim slot buf target nbytes p
  done-Sim (write_base u start count) p =
      write_base-Sim x n b slots z busy foreign away w sim u start count p
  done-Sim (write_metadata u m count) p =
      write_metadata-Sim x n b slots z busy foreign away w sim u m count p
  done-Sim (read_base u start count) p =
      read_base-Sim x n b slots z busy foreign away w sim u start count p
  done-Sim (prep_readv u offset) p = prep_readv-Sim x n b slots z busy foreign away w sim u offset p
  done-Sim (prep_read sqe slot buf nbytes offset) p = absurd p
  done-Sim _ p = sim

  pub perform-Sim :
      (carried : Carried) (before : List Call) (c : Call)
      → Proper n b slots c
      → Sim x b slots foreign (perform x carried before c w)
  perform-Sim carried before c p =
      if_intro (Sim x b slots foreign) (carried before c) _ _ (done-Sim c p) (asked-Sim c p)
