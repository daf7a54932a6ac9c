-- ===== src/Flush/Protocol.antt =====
-- What the callbacks of a flush request do to the bdev, and how a request goes on or ends.
use bdev_ubi.Prelude.{refl, Bool, true, false, ltb, arith, if_intro}
use bdev_ubi.Bdev.Kept.{Kept-counters}
use bdev_ubi.Channel.{UbiBdevIo, Env, State}
use bdev_ubi.Channel.Evolve.{Evolves, still, same_bdev}
use bdev_ubi.Flush.{
  ubi_data_flush_completion, ubi_metadata_write_completion, set_flushed,
  ubi_metadata_flush_completion,
}

pub data_flush-Evolves :
    (env : Env) (u : UbiBdevIo) (success : Bool) (s : State)
    → Evolves s (ubi_data_flush_completion env u success s)
unfolding ubi_data_flush_completion
data_flush-Evolves env u success s = same_bdev s _ (ground arith) (ground arith)

pub metadata_write-Evolves :
    (env : Env) (u : UbiBdevIo) (success : Bool) (s : State)
    → Evolves s (ubi_metadata_write_completion env u success s)
unfolding ubi_metadata_write_completion
metadata_write-Evolves env u success s = same_bdev s _ (ground arith) (ground arith)

set_flushed-Evolves : (u : UbiBdevIo) (s : State) → Evolves s (set_flushed u s)
unfolding set_flushed
set_flushed-Evolves u s =
    if_intro (Evolves s) (ltb s.bdev.stripes_flushed u.stripes_fetched) _ _
      (still s _ (Kept-counters s.bdev _ _) refl) (same_bdev s s refl refl)

pub metadata_flush-Evolves :
    (u : UbiBdevIo) (success : Bool) (s : State)
    → Evolves s (ubi_metadata_flush_completion u success s)
unfolding ubi_metadata_flush_completion
metadata_flush-Evolves u true s =
    let e = set_flushed-Evolves u s in record { kept = e.kept; taken = e.taken; queue = e.queue }
metadata_flush-Evolves u false s = same_bdev s _ refl refl
