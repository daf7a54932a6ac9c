-- ===== src/Durable/Reach.antt =====
-- A flush that succeeds has put the stripes fetched before it into the metadata on the base bdev.
use bdev_ubi.Prelude.{ℕ, ◌≡◌, subst, ap, ◌∙◌, true, false, List, ◌∷◌, arith}
use bdev_ubi.Metadata.{Metadata}
use bdev_ubi.Bdev.{fetched, ubi_get_stripe_status}
use bdev_ubi.Channel.{UbiBdevIo, IoChannel, Call, io_complete, Env}
use bdev_ubi.Flush.{ubi_data_flush_completion}
use bdev_ubi.Load.{header_fetched}
use bdev_ubi.Poll.Silent.{ubi_io_poll-Silent}
use bdev_ubi.ReadWrite.Silent.{get_buf-Silent, io_completion-Silent}
use bdev_ubi.Request.Silent.{submit-Silent}
use bdev_ubi.Durable.{
  not_writing, writing, flushing, Store, seen, StoreStep, submitted, polled, buf_got, io_done,
  stripe_written, data_flushed, metadata_written, metadata_flushed, data_flush_ended,
  data_flush_failed, metadata_write_ended, metadata_flush_failed, StoreReach, start, later,
}
use bdev_ubi.Durable.Sound.{Pending, Sound, Silent-Sound, written-Sound}
use bdev_ubi.Durable.Flushed.{
  data_flush-bdev, metadata_write-bdev, data_flush-written, data_flush_complete, data_flushed-Sound,
  flush_failed-bdev, flushed-Sound,
}

StoreStep-Sound : {g h : Store} → StoreStep g h → Sound g → Sound h
StoreStep-Sound {g} (submitted ch calls io) s =
    Silent-Sound g _ (submit-Silent io (seen g ch calls)) s
StoreStep-Sound {g} (polled ch calls env batch) s =
    Silent-Sound g _ (ubi_io_poll-Silent env batch (seen g ch calls)) s
StoreStep-Sound {g} (buf_got ch calls env u success) s =
    Silent-Sound g _ (get_buf-Silent env u success (seen g ch calls)) s
StoreStep-Sound {g} (io_done ch calls u success) s =
    Silent-Sound g _ (io_completion-Silent u success (seen g ch calls)) s
StoreStep-Sound {g} (stripe_written ch calls slot success room) s =
    written-Sound g ch calls slot success room s
StoreStep-Sound {g} (data_flushed ch calls env u u' m n free e) s =
    let (count, same) = data_flush-written g ch calls env u u' m n e in
    data_flushed-Sound g _ (writing u' m) (data_flush-bdev g ch calls env u true)
      (
        omega (arith, count, s.counters),
        omega (arith, count),
        λ i f. ap (λ (x : Metadata). header_fetched x i) same ∙ s.marked i f.now,
      )
      s
StoreStep-Sound {g} (metadata_written ch calls env u m n asked e) s =
    data_flushed-Sound g _ (flushing u m) (metadata_write-bdev g ch calls env u true)
      (subst (Pending g) asked s.pending) s
StoreStep-Sound {g} (metadata_flushed ch calls u m asked) s =
    flushed-Sound g ch calls u m (subst (Pending g) asked s.pending) s
StoreStep-Sound {g} (data_flush_ended ch calls before env u success e) s =
    data_flushed-Sound g _ g.phase (data_flush-bdev g ch calls env u true) s.pending s
StoreStep-Sound {g} (data_flush_failed ch calls env u) s =
    data_flushed-Sound g _ g.phase (data_flush-bdev g ch calls env u false) s.pending s
StoreStep-Sound {g} (metadata_write_ended ch calls before env u m success asked e) s =
    data_flushed-Sound g _ not_writing (metadata_write-bdev g ch calls env u success) tt s
StoreStep-Sound {g} (metadata_flush_failed ch calls u m asked) s =
    data_flushed-Sound g _ not_writing (flush_failed-bdev g ch calls u) tt s

-- Whatever steps the channels of a bdev take, with any number of flush requests under way, as long as
-- the metadata of one is written only when that of no other is being written or flushed: if at the start
-- the counters, the headers, the flush request that writes and the base bdev agree, they still do. In
-- particular every stripe that is fetched, and was when `stripes_flushed` was counted, is marked in the
-- metadata that the base bdev was last made to keep; and the metadata that a flush request writes marks
-- every stripe that is fetched and was when the request counted.
pub StoreReach-Sound : {g h : Store} → Sound g → StoreReach g h → Sound h
StoreReach-Sound s start = s
StoreReach-Sound s (later r st) = StoreStep-Sound st (StoreReach-Sound s r)

-- In every state that the channels of a bdev reach from one in which the counters, the headers, the
-- flush request that writes and the base bdev agree, as long as the metadata of one flush request is
-- written only when that of no other is being written or flushed: if a flush request is completed with
-- success when its data has been flushed, without a write of the metadata, then all stripes that are
-- fetched are marked in the metadata that the base bdev was last made to keep.
pub flush_completed-durable :
    {g h : Store} (ch : IoChannel) (calls : List Call) (env : Env) (u : UbiBdevIo) (i : ℕ)
    → Sound g
    → StoreReach g h
    → (ubi_data_flush_completion env u true (seen h ch calls)).calls
      ≡ io_complete u.bdev_io true ∷ calls
    → ubi_get_stripe_status h.bdev i ≡ fetched
    → h.stable i ≡ true
flush_completed-durable {h} ch calls env u i s r e now =
    let sound = StoreReach-Sound s r in
    let level = data_flush_complete h ch calls env u e in
    sound.durable i (record { now = now; by_then = omega (arith, sound.counted i now, level) })
