-- ===== src/Flush.antt =====
-- src/lib/bdev_ubi_flush.c: a flush request is served in up to three calls of the base bdev, each
-- with a completion callback: flush the data, write the metadata, flush the metadata.
pub mod Protocol
use bdev_ubi.Prelude.{
  ℕ, ◌+◌, ◌/◌, ◌%◌, ◌^◌, Bool, true, false, ℤ, is_nonzero, ltb, ◌==◌, if◌then◌else◌,
}
use bdev_ubi.Layout.{metadata_size}
use bdev_ubi.Bdev.{UbiBdev}
use bdev_ubi.Channel.{
  UbiBdevIo, Call, Env, State, emit, issue, flush_data, flush_metadata, write_metadata, io_complete,
}

-- spdk_bdev_io_complete(spdk_bdev_io_from_ctx(ubi_io), …)
abbrev pub complete : UbiBdevIo → Bool → State → State
complete ubi_io success = emit (io_complete ubi_io.bdev_io success)

-- A call of the base bdev; if it is refused, the request fails.
unfoldable pub issue_or_fail : Env → UbiBdevIo → Call → State → State
issue_or_fail env ubi_io c s =
    let (r, s1) = issue env c s in if is_nonzero r then complete ubi_io false s1 else s1

unfoldable pub ubi_submit_flush_request : Env → UbiBdevIo → State → State
unfolding issue_or_fail
ubi_submit_flush_request env ubi_io s =
    if s.bdev.no_sync
    then complete ubi_io true s
    else issue_or_fail env ubi_io
        (flush_data ubi_io ((ubi_io.block_offset + s.bdev.data_offset_blocks) % 2 ^ 64)
          ubi_io.block_count)
        s

-- UBI_METADATA_SIZE / blocklen, and sizeof(metadata) / blocklen
unfoldable pub metadata_blocks : UbiBdev → ℕ
metadata_blocks b = metadata_size / b.blocklen

-- A failed data flush is logged, and the request is left as it is.
unfoldable pub ubi_data_flush_completion : Env → UbiBdevIo → Bool → State → State
unfolding issue_or_fail metadata_blocks
ubi_data_flush_completion env ubi_io success s =
    let ubi_io' = record ubi_io { stripes_fetched = s.bdev.stripes_fetched } in
    if success
    then (if s.bdev.stripes_fetched == s.bdev.stripes_flushed
        then complete ubi_io true s
        else issue_or_fail env ubi_io'
            (write_metadata ubi_io' s.bdev.metadata (metadata_blocks s.bdev)) s)
    else s

unfoldable pub ubi_metadata_write_completion : Env → UbiBdevIo → Bool → State → State
unfolding issue_or_fail metadata_blocks
ubi_metadata_write_completion env ubi_io success s =
    if success
    then issue_or_fail env ubi_io (flush_metadata ubi_io 0 (metadata_blocks s.bdev)) s
    else complete ubi_io false s

unfoldable pub set_flushed : UbiBdevIo → State → State
set_flushed ubi_io s =
    if ltb s.bdev.stripes_flushed ubi_io.stripes_fetched
    then record s { bdev = record (s.bdev) { stripes_flushed = ubi_io.stripes_fetched } }
    else s

unfoldable pub ubi_metadata_flush_completion : UbiBdevIo → Bool → State → State
unfolding set_flushed
ubi_metadata_flush_completion ubi_io success s =
    if success then complete ubi_io true (set_flushed ubi_io s) else complete ubi_io false s
