-- ===== src/ReadWrite.antt =====
-- src/lib/bdev_ubi_io_channel.c: a read or write request that is being served, and its end.
pub mod Target
pub mod Silent
use bdev_ubi.Prelude.{
  ℕ, ◌+◌, ◌*◌, ◌%◌, ◌^◌, Bool, true, false, ◌||◌, ℤ, pos, negsuc, is_neg, is_nonzero, leb,
  if◌then◌else◌,
}
use bdev_ubi.Bdev.{StripeStatus, fetched, ubi_get_stripe_status}
use bdev_ubi.Channel.{
  IoType, BdevIo, UbiBdevIo, IoChannel, Env, State, emit, issue, inc64, dec64, prep_readv,
  read_base, write_base, io_complete,
}
use bdev_ubi.Request.{is_read, stripe_of}

abbrev pub is_fetched : StripeStatus → Bool
is_fetched fetched = true
is_fetched _ = false

-- Only a read counts among the active reads.
unfoldable pub ubi_complete_io : UbiBdevIo → Bool → State → State
ubi_complete_io ubi_io success s =
    let s1 = record s { ch = record (s.ch) { active_reads = dec64 s.ch.active_reads } } in
    emit (io_complete ubi_io.bdev_io success) (if is_read ubi_io.bdev_io.type then s1 else s)

unfoldable pub ubi_io_completion_cb : UbiBdevIo → Bool → State → State
unfolding ubi_complete_io
ubi_io_completion_cb ubi_io success s = ubi_complete_io ubi_io success s

-- The first block of a request on the base bdev.
unfoldable pub base_block : UbiBdevIo → State → ℕ
base_block ubi_io s = (ubi_io.bdev_io.offset_blocks + s.bdev.data_offset_blocks) % 2 ^ 64

unfoldable pub ubi_submit_read_request : Env → UbiBdevIo → State → ℤ × State
unfolding base_block
ubi_submit_read_request env ubi_io s =
    issue env (read_base ubi_io (base_block ubi_io s) ubi_io.bdev_io.num_blocks) s

unfoldable pub ubi_submit_write_request : Env → UbiBdevIo → State → ℤ × State
unfolding base_block
ubi_submit_write_request env ubi_io s =
    issue env (write_base ubi_io (base_block ubi_io s) ubi_io.bdev_io.num_blocks) s

-- Whether a read goes to the base bdev rather than to the image.
unfoldable pub reads_base : UbiBdevIo → State → Bool
reads_base ubi_io s =
    let start_block = ubi_io.bdev_io.offset_blocks in
    is_fetched (ubi_get_stripe_status s.bdev (stripe_of s.bdev start_block))
    || leb s.bdev.image_block_count start_block

-- The read of a request's blocks from the image file.
unfoldable pub read_from_image : Env → UbiBdevIo → State → State
unfolding ubi_complete_io
read_from_image env ubi_io s =
    let offset = ubi_io.bdev_io.offset_blocks * s.bdev.blocklen % 2 ^ 64 in
    let s1 = emit (prep_readv ubi_io offset) s in
    if env.get_sqe s.calls
    then record s1 { ch = record (s1.ch) { has_reads = s1.ch.has_reads + 1 } }
    else ubi_complete_io ubi_io false s

unfoldable pub get_buf_for_read_cb : Env → UbiBdevIo → Bool → State → State
unfolding ubi_complete_io ubi_submit_read_request read_from_image reads_base base_block
get_buf_for_read_cb env ubi_io success s =
    let (ret, s1) = ubi_submit_read_request env ubi_io s in
    if success
    then (if reads_base ubi_io s
        then (if is_nonzero ret then ubi_complete_io ubi_io false s1 else s1)
        else read_from_image env ubi_io s)
    else ubi_complete_io ubi_io false s

unfoldable pub ubi_complete_read_from_image : UbiBdevIo → ℤ → State → ℤ × State
unfolding ubi_complete_io
ubi_complete_read_from_image ubi_io res s =
    if is_neg res
    then (negsuc 0, ubi_complete_io ubi_io false s)
    else (pos 1, ubi_complete_io ubi_io true s)
