-- ===== src/Poll/Reads.antt =====
-- The number of reads that are served at a time.
use bdev_ubi.Request.{is_read}
use bdev_ubi.Prelude.{true, ◌<◌, ◌≤◌, ◌≡◌, List, arith}
use bdev_ubi.Channel.{BdevIo, Env, State, max_concurrent_reads}
use bdev_ubi.ReadWrite.{get_buf_for_read_cb, ubi_submit_write_request}
use bdev_ubi.Flush.{ubi_submit_flush_request}
use bdev_ubi.Poll.{
  serve, verdict, remove_io, serve_read, serve_write, serve_type, serve_io, io_loop,
}
use bdev_ubi.Poll.Loop.{io_loop_inv}

-- A read is served only if there is room among the active reads.
pub serve-room :
    (io : BdevIo) (s : State)
    → verdict io s ≡ serve
    → is_read io.type ≡ true
    → s.ch.active_reads < max_concurrent_reads
unfolding verdict
serve-room io s v reading = ground arith

-- Serving a request adds at most one active read, and only below the limit.
serve_io-reads :
    (env : Env) (io : BdevIo) (rest : List BdevIo) (s : State)
    → verdict io s ≡ serve
    → s.ch.active_reads ≤ max_concurrent_reads
    → (serve_io env io (remove_io rest s)).ch.active_reads ≤ max_concurrent_reads
unfolding verdict serve_io serve_type serve_read serve_write ubi_submit_write_request
    ubi_submit_flush_request get_buf_for_read_cb
serve_io-reads env io rest s v h = ground arith

-- If the number of active reads is within UBI_MAX_CONCURRENT_READS before the loop over the requests,
-- it is after it.
io_loop-reads :
    (env : Env) (ios : List BdevIo) (s : State)
    → s.ch.active_reads ≤ max_concurrent_reads
    → (io_loop env ios s).ch.active_reads ≤ max_concurrent_reads
io_loop-reads env ios s h =
    io_loop_inv env (λ t. t.ch.active_reads ≤ max_concurrent_reads) (λ io rest t v k. k)
      (λ io rest t v k. serve_io-reads env io rest t v k) ios s h
