-- ===== src/Poll/Serve.antt =====
-- Which calls of the base bdev and of the image the poller makes for its requests.
use bdev_ubi.Prelude.{◌+◌, ◌%◌, ◌^◌, ◌≤◌, ◌<◌, ◌≡◌, refl, ◌∙◌, ◌⊎◌, Bool, false, List, arith, All}
use bdev_ubi.Bdev.{UbiBdev, not_fetched, fetched, ubi_get_stripe_status}
use bdev_ubi.Channel.{
  read, write, BdevIo, UbiBdevIo, Call, prep_readv, read_base, write_base, Env, State,
}
use bdev_ubi.ReadWrite.{get_buf_for_read_cb, ubi_submit_write_request}
use bdev_ubi.Flush.{ubi_submit_flush_request}
use bdev_ubi.Request.{stripe_of}
use bdev_ubi.Poll.{
  serve, verdict, remove_io, driver_ctx, serve_read, serve_write, serve_type, serve_io, io_loop,
}
use bdev_ubi.Poll.Loop.{io_loop_inv}

-- The blocks of a request lie past the image, or in a stripe that has been fetched.
abbrev pub OnBase : UbiBdev → BdevIo → Type 0
OnBase b io =
    (b.image_block_count ≤ io.offset_blocks)
    ⊎ (ubi_get_stripe_status b (stripe_of b io.offset_blocks) ≡ fetched)

-- The blocks of a read lie in a stripe of the image that nobody has asked to fetch.
pub record OnImage (b : UbiBdev) (io : BdevIo) : Type 0 where
  pub in_image : io.offset_blocks < b.image_block_count
  pub not_copied : ubi_get_stripe_status b (stripe_of b io.offset_blocks) ≡ not_fetched
  pub no_copy_on_read : b.copy_on_read ≡ false

-- Where a call may send the data of a request, and to which block.
abbrev pub Safe : UbiBdev → Call → Type 0
Safe b (read_base u start n) =
    OnBase b u.bdev_io × (start ≡ (u.bdev_io.offset_blocks + b.data_offset_blocks) % 2 ^ 64)
Safe b (write_base u start n) =
    OnBase b u.bdev_io × (start ≡ (u.bdev_io.offset_blocks + b.data_offset_blocks) % 2 ^ 64)
Safe b (prep_readv u offset) = OnImage b u.bdev_io
Safe b _ = Unit

-- What a verdict tells of a read or write.
serve-read :
    (io : BdevIo) (s : State)
    → io.type ≡ read
    → verdict io s ≡ serve
    → OnBase s.bdev io ⊎ OnImage s.bdev io
unfolding verdict
serve-read io s t h = ground arith

pub serve-write :
    (io : BdevIo) (s : State) → io.type ≡ write → verdict io s ≡ serve → OnBase s.bdev io
unfolding verdict
serve-write io s t h = ground arith

get_buf-Safe :
    (env : Env) (u : UbiBdevIo) (success : Bool) (s : State)
    → OnBase s.bdev u.bdev_io ⊎ OnImage s.bdev u.bdev_io
    → All (Safe s.bdev) s.calls
    → All (Safe s.bdev) (get_buf_for_read_cb env u success s).calls
unfolding get_buf_for_read_cb
get_buf-Safe env u success s may safe = ground arith

get_buf-bdev :
    (env : Env) (u : UbiBdevIo) (success : Bool) (s : State)
    → (get_buf_for_read_cb env u success s).bdev ≡ s.bdev
unfolding get_buf_for_read_cb
get_buf-bdev env u success s = ground arith

flush-Safe :
    (env : Env) (u : UbiBdevIo) (s : State)
    → All (Safe s.bdev) s.calls
    → All (Safe s.bdev) (ubi_submit_flush_request env u s).calls
unfolding ubi_submit_flush_request
flush-Safe env u s safe = ground arith

-- Every call of the run was safe on the bdev, which is `b`.
abbrev pub SafeOn : UbiBdev → State → Type 0
SafeOn b s = (s.bdev ≡ b) × All (Safe b) s.calls

serve_read-SafeOn :
    (b : UbiBdev) (env : Env) (io : BdevIo) (s : State)
    → OnBase b io ⊎ OnImage b io
    → SafeOn b s
    → SafeOn b (serve_read env (driver_ctx io) s)
unfolding serve_read get_buf_for_read_cb
serve_read-SafeOn b env io s may h = ground arith

serve_io-SafeOn :
    (b : UbiBdev) (env : Env) (io : BdevIo) (s : State)
    → verdict io s ≡ serve
    → SafeOn b s
    → SafeOn b (serve_io env io s)
unfolding serve_io serve_type serve_write ubi_submit_write_request ubi_submit_flush_request
serve_io-SafeOn b env io s v h =
    ground (arith, serve-read io s, serve-write io s, serve_read-SafeOn b env io s)

pub serve_io-bdev : (env : Env) (io : BdevIo) (s : State) → (serve_io env io s).bdev ≡ s.bdev
unfolding serve_io serve_type serve_write serve_read get_buf_for_read_cb ubi_submit_write_request
    ubi_submit_flush_request
serve_io-bdev env io s = ground arith

pub verdict-remove :
    (io : BdevIo) (rest : List BdevIo) (s : State) → verdict io (remove_io rest s) ≡ verdict io s
unfolding verdict
verdict-remove io rest s = refl

pub io_loop-SafeOn :
    (b : UbiBdev) (env : Env) (ios : List BdevIo) (s : State)
    → SafeOn b s
    → SafeOn b (io_loop env ios s)
io_loop-SafeOn b env ios s h =
    io_loop_inv env (SafeOn b) (λ io rest s _ k. ground arith)
      (λ io rest s v k.
        serve_io-SafeOn b env io (remove_io rest s) (verdict-remove io rest s ∙ v) (ground arith))
      ios s h

pub io_loop-bdev : (env : Env) (ios : List BdevIo) (s : State) → (io_loop env ios s).bdev ≡ s.bdev
io_loop-bdev env ios s =
    io_loop_inv env (λ t. t.bdev ≡ s.bdev) (λ io rest t _ e. e)
      (λ io rest t _ e. serve_io-bdev env io (remove_io rest t) ∙ e) ios s refl
