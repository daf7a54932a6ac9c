-- ===== src/ReadWrite/Silent.antt =====
-- Reads and writes fetch no stripe.
use bdev_ubi.Prelude.{Bool, arith}
use bdev_ubi.Channel.{State, Env, UbiBdevIo}
use bdev_ubi.ReadWrite.{get_buf_for_read_cb, ubi_io_completion_cb}
use bdev_ubi.Bdev.Silent.{Silent, same-Silent}

pub get_buf-Silent :
    (env : Env) (u : UbiBdevIo) (success : Bool) (s : State)
    → Silent s.bdev (get_buf_for_read_cb env u success s).bdev
unfolding get_buf_for_read_cb
get_buf-Silent env u success s = same-Silent (ground arith)

pub io_completion-Silent :
    (u : UbiBdevIo) (success : Bool) (s : State)
    → Silent s.bdev (ubi_io_completion_cb u success s).bdev
unfolding ubi_io_completion_cb
io_completion-Silent u success s = same-Silent (ground arith)
