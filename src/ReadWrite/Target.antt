-- ===== src/ReadWrite/Target.antt =====
-- The callbacks of a read or write leave the bdev and the queue alone.
use bdev_ubi.Prelude.{Bool, arith}
use bdev_ubi.Channel.{UbiBdevIo, Env, State}
use bdev_ubi.Channel.Evolve.{Evolves, same_bdev}
use bdev_ubi.ReadWrite.{get_buf_for_read_cb, ubi_io_completion_cb}

pub get_buf-Evolves :
    (env : Env) (u : UbiBdevIo) (success : Bool) (s : State)
    → Evolves s (get_buf_for_read_cb env u success s)
unfolding get_buf_for_read_cb
get_buf-Evolves env u success s = same_bdev s _ (ground arith) (ground arith)

pub io_completion-Evolves :
    (u : UbiBdevIo) (success : Bool) (s : State) → Evolves s (ubi_io_completion_cb u success s)
unfolding ubi_io_completion_cb
io_completion-Evolves u success s = same_bdev s _ (ground arith) (ground arith)
