-- ===== src/Poll/Order.antt =====
-- The poller handles requests in the order in which they arrived.
use bdev_ubi.Prelude.{
  ◌≡◌, refl, subst, sym, ap, inl, inr, Bool, true, false, if◌then◌else◌, ℤ, ◌+◌, if_intro, ◌*◌, ◌%◌,
  ◌^◌, Option, none, some, List, [], ◌∷◌, ◌++◌, is_nonzero, arith,
}
use bdev_ubi.Channel.{
  IoType, read, write, flush, BdevIo, UbiBdevIo, Call, prep_readv, read_base, write_base,
  flush_data, flush_metadata, write_metadata, get_buf, io_complete, Env, State, emit, dec64,
}
use bdev_ubi.Request.{is_read}
use bdev_ubi.ReadWrite.{
  reads_base, ubi_complete_io, ubi_submit_read_request, get_buf_for_read_cb,
  ubi_submit_write_request,
}
use bdev_ubi.Flush.{ubi_submit_flush_request}
use bdev_ubi.Poll.{
  halt, verdict, remove_io, driver_ctx, serve_read, serve_write, serve_type, count_read, serve_io,
  io_loop,
}
use bdev_ubi.Poll.Loop.{Verdict-cases}

-- A call that is made for a request.
abbrev pub About : BdevIo → Call → Type 0
About io (prep_readv u offset) = u.bdev_io ≡ io
About io (read_base u start n) = u.bdev_io ≡ io
About io (write_base u start n) = u.bdev_io ≡ io
About io (flush_data u start n) = u.bdev_io ≡ io
About io (flush_metadata u start n) = u.bdev_io ≡ io
About io (write_metadata u m n) = u.bdev_io ≡ io
About io (get_buf u len) = u.bdev_io ≡ io
About io (io_complete io' success) = io' ≡ io
About io _ = ⊥

-- One or more calls, all for one request.
pub data Calls (io : BdevIo) (before : List Call) : List Call → Type 0 where
  first : {c : Call} → About io c → Calls io before (c ∷ before)
  more :
      {c : Call} {after : List Call}
      → About io c
      → Calls io before after
      → Calls io before (c ∷ after)

-- The requests of a list, one after the other, each with calls of its own.
pub data Handled : List BdevIo → List Call → List Call → Type 0 where
  nothing : {calls : List Call} → Handled [] calls calls
  next :
      (io : BdevIo) {rest : List BdevIo} {before between after : List Call}
      → Calls io before between
      → Handled rest between after
      → Handled (io ∷ rest) before after

module _ (io : BdevIo) (before : List Call) where
  abbrev Extended : State → Type 0
  Extended s = Calls io before s.calls

  complete_io-Calls :
      (u : UbiBdevIo) (success : Bool) (s : State)
      → u.bdev_io ≡ io
      → Extended s
      → Extended (ubi_complete_io u success s)
  unfolding ubi_complete_io
  complete_io-Calls u success s e h = more e (go (is_read u.bdev_io.type))
    where
      fewer : State
      fewer = record s { ch = record (s.ch) { active_reads = dec64 s.ch.active_reads } }

      go : (reading : Bool) → Extended (if reading then fewer else s)
      go true = h
      go false = h

  get_buf-Calls :
      (env : Env) (u : UbiBdevIo) (success : Bool) (s : State)
      → u.bdev_io ≡ io
      → Extended s
      → Extended (get_buf_for_read_cb env u success s)
  unfolding get_buf_for_read_cb
  get_buf-Calls env u success s e h =
      if_intro Extended success
        (if reads_base u s
          then (if is_nonzero r.0 then ubi_complete_io u false r.1 else r.1)
          else (if env.get_sqe s.calls then prepared else ubi_complete_io u false s))
        (ubi_complete_io u false s)
        (if_intro Extended (reads_base u s)
          (if is_nonzero r.0 then ubi_complete_io u false r.1 else r.1)
          (if env.get_sqe s.calls then prepared else ubi_complete_io u false s)
          (if_intro Extended (is_nonzero r.0) (ubi_complete_io u false r.1) r.1
            (complete_io-Calls u false r.1 e (more e h)) (more e h))
          (if_intro Extended (env.get_sqe s.calls) prepared (ubi_complete_io u false s) (more e h)
            (complete_io-Calls u false s e h)))
        (complete_io-Calls u false s e h)
    where
      r : ℤ × State
      r = ubi_submit_read_request env u s

      image : State
      image = emit (prep_readv u (u.bdev_io.offset_blocks * s.bdev.blocklen % 2 ^ 64)) s

      prepared : State
      prepared = record image { ch = record (image.ch) { has_reads = image.ch.has_reads + 1 } }

-- What a serving of a request adds to the calls.
serve_type-Calls :
    (env : Env) (t : IoType) (io : BdevIo) (s : State)
    → Calls io s.calls (serve_type env t io s).calls
unfolding serve_type serve_read serve_write ubi_submit_write_request ubi_submit_flush_request
serve_type-Calls env read io s = read_calls (env.buf_now s.calls (driver_ctx io))
  where
    asked : State
    asked =
        emit (get_buf (driver_ctx io) (io.num_blocks * s.bdev.blocklen % 2 ^ 64))
          (count_read (driver_ctx io) s)

    read_calls :
        (now : Option Bool)
        → Calls io s.calls
            (elim now as (λ _. State) [
              | none ↦ asked
              | some success ↦ get_buf_for_read_cb env (driver_ctx io) success asked
            ]).calls
    read_calls none = first refl
    read_calls (some success) =
        get_buf-Calls io s.calls env (driver_ctx io) success asked refl (first refl)
serve_type-Calls env write io s = first refl
serve_type-Calls env flush io s =
    if_intro (Extended io s.calls) s.bdev.no_sync _ _ (first refl)
      (if_intro (Extended io s.calls) _ _ _ (more refl (first refl)) (first refl))
serve_type-Calls env _ io s = first refl

serve_type-io :
    (env : Env) (t : IoType) (io : BdevIo) (s : State) → (serve_type env t io s).ch.io ≡ s.ch.io
unfolding serve_type serve_write ubi_submit_write_request ubi_submit_flush_request serve_read
    get_buf_for_read_cb
serve_type-io env t io s = ground arith

-- The first request that is left waits: for its stripe, or for a read to end.
abbrev pub Waits : State → List BdevIo → Type 0
Waits s [] = Unit
Waits s (io ∷ rest) = verdict io s ≡ halt

-- How the loop over the requests `ios` ends.
pub record Drained (ios : List BdevIo) (before : List Call) (s : State) : Type 0 where
  pub taken : List BdevIo
  pub split : ios ≡ taken ++ s.ch.io
  pub handled : Handled taken before s.calls
  pub waits : Waits s s.ch.io

serve_io-Calls : (env : Env) (io : BdevIo) (s : State) → Calls io s.calls (serve_io env io s).calls
unfolding serve_io
serve_io-Calls env io s = serve_type-Calls env io.type io s

pub serve_io-io : (env : Env) (io : BdevIo) (s : State) → (serve_io env io s).ch.io ≡ s.ch.io
unfolding serve_io
serve_io-io env io s = serve_type-io env io.type io s

Drained-next :
    (io : BdevIo) {rest : List BdevIo} {before between : List Call} {s : State}
    → Calls io before between
    → Drained rest between s
    → Drained (io ∷ rest) before s
Drained-next io c d = record {
  taken = io ∷ d.taken;
  split = ap (◌∷◌ io) d.split;
  handled = next io c d.handled;
  waits = d.waits;
}

-- Over the requests of the queue, the loop takes some from the head, in order and one after the
-- other; for each it makes one or more calls, and no others; it stops only at the end of the queue
-- or at a request on which the verdict is to wait.
pub io_loop-Drained :
    (env : Env) (ios : List BdevIo) (s : State)
    → s.ch.io ≡ ios
    → Drained ios s.calls (io_loop env ios s)
unfolding io_loop
io_loop-Drained env [] s e = record {
  taken = [];
  split = sym e;
  handled = nothing;
  waits = subst (Waits s) (sym e) tt;
}
io_loop-Drained env (io ∷ rest) s e = elim (Verdict-cases (verdict io s)) [
  | inl v ↦
      rw (v, io_loop)
        (record { taken = []; split = sym e; handled = nothing; waits = subst (Waits s) (sym e) v })
  | inr (inl v) ↦ rw (v, io_loop) (Drained-next io (first refl) (io_loop-Drained env rest _ refl))
  | inr (inr v) ↦
      rw (v, io_loop)
        (Drained-next io (serve_io-Calls env io (remove_io rest s))
          (io_loop-Drained env rest _ (serve_io-io env io (remove_io rest s))))
]
