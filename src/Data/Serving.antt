-- ===== src/Data/Serving.antt =====
-- Serving the requests of a channel keeps the bdev showing what a plain device shows.
use bdev_ubi.Prelude.{
  ℕ, ◌+◌, ◌*◌, ◌%◌, ◌^◌, ◌<◌, ◌≡◌, ◌≢◌, refl, sym, ◌∙◌, subst, Bool, true, false, inl, inr,
  if_intro, if_cases, Option, none, some, List, [], ◌∷◌, All, ℤ, is_neg, is_nonzero, arith,
}
use bdev_ubi.Bdev.{fetched, ubi_get_stripe_status}
use bdev_ubi.Channel.{
  IoType, read, write, flush, BdevIo, UbiBdevIo, Call, prep_readv, read_base, get_buf, io_complete,
  uring_submit, Env, State, emit, dec64,
}
use bdev_ubi.Flush.{issue_or_fail, ubi_submit_flush_request}
use bdev_ubi.ReadWrite.{
  reads_base, ubi_complete_io, ubi_io_completion_cb, ubi_submit_read_request,
  ubi_submit_write_request, read_from_image, base_block, get_buf_for_read_cb,
  ubi_complete_read_from_image,
}
use bdev_ubi.Request.{is_read, stripe_of}
use bdev_ubi.Poll.{
  serve, verdict, remove_io, driver_ctx, count_read, serve_read, serve_write, serve_type, serve_io,
  io_loop, submit_reads,
}
use bdev_ubi.Poll.Loop.{Verdict-cases}
use bdev_ubi.Poll.Serve.{OnBase, serve-write, verdict-remove, serve_io-bdev}
use bdev_ubi.Data.{Carried, World, Outside}
use bdev_ubi.Data.Sim.{Split, SplitIo, Sized, Busy, Away, Proper}
use bdev_ubi.Data.Good.{SimAt}
use bdev_ubi.Data.Fetching.{grow}

-- Where a read goes.
reads_base-OnBase : (u : UbiBdevIo) (s : State) → reads_base u s ≡ true → OnBase s.bdev u.bdev_io
unfolding reads_base
reads_base-OnBase u s h = ground (arith, h)

reads_image :
    (u : UbiBdevIo) (s : State)
    → reads_base u s ≡ false
    → (u.bdev_io.offset_blocks < s.bdev.image_block_count)
      × (ubi_get_stripe_status s.bdev (stripe_of s.bdev u.bdev_io.offset_blocks) ≢ fetched)
unfolding reads_base
reads_image u s h = (ground (arith, h), λ e. ground (arith, h, e))

module _ {V : Type 0} (x : Outside V) (n : ℕ) (foreign : ℕ → Type 0) (carried : Carried)
    (w₀ : World V) where
  -- What the calls of a request need: the bdev and the slots as they are to be.
  pub record InOrder (s : State) : Type 0 where
    pub sized : Sized n x.blocklen s.bdev
    pub busy : Busy n s.bdev s.ch.stripe_fetches
    pub away : Away n s.bdev foreign
    pub sim : SimAt x n foreign carried w₀ s

  -- A call that is right.
  pub called :
      (s : State) (c : Call)
      → Proper n s.bdev s.ch.stripe_fetches c
      → InOrder s
      → InOrder (emit c s)
  called s c p r = record {
    sized = r.sized;
    busy = r.busy;
    away = r.away;
    sim =
        grow x n foreign carried w₀ s.bdev s.ch.stripe_fetches s.calls c r.sized r.busy r.away p
          r.sim;
  }

  complete_io-InOrder :
      (u : UbiBdevIo) (success : Bool) (s : State)
      → InOrder s
      → InOrder (ubi_complete_io u success s)
  unfolding ubi_complete_io
  complete_io-InOrder u success s r =
      let c = io_complete u.bdev_io success in
      let fewer : State = record s {
        ch = record (s.ch) { active_reads = dec64 s.ch.active_reads };
      } in
      let counted : InOrder fewer = record {
        sized = r.sized;
        busy = r.busy;
        away = r.away;
        sim = r.sim;
      } in
      if_intro (λ t. InOrder (emit c t)) (is_read u.bdev_io.type) _ s (called fewer c tt counted)
        (called s c tt r)

  read_image-InOrder :
      (env : Env) (u : UbiBdevIo) (s : State)
      → reads_base u s ≡ false
      → Split s.bdev u.bdev_io
      → InOrder s
      → InOrder (read_from_image env u s)
  unfolding read_from_image
  read_image-InOrder env u s there split r =
      let c = prep_readv u (u.bdev_io.offset_blocks * s.bdev.blocklen % 2 ^ 64) in
      let image = reads_image u s there in
      let asked = called s c (image.0, image.1, refl, split) r in
      if_intro InOrder (env.get_sqe s.calls) _ _
        (record { sized = asked.sized; busy = asked.busy; away = asked.away; sim = asked.sim })
        (complete_io-InOrder u false s r)

  -- A buffer has been got for a read, or not.
  pub get_buf-InOrder :
      (env : Env) (u : UbiBdevIo) (success : Bool) (s : State)
      → Split s.bdev u.bdev_io
      → InOrder s
      → InOrder (get_buf_for_read_cb env u success s)
  unfolding get_buf_for_read_cb ubi_submit_read_request base_block
  get_buf-InOrder env u success s split r =
      let start = (u.bdev_io.offset_blocks + s.bdev.data_offset_blocks) % 2 ^ 64 in
      let c = read_base u start u.bdev_io.num_blocks in
      if_intro InOrder success _ _
        (if_cases InOrder (reads_base u s) _ _
          (λ there.
            let asked = called s c (reads_base-OnBase u s there, refl, refl, split) r in
            if_intro InOrder (is_nonzero (env.ret s.calls c)) _ _
              (complete_io-InOrder u false (emit c s) asked) asked)
          (λ there. read_image-InOrder env u s there split r))
        (complete_io-InOrder u false s r)

  serve_read-InOrder :
      (env : Env) (io : BdevIo) (s : State)
      → Split s.bdev io
      → InOrder s
      → InOrder (serve_read env (driver_ctx io) s)
  unfolding serve_read
  serve_read-InOrder env io s split r = now (env.buf_now s.calls u)
    where
      u : UbiBdevIo
      u = driver_ctx io

      asked : State
      asked = emit (get_buf u (io.num_blocks * s.bdev.blocklen % 2 ^ 64)) (count_read u s)

      counted : InOrder (count_read (driver_ctx io) s)
      counted = record { sized = r.sized; busy = r.busy; away = r.away; sim = r.sim }

      now :
          (answer : Option Bool)
          → InOrder (elim answer as (λ _. State) [
            | none ↦ asked
            | some success ↦ get_buf_for_read_cb env u success asked
          ])
      now none = called (count_read u s) _ tt counted
      now (some success) =
          get_buf-InOrder env u success asked split (called (count_read u s) _ tt counted)

  serve_type-InOrder :
      (env : Env) (t : IoType) (io : BdevIo) (s : State)
      → io.type ≡ t
      → verdict io s ≡ serve
      → SplitIo s.bdev io
      → InOrder s
      → InOrder (serve_type env t io s)
  unfolding serve_type serve_write ubi_submit_write_request base_block ubi_submit_flush_request
      issue_or_fail
  serve_type-InOrder env read io s e v split r = serve_read-InOrder env io s (split (λ f. cc)) r
  serve_type-InOrder env write io s e v split r =
      let s1 : State = record s {
        ch = record (s.ch) { blocks_written = (s.ch.blocks_written + io.num_blocks) % 2 ^ 64 };
      } in
      let counted : InOrder s1 = record {
        sized = r.sized;
        busy = r.busy;
        away = r.away;
        sim = r.sim;
      } in
      called s1 _ (serve-write io s e v, refl, refl, split (λ f. cc)) counted
  serve_type-InOrder env flush io s e v split r =
      if_intro InOrder s.bdev.no_sync _ _ (called s _ tt r)
        (if_intro InOrder _ _ _ (called _ _ tt (called s _ tt r)) (called s _ tt r))
  serve_type-InOrder env _ io s e v split r = called s _ tt r

  pub io_loop-InOrder :
      (env : Env) (ios : List BdevIo) (s : State)
      → All (SplitIo s.bdev) ios
      → InOrder s
      → InOrder (io_loop env ios s)
  unfolding io_loop serve_io
  io_loop-InOrder env [] s split r = r
  io_loop-InOrder env (io ∷ rest) s (first, others) r =
      let left : InOrder (remove_io rest s) = record {
        sized = r.sized;
        busy = r.busy;
        away = r.away;
        sim = r.sim;
      } in
      elim (Verdict-cases (verdict io s)) [
        | inl v ↦ rw (v, io_loop) r
        | inr (inl v) ↦ rw (v, io_loop) (io_loop-InOrder env rest _ others (called _ _ tt left))
        | inr (inr v) ↦
            let t = remove_io rest s in
            let served =
              serve_type-InOrder env io.type io t refl (verdict-remove io rest s ∙ v) first left in
            let same = serve_io-bdev env io t in
            rw (v, io_loop)
              (io_loop-InOrder env rest (serve_io env io t)
                (subst (λ b. All (SplitIo b) rest) (sym same) others) served)
      ]

  pub submit_reads-InOrder : (env : Env) (s : State) → InOrder s → InOrder (submit_reads env s)
  unfolding submit_reads
  submit_reads-InOrder env s r =
      let submitted = called s uring_submit tt r in
      if_intro InOrder _ _ _ r (
        if_intro InOrder _ _ _ submitted (record {
          sized = submitted.sized;
          busy = submitted.busy;
          away = submitted.away;
          sim = submitted.sim;
        }))

  pub complete_read-InOrder :
      (u : UbiBdevIo) (res : ℤ) (s : State)
      → InOrder s
      → InOrder (ubi_complete_read_from_image u res s).1
  unfolding ubi_complete_read_from_image
  complete_read-InOrder u res s r =
      if_intro (λ (p : ℤ × State). InOrder p.1) (is_neg res) _ _ (complete_io-InOrder u false s r)
        (complete_io-InOrder u true s r)

  pub io_done-InOrder :
      (u : UbiBdevIo) (success : Bool) (s : State)
      → InOrder s
      → InOrder (ubi_io_completion_cb u success s)
  unfolding ubi_io_completion_cb
  io_done-InOrder u success s r = complete_io-InOrder u success s r
