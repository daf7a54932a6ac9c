-- ===== src/Trace/Bounded.antt =====
-- A request costs at most four callbacks.
use bdev_ubi.Prelude.{
  ℕ, ◌+◌, ◌*◌, ◌≤◌, ◌≡◌, refl, sym, subst, ap, Bool, true, false, List, [], ◌∷◌, ◌++◌, ◌==◌, ==_iff,
  if◌then◌else◌, arith,
}
use bdev_ubi.FetchQueue.{stripe_queue_empty}
use bdev_ubi.FetchQueue.Contents.{IsValid, count}
use bdev_ubi.FetchQueue.Refine.{enqueue_stripe-IsValid, count-enqueue_stripe}
use bdev_ubi.Channel.{BdevIo, UbiBdevIo, Env, State}
use bdev_ubi.Request.{stripe_of, wants_stripe, ubi_submit_request}
use bdev_ubi.Fetch.{write_stripe_io_completion}
use bdev_ubi.Flush.{
  issue_or_fail, ubi_data_flush_completion, ubi_metadata_write_completion,
  ubi_metadata_flush_completion, set_flushed,
}
use bdev_ubi.ReadWrite.{ubi_complete_io, ubi_io_completion_cb, get_buf_for_read_cb}
use bdev_ubi.Poll.{ubi_io_poll}
use bdev_ubi.System.{
  Step, submitted, polled, buf_got, stripe_written, io_done, data_flushed, metadata_written,
  metadata_flushed, elsewhere,
}
use bdev_ubi.System.Shared.{Shared, view}
use bdev_ubi.Account.{Uses}
use bdev_ubi.Trace.{
  Kind, buffer, base, image, stripe_read, stripe_write, written, data_flush, metadata_write,
  metadata_flush, promised, answers, arrivals, batch_answers, ForReads, Trace, untouched, TraceStep,
  by, TraceReach, start, later,
}
use bdev_ubi.Trace.Reach.{AtRest}
use bdev_ubi.Trace.Cost.{
  type_cost, queue_cost, chain_cost, tally, cost, get_buf-cost, ubi_io_poll-cost,
}

queue_cost-append :
    (ios : List BdevIo) (io : BdevIo)
    → queue_cost (ios ++ (io ∷ [])) ≡ queue_cost ios + type_cost io.type
queue_cost-append [] io = omega arith
queue_cost-append (i ∷ ios) io = omega (arith, queue_cost-append ios io)

module _ (env : Env) where
  -- A request costs what its type says, and the fetch of a stripe for a read or a write.
  submit-cost :
      (io : BdevIo) (s : State)
      → IsValid s.ch.stripe_fetch_queue
      → cost env (ubi_submit_request io s) ≤ cost env s + 4
  unfolding ubi_submit_request wants_stripe
  submit-cost io s v =
      let grown =
        count-enqueue_stripe s.ch.stripe_fetch_queue (stripe_of s.bdev io.offset_blocks) v in
      ground (arith, queue_cost-append s.ch.io io, grown)

  data_flushed-cost :
      (u : UbiBdevIo) (success : Bool) (s : State)
      → cost env (ubi_data_flush_completion env u success s) ≤ cost env s + 2
  unfolding ubi_data_flush_completion issue_or_fail
  data_flushed-cost u success s = ground arith

  metadata_written-cost :
      (u : UbiBdevIo) (success : Bool) (s : State)
      → cost env (ubi_metadata_write_completion env u success s) ≤ cost env s + 1
  unfolding ubi_metadata_write_completion issue_or_fail
  metadata_written-cost u success s = ground arith

  metadata_flushed-cost :
      (u : UbiBdevIo) (success : Bool) (s : State)
      → cost env (ubi_metadata_flush_completion u success s) ≡ cost env s
  unfolding ubi_metadata_flush_completion set_flushed
  metadata_flushed-cost u success s = ground arith

  io_done-cost :
      (u : UbiBdevIo) (success : Bool) (s : State)
      → cost env (ubi_io_completion_cb u success s) ≡ cost env s
  unfolding ubi_io_completion_cb ubi_complete_io
  io_done-cost u success s = ground arith

  submit-IsValid :
      (io : BdevIo) (s : State)
      → IsValid s.ch.stripe_fetch_queue
      → IsValid (ubi_submit_request io s).ch.stripe_fetch_queue
  unfolding ubi_submit_request
  submit-IsValid io s v =
      let grown = enqueue_stripe-IsValid (stripe_of s.bdev io.offset_blocks) v in
      record {
        head_in = ground (arith, v.head_in, grown.head_in);
        tail_in = ground (arith, v.tail_in, grown.tail_in);
      }

  -- What a step may still lead to, with the callbacks that it has run, is at most what they and the
  -- requests before it might lead to.
  abbrev Paid : {s t : State} → Step s t → Type 0
  Paid {s} {t} st =
      IsValid t.ch.stripe_fetch_queue
      × (cost env t + tally (λ κ. answers κ st)
          ≤ cost env s + chain_cost (λ κ. answers κ st) + 4 * arrivals st)

Step-Paid :
    (env : Env) {s t : State} (st : Step s t)
    → Uses env st
    → ForReads st
    → IsValid s.ch.stripe_fetch_queue
    → Paid env st
unfolding get_buf_for_read_cb write_stripe_io_completion ubi_io_completion_cb ubi_complete_io
    ubi_data_flush_completion ubi_metadata_write_completion ubi_metadata_flush_completion
Step-Paid env {s} (submitted io supported) uses for_reads v =
    (submit-IsValid env io s v, omega (arith, submit-cost env io s v))
Step-Paid env {s} (polled env' batch) uses for_reads v =
    let paid = ubi_io_poll-cost env' batch s v in
    (
      paid.0,
      subst
          (λ w.
            cost w (ubi_io_poll env' batch s).1 + tally (λ κ. batch_answers κ batch)
            ≤ cost w s + chain_cost (λ κ. batch_answers κ batch) + 4 * 0)
          uses (omega (arith, paid.1)),
    )
Step-Paid env {s} {t} (buf_got env' u success) uses for_reads v = (
  subst IsValid (ground arith) v,
  subst (λ w. cost w t + 1 ≤ cost w s + 2 + 0) uses (omega (arith, get_buf-cost env' u success s)),
)
Step-Paid env {s} (stripe_written slot success) uses for_reads v = (v, omega arith)
Step-Paid env {s} (io_done u success) uses for_reads v =
    (subst IsValid (ground arith) v, ground (arith, io_done-cost env u success s))
Step-Paid env {s} {t} (data_flushed env' u success) uses for_reads v = (
  subst IsValid (ground arith) v,
  subst (λ w. cost w t + 1 ≤ cost w s + 3 + 0) uses
      (omega (arith, data_flushed-cost env' u success s)),
)
Step-Paid env {s} {t} (metadata_written env' u success) uses for_reads v = (
  subst IsValid (ground arith) v,
  subst (λ w. cost w t + 1 ≤ cost w s + 2 + 0) uses
      (omega (arith, metadata_written-cost env' u success s)),
)
Step-Paid env {s} (metadata_flushed u success) uses for_reads v =
    (subst IsValid (ground arith) v, omega (arith, metadata_flushed-cost env u success s))
Step-Paid env (elsewhere b k) uses for_reads v = absurd for_reads

-- The callbacks that a channel has had and those that may still come, against the requests that have
-- arrived there.
record Settled (env : Env) (a : Kind → ℕ) (arrived : ℕ) (s : State) : Type 0 where
  ring : IsValid s.ch.stripe_fetch_queue
  paid : cost env s + tally a ≤ chain_cost a + 4 * arrived

abbrev AllSettled : (ℕ → Env) → Trace → Type 0
AllSettled env g = (k : ℕ) → Settled (env k) (g.answered k) (g.arrived k) (view g.shared k)

AtRest-AllSettled : (env : ℕ → Env) (g : Shared) → AtRest g → AllSettled env (untouched g)
unfolding stripe_queue_empty
AtRest-AllSettled env g h k =
    let idle = h.idle k in
    let none_promised = ap (λ calls. chain_cost (λ κ. promised (env k) κ calls)) (h.no_calls k) in
    let none_waits : count (g.channels k).stripe_fetch_queue ≡ 0 =
      ground (arith, idle.no_stripes, idle.ring_valid) in
    record {
      ring = idle.ring_valid;
      paid = omega (arith, none_promised, none_waits, ap queue_cost idle.no_requests);
    }

module _ (env : ℕ → Env) where
  TraceStep-AllSettled : {g h : Trace} → TraceStep env g h → AllSettled env g → AllSettled env h
  TraceStep-AllSettled {g} (by k {t} st uses for_reads owed) settled l = by_channel (l == k) refl
    where
      by_channel :
          (here : Bool)
          → l == k ≡ here
          → Settled
              (env l)
              (λ κ. if here then g.answered l κ + answers κ st else g.answered l κ)
              (if here then g.arrived l + arrivals st else g.arrived l)
              (record {
                bdev = t.bdev;
                ch = if here then t.ch else g.shared.channels l;
                calls = if here then t.calls else g.shared.calls l;
              })
      by_channel true here =
          subst
            (λ m.
              Settled (env m) (λ κ. g.answered m κ + answers κ st) (g.arrived m + arrivals st) t)
            (sym ((==_iff l k).0 here))
            (let (valid, fewer) = Step-Paid (env k) st uses for_reads (settled k).ring in
              record { ring = valid; paid = omega (arith, fewer, (settled k).paid) })
      by_channel false there = record { ring = (settled l).ring; paid = (settled l).paid }

  TraceReach-AllSettled :
      {g : Shared} {h : Trace} → AtRest g → TraceReach env (untouched g) h → AllSettled env h
  TraceReach-AllSettled {g} rest start = AtRest-AllSettled env g rest
  TraceReach-AllSettled rest (later r st) = TraceStep-AllSettled st (TraceReach-AllSettled rest r)

  TraceStep-bounded :
      {g h : Trace}
      → TraceStep env g h
      → AllSettled env g
      → ((k : ℕ) → tally (g.answered k) ≤ 4 * g.arrived k)
      → (k : ℕ) → tally (h.answered k) ≤ 4 * h.arrived k
  TraceStep-bounded {g} (by k {t} st uses for_reads owed) settled before l =
      by_channel (l == k) refl
    where
      within : tally (λ κ. g.answered k κ + answers κ st) ≤ 4 * (g.arrived k + arrivals st)
      within = omega (
        arith,
        (settled k).paid,
        owed.kept buffer,
        owed.kept base,
        owed.kept image,
        owed.kept stripe_read,
        owed.kept stripe_write,
        owed.kept written,
        owed.kept data_flush,
        owed.kept metadata_write,
        owed.kept metadata_flush,
      )

      by_channel :
          (here : Bool)
          → l == k ≡ here
          → tally (λ κ. if here then g.answered l κ + answers κ st else g.answered l κ)
            ≤ 4 * (if here then g.arrived l + arrivals st else g.arrived l)
      by_channel true here =
          subst (λ m. tally (λ κ. g.answered m κ + answers κ st) ≤ 4 * (g.arrived m + arrivals st))
            (sym ((==_iff l k).0 here)) within
      by_channel false there = before l

  -- From channels that have just been opened, in cleared memory, on, whatever steps are taken in
  -- which no more callbacks of a kind run than the calls of the channel have promised, buffers and
  -- ends of reads of the image come for reads only, and no read of the image ends that has not been
  -- submitted, a channel has had at most four callbacks for each request that has arrived on it,
  -- whatever the libraries answer.
  pub TraceReach-bounded :
      {g : Shared} {h : Trace}
      → AtRest g
      → TraceReach env (untouched g) h
      → (k : ℕ) → tally (h.answered k) ≤ 4 * h.arrived k
  TraceReach-bounded rest start k = omega arith
  TraceReach-bounded rest (later r st) k =
      TraceStep-bounded st (TraceReach-AllSettled rest r) (TraceReach-bounded rest r) k
