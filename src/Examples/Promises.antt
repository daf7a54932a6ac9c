-- ===== src/Examples/Promises.antt =====
-- The callbacks that are to come: the theorems at concrete runs.
use bdev_ubi.Prelude.{ℕ, ◌+◌, ◌*◌, ◌≤◌, ◌≡◌, refl, ap, [], arith}
use bdev_ubi.Channel.{State, max_concurrent_reads}
use bdev_ubi.Poll.{entries}
use bdev_ubi.System.{Step, submitted, polled}
use bdev_ubi.System.Shared.{view, SharedReach}
use bdev_ubi.Trace.{
  Kind, answers, Owed, buffer, base, image, promised, nulls, Obliging, Trace, untouched, after, by,
  TraceReach, start, later,
}
use bdev_ubi.Trace.Reach.{
  AtRest, TraceReach-waiting, TraceReach-reads, TraceReach-entries, TraceReach-SharedReach,
}
use bdev_ubi.Trace.Cost.{tally}
use bdev_ubi.Trace.Bounded.{TraceReach-bounded}
use bdev_ubi.Examples.{write_io, willing, write_supported}
use bdev_ubi.Examples.Contents.{read_0, read_supported}
use bdev_ubi.Examples.Sharing.{at_rest, test_channel-Idle}

-- A read and a write arrive on channel 4.
abbrev read_in : Trace
read_in = after 4 {s = view at_rest 4} (submitted read_0 read_supported) (untouched at_rest)

abbrev write_in : Trace
write_in = after 4 {s = view read_in.shared 4} (submitted write_io write_supported) read_in

-- The poller of channel 4 runs.
abbrev four_polled : Trace
four_polled = after 4 {s = view write_in.shared 4} (polled willing (entries [])) write_in

both_willing : (k : ℕ) → Obliging willing
both_willing k = record { submits = λ calls. refl; roomy = λ calls room. refl }

at_rest-AtRest : AtRest at_rest
at_rest-AtRest = record {
  no_calls = λ k. refl;
  idle = λ k. test_channel-Idle;
  no_reads = λ k. refl;
}

-- A step that runs no callback runs none that is not to come.
no_callback :
    {h : Trace}
    → TraceReach (λ k. willing) (untouched at_rest) h
    → {t : State} (st : Step (view h.shared 4) t) → h.answered 4 ≡ (λ κ. 0)
    → ((κ : Kind) → answers κ st ≡ 0)
    → Owed willing (h.answered 4) st
no_callback {h} r st untold none_run = record {
  kept = λ κ. let before = ap (λ (a : Kind → ℕ). a κ) untold in omega (arith, before, none_run κ);
  handed =
      omega
        (arith, none_run image, TraceReach-waiting (λ k. willing) both_willing at_rest-AtRest r 4);
}

first_arrival : TraceReach (λ k. willing) (untouched at_rest) read_in
first_arrival = later start (
    by 4 (submitted read_0 read_supported) tt tt
      (no_callback start (submitted read_0 read_supported) refl (λ κ. refl)))

arrivals : TraceReach (λ k. willing) (untouched at_rest) write_in
arrivals = later first_arrival (
    by 4 (submitted write_io write_supported) tt tt
      (no_callback first_arrival (submitted write_io write_supported) refl (λ κ. refl)))

none_ended :
    Owed willing (write_in.answered 4) {s = view write_in.shared 4} (polled willing (entries []))
none_ended = no_callback arrivals (polled willing (entries [])) refl (λ κ. refl)

trace_run : TraceReach (λ k. willing) (untouched at_rest) four_polled
trace_run = later arrivals (by 4 (polled willing (entries [])) refl tt none_ended)

TraceReach-reads_example :
    let calls = four_polled.shared.calls 4 in
    ((four_polled.shared.channels 4).active_reads
        + (four_polled.answered 4 buffer
            + four_polled.answered 4 base
            + four_polled.answered 4 image)
      ≡ promised willing buffer calls + promised willing base calls + promised willing image calls)
    × ((four_polled.shared.channels 4).active_reads ≤ max_concurrent_reads)
TraceReach-reads_example = TraceReach-reads (λ k. willing) both_willing at_rest-AtRest trace_run 4

TraceReach-entries_example : nulls (four_polled.shared.calls 4) ≡ 0
TraceReach-entries_example =
    TraceReach-entries (λ k. willing) both_willing at_rest-AtRest trace_run 4

TraceReach-SharedReach_example : SharedReach at_rest four_polled.shared
TraceReach-SharedReach_example =
    TraceReach-SharedReach (λ k. willing) both_willing at_rest-AtRest trace_run

TraceReach-bounded_example : tally (four_polled.answered 4) ≤ 4 * four_polled.arrived 4
TraceReach-bounded_example = TraceReach-bounded (λ k. willing) at_rest-AtRest trace_run 4
