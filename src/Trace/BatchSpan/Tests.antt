-- ===== src/Trace/BatchSpan/Tests.antt =====
-- Runs of the span processor, and its theorems at them.
use go_opentelemetry.Prelude.{
  ℕ, ◌+◌, ◌<◌, ◌≤◌, ◌%◌, ◌^◌, ◌≡◌, refl, true, false, List, [], ◌∷◌, ◌++◌, arith, length,
  if◌then◌else◌,
}
use go_opentelemetry.Channel
use go_opentelemetry.Pipeline
use go_opentelemetry.Trace.BatchSpan.{
  Item, span, force_flush_span, BatchSpanProcessor, BatchSpanProcessorOption, processing, exporting,
  finished, calc_span_size, with_max_export_batch_size, with_max_queue_size,
  new_batch_span_processor,
}
use go_opentelemetry.Trace.BatchSpan.Export.{export_spans, should_process_in_batch}
use go_opentelemetry.Trace.BatchSpan.Queue.{begin_enqueue, send_item}
use go_opentelemetry.Trace.BatchSpan.Worker.{
  stop_case, queue_case, batch_item, process_item, process_queue, process_export, drain_item,
  drain_queue, drain_export, close_queue, shutdown, shutdown_exporter, flush_export,
}
use go_opentelemetry.Trace.BatchSpan.System.{
  Event, work, begin, stop, close_exporter, step, work_at, begin_call, send_call, tick_timer, run,
  run-Reach, Reach, start, AllProper,
}
use go_opentelemetry.Trace.BatchSpan.Refine.{step_refines, Reach-conserves}
use go_opentelemetry.Trace.BatchSpan.View.{spans, all_spans, view}
use go_opentelemetry.Trace.BatchSpan.Invariant.{AllBatches, total_size}
use go_opentelemetry.Trace.BatchSpan.Drain.{Next, works}
use go_opentelemetry.Trace.BatchSpan.Delivery.{
  shutdown_delivers, drain_ends, batches_limited, export_never_waits, enqueue_accounted,
}
use go_opentelemetry.Trace.BatchSpan.Flush.{flush_unanswered}

abbrev span_of : ℕ → Item
span_of n = span (record { id = n; events = [] })

abbrev options : List BatchSpanProcessorOption
options = with_max_export_batch_size 2 ∷ with_max_queue_size 3 ∷ []

abbrev fresh : BatchSpanProcessor
fresh = new_batch_span_processor true options

abbrev produce : ℕ → List Event
produce n = begin ∷ Event.send false (span_of n) false ∷ []

-- Two spans make a batch.
abbrev to_batch : List Event
to_batch = produce 1 ++ (produce 2 ++ (work queue_case false ∷ work queue_case false ∷ []))

-- A third one and a flush request are queued when the goroutine sees the stop.
abbrev to_drain : List Event
to_drain =
    to_batch
    ++ (work queue_case false ∷ produce 3
        ++ (begin ∷ Event.send false (force_flush_span 7) true ∷ stop ∷ work stop_case true ∷ []))

abbrev to_end : List Event
to_end = to_drain ++ (works (λ n. true) 10 ++ close_exporter ∷ [])

-- All that a run computes with.
all_steps : Unit {0}
unfolding step work_at begin_call send_call tick_timer begin_enqueue send_item process_queue
    process_item batch_item should_process_in_batch calc_span_size process_export drain_queue
    drain_item drain_export close_queue export_spans shutdown shutdown_exporter flush_export run
    Channel.recv Channel.send Channel.close
all_steps = tt

batch_is_full : (run to_batch fresh).phase ≡ exporting
unfolding all_steps
batch_is_full = refl

-- The flush request is handed to the exporter as if it were a span.
flush_request_exported :
    (run to_end fresh).exports
    ≡ (span_of 1 ∷ span_of 2 ∷ []) ∷ (span_of 3 ∷ force_flush_span 7 ∷ []) ∷ []
unfolding all_steps
flush_request_exported = refl

reached : (es : List Event) → AllProper es → Reach true options (run es fresh)
reached es h = run-Reach es fresh h start

shutdown_delivers_example : spans (run to_end fresh).accepted ≡ all_spans (run to_end fresh).exports
unfolding all_steps
shutdown_delivers_example = shutdown_delivers (reached to_end (omega arith)) refl

drain_ends_example :
    let q = run (works (λ n. false) 8) (run to_drain fresh) in
    (q.phase ≡ finished) × (spans (run to_drain fresh).accepted ≡ all_spans q.exports)
unfolding all_steps
drain_ends_example = drain_ends (λ n. false) 8 (reached to_drain (omega arith)) refl (omega arith)

Reach-conserves_example :
    let p = run to_drain fresh in
    spans p.accepted ≡ all_spans p.exports ++ (spans p.batch ++ spans p.queue.items)
Reach-conserves_example = Reach-conserves (reached to_drain (omega arith))

batches_limited_example :
    let p = run to_batch fresh in
    AllBatches p.o.max_export_batch_size p.exports
    × (p.phase ≡ processing
        → 0 < p.o.max_export_batch_size
        → length p.batch < p.o.max_export_batch_size)
    × (p.phase ≡ processing → 0 < p.o.max_packet_size → total_size p.batch < p.o.max_packet_size)
    × (length p.queue.items ≤ p.o.max_queue_size)
batches_limited_example = batches_limited (reached to_batch (omega arith))

export_never_waits_example :
    let p = run to_batch fresh in
    Next
      (λ q.
        (q.phase ≡ processing)
        × (q.batch ≡ [])
        × (q.queue ≡ p.queue)
        × (q.exports ≡ p.exports ++ p.batch ∷ [])
        × (q.counters.failed
            ≡ (if true then p.counters.failed + length p.batch else p.counters.failed))
        × (q.counters.succeeded
            ≡ (if true then p.counters.succeeded else p.counters.succeeded + length p.batch)))
      (process_export true p)
unfolding all_steps
export_never_waits_example =
    export_never_waits true (reached to_batch (omega arith)) refl (omega arith)

enqueue_accounted_example :
    let p = run to_end fresh in
    (p.counters.enqueue ≡ length p.accepted + p.counters.dropped + p.refused + p.in_flight)
    × (p.dropped ≡ p.counters.dropped % 2 ^ 32)
enqueue_accounted_example = enqueue_accounted (reached to_end (omega arith))

flush_unanswered_example : (run (works (λ n. false) 8) (run to_drain fresh)).flushed ≡ []
unfolding all_steps
flush_unanswered_example = flush_unanswered (works (λ n. false) 8) (run to_drain fresh) refl

step_refines_example :
    Pipeline.Step
      (view (run to_batch fresh))
      (view (run (work stop_case true ∷ []) (run to_batch fresh)))
unfolding all_steps
step_refines_example = step_refines (work stop_case true) (run to_batch fresh) refl
