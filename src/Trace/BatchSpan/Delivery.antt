-- ===== src/Trace/BatchSpan/Delivery.antt =====
-- sdk/trace/batch_span_processor.go: what the shutdown delivers, the bounds on batches and queue, and
-- that the background goroutine waits nowhere but at the `select` of `processQueue`.
use go_opentelemetry.Prelude.{
  ℕ, ◌+◌, ◌*◌, ◌%◌, ◌^◌, ◌≤◌, ◌<◌, ◌≡◌, refl, Bool, true, false, List, [], ◌∷◌, ◌++◌, if◌then◌else◌,
  arith, length, Option-cases, inl, inr, append-nil,
}
use go_opentelemetry.Trace.BatchSpan.{
  BatchSpanProcessor, BatchSpanProcessorOption, processing, exporting, finished,
}
use go_opentelemetry.Trace.BatchSpan.Export.{export_spans}
use go_opentelemetry.Trace.BatchSpan.Worker.{stop_timer, process_export}
use go_opentelemetry.Trace.BatchSpan.System.{run, run-Reach, Reach}
use go_opentelemetry.Trace.BatchSpan.Refine.{Reach-conserves}
use go_opentelemetry.Trace.BatchSpan.View.{spans, all_spans}
use go_opentelemetry.Trace.BatchSpan.Invariant.{
  AllBatches, total_size, is_processing, export_spans-Exported,
}
use go_opentelemetry.Trace.BatchSpan.Invariant.Reach.{Reach-Inv}
use go_opentelemetry.Trace.BatchSpan.Drain.{Next, works, works_end, works-Proper}

-- When the exporter has been shut down, every span that was ever sent to the queue has been handed
-- to it, in the order of sending, and none twice.
pub shutdown_delivers :
    {b : Bool} {opts : List BatchSpanProcessorOption} {p : BatchSpanProcessor}
    → Reach b opts p
    → p.shut_down ≡ true
    → spans p.accepted ≡ all_spans p.exports
shutdown_delivers {p = p} r h =
    ground (arith, Reach-Inv r, Reach-conserves r, append-nil (all_spans p.exports))

-- From any reachable state of the drain, if no producer sends any more, the goroutine returns within
-- two turns for each queued item and four more, whatever the exporter answers; it takes nothing in,
-- and then every span ever sent has been handed to the exporter, in order.
pub drain_ends :
    {b : Bool} {opts : List BatchSpanProcessorOption} {p : BatchSpanProcessor} (answers : ℕ → Bool)
    (n : ℕ)
    → Reach b opts p
    → is_processing p.phase ≡ false
    → 2 * length p.queue.items + 4 ≤ n
    → let q = run (works answers n) p in
      (q.phase ≡ finished) × (spans p.accepted ≡ all_spans q.exports)
drain_ends {p = p} answers n r d h = ground (
  arith,
  works_end answers n p (Reach-Inv r) d (ground arith),
  Reach-conserves (run-Reach (works answers n) p (works-Proper answers n) r),
  append-nil (all_spans (run (works answers n) p).exports),
)

-- A batch handed to the exporter, in any reachable state, has at least one item, and no more than
-- `MaxExportBatchSize` where that is positive; and while the goroutine is at the `select` of
-- `processQueue` the batch is shorter than `MaxExportBatchSize` and lighter than `MaxPacketSize`,
-- where these are positive. The queue never holds more than `MaxQueueSize` items.
pub batches_limited :
    {b : Bool} {opts : List BatchSpanProcessorOption} {p : BatchSpanProcessor}
    → Reach b opts p
    → AllBatches p.o.max_export_batch_size p.exports
      × (p.phase ≡ processing
          → 0 < p.o.max_export_batch_size
          → length p.batch < p.o.max_export_batch_size)
      × (p.phase ≡ processing → 0 < p.o.max_packet_size → total_size p.batch < p.o.max_packet_size)
      × (length p.queue.items ≤ p.o.max_queue_size)
batches_limited {p = p} r = let v = Reach-Inv r in ground arith

exports_batch :
    (fails : Bool) (p : BatchSpanProcessor)
    → 0 < length p.batch
    → let q = (export_spans fails p).1 in
      (q.exports ≡ p.exports ++ p.batch ∷ [])
      × (q.counters.failed
          ≡ (if fails then p.counters.failed + length p.batch else p.counters.failed))
      × (q.counters.succeeded
          ≡ (if fails then p.counters.succeeded else p.counters.succeeded + length p.batch))
unfolding export_spans
exports_batch fails p h = ground arith

-- Behind its `shouldExport`, in any reachable state with a batch that is not empty, the goroutine does
-- not wait for the timer's channel: the batch, as it is, is the next one that the exporter is handed, its
-- spans are counted as failed or as succeeded as the exporter answers, the queue is left alone, and the
-- goroutine goes back to the `select` with no batch.
pub export_never_waits :
    {b : Bool} {opts : List BatchSpanProcessorOption} {p : BatchSpanProcessor} (fails : Bool)
    → Reach b opts p
    → p.phase ≡ exporting
    → 0 < length p.batch
    → Next
        (λ q.
          (q.phase ≡ processing)
          × (q.batch ≡ [])
          × (q.queue ≡ p.queue)
          × (q.exports ≡ p.exports ++ p.batch ∷ [])
          × (q.counters.failed
              ≡ (if fails then p.counters.failed + length p.batch else p.counters.failed))
          × (q.counters.succeeded
              ≡ (if fails then p.counters.succeeded else p.counters.succeeded + length p.batch)))
        (process_export fails p)
unfolding process_export
export_never_waits {p = p} fails r e n = elim (Option-cases (stop_timer p.timer)) [
  | inl h ↦ absurd (ground (arith, Reach-Inv r))
  | inr (t, h) ↦
      let s : BatchSpanProcessor = record p { timer = t } in
      let q : BatchSpanProcessor = record (export_spans fails s).1 { phase = processing } in
      let x = export_spans-Exported fails s in
      let y = exports_batch fails s n in
      (q, rw (h, process_export), (refl, x.batch, x.queue, y.0, y.1, y.2))
]

-- In any reachable state every enqueue call counted has sent its item, has been counted as dropped,
-- was refused, or is under way; and the uint32 `dropped` is the count of dropped items modulo 2^32.
pub enqueue_accounted :
    {b : Bool} {opts : List BatchSpanProcessorOption} {p : BatchSpanProcessor}
    → Reach b opts p
    → (p.counters.enqueue ≡ length p.accepted + p.counters.dropped + p.refused + p.in_flight)
      × (p.dropped ≡ p.counters.dropped % 2 ^ 32)
enqueue_accounted r = let v = Reach-Inv r in (v.accounted, v.wrapped)
