-- ===== src/Trace/BatchSpan/Worker.antt =====
-- sdk/trace/batch_span_processor.go: processQueue, drainQueue, and the calls of the client that
-- take several steps: Shutdown and ForceFlush.
use go_opentelemetry.Prelude.{
  ◌+◌, Bool, true, false, Option, none, some, [], ◌∷◌, ◌++◌, length, ◌==◌, if◌then◌else◌,
}
use go_opentelemetry.Channel.{got, drained, waiting, recv, close}
use go_opentelemetry.Timer
use go_opentelemetry.Timer.{Timer}
use go_opentelemetry.Trace.BatchSpan.{
  Item, nil, span, force_flush_span, BatchSpanProcessor, Phase, processing, exporting, draining,
  drain_exporting, closing, finished, calc_span_size,
}
use go_opentelemetry.Trace.BatchSpan.Export.{export_spans, should_process_in_batch}

-- The case of `processQueue`'s select that is taken. `fails` is the exporter's answer.
pub data Case : Type 0 where
  stop_case : Case
  timer_case : Bool → Case
  queue_case : Case

-- `bsp.batch = append(bsp.batch, sd)` with its size, then `shouldProcessInBatch`, under the lock.
unfoldable pub batch_item : Item → BatchSpanProcessor → BatchSpanProcessor
batch_item sd p =
    let q = record p {
      batch = p.batch ++ sd ∷ [];
      batched_size = p.batched_size + calc_span_size sd;
    } in
    let (should_export, q') = should_process_in_batch q in
    if should_export then record q' { phase = exporting } else q'

unfoldable pub process_item : Item → BatchSpanProcessor → BatchSpanProcessor
process_item (force_flush_span n) p = record p { flushed = n ∷ p.flushed }
process_item nil p = batch_item nil p
process_item (span s) p = batch_item (span s) p

-- `<-bsp.timer.C` has left `t`, and the tick is counted.
abbrev pub ticked : Timer → BatchSpanProcessor → BatchSpanProcessor
ticked t p = record p {
  timer = t;
  counters = record p.counters { by_timer = p.counters.by_timer + 1 };
}

-- One round of the loop of `processQueue`; `none` is a case that is not ready.
unfoldable pub process_queue : Case → BatchSpanProcessor → Option BatchSpanProcessor
process_queue stop_case p =
    if p.stopped then some (record p { timer = (Timer.stop p.timer).1; phase = draining }) else none
process_queue (timer_case fails) p = elim (Timer.receive p.timer) [
  | none ↦ none
  | some t ↦ some (export_spans fails (ticked t p)).1
]
process_queue queue_case p = elim (recv p.queue) [
  | got sd c ↦ some (process_item sd (record p { queue = c }))
  | drained ↦ some (batch_item nil p)
  | waiting ↦ none
]

-- `if !bsp.timer.Stop() { <-bsp.timer.C }`; `none` is a receive that waits.
abbrev pub stop_timer : Timer → Option Timer
stop_timer t = if t.active then some (Timer.stop t).1 else Timer.receive t

-- The export behind `shouldExport` in `processQueue`.
unfoldable pub process_export : Bool → BatchSpanProcessor → Option BatchSpanProcessor
process_export fails p = elim (stop_timer p.timer) [
  | none ↦ none
  | some t ↦ some (record (export_spans fails (record p { timer = t })).1 { phase = processing })
]

-- The item of a receive in `drainQueue`. The flush requests are not told apart here.
unfoldable pub drain_item : Bool → Item → BatchSpanProcessor → BatchSpanProcessor
drain_item fails nil p = record (export_spans fails p).1 { phase = finished }
drain_item fails sd p =
    let q = record p { batch = p.batch ++ sd ∷ [] } in
    if length q.batch == q.o.max_export_batch_size then record q { phase = drain_exporting } else q

-- One round of the loop of `drainQueue`. Where nothing waits in the open queue, it is closed next.
unfoldable pub drain_queue : Bool → BatchSpanProcessor → BatchSpanProcessor
drain_queue fails p = elim (recv p.queue) [
  | got sd c ↦ drain_item fails sd (record p { queue = c })
  | drained ↦ drain_item fails nil p
  | waiting ↦ record p { phase = closing }
]

-- The `default` case: `none` is the panic of a second close.
unfoldable pub close_queue : BatchSpanProcessor → Option BatchSpanProcessor
close_queue p = elim (close p.queue) [
  | none ↦ none
  | some c ↦ some (record p { queue = c; phase = draining })
]

-- The export behind `shouldExport` in `drainQueue`.
unfoldable pub drain_export : Bool → BatchSpanProcessor → BatchSpanProcessor
drain_export fails p = record (export_spans fails p).1 { phase = draining }

-- `Shutdown` up to `close(bsp.stopCh)`: only the first call closes it.
unfoldable pub shutdown : BatchSpanProcessor → BatchSpanProcessor
shutdown p = if p.stop_once then p else record p { stop_once = true; stopped = true }

abbrev pub is_finished : Phase → Bool
is_finished finished = true
is_finished _ = false

-- `Shutdown` behind `bsp.stopWait.Wait()`, which waits for the background goroutine.
unfoldable pub shutdown_exporter : BatchSpanProcessor → Option BatchSpanProcessor
shutdown_exporter p =
    if is_finished p.phase
    then some (if p.has_exporter then record p { shut_down = true } else p)
    else none

-- The export at the end of `ForceFlush`.
unfoldable pub flush_export : Bool → BatchSpanProcessor → BatchSpanProcessor
flush_export fails p = if p.has_exporter then (export_spans fails p).1 else p
