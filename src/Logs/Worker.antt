-- ===== src/Logs/Worker.antt =====
-- sdk/log/batch_processor.go: export, shouldProcessInBatch, processQueue, drainQueue and Shutdown.
use go_opentelemetry.Prelude.{
  ◌+◌, Bool, true, false, Option, none, some, [], ◌∷◌, ◌++◌, length, ltb, leb, ◌==◌, if◌then◌else◌,
  ◌||◌,
}
use go_opentelemetry.Channel.{Recv, got, drained, waiting, recv, close, Chan}
use go_opentelemetry.Timer
use go_opentelemetry.Timer.{Timer}
use go_opentelemetry.Logs.{
  Item, BatchProcessor, Counters, Outcome, moves, blocked, crashes, Phase, processing, exporting,
  draining, closing, finished, calc_log_size, default_max_export_batch_size,
  default_max_batched_packet_size,
}

-- The case of `processQueue`'s select that is taken.
pub data Case : Type 0 where
  stop_case timer_case queue_case : Case

abbrev pub count_export : Bool → Counters → Counters
count_export fails c =
    if fails then record c { failed = c.failed + 1 } else record c { succeeded = c.succeeded + 1 }

-- `export`. `fails` is whether `ExportLogs` returns an error.
unfoldable pub export : Bool → BatchProcessor → BatchProcessor
export fails p =
    if ltb 0 (length p.batch)
    then record p {
      timer = Timer.reset p.timer;
      exports = p.exports ++ p.batch ∷ [];
      counters = count_export fails p.counters;
      batch = [];
      batched_size = 0;
    }
    else record p { timer = Timer.reset p.timer }

-- `shouldProcessInBatch`
unfoldable pub should_process_in_batch : BatchProcessor → Bool
should_process_in_batch p =
    length p.batch == default_max_export_batch_size
    || leb default_max_batched_packet_size p.batched_size

-- The item that a receive of `processQueue` yields joins the batch.
unfoldable pub batch_item : Item → BatchProcessor → BatchProcessor
batch_item ld p =
    let q = record p {
      batch = p.batch ++ ld ∷ [];
      batched_size = p.batched_size + calc_log_size ld;
    } in
    if should_process_in_batch q then record q { phase = exporting } else q

abbrev pub process_received : Recv Item → BatchProcessor → Outcome
process_received (got ld c) p = moves (batch_item ld (record p { queue = c }))
process_received drained p = moves (batch_item none p)
process_received waiting p = blocked

abbrev pub on_tick : Option Timer → Bool → BatchProcessor → Outcome
on_tick none fails p = blocked
on_tick (some t) fails p = moves (export fails (record p { timer = t }))

-- One round of the loop of `processQueue`.
unfoldable pub process_queue : Case → Bool → BatchProcessor → Outcome
process_queue stop_case fails p =
    if p.stopped
    then moves (record p { timer = (Timer.stop p.timer).1; phase = draining })
    else blocked
process_queue timer_case fails p = on_tick (Timer.receive p.timer) fails p
process_queue queue_case fails p = process_received (recv p.queue) p

-- `if !bp.timer.Stop() { <-bp.timer.C }`; `none` is a receive that waits.
abbrev pub stop_timer : Timer → Option Timer
stop_timer t = if t.active then some (Timer.stop t).1 else Timer.receive t

abbrev pub export_after : Option Timer → Bool → BatchProcessor → Outcome
export_after none fails p = blocked
export_after (some t) fails p =
    moves (record (export fails (record p { timer = t })) { phase = processing })

-- The export behind `shouldProcessInBatch` in `processQueue`.
unfoldable pub process_export : Bool → BatchProcessor → Outcome
process_export fails p = export_after (stop_timer p.timer) fails p

-- The item of a receive in `drainQueue`: only the count of the batch is tested here.
unfoldable pub drain_item : Bool → Item → BatchProcessor → BatchProcessor
drain_item fails none p = record (export fails p) { phase = finished }
drain_item fails (some l) p =
    let q = record p { batch = p.batch ++ some l ∷ [] } in
    if length q.batch == default_max_export_batch_size then export fails q else q

abbrev pub drain_received : Recv Item → Bool → BatchProcessor → BatchProcessor
drain_received (got sd c) fails p = drain_item fails sd (record p { queue = c })
drain_received drained fails p = drain_item fails none p
drain_received waiting fails p = record p { phase = closing }

-- One round of the loop of `drainQueue`. Where nothing waits in the open queue, it is closed next.
unfoldable pub drain_queue : Bool → BatchProcessor → BatchProcessor
drain_queue fails p = drain_received (recv p.queue) fails p

abbrev pub closed_to : Option (Chan Item) → BatchProcessor → Outcome
closed_to none p = crashes
closed_to (some c) p = moves (record p { queue = c; phase = draining })

-- The `default` case
unfoldable pub close_queue : BatchProcessor → Outcome
close_queue p = closed_to (close p.queue) p

-- `Shutdown` up to `close(bp.stopCh)`: only the first call closes it.
unfoldable pub shutdown : BatchProcessor → BatchProcessor
shutdown p = if p.stop_once then p else record p { stop_once = true; stopped = true }

abbrev pub is_finished : Phase → Bool
is_finished finished = true
is_finished _ = false

-- `Shutdown` behind `bp.stopWait.Wait()`, which waits for the background goroutine.
unfoldable pub shutdown_exporter : BatchProcessor → Outcome
shutdown_exporter p = if is_finished p.phase then moves (record p { shut_down = true }) else blocked
