-- ===== src/AsyncExporter/Workers.antt =====
-- exporter/asyncexporter/exporter.go: exportLogsInternal, exportBatches, the background connection and
-- Shutdown.
use go_opentelemetry.Prelude.{
  ℕ, zero, suc, ◌+◌, Bool, true, false, Option, none, some, List, [], ◌∷◌, ◌++◌, if◌then◌else◌, not,
  length,
}
use go_opentelemetry.Channel.{Chan, got, drained, waiting, recv, close}
use go_opentelemetry.AsyncExporter.{
  Exporter, Batch, Error, Status, disconnected, stopped, context_canceled, request_error, connected,
  set_state_disconnected, Background, unborn, awaiting, connecting, sleeping, returned, Dial,
  connect, note_connect, close_conn,
}

-- The request behind the select of `exportLogsInternal`, and what its error does.
abbrev pub after_request : Batch → Option Status → Exporter → Option Error × Exporter
after_request logs none e = (none, record e { delivered = e.delivered ++ logs ∷ [] })
after_request logs (some s) e = (some (request_error s), set_state_disconnected (request_error s) e)

-- `exportLogsInternal`. `answer` is what `requestFunc` returns; `canceled` tells which case the select
-- takes of a closed `stopCh` and the context that its closing cancels.
unfoldable pub export_logs_internal :
    Batch → Option Status → Bool → Exporter → Option Error × Exporter
export_logs_internal [] answer canceled e = (none, e)
export_logs_internal (l ∷ ls) answer canceled e =
    if not (connected e)
    then (some disconnected, e)
    else (if e.stop_closed
        then (some (if canceled then context_canceled else stopped), e)
        else after_request (l ∷ ls) answer e)

abbrev pub count_result : ℕ → Option Error × Exporter → Exporter
count_result size (none, e) = record e { async_success = e.async_success + size }
count_result size (some err, e) = record e { async_failed = e.async_failed + size }

-- The receive of `exportBatches` by a goroutine that waits there: a batch, or its return.
abbrev pub take_batch_at : ℕ → Exporter → Option Exporter
take_batch_at zero e = none
take_batch_at (suc n) e = elim (recv e.logs_batch_ch) [
  | got batch c ↦ some (record e { logs_batch_ch = c; idle = n; busy = batch ∷ e.busy })
  | drained ↦ some (record e { idle = n })
  | waiting ↦ none
]

unfoldable pub take_batch : Exporter → Option Exporter
take_batch e = take_batch_at e.idle e

-- The i-th of the batches, and the others.
unfoldable pub pick : ℕ → List Batch → Option (Batch × List Batch)
pick i [] = none
pick zero (b ∷ bs) = some (b, bs)
pick (suc i) (b ∷ bs) = elim (pick i bs) [ none ↦ none | some (c, cs) ↦ some (c, b ∷ cs) ]

-- The body of `exportBatches` for the i-th of the batches that are being exported.
abbrev pub finish_picked :
    Option (Batch × List Batch) → Option Status → Bool → Exporter → Option Exporter
finish_picked none answer canceled e = none
finish_picked (some (b, bs)) answer canceled e = some (
    count_result (length b)
      (export_logs_internal b answer canceled (record e { busy = bs; idle = e.idle + 1 })))

unfoldable pub finish_batch : ℕ → Option Status → Bool → Exporter → Option Exporter
finish_batch i answer canceled e = finish_picked (pick i e.busy) answer canceled e

-- The first half of `Shutdown`. The outcome `none` is the panic of a second close.
abbrev pub closing : Option (Chan Batch) → Exporter → Option Exporter
closing none e = none
closing (some c) e = some (record e { logs_batch_ch = c; shutting = some e.conn })

unfoldable pub shutdown : Exporter → Option Exporter
shutdown e = if not e.started then some e else closing (close e.logs_batch_ch) e

abbrev pub all_returned : ℕ → List Batch → Bool
all_returned zero [] = true
all_returned n bs = false

-- `Shutdown` behind `e.wait.Wait()`; `none` is a wait that goes on.
abbrev pub shutdown_wait_at : Option (Option ℕ) → Exporter → Option Exporter
shutdown_wait_at none e = none
shutdown_wait_at (some cc) e =
    if all_returned e.idle e.busy
    then some (record e {
      closed_conns = close_conn cc e.closed_conns;
      started = false;
      stop_closed = true;
      shutting = none;
    })
    else none

unfoldable pub shutdown_wait : Exporter → Option Exporter
shutdown_wait e = shutdown_wait_at e.shutting e

-- One round of `indefiniteBackgroundConnection`: `stops` is the select's choice of `stopCh`, and `dial`
-- what the dial comes to.
abbrev pub background_at : Background → Bool → Dial → Exporter → Option Exporter
background_at awaiting true dial e =
    if e.stop_closed then some (record e { background = returned }) else none
background_at awaiting false dial e =
    if e.disconnected_token
    then some (record e { disconnected_token = false; background = connecting })
    else none
background_at connecting stops dial e =
    some (record (note_connect (connect dial e)) { background = sleeping })
background_at sleeping true dial e =
    if e.stop_closed then some (record e { background = returned }) else none
background_at sleeping false dial e = some (record e { background = awaiting })
background_at unborn stops dial e = none
background_at returned stops dial e = none

unfoldable pub indefinite_background_connection : Bool → Dial → Exporter → Option Exporter
indefinite_background_connection stops dial e = background_at e.background stops dial e
