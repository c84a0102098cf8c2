-- ===== src/AsyncExporter/System.antt =====
-- exporter/asyncexporter/exporter.go: the exporter, its goroutines and its callers, as interleavings.
use go_opentelemetry.Prelude.{ℕ, Bool, Option, none, some, ◌≡◌}
use go_opentelemetry.AsyncExporter.{
  Exporter, Batch, Status, Dial, Export, taken, waits, panics, new_unstarted_exporter, start,
  export_logs,
}
use go_opentelemetry.AsyncExporter.Workers.{
  take_batch, finish_batch, shutdown, shutdown_wait, indefinite_background_connection,
}

-- `starts`, `offers`, `shuts` and `waited` are the callers' calls, the last the rest of a `Shutdown`
-- behind its wait; `takes` and `finishes` move an export goroutine, `reconnects` the background one.
pub data Event : Type 0 where
  starts : Dial → Event
  offers : Batch → Event
  takes : Event
  finishes : ℕ → Option Status → Bool → Event
  shuts waited : Event
  reconnects : Bool → Dial → Event

abbrev pub when_taken : Export → Option Exporter
when_taken (taken e) = some e
when_taken waits = none
when_taken panics = none

-- `none` is an event that cannot happen now, or one that panics.
unfoldable pub step : Event → Exporter → Option Exporter
step (starts dial) e = some (start dial e).1
step (offers b) e = when_taken (export_logs b e)
step takes e = take_batch e
step (finishes i answer canceled) e = finish_batch i answer canceled e
step shuts e = shutdown e
step waited e = shutdown_wait e
step (reconnects stops dial) e = indefinite_background_connection stops dial e

-- What can come of a new exporter.
pub data Reach (concurrency : ℕ) : Exporter → Type 0 where
  fresh : Reach concurrency (new_unstarted_exporter concurrency)
  next :
      (v : Event) {e f : Exporter} → Reach concurrency e → step v e ≡ some f → Reach concurrency f
