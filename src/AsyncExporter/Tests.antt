-- ===== src/AsyncExporter/Tests.antt =====
-- exporter/asyncexporter/exporter.go: a run with one export goroutine, which ends with a shutdown.
use go_opentelemetry.Prelude.{ℕ, ◌+◌, ◌≡◌, refl, false, Option, none, some, List, [], ◌∷◌, arith}
use go_opentelemetry.Channel.{send, recv, close}
use go_opentelemetry.AsyncExporter.{
  Exporter, dialed, new_unstarted_exporter, start, export_logs, panics, connect, enable_connections,
  connected, Status, unavailable,
}
use go_opentelemetry.AsyncExporter.Workers.{
  take_batch, finish_batch, shutdown, shutdown_wait, export_logs_internal, pick,
}
use go_opentelemetry.AsyncExporter.System.{
  Event, starts, offers, takes, finishes, shuts, waited, step, Reach, fresh, next,
}
use go_opentelemetry.AsyncExporter.Invariant.{size}
use go_opentelemetry.AsyncExporter.Account.{logs_accounted, export_after_shutdown}

abbrev or_same : Exporter → Option Exporter → Exporter
or_same e none = e
or_same e (some f) = f

-- Run events in turn, passing over those that cannot happen.
unfoldable run : List Event → Exporter → Exporter
run [] e = e
run (v ∷ vs) e = run vs (or_same e (step v e))

or_same-Reach :
    {c : ℕ} {e : Exporter} (v : Event) (o : Option Exporter)
    → step v e ≡ o
    → Reach c e
    → Reach c (or_same e o)
or_same-Reach v none h r = r
or_same-Reach v (some f) h r = next v r h

run-Reach : {c : ℕ} (vs : List Event) (e : Exporter) → Reach c e → Reach c (run vs e)
unfolding run
run-Reach [] e r = r
run-Reach (v ∷ vs) e r = run-Reach vs (or_same e (step v e)) (or_same-Reach v (step v e) refl r)

abbrev busy_status : Status
busy_status = record { code = unavailable; details = [] }

-- One batch is delivered, the next fails.
abbrev events : List Event
events =
    starts (dialed 1)
    ∷ offers (7 ∷ 8 ∷ [])
    ∷ offers (9 ∷ [])
    ∷ takes
    ∷ finishes 0 none false
    ∷ takes
    ∷ finishes 0 (some busy_status) false
    ∷ shuts
    ∷ takes
    ∷ waited
    ∷ []

abbrev last_state : Exporter
last_state = run events (new_unstarted_exporter 1)

last_state-Reach : Reach 1 last_state
last_state-Reach = run-Reach events (new_unstarted_exporter 1) fresh

counts :
    (last_state.async_success ≡ 2)
    × (last_state.async_failed ≡ 1)
    × (last_state.closed_conns ≡ 1 ∷ [])
unfolding run step start export_logs take_batch finish_batch shutdown shutdown_wait send recv close
    connect enable_connections connected export_logs_internal pick
counts = (refl, refl, refl)

logs_accounted_example :
    (size last_state.accepted
      ≡ last_state.async_success
        + last_state.async_failed
        + size last_state.logs_batch_ch.items
        + size last_state.busy)
    × (size last_state.delivered ≡ last_state.async_success)
logs_accounted_example = logs_accounted last_state-Reach

export_after_shutdown_example : export_logs (5 ∷ []) last_state ≡ panics
unfolding run step start export_logs take_batch finish_batch shutdown shutdown_wait send recv close
    connect enable_connections connected export_logs_internal pick
export_after_shutdown_example = export_after_shutdown (5 ∷ []) last_state-Reach refl (omega arith)
