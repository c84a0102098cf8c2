-- ===== src/AsyncExporter/Account.antt =====
-- exporter/asyncexporter/exporter.go: that no log is lost between ExportLogs and the counters, and what
-- a shutdown leaves.
use go_opentelemetry.Prelude.{ℕ, ◌+◌, ◌<◌, ◌≡◌, refl, true, arith, Bool-cases, inl, inr}
use go_opentelemetry.Channel.{send}
use go_opentelemetry.AsyncExporter.{Exporter, Batch, panics, export_logs}
use go_opentelemetry.AsyncExporter.System.{Reach}
use go_opentelemetry.AsyncExporter.Invariant.{size, Reach-Inv}

-- In every state that can come of a new exporter, whatever the interleaving of callers, export
-- goroutines, reconnections and a shutdown: each log handed to `ExportLogs` without a panic is counted
-- as a success, counted as a failure, in the channel, or in a batch being exported; and those counted
-- as a success are as many as the collector has answered without an error.
pub logs_accounted :
    {c : ℕ} {e : Exporter}
    → Reach c e
    → (size e.accepted
        ≡ e.async_success + e.async_failed + size e.logs_batch_ch.items + size e.busy)
      × (size e.delivered ≡ e.async_success)
logs_accounted r = let v = Reach-Inv r in (v.counted, v.answered)

-- When a `Shutdown` has closed `stopCh`, every call of `ExportLogs` panics, if the concurrency is
-- positive.
pub export_after_shutdown :
    {c : ℕ} {e : Exporter} (b : Batch)
    → Reach c e
    → e.stop_closed ≡ true
    → 0 < e.concurrency
    → export_logs b e ≡ panics
unfolding export_logs send
export_after_shutdown {e = e} b r h p =
    let v = Reach-Inv r in
    elim (Bool-cases e.start_once) [
      | inl s ↦ let closed : e.logs_batch_ch.closed ≡ true = ground arith in rw (s, closed) refl
      | inr s ↦ absurd (ground arith)
    ]
