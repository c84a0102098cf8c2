-- ===== src/Logs/Tests.antt =====
-- Runs of the log processor, and its theorems at them.
use go_opentelemetry.Prelude.{◌≡◌, refl, true, false, some, List, [], ◌∷◌, ◌++◌, arith}
use go_opentelemetry.Channel
use go_opentelemetry.Channel.{recv, close}
use go_opentelemetry.Logs.{
  ResourceLogs, BatchProcessor, Outcome, moves, blocked, crashes, new_batch_processor, finished,
  calc_log_size,
}
use go_opentelemetry.Logs.Queue.{begin_enqueue, enqueue_send}
use go_opentelemetry.Logs.Worker.{
  stop_case, queue_case, export, batch_item, should_process_in_batch, process_queue, process_export,
  drain_item, drain_queue, close_queue, shutdown, shutdown_exporter,
}
use go_opentelemetry.Logs.System.{
  Event, work, begin, send, stop, close_exporter, IsProper, step, work_at, Reach, start, next,
}
use go_opentelemetry.Logs.View.{logs, all_logs}
use go_opentelemetry.Logs.Refine.{logs_conserved}
use go_opentelemetry.Logs.Delivery.{or_same, solo, logs_drained, shutdown_delivers_logs}
use go_opentelemetry.Logs.Race.{Steps, overtaking, enqueue_crashes}

-- Run events in turn, passing over those that cannot happen.
unfoldable run : List Event → BatchProcessor → BatchProcessor
run [] p = p
run (e ∷ es) p = run es (or_same p (step e p))

abbrev AllProper : List Event → Type 0
AllProper [] = Unit {0}
AllProper (e ∷ es) = IsProper e × AllProper es

or_same-Reach :
    (e : Event) (p : BatchProcessor) (o : Outcome)
    → step e p ≡ o
    → IsProper e
    → Reach p
    → Reach (or_same p o)
or_same-Reach e p (moves q) h i r = next e r i h
or_same-Reach e p blocked h i r = r
or_same-Reach e p crashes h i r = r

run-Reach : (es : List Event) (p : BatchProcessor) → AllProper es → Reach p → Reach (run es p)
unfolding run
run-Reach [] p h r = r
run-Reach (e ∷ es) p h r =
    run-Reach es (or_same p (step e p)) h.1 (or_same-Reach e p (step e p) refl h.0 r)

abbrev small : ResourceLogs
small = record { id = 1; proto_size = 100 }

-- Large enough for a batch of its own.
abbrev large : ResourceLogs
large = record { id = 2; proto_size = 3000000 }

abbrev offer : ResourceLogs → List Event
offer l = begin ∷ send (some l) ∷ []

-- The two make a batch; a third is queued when the goroutine sees the stop.
abbrev to_drain : List Event
to_drain =
    offer small
    ++ (offer large
        ++ (work queue_case false
            ∷ work queue_case false
            ∷ work stop_case false
            ∷ (offer small ++ (stop ∷ work stop_case false ∷ []))))

abbrev to_end : List Event
to_end =
    to_drain
    ++ (work stop_case true
        ∷ work stop_case true
        ∷ work stop_case true
        ∷ work stop_case true
        ∷ close_exporter
        ∷ [])

-- All that a run computes with.
all_steps : Unit {0}
unfolding run step work_at begin_enqueue enqueue_send process_queue process_export export batch_item
    should_process_in_batch calc_log_size drain_item drain_queue close_queue shutdown
    shutdown_exporter Channel.send recv close solo
all_steps = tt

reached : (es : List Event) → AllProper es → Reach (run es new_batch_processor)
reached es h = run-Reach es new_batch_processor h start

two_batches :
    (run to_end new_batch_processor).exports
    ≡ (some small ∷ some large ∷ []) ∷ (some small ∷ []) ∷ []
unfolding all_steps
two_batches = refl

logs_conserved_example :
    let p = run to_drain new_batch_processor in
    logs p.accepted ≡ all_logs p.exports ++ (logs p.batch ++ logs p.queue.items)
logs_conserved_example = logs_conserved (reached to_drain (omega arith))

logs_drained_example :
    let p = run to_drain new_batch_processor in
    let q = solo (λ n. true) 4 p in (q.phase ≡ finished) × (logs p.accepted ≡ all_logs q.exports)
unfolding all_steps
logs_drained_example =
    logs_drained (λ n. true) 4 (run to_drain new_batch_processor) (reached to_drain (omega arith))
      refl (omega arith)

shutdown_delivers_logs_example :
    let p = run to_end new_batch_processor in logs p.accepted ≡ all_logs p.exports
unfolding all_steps
shutdown_delivers_logs_example = shutdown_delivers_logs (reached to_end (omega arith)) refl

enqueue_crashes_example :
    (q : BatchProcessor) × Steps overtaking new_batch_processor q
    × (q.accepted ≡ [])
    × (step (send (some small)) q ≡ crashes)
enqueue_crashes_example = enqueue_crashes small start refl refl refl refl
