-- ===== src/Logs/Refine.antt =====
-- sdk/log/batch_processor.go: the processor refines the pipeline of Pipeline.antt.
use go_opentelemetry.Prelude.{
  ℕ, zero, suc, ◌≡◌, refl, none, some, [], ◌∷◌, ◌++◌, append-nil, append_assoc, arith, Option-cases,
  inl, inr, if_both,
}
use go_opentelemetry.Channel.{Chan, send_cases, is_sent, is_full, is_panicked}
use go_opentelemetry.Timer
use go_opentelemetry.Pipeline
use go_opentelemetry.Pipeline.{Step, idle, accept, empty}
use go_opentelemetry.Logs.{Item, BatchProcessor}
use go_opentelemetry.Logs.Queue.{begin_enqueue, enqueue_send, send_at}
use go_opentelemetry.Logs.Worker.{shutdown, shutdown_exporter, is_finished}
use go_opentelemetry.Logs.System.{
  Event, work, begin, send, stop, close_exporter, tick, step, Reach, start, next, Moves,
  Moves-moves,
}
use go_opentelemetry.Logs.View.{logs, logs-append, all_logs, view, Refines, work_at-Refines}

begin_enqueue-Refines : (p : BatchProcessor) → Refines p (begin_enqueue p)
unfolding begin_enqueue
begin_enqueue-Refines p = if_both (Refines p) p.stopped (idle refl) (idle refl)

-- A log that enters the queue is taken in; a nil is not seen.
sent-Refines :
    (rl : Item) (n : ℕ) (c : Chan Item) (p : BatchProcessor)
    → c.items ≡ p.queue.items ++ rl ∷ []
    → Refines p (record p { queue = c; accepted = p.accepted ++ rl ∷ []; in_flight = n })
sent-Refines none n c p e = idle (
    ground (
      arith,
      logs-append p.accepted (none ∷ []),
      logs-append p.queue.items (none ∷ []),
      append-nil (logs p.accepted),
      append-nil (logs p.queue.items),
    ))
sent-Refines (some l) n c p e = accept l (
    ground (
      arith,
      logs-append p.accepted (some l ∷ []),
      logs-append p.queue.items (some l ∷ []),
      append_assoc (logs p.batch) (logs p.queue.items) (l ∷ []),
    ))

send_at-Refines : (n : ℕ) (rl : Item) (p : BatchProcessor) → Moves (Refines p) (send_at n rl p)
send_at-Refines zero rl p = tt
send_at-Refines (suc n) rl p = elim (send_cases rl p.queue) [
  | is_sent c r e _ _ _ _ ↦ rw r (sent-Refines rl n c p e)
  | is_full r _ _ ↦ rw r (idle refl)
  | is_panicked r _ ↦ rw r tt
]

shutdown-Refines : (p : BatchProcessor) → Refines p (shutdown p)
unfolding shutdown
shutdown-Refines p = if_both (Refines p) p.stop_once (idle refl) (idle refl)

step-Moves-Refines : (e : Event) (p : BatchProcessor) → Moves (Refines p) (step e p)
unfolding step enqueue_send shutdown_exporter
step-Moves-Refines (work c fails) p = work_at-Refines p.phase c fails p
step-Moves-Refines begin p = begin_enqueue-Refines p
step-Moves-Refines (send rl) p = send_at-Refines p.in_flight rl p
step-Moves-Refines stop p = shutdown-Refines p
step-Moves-Refines close_exporter p =
    if_both (Moves (Refines p)) (is_finished p.phase) (idle refl) tt
step-Moves-Refines tick p = elim (Option-cases (Timer.fire p.timer)) [
  | inl h ↦ rw h tt
  | inr (t, h) ↦ rw h (idle refl)
]

Reach-Pipeline : {p : BatchProcessor} → Reach p → Pipeline.Reach empty (view p)
Reach-Pipeline start = Pipeline.here
Reach-Pipeline (next e {p} r ok h) =
    Pipeline.next (Reach-Pipeline r) (Moves-moves (Refines p) (step e p) (step-Moves-Refines e p) h)

-- In every state that can come of a new log processor, whatever the interleaving of callers, timer
-- ticks, failed exports and shutdown: the logs sent to the queue are, in order and each once, those of
-- the batches handed to the exporter, then the batch, then the queue.
pub logs_conserved :
    {p : BatchProcessor}
    → Reach p
    → logs p.accepted ≡ all_logs p.exports ++ (logs p.batch ++ logs p.queue.items)
logs_conserved r = Pipeline.Reach-IsConserved (Reach-Pipeline r) refl
