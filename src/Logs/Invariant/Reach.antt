-- ===== src/Logs/Invariant/Reach.antt =====
-- sdk/log/batch_processor.go: every state that can come of a new processor has the invariant.
use go_opentelemetry.Prelude.{
  ℕ, zero, suc, ◌≡◌, refl, Bool, true, none, some, [], ◌∷◌, ◌++◌, arith, length, length-append,
  Bool-cases, Option-cases, inl, inr, if_both, ◌==◌, if◌then◌else◌, ◌≤◌,
}
use go_opentelemetry.Channel.{
  Chan, close, recv_cases, send_cases, is_sent, is_full, is_panicked, is_got, is_drained,
  is_waiting,
}
use go_opentelemetry.Timer
use go_opentelemetry.Logs.{
  Item, BatchProcessor, moves, blocked, new_batch_processor, Phase, processing, exporting, draining,
  closing, finished, default_max_export_batch_size,
}
use go_opentelemetry.Logs.Queue.{begin_enqueue, enqueue_send, send_at}
use go_opentelemetry.Logs.Worker.{
  export, process_export, stop_timer, drain_item, drain_queue, close_queue, shutdown,
  shutdown_exporter, Case, is_finished,
}
use go_opentelemetry.Logs.System.{
  Event, work, begin, send, stop, close_exporter, tick, step, work_at, IsProper, Reach, start, next,
  Moves, Moves-moves,
}
use go_opentelemetry.Logs.Invariant.{
  Inv, AllBatches-append, has_nil-append, export-Exported, process_queue-Inv,
}

process_export-Inv :
    (fails : Bool) (p : BatchProcessor)
    → Inv p
    → p.phase ≡ exporting
    → Moves Inv (process_export fails p)
unfolding process_export
process_export-Inv fails p v ph = elim (Option-cases (stop_timer p.timer)) [
  | inl h ↦ rw h tt
  | inr (t, h) ↦ rw h (
      ground (
        arith,
        export-Exported fails (record p { timer = t }),
        AllBatches-append p.exports p.batch,
      ))
]

drain_log-Inv :
    (fails : Bool) (q : BatchProcessor)
    → Inv (record q { batch = [] })
    → q.phase ≡ draining
    → length q.batch ≤ default_max_export_batch_size
    → Inv (if length q.batch == default_max_export_batch_size then export fails q else q)
drain_log-Inv fails q v ph l =
    ground (arith, export-Exported fails q, AllBatches-append q.exports q.batch)

drain_item-Inv :
    (fails : Bool) (sd : Item) (c : Chan Item) (p : BatchProcessor)
    → Inv p
    → p.phase ≡ draining
    → p.queue.items ≡ sd ∷ c.items
    → c.closed ≡ p.queue.closed
    → Inv (drain_item fails sd (record p { queue = c }))
unfolding drain_item
drain_item-Inv fails none c p v ph e m = absurd (ground arith)
drain_item-Inv fails (some l) c p v ph e m =
    drain_log-Inv fails (record p { queue = c; batch = p.batch ++ some l ∷ [] }) (ground arith) ph
      (ground (arith, length-append p.batch (some l ∷ [])))

drain_end-Inv :
    (fails : Bool) (p : BatchProcessor)
    → Inv p
    → p.phase ≡ draining
    → p.queue.items ≡ []
    → p.queue.closed ≡ true
    → Inv (drain_item fails none p)
unfolding drain_item
drain_end-Inv fails p v ph e m =
    ground (arith, export-Exported fails p, AllBatches-append p.exports p.batch)

drain_queue-Inv :
    (fails : Bool) (p : BatchProcessor) → Inv p → p.phase ≡ draining → Inv (drain_queue fails p)
unfolding drain_queue
drain_queue-Inv fails p v ph = elim (recv_cases p.queue) [
  | is_got sd c r e _ m ↦ rw r (drain_item-Inv fails sd c p v ph e m)
  | is_drained r e m ↦ rw r (drain_end-Inv fails p v ph e m)
  | is_waiting r e m ↦ rw r (ground arith)
]

close_queue-Inv : (p : BatchProcessor) → Inv p → p.phase ≡ closing → Moves Inv (close_queue p)
unfolding close_queue close
close_queue-Inv p v ph = elim (Bool-cases p.queue.closed) [
  | inl h ↦ rw h tt
  | inr h ↦ rw h (ground arith)
]

pub work_at-Inv :
    (ph : Phase) (c : Case) (fails : Bool) (p : BatchProcessor)
    → Inv p
    → p.phase ≡ ph
    → Moves Inv (work_at ph c fails p)
unfolding work_at
work_at-Inv processing c fails p v e = process_queue-Inv c fails p v e
work_at-Inv exporting c fails p v e = process_export-Inv fails p v e
work_at-Inv draining c fails p v e = drain_queue-Inv fails p v e
work_at-Inv closing c fails p v e = close_queue-Inv p v e
work_at-Inv finished c fails p v e = tt

begin_enqueue-Inv : (p : BatchProcessor) → Inv p → Inv (begin_enqueue p)
unfolding begin_enqueue
begin_enqueue-Inv p v = elim (Bool-cases p.stopped) [
  | inl h ↦ simp h (ground arith)
  | inr h ↦ simp h (ground arith)
]

send_at-Inv :
    (n : ℕ) (rl : Item) (p : BatchProcessor)
    → IsProper (send rl)
    → Inv p
    → p.in_flight ≡ n
    → Moves Inv (send_at n rl p)
send_at-Inv zero rl p i v e = tt
send_at-Inv (suc n) none p i v e = elim i [ ]
send_at-Inv (suc n) (some l) p i v e = elim (send_cases (some l) p.queue) [
  | is_sent c r q _ k m _ ↦ rw r (
      ground
        (arith, length-append p.accepted (some l ∷ []), has_nil-append p.queue.items (some l ∷ [])))
  | is_full r _ _ ↦ rw r (ground arith)
  | is_panicked r _ ↦ rw r tt
]

shutdown-Inv : (p : BatchProcessor) → Inv p → Inv (shutdown p)
unfolding shutdown
shutdown-Inv p v = if_both Inv p.stop_once v (ground arith)

exporter-Inv :
    (ph : Phase) (p : BatchProcessor)
    → Inv p
    → p.phase ≡ ph
    → Moves Inv (if is_finished ph then moves (record p { shut_down = true }) else blocked)
exporter-Inv finished p v e = ground arith
exporter-Inv processing p v e = tt
exporter-Inv exporting p v e = tt
exporter-Inv draining p v e = tt
exporter-Inv closing p v e = tt

pub step-Moves-Inv : (e : Event) (p : BatchProcessor) → IsProper e → Inv p → Moves Inv (step e p)
unfolding step enqueue_send shutdown_exporter
step-Moves-Inv (work c fails) p i v = work_at-Inv p.phase c fails p v refl
step-Moves-Inv begin p i v = begin_enqueue-Inv p v
step-Moves-Inv (send rl) p i v = send_at-Inv p.in_flight rl p i v refl
step-Moves-Inv stop p i v = shutdown-Inv p v
step-Moves-Inv close_exporter p i v = exporter-Inv p.phase p v refl
step-Moves-Inv tick p i v = elim (Option-cases (Timer.fire p.timer)) [
  | inl h ↦ rw h tt
  | inr (t, h) ↦ rw h (ground arith)
]

new-Inv : Inv new_batch_processor
new-Inv = ground arith

pub Reach-Inv : {p : BatchProcessor} → Reach p → Inv p
Reach-Inv start = new-Inv
Reach-Inv (next e {p} r i h) = Moves-moves Inv (step e p) (step-Moves-Inv e p i (Reach-Inv r)) h
