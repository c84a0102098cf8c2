-- ===== src/Trace/BatchSpan/Refine.antt =====
-- The span processor refines the pipeline of Pipeline.antt.
use go_opentelemetry.Prelude.{
  ℕ, ◌≡◌, refl, Bool, some, List, [], ◌∷◌, ◌++◌, append-nil, append_assoc, arith, Bool-cases, Ok,
  ap, Option-cases, if_both, ◌&&◌, false, true, zero, suc, Ok-some, inl, inr,
}
use go_opentelemetry.Channel.{
  full, Chan, close, recv_cases, send_cases, is_sent, is_full, is_panicked, is_got, is_drained,
  is_waiting,
}
use go_opentelemetry.Pipeline
use go_opentelemetry.Pipeline.{empty, Pipeline, Step, idle, accept, deliver}
use go_opentelemetry.Trace.BatchSpan.{
  Item, nil, span, force_flush_span, BatchSpanProcessor, BatchSpanProcessorOption, Phase,
  processing, exporting, draining, drain_exporting, closing, finished,
}
use go_opentelemetry.Trace.BatchSpan.Worker.{
  ticked, stop_timer, drain_item, Case, stop_case, timer_case, queue_case, process_queue,
  process_export, drain_queue, drain_export, close_queue, is_finished, shutdown, shutdown_exporter,
  flush_export,
}
use go_opentelemetry.Trace.BatchSpan.Queue.{begin_enqueue, send_item, send_outcome}
use go_opentelemetry.Trace.BatchSpan.System.{
  Reach, start, next, work, begin, flush, stop, close_exporter, tick, Event, step, work_at,
  begin_call, send_call, send_call_at, landed, tick_timer,
}
use go_opentelemetry.Trace.BatchSpan.View.{
  spans, spans-append, all_spans, view, export_spans-view, Refines, export_spans-Refines,
  spans_cons, process_item-view, batch_nil-view,
}

process_queue-Refines : (c : Case) (p : BatchSpanProcessor) → Ok (Refines p) (process_queue c p)
unfolding process_queue
process_queue-Refines stop_case p = elim (Bool-cases p.stopped) [
  | inl h ↦ rw h (idle refl)
  | inr h ↦ rw h tt
]
process_queue-Refines (timer_case fails) p = elim (Bool-cases p.timer.ready) [
  | inl h ↦ rw h (export_spans-Refines fails (ticked (record p.timer { ready = false }) p))
  | inr h ↦ rw h tt
]
process_queue-Refines queue_case p = elim (recv_cases p.queue) [
  | is_got sd c r e _ _ ↦ rw (r, Ok, process_queue) (idle (process_item-view sd c p e))
  | is_drained r e _ ↦ rw (r, Ok, process_queue) (idle (batch_nil-view p))
  | is_waiting r _ _ ↦ rw (r, Ok, process_queue) tt
]

process_export-Refines :
    (fails : Bool) (p : BatchSpanProcessor) → Ok (Refines p) (process_export fails p)
unfolding process_export
process_export-Refines fails p = elim (Option-cases (stop_timer p.timer)) [
  | inl h ↦ rw (h, Ok, process_export) tt
  | inr (t, h) ↦ rw (h, Ok, process_export) (export_spans-Refines fails (record p { timer = t }))
]

-- An export of a processor that has just taken `sd` off its queue.
drain_item-Refines :
    (fails : Bool) (sd : Item) (c : Chan Item) (p : BatchSpanProcessor)
    → p.queue.items ≡ sd ∷ c.items
    → Refines p (drain_item fails sd (record p { queue = c }))
unfolding drain_item
drain_item-Refines fails nil c p e =
    deliver (spans p.batch) (spans c.items) (ap (λ l. spans p.batch ++ spans l) e)
      (export_spans-view fails (record p { queue = c }))
drain_item-Refines fails (span s) c p e = idle (ground (arith, spans_cons (span s) p.batch c.items))
drain_item-Refines fails (force_flush_span n) c p e =
    idle (ground (arith, spans_cons (force_flush_span n) p.batch c.items))

drain_queue-Refines : (fails : Bool) (p : BatchSpanProcessor) → Refines p (drain_queue fails p)
unfolding drain_queue drain_item
drain_queue-Refines fails p = elim (recv_cases p.queue) [
  | is_got sd c r e _ _ ↦ rw (r, drain_queue) (drain_item-Refines fails sd c p e)
  | is_drained r e _ ↦ rw (r, drain_queue) (export_spans-Refines fails p)
  | is_waiting r _ _ ↦ rw (r, drain_queue) (idle refl)
]

close_queue-Refines : (p : BatchSpanProcessor) → Ok (Refines p) (close_queue p)
unfolding close_queue close
close_queue-Refines p = elim (Bool-cases p.queue.closed) [
  | inl h ↦ rw h tt
  | inr h ↦ rw h (idle refl)
]

work_at-Refines :
    (ph : Phase) (c : Case) (fails : Bool) (p : BatchSpanProcessor)
    → Ok (Refines p) (work_at ph c fails p)
unfolding work_at drain_export
work_at-Refines processing c fails p = process_queue-Refines c p
work_at-Refines exporting c fails p = process_export-Refines fails p
work_at-Refines draining c fails p = drain_queue-Refines fails p
work_at-Refines drain_exporting c fails p = export_spans-Refines fails p
work_at-Refines closing c fails p = close_queue-Refines p
work_at-Refines finished c fails p = tt

begin_call-Refines : (p : BatchSpanProcessor) → Ok (Refines p) (begin_call p)
unfolding begin_call begin_enqueue
begin_call-Refines p = elim (Bool-cases p.has_exporter) [
  | inl h ↦ elim (Bool-cases p.stopped) [
    | inl g ↦ rw (h, g) (idle refl)
    | inr g ↦ rw (h, g) (idle refl)
  ]
  | inr h ↦ rw h tt
]

-- A span that enters the queue is taken in; a flush request or a nil is not seen.
sent-Refines :
    (sd : Item) (n : ℕ) (c : Chan Item) (p : BatchSpanProcessor)
    → c.items ≡ p.queue.items ++ sd ∷ []
    → Refines p (record p { queue = c; accepted = p.accepted ++ sd ∷ []; in_flight = n })
sent-Refines nil n c p e = idle (
    ground (
      arith,
      spans-append p.accepted (nil ∷ []),
      spans-append p.queue.items (nil ∷ []),
      append-nil (spans p.accepted),
      append-nil (spans p.queue.items),
    ))
sent-Refines (span s) n c p e = accept s (
    ground (
      arith,
      spans-append p.accepted (span s ∷ []),
      spans-append p.queue.items (span s ∷ []),
      append_assoc (spans p.batch) (spans p.queue.items) (s ∷ []),
    ))
sent-Refines (force_flush_span k) n c p e = idle (
    ground (
      arith,
      spans-append p.accepted (force_flush_span k ∷ []),
      spans-append p.queue.items (force_flush_span k ∷ []),
      append-nil (spans p.accepted),
      append-nil (spans p.queue.items),
    ))

full-Refines :
    (done : Bool) (sd : Item) (block : Bool) (n : ℕ) (p : BatchSpanProcessor)
    → Ok (Refines p) (landed n (send_outcome full done sd block p))
full-Refines true sd true n p = idle refl
full-Refines false sd true n p = tt
full-Refines done sd false n p = idle refl

send_call_at-Refines :
    (n : ℕ) (done : Bool) (sd : Item) (block : Bool) (p : BatchSpanProcessor)
    → Ok (Refines p) (send_call_at n done sd block p)
unfolding send_item
send_call_at-Refines zero done sd block p = tt
send_call_at-Refines (suc n) done sd block p = elim (send_cases sd p.queue) [
  | is_sent c r e _ _ _ _ ↦ rw r (
      if_both (λ o. Ok (Refines p) (landed n o)) (block && done) (idle refl)
        (sent-Refines sd n c p e))
  | is_full r _ _ ↦ rw r (full-Refines done sd block n p)
  | is_panicked r _ ↦ rw r (idle refl)
]

flush_export-Refines : (fails : Bool) (p : BatchSpanProcessor) → Refines p (flush_export fails p)
unfolding flush_export
flush_export-Refines fails p =
    if_both (Refines p) p.has_exporter (export_spans-Refines fails p) (idle refl)

shutdown-view : (p : BatchSpanProcessor) → view (shutdown p) ≡ view p
unfolding shutdown
shutdown-view p = ground arith

shutdown_exporter-Refines : (p : BatchSpanProcessor) → Ok (Refines p) (shutdown_exporter p)
unfolding shutdown_exporter
shutdown_exporter-Refines p =
    if_both (Ok (Refines p)) (is_finished p.phase)
      (if_both (Refines p) p.has_exporter (idle refl) (idle refl)) tt

tick_timer-Refines : (p : BatchSpanProcessor) → Ok (Refines p) (tick_timer p)
unfolding tick_timer
tick_timer-Refines p = elim (Bool-cases p.timer.active) [
  | inl h ↦ rw h (idle refl)
  | inr h ↦ rw h tt
]

step-Ok-Refines : (e : Event) (p : BatchSpanProcessor) → Ok (Refines p) (step e p)
unfolding step send_call
step-Ok-Refines (work c fails) p = work_at-Refines p.phase c fails p
step-Ok-Refines begin p = begin_call-Refines p
step-Ok-Refines (Event.send done sd block) p = send_call_at-Refines p.in_flight done sd block p
step-Ok-Refines (flush fails) p = flush_export-Refines fails p
step-Ok-Refines stop p = idle (shutdown-view p)
step-Ok-Refines close_exporter p = shutdown_exporter-Refines p
step-Ok-Refines tick p = tick_timer-Refines p

-- Every step of the processor, whatever its phase, is a step of the pipeline of its spans.
pub step_refines :
    (e : Event) (p : BatchSpanProcessor) {q : BatchSpanProcessor}
    → step e p ≡ some q
    → Step (view p) (view q)
step_refines e p h = Ok-some (Refines p) (step e p) (step-Ok-Refines e p) h

Reach-Pipeline :
    {b : Bool} {opts : List BatchSpanProcessorOption} {p : BatchSpanProcessor}
    → Reach b opts p
    → Pipeline.Reach empty (view p)
Reach-Pipeline start = Pipeline.here
Reach-Pipeline (next e {p} r ok h) = Pipeline.next (Reach-Pipeline r) (step_refines e p h)

-- In every state that can come of a new processor, whatever the interleaving of producers, flushes,
-- timer ticks, failed exports and shutdown: the spans sent to the queue are, in order and each once,
-- those of the batches handed to the exporter, then the batch, then the queue.
pub Reach-conserves :
    {b : Bool} {opts : List BatchSpanProcessorOption} {p : BatchSpanProcessor}
    → Reach b opts p
    → spans p.accepted ≡ all_spans p.exports ++ (spans p.batch ++ spans p.queue.items)
Reach-conserves r = Pipeline.Reach-IsConserved (Reach-Pipeline r) refl
