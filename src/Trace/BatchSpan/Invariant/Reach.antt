-- ===== src/Trace/BatchSpan/Invariant/Reach.antt =====
-- The invariant of the span processor in every state that can come of a new one, and what follows.
use go_opentelemetry.Prelude.{
  ℕ, zero, suc, ◌<◌, ◌≡◌, refl, Bool, true, false, ◌&&◌, some, List, [], ◌∷◌, ◌++◌, arith, length,
  length-append, Ok, Ok-some, Bool-cases, inl, inr, if_both,
}
use go_opentelemetry.Channel.{Chan, full, send_cases, is_sent, is_full, is_panicked}
use go_opentelemetry.Trace.BatchSpan.{
  Item, nil, span, force_flush_span, BatchSpanProcessor, BatchSpanProcessorOption,
  new_batch_span_processor, Phase, processing, exporting, draining, drain_exporting, closing,
  finished,
}
use go_opentelemetry.Trace.BatchSpan.Export.{export_spans}
use go_opentelemetry.Trace.BatchSpan.Queue.{begin_enqueue, send_item, send_outcome}
use go_opentelemetry.Trace.BatchSpan.Worker.{Case, shutdown, shutdown_exporter, flush_export}
use go_opentelemetry.Trace.BatchSpan.System.{
  Event, work, begin, flush, stop, close_exporter, tick, IsProper, step, work_at, begin_call,
  send_call, send_call_at, landed, tick_timer, Reach, start, next,
}
use go_opentelemetry.Trace.BatchSpan.Invariant.{
  Inv, AllBatches-append, has_nil-append, export_spans-Exported,
}
use go_opentelemetry.Trace.BatchSpan.Invariant.Steps.{
  process_queue-Inv, process_export-Inv, drain_queue-Inv, drain_export-Inv, close_queue-Inv,
}

pub work_at-Inv :
    (ph : Phase) (c : Case) (fails : Bool) (p : BatchSpanProcessor)
    → Inv p
    → p.phase ≡ ph
    → Ok Inv (work_at ph c fails p)
unfolding work_at
work_at-Inv processing c fails p v e = process_queue-Inv c p v e
work_at-Inv exporting c fails p v e = process_export-Inv fails p v e
work_at-Inv draining c fails p v e = drain_queue-Inv fails p v e
work_at-Inv drain_exporting c fails p v e = drain_export-Inv fails p v e
work_at-Inv closing c fails p v e = close_queue-Inv p v e
work_at-Inv finished c fails p v e = tt

begin_call-Inv : (p : BatchSpanProcessor) → Inv p → Ok Inv (begin_call p)
unfolding begin_call begin_enqueue
begin_call-Inv p v = elim (Bool-cases p.has_exporter) [
  | inl h ↦ elim (Bool-cases p.stopped) [
    | inl g ↦ simp (h, g) (ground arith)
    | inr g ↦ simp (h, g) (ground arith)
  ]
  | inr h ↦ simp h tt
]

abbrev ProperItem : Item → Type 0
ProperItem nil = ⊥
ProperItem _ = Unit {0}

sent-Inv :
    (sd : Item) (n : ℕ) (c : Chan Item) (p : BatchSpanProcessor)
    → ProperItem sd
    → Inv p
    → c.items ≡ p.queue.items ++ sd ∷ []
    → c.cap ≡ p.queue.cap
    → c.closed ≡ false
    → p.queue.closed ≡ false
    → length p.queue.items < p.queue.cap
    → p.in_flight ≡ suc n
    → Inv (record p { queue = c; accepted = p.accepted ++ sd ∷ []; in_flight = n })
sent-Inv nil n c p i v e k m o l f = absurd i
sent-Inv (span s) n c p i v e k m o l f = ground (
  arith,
  length-append p.queue.items (span s ∷ []),
  length-append p.accepted (span s ∷ []),
  has_nil-append p.queue.items (span s ∷ []),
)
sent-Inv (force_flush_span s) n c p i v e k m o l f = ground (
  arith,
  length-append p.queue.items (force_flush_span s ∷ []),
  length-append p.accepted (force_flush_span s ∷ []),
  has_nil-append p.queue.items (force_flush_span s ∷ []),
)

full-Inv :
    (done : Bool) (sd : Item) (block : Bool) (n : ℕ) (p : BatchSpanProcessor)
    → Inv p
    → p.in_flight ≡ suc n
    → Ok Inv (landed n (send_outcome full done sd block p))
full-Inv true sd true n p v f = ground arith
full-Inv false sd true n p v f = tt
full-Inv done sd false n p v f = ground arith

send_call_at-Inv :
    (n : ℕ) (done : Bool) (sd : Item) (block : Bool) (p : BatchSpanProcessor)
    → ProperItem sd
    → Inv p
    → p.in_flight ≡ n
    → Ok Inv (send_call_at n done sd block p)
unfolding send_item
send_call_at-Inv zero done sd block p i v f = tt
send_call_at-Inv (suc n) done sd block p i v f = elim (send_cases sd p.queue) [
  | is_sent c r e k m o l ↦ rw r (
      if_both (λ o. Ok Inv (landed n o)) (block && done) (ground arith)
        (sent-Inv sd n c p i v e k m o l f))
  | is_full r _ _ ↦ rw r (full-Inv done sd block n p v f)
  | is_panicked r _ ↦ rw r (ground arith)
]

flush_export-Inv : (fails : Bool) (p : BatchSpanProcessor) → Inv p → Inv (flush_export fails p)
unfolding flush_export
flush_export-Inv fails p v = if_both Inv p.has_exporter exported v
  where
    exported : Inv (export_spans fails p).1
    exported = ground (
      arith,
      export_spans-Exported fails p,
      AllBatches-append p.o.max_export_batch_size p.exports p.batch,
    )

shutdown-Inv : (p : BatchSpanProcessor) → Inv p → Inv (shutdown p)
unfolding shutdown
shutdown-Inv p v = ground arith

shutdown_exporter-Inv : (p : BatchSpanProcessor) → Inv p → Ok Inv (shutdown_exporter p)
unfolding shutdown_exporter
shutdown_exporter-Inv p v = ground arith

tick_timer-Inv : (p : BatchSpanProcessor) → Inv p → Ok Inv (tick_timer p)
unfolding tick_timer
tick_timer-Inv p v = ground arith

step-Ok-Inv : (e : Event) (p : BatchSpanProcessor) → IsProper e → Inv p → Ok Inv (step e p)
unfolding step send_call
step-Ok-Inv (work c fails) p i v = work_at-Inv p.phase c fails p v refl
step-Ok-Inv begin p i v = begin_call-Inv p v
step-Ok-Inv (Event.send done nil block) p i v = absurd i
step-Ok-Inv (Event.send done (span s) block) p i v =
    send_call_at-Inv p.in_flight done (span s) block p i v refl
step-Ok-Inv (Event.send done (force_flush_span n) block) p i v =
    send_call_at-Inv p.in_flight done (force_flush_span n) block p i v refl
step-Ok-Inv (flush fails) p i v = flush_export-Inv fails p v
step-Ok-Inv stop p i v = shutdown-Inv p v
step-Ok-Inv close_exporter p i v = shutdown_exporter-Inv p v
step-Ok-Inv tick p i v = tick_timer-Inv p v

-- Every event with no nil span keeps the invariant, in any state that has it.
step-Inv :
    (e : Event) (p : BatchSpanProcessor) {q : BatchSpanProcessor}
    → IsProper e
    → Inv p
    → step e p ≡ some q
    → Inv q
step-Inv e p i v h = Ok-some Inv (step e p) (step-Ok-Inv e p i v) h

new-Inv : (b : Bool) (opts : List BatchSpanProcessorOption) → Inv (new_batch_span_processor b opts)
new-Inv b opts = ground arith

pub Reach-Inv :
    {b : Bool} {opts : List BatchSpanProcessorOption} {p : BatchSpanProcessor}
    → Reach b opts p
    → Inv p
Reach-Inv {b} {opts} start = new-Inv b opts
Reach-Inv (next e {p} r i h) = step-Inv e p i (Reach-Inv r) h
