-- ===== src/Trace/BatchSpan/Invariant/Steps.antt =====
-- The steps of the background goroutine keep the invariant.
use go_opentelemetry.Prelude.{
  ◌≡◌, Bool, true, [], ◌∷◌, arith, length-append, Ok, Bool-cases, Option-cases, inl, inr,
}
use go_opentelemetry.Channel.{Chan, recv_cases, is_got, is_drained, is_waiting, close}
use go_opentelemetry.Timer
use go_opentelemetry.Timer.{Timer}
use go_opentelemetry.Trace.BatchSpan.{
  Item, nil, span, force_flush_span, BatchSpanProcessor, processing, exporting, draining,
  drain_exporting, closing,
}
use go_opentelemetry.Trace.BatchSpan.Export.{export_spans, should_process_in_batch}
use go_opentelemetry.Trace.BatchSpan.Worker.{
  Case, stop_case, timer_case, queue_case, ticked, stop_timer, batch_item, process_item,
  process_queue, process_export, drain_item, drain_queue, drain_export, close_queue,
}
use go_opentelemetry.Trace.BatchSpan.Invariant.{
  Inv, AllBatches-append, total_size-append, export_spans-Exported,
}

batch_item-Inv :
    (sd : Item) (c : Chan Item) (p : BatchSpanProcessor)
    → Inv p
    → p.phase ≡ processing
    → p.queue.items ≡ sd ∷ c.items
    → c.cap ≡ p.queue.cap
    → c.closed ≡ p.queue.closed
    → Inv (batch_item sd (record p { queue = c }))
unfolding batch_item should_process_in_batch
batch_item-Inv sd c p v ph e k m =
    ground (arith, length-append p.batch (sd ∷ []), total_size-append p.batch sd)

pub process_export-Inv :
    (fails : Bool) (p : BatchSpanProcessor)
    → Inv p
    → p.phase ≡ exporting
    → Ok Inv (process_export fails p)
unfolding process_export
process_export-Inv fails p v ph = elim (Option-cases (stop_timer p.timer)) [
  | inl h ↦ rw (h, Ok, process_export) tt
  | inr (t, h) ↦
      rw (h, Ok, process_export)
        (ground (
          arith,
          export_spans-Exported fails (record p { timer = t }),
          AllBatches-append p.o.max_export_batch_size p.exports p.batch,
        ))
]

process_item-Inv :
    (sd : Item) (c : Chan Item) (p : BatchSpanProcessor)
    → Inv p
    → p.phase ≡ processing
    → p.queue.items ≡ sd ∷ c.items
    → c.cap ≡ p.queue.cap
    → c.closed ≡ p.queue.closed
    → Inv (process_item sd (record p { queue = c }))
unfolding process_item
process_item-Inv nil c p v ph e k m = batch_item-Inv nil c p v ph e k m
process_item-Inv (span s) c p v ph e k m = batch_item-Inv (span s) c p v ph e k m
process_item-Inv (force_flush_span n) c p v ph e k m = ground arith

ticked_export-Inv :
    (fails : Bool) (t : Timer) (p : BatchSpanProcessor)
    → Inv p
    → p.phase ≡ processing
    → Inv (export_spans fails (ticked t p)).1
ticked_export-Inv fails t p v ph = ground (
  arith,
  export_spans-Exported fails (ticked t p),
  AllBatches-append p.o.max_export_batch_size p.exports p.batch,
)

pub process_queue-Inv :
    (c : Case) (p : BatchSpanProcessor) → Inv p → p.phase ≡ processing → Ok Inv (process_queue c p)
unfolding process_queue
process_queue-Inv stop_case p v ph = elim (Bool-cases p.stopped) [
  | inl h ↦ rw (h, process_queue) (ground arith)
  | inr h ↦ rw h tt
]
process_queue-Inv (timer_case fails) p v ph = elim (Option-cases (Timer.receive p.timer)) [
  | inl h ↦ rw (h, Ok, process_queue) tt
  | inr (t, h) ↦ rw (h, Ok, process_queue) (ticked_export-Inv fails t p v ph)
]
process_queue-Inv queue_case p v ph = elim (recv_cases p.queue) [
  | is_got sd c r e k m ↦ rw (r, Ok, process_queue) (process_item-Inv sd c p v ph e k m)
  | is_drained r e m ↦ absurd (ground arith)
  | is_waiting r _ _ ↦ rw (r, Ok, process_queue) tt
]

drain_item-Inv :
    (fails : Bool) (sd : Item) (c : Chan Item) (p : BatchSpanProcessor)
    → Inv p
    → p.phase ≡ draining
    → p.queue.items ≡ sd ∷ c.items
    → c.cap ≡ p.queue.cap
    → c.closed ≡ p.queue.closed
    → Inv (drain_item fails sd (record p { queue = c }))
unfolding drain_item
drain_item-Inv fails nil c p v ph e k m = absurd (ground arith)
drain_item-Inv fails (span s) c p v ph e k m = ground (arith, length-append p.batch (span s ∷ []))
drain_item-Inv fails (force_flush_span n) c p v ph e k m =
    ground (arith, length-append p.batch (force_flush_span n ∷ []))

drain_end-Inv :
    (fails : Bool) (p : BatchSpanProcessor)
    → Inv p
    → p.phase ≡ draining
    → p.queue.items ≡ []
    → p.queue.closed ≡ true
    → Inv (drain_item fails nil p)
unfolding drain_item
drain_end-Inv fails p v ph e m = ground (
  arith,
  export_spans-Exported fails p,
  AllBatches-append p.o.max_export_batch_size p.exports p.batch,
)

pub drain_queue-Inv :
    (fails : Bool) (p : BatchSpanProcessor) → Inv p → p.phase ≡ draining → Inv (drain_queue fails p)
unfolding drain_queue
drain_queue-Inv fails p v ph = elim (recv_cases p.queue) [
  | is_got sd c r e k m ↦ rw (r, drain_queue) (drain_item-Inv fails sd c p v ph e k m)
  | is_drained r e m ↦ rw (r, drain_queue) (drain_end-Inv fails p v ph e m)
  | is_waiting r e m ↦ rw (r, drain_queue) (ground arith)
]

pub drain_export-Inv :
    (fails : Bool) (p : BatchSpanProcessor)
    → Inv p
    → p.phase ≡ drain_exporting
    → Inv (drain_export fails p)
unfolding drain_export
drain_export-Inv fails p v ph = ground (
  arith,
  export_spans-Exported fails p,
  AllBatches-append p.o.max_export_batch_size p.exports p.batch,
)

pub close_queue-Inv : (p : BatchSpanProcessor) → Inv p → p.phase ≡ closing → Ok Inv (close_queue p)
unfolding close_queue close
close_queue-Inv p v ph = elim (Bool-cases p.queue.closed) [
  | inl h ↦ rw h tt
  | inr h ↦ rw h (ground arith)
]
