-- ===== src/Trace/BatchSpan/Flush.antt =====
-- sdk/trace/batch_span_processor.go: what becomes of a ForceFlush when the processor shuts down, and
-- how the enqueue calls are accounted for.
use go_opentelemetry.Prelude.{
  ℕ, zero, suc, ◌≡◌, refl, Bool, false, Option, some, none, List, [], ◌∷◌, arith, Ok, ◌∙◌,
}
use go_opentelemetry.Channel.{
  Chan, recv_cases, is_got, is_drained, is_waiting, send_cases, is_sent, is_full, is_panicked,
  close,
}
use go_opentelemetry.Trace.BatchSpan.{
  Item, nil, span, force_flush_span, BatchSpanProcessor, Phase, processing, exporting, draining,
  drain_exporting, closing, finished,
}
use go_opentelemetry.Trace.BatchSpan.Queue.{begin_enqueue, send_item}
use go_opentelemetry.Trace.BatchSpan.Worker.{
  Case, drain_item, drain_queue, drain_export, close_queue, shutdown, shutdown_exporter,
  flush_export,
}
use go_opentelemetry.Trace.BatchSpan.System.{
  Event, work, begin, flush, stop, close_exporter, tick, step, work_at, begin_call, send_call,
  send_call_at, tick_timer, run, or_same,
}
use go_opentelemetry.Trace.BatchSpan.Invariant.{is_processing, export_spans-Exported}

-- A step that stays in the drain and answers no flush request.
record Unanswered (p q : BatchSpanProcessor) : Type 0 where
  drain : is_processing q.phase ≡ false
  flushed : q.flushed ≡ p.flushed

drain_item-Unanswered :
    (fails : Bool) (sd : Item) (c : Chan Item) (p : BatchSpanProcessor)
    → is_processing p.phase ≡ false
    → Unanswered p (drain_item fails sd (record p { queue = c }))
unfolding drain_item
drain_item-Unanswered fails nil c p d =
    ground (arith, export_spans-Exported fails (record p { queue = c }))
drain_item-Unanswered fails (span s) c p d = ground arith
drain_item-Unanswered fails (force_flush_span n) c p d = ground arith

drain_queue-Unanswered :
    (fails : Bool) (p : BatchSpanProcessor)
    → is_processing p.phase ≡ false
    → Unanswered p (drain_queue fails p)
unfolding drain_queue
drain_queue-Unanswered fails p d = elim (recv_cases p.queue) [
  | is_got sd c r _ _ _ ↦ rw (r, drain_queue) (drain_item-Unanswered fails sd c p d)
  | is_drained r _ _ ↦ rw (r, drain_queue) (drain_item-Unanswered fails nil p.queue p d)
  | is_waiting r _ _ ↦ rw (r, drain_queue) (ground arith)
]

work_at-Unanswered :
    (ph : Phase) (c : Case) (fails : Bool) (p : BatchSpanProcessor)
    → is_processing ph ≡ false
    → p.phase ≡ ph
    → Ok (Unanswered p) (work_at ph c fails p)
unfolding work_at drain_export close_queue close
work_at-Unanswered processing c fails p d e = absurd (cc)
work_at-Unanswered exporting c fails p d e = absurd (cc)
work_at-Unanswered draining c fails p d e = drain_queue-Unanswered fails p (ground arith)
work_at-Unanswered drain_exporting c fails p d e = ground (arith, export_spans-Exported fails p)
work_at-Unanswered closing c fails p d e = ground arith
work_at-Unanswered finished c fails p d e = tt

send_call_at-Unanswered :
    (n : ℕ) (done : Bool) (sd : Item) (block : Bool) (p : BatchSpanProcessor)
    → is_processing p.phase ≡ false
    → Ok (Unanswered p) (send_call_at n done sd block p)
unfolding send_item
send_call_at-Unanswered zero done sd block p d = tt
send_call_at-Unanswered (suc n) done sd block p d = elim (send_cases sd p.queue) [
  | is_sent c r _ _ _ _ _ ↦ rw r (ground arith)
  | is_full r _ _ ↦ rw r (ground arith)
  | is_panicked r _ ↦ rw r (ground arith)
]

step-Ok-Unanswered :
    (e : Event) (p : BatchSpanProcessor)
    → is_processing p.phase ≡ false
    → Ok (Unanswered p) (step e p)
unfolding step begin_call begin_enqueue send_call flush_export shutdown shutdown_exporter tick_timer
step-Ok-Unanswered (work c fails) p d = work_at-Unanswered p.phase c fails p d refl
step-Ok-Unanswered begin p d = ground arith
step-Ok-Unanswered (Event.send done sd block) p d =
    send_call_at-Unanswered p.in_flight done sd block p d
step-Ok-Unanswered (flush fails) p d = ground (arith, export_spans-Exported fails p)
step-Ok-Unanswered stop p d = ground arith
step-Ok-Unanswered close_exporter p d = ground arith
step-Ok-Unanswered tick p d = ground arith

or_same-Unanswered :
    (p : BatchSpanProcessor) (o : Option BatchSpanProcessor)
    → is_processing p.phase ≡ false
    → Ok (Unanswered p) o
    → Unanswered p (or_same p o)
or_same-Unanswered p none d h = record { drain = d; flushed = refl }
or_same-Unanswered p (some q) d h = h

-- Once the goroutine has left `processQueue`, no events whatever close the channel of a flush
-- request: the channels closed stay those closed before.
pub flush_unanswered :
    (es : List Event) (p : BatchSpanProcessor)
    → is_processing p.phase ≡ false
    → (run es p).flushed ≡ p.flushed
unfolding run
flush_unanswered [] p d = refl
flush_unanswered (e ∷ es) p d =
    let u = or_same-Unanswered p (step e p) d (step-Ok-Unanswered e p d) in
    flush_unanswered es (or_same p (step e p)) u.drain ∙ u.flushed
