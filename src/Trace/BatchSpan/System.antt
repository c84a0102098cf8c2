-- ===== src/Trace/BatchSpan/System.antt =====
-- sdk/trace/batch_span_processor.go: the processor with its background goroutine, its producers and
-- its clients, as interleavings of the steps that the queue, the locks and the channels separate.
use go_opentelemetry.Prelude.{
  ℕ, zero, suc, ◌+◌, Bool, Option, none, some, ◌≡◌, refl, List, [], ◌∷◌, if◌then◌else◌,
}
use go_opentelemetry.Timer
use go_opentelemetry.Trace.BatchSpan.{
  Item, nil, BatchSpanProcessor, BatchSpanProcessorOption, new_batch_span_processor, Phase,
  processing, exporting, draining, drain_exporting, closing, finished,
}
use go_opentelemetry.Trace.BatchSpan.Queue.{begin_enqueue, send_item}
use go_opentelemetry.Trace.BatchSpan.Worker.{
  Case, process_queue, process_export, drain_queue, drain_export, close_queue, shutdown,
  shutdown_exporter, flush_export,
}

-- `work` moves the background goroutine, whose exports end as the Boolean says. `begin` and `send`
-- are the halves of an enqueue call; `send` has the choice of `<-ctx.Done()`, the item, and whether
-- the call blocks. `flush` is the export of a `ForceFlush`, `tick` the runtime's timer.
pub data Event : Type 0 where
  work : Case → Bool → Event
  begin : Event
  send : Bool → Item → Bool → Event
  flush : Bool → Event
  stop : Event
  close_exporter : Event
  tick : Event

unfoldable pub work_at : Phase → Case → Bool → BatchSpanProcessor → Option BatchSpanProcessor
work_at processing c fails p = process_queue c p
work_at exporting c fails p = process_export fails p
work_at draining c fails p = some (drain_queue fails p)
work_at drain_exporting c fails p = some (drain_export fails p)
work_at closing c fails p = close_queue p
work_at finished c fails p = none

-- A producer that passed the test of `stopCh` is in flight until its send ends.
unfoldable pub begin_call : BatchSpanProcessor → Option BatchSpanProcessor
begin_call p =
    let (go, q) = begin_enqueue p in
    if p.has_exporter
    then some (if go then record q { in_flight = q.in_flight + 1 } else q)
    else none

abbrev pub landed : ℕ → Option (Bool × BatchSpanProcessor) → Option BatchSpanProcessor
landed n none = none
landed n (some (ok, q)) = some (record q { in_flight = n })

abbrev pub send_call_at : ℕ → Bool → Item → Bool → BatchSpanProcessor → Option BatchSpanProcessor
send_call_at zero done sd block p = none
send_call_at (suc n) done sd block p = landed n (send_item done sd block p)

unfoldable pub send_call : Bool → Item → Bool → BatchSpanProcessor → Option BatchSpanProcessor
send_call done sd block p = send_call_at p.in_flight done sd block p

unfoldable pub tick_timer : BatchSpanProcessor → Option BatchSpanProcessor
tick_timer p = elim (Timer.fire p.timer) [ none ↦ none | some t ↦ some (record p { timer = t }) ]

-- `none` is an event that cannot happen now.
unfoldable pub step : Event → BatchSpanProcessor → Option BatchSpanProcessor
step (work c fails) p = work_at p.phase c fails p
step begin p = begin_call p
step (send done sd block) p = send_call done sd block p
step (flush fails) p = some (flush_export fails p)
step stop p = some (shutdown p)
step close_exporter p = shutdown_exporter p
step tick p = tick_timer p

-- The SDK hands no nil span to `OnEnd`.
abbrev pub IsProper : Event → Type 0
IsProper (send done nil block) = ⊥
IsProper _ = Unit {0}

-- What can come of a new processor.
pub data Reach (has_exporter : Bool) (options : List BatchSpanProcessorOption)
    : BatchSpanProcessor → Type 0 where
  start : Reach has_exporter options (new_batch_span_processor has_exporter options)
  next :
      (e : Event) {p q : BatchSpanProcessor}
      → Reach has_exporter options p
      → IsProper e
      → step e p ≡ some q
      → Reach has_exporter options q

-- Run events in turn, passing over those that cannot happen.
abbrev pub or_same : BatchSpanProcessor → Option BatchSpanProcessor → BatchSpanProcessor
or_same p none = p
or_same p (some q) = q

unfoldable pub run : List Event → BatchSpanProcessor → BatchSpanProcessor
run [] p = p
run (e ∷ es) p = run es (or_same p (step e p))

abbrev pub AllProper : List Event → Type 0
AllProper [] = Unit {0}
AllProper (e ∷ es) = IsProper e × AllProper es

or_same-Reach :
    {b : Bool} {opts : List BatchSpanProcessorOption} {p : BatchSpanProcessor} (e : Event)
    (o : Option BatchSpanProcessor)
    → step e p ≡ o
    → IsProper e
    → Reach b opts p
    → Reach b opts (or_same p o)
or_same-Reach e none h i r = r
or_same-Reach e (some q) h i r = next e r i h

pub run-Reach :
    {b : Bool} {opts : List BatchSpanProcessorOption} (es : List Event) (p : BatchSpanProcessor)
    → AllProper es
    → Reach b opts p
    → Reach b opts (run es p)
unfolding run
run-Reach [] p h r = r
run-Reach (e ∷ es) p h r =
    run-Reach es (or_same p (step e p)) h.1 (or_same-Reach e (step e p) refl h.0 r)
