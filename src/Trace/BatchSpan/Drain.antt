-- ===== src/Trace/BatchSpan/Drain.antt =====
-- sdk/trace/batch_span_processor.go: that drainQueue ends, by a measure of its turns to go.
use go_opentelemetry.Prelude.{
  ℕ, zero, suc, ◌+◌, ◌*◌, ◌≤◌, ◌<◌, ◌≡◌, ◌≢◌, refl, subst, sym, Bool, true, false, Option, some,
  none, List, [], ◌∷◌, arith, length, ◌⊎◌, Ok-some, Bool-cases, inl, inr, ◌∙◌, if◌then◌else◌,
}
use go_opentelemetry.Channel.{Chan, recv_cases, is_got, is_drained, is_waiting, close}
use go_opentelemetry.Trace.BatchSpan.{
  Item, nil, span, force_flush_span, BatchSpanProcessor, Phase, processing, exporting, draining,
  drain_exporting, closing, finished,
}
use go_opentelemetry.Trace.BatchSpan.Worker.{
  Case, stop_case, drain_item, drain_queue, drain_export, close_queue,
}
use go_opentelemetry.Trace.BatchSpan.System.{Event, work, step, work_at, run, or_same, AllProper}
use go_opentelemetry.Trace.BatchSpan.Invariant.{Inv, is_processing, export_spans-Exported}
use go_opentelemetry.Trace.BatchSpan.Invariant.Reach.{work_at-Inv}

-- The goroutine's steps still to come in a drain that no producer disturbs.
abbrev pub stage : Phase → Bool → ℕ
stage draining c = if c then 1 else 3
stage drain_exporting c = if c then 2 else 4
stage closing c = 2
stage _ c = 0

abbrev pub to_go : BatchSpanProcessor → ℕ
to_go p = 2 * length p.queue.items + stage p.phase p.queue.closed

-- A drain step: what it leaves for later, and that it takes nothing in.
pub record Drained (p q : BatchSpanProcessor) : Type 0 where
  pub less : to_go q < to_go p
  pub draining : is_processing q.phase ≡ false
  pub accepted : q.accepted ≡ p.accepted

pub drain_item-Drained :
    (fails : Bool) (sd : Item) (c : Chan Item) (p : BatchSpanProcessor)
    → p.phase ≡ draining
    → p.queue.items ≡ sd ∷ c.items
    → c.closed ≡ p.queue.closed
    → Drained p (drain_item fails sd (record p { queue = c }))
unfolding drain_item
drain_item-Drained fails nil c p ph e m =
    ground (arith, export_spans-Exported fails (record p { queue = c }))
drain_item-Drained fails (span s) c p ph e m = ground arith
drain_item-Drained fails (force_flush_span s) c p ph e m = ground arith

pub drain_queue-Drained :
    (fails : Bool) (p : BatchSpanProcessor) → p.phase ≡ draining → Drained p (drain_queue fails p)
unfolding drain_queue drain_item
drain_queue-Drained fails p ph = elim (recv_cases p.queue) [
  | is_got sd c r e k m ↦ rw (r, drain_queue) (drain_item-Drained fails sd c p ph e m)
  | is_drained r e m ↦ rw (r, drain_queue) (ground (arith, export_spans-Exported fails p))
  | is_waiting r e m ↦ rw (r, drain_queue) (ground arith)
]

pub drain_export-Drained :
    (fails : Bool) (p : BatchSpanProcessor)
    → p.phase ≡ drain_exporting
    → Drained p (drain_export fails p)
unfolding drain_export
drain_export-Drained fails p ph = ground (arith, export_spans-Exported fails p)

-- Some next state, with `P`.
abbrev pub Next : (BatchSpanProcessor → Type 0) → Option BatchSpanProcessor → Type 0
Next P o = (q : BatchSpanProcessor) × (o ≡ some q) × P q

pub close_queue-Drained :
    (p : BatchSpanProcessor) → Inv p → p.phase ≡ closing → Next (Drained p) (close_queue p)
unfolding close_queue close
close_queue-Drained p v ph = elim (Bool-cases p.queue.closed) [
  | inl h ↦ absurd (ground arith)
  | inr h ↦
      (record p { queue = record p.queue { closed = true }; phase = draining }, rw h, ground arith)
]

-- In the drain the goroutine always has a next step, which brings it nearer to its end.
pub drain_progress :
    (ph : Phase) (c : Case) (fails : Bool) (p : BatchSpanProcessor)
    → Inv p
    → p.phase ≡ ph
    → is_processing ph ≡ false
    → ph ≢ finished
    → Next (Drained p) (work_at ph c fails p)
unfolding work_at
drain_progress processing c fails p v e d f = absurd (cc)
drain_progress exporting c fails p v e d f = absurd (cc)
drain_progress draining c fails p v e d f =
    (drain_queue fails p, refl, drain_queue-Drained fails p e)
drain_progress drain_exporting c fails p v e d f =
    (drain_export fails p, refl, drain_export-Drained fails p e)
drain_progress closing c fails p v e d f = close_queue-Drained p v e
drain_progress finished c fails p v e d f = absurd (f refl)

-- `n` turns of the goroutine alone, with the exporter's answers.
abbrev pub works : (ℕ → Bool) → ℕ → List Event
works answers zero = []
works answers (suc n) = work stop_case (answers n) ∷ works answers n

pub finished-IsFinished :
    (p : BatchSpanProcessor) → is_processing p.phase ≡ false → to_go p ≤ 0 → p.phase ≡ finished
finished-IsFinished p d h = ground arith

pub Phase-finished : (ph : Phase) → (ph ≡ finished) ⊎ (ph ≢ finished)
Phase-finished finished = inl refl
Phase-finished processing = inr (λ e. cc)
Phase-finished exporting = inr (λ e. cc)
Phase-finished draining = inr (λ e. cc)
Phase-finished drain_exporting = inr (λ e. cc)
Phase-finished closing = inr (λ e. cc)

pub record Ended (p q : BatchSpanProcessor) : Type 0 where
  pub phase : q.phase ≡ finished
  pub accepted : q.accepted ≡ p.accepted
  pub inv : Inv q

pub step-work :
    (a : Bool) (p : BatchSpanProcessor) → step (work stop_case a) p ≡ work_at p.phase stop_case a p
unfolding step
step-work a p = refl

pub work_at-finished :
    (a : Bool) (p : BatchSpanProcessor) → p.phase ≡ finished → work_at p.phase stop_case a p ≡ none
unfolding work_at
work_at-finished a p e = rw e refl

-- Once finished, the goroutine stays so.
pub works_stay :
    (a : ℕ → Bool) (n : ℕ) (p : BatchSpanProcessor)
    → Inv p
    → p.phase ≡ finished
    → Ended p (run (works a n) p)
unfolding run
works_stay a zero p v e = record { phase = e; accepted = refl; inv = v }
works_stay a (suc n) p v e =
    subst (λ o. Ended p (run (works a n) (or_same p o)))
      (sym (step-work (a n) p ∙ work_at-finished (a n) p e)) (works_stay a n p v e)

-- One turn, and then the rest.
pub works_next :
    (a : ℕ → Bool) (n : ℕ) (p q : BatchSpanProcessor)
    → work_at p.phase stop_case (a n) p ≡ some q
    → q.accepted ≡ p.accepted
    → Ended q (run (works a n) q)
    → Ended p (run (works a (suc n)) p)
unfolding run
works_next a n p q e k r =
    subst (λ o. Ended p (run (works a n) (or_same p o))) (sym (step-work (a n) p ∙ e))
      (record { phase = r.phase; accepted = r.accepted ∙ k; inv = r.inv })

pub works_end :
    (a : ℕ → Bool) (n : ℕ) (p : BatchSpanProcessor)
    → Inv p
    → is_processing p.phase ≡ false
    → to_go p ≤ n
    → Ended p (run (works a n) p)
unfolding run
works_end a zero p v d h = record { phase = finished-IsFinished p d h; accepted = refl; inv = v }
works_end a (suc n) p v d h = elim (Phase-finished p.phase) [
  | inl e ↦ works_stay a (suc n) p v e
  | inr f ↦
      let (q, e, m) = drain_progress p.phase stop_case (a n) p v refl d f in
      works_next a n p q e m.accepted (
        works_end a n q (Ok-some Inv _ (work_at-Inv p.phase stop_case (a n) p v refl) e) m.draining
          (omega (arith, m)))
]

pub works-Proper : (a : ℕ → Bool) (n : ℕ) → AllProper (works a n)
works-Proper a zero = tt
works-Proper a (suc n) = (tt, works-Proper a n)
