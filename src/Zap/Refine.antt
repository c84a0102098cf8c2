-- ===== src/Zap/Refine.antt =====
-- otelzap/writer.go: without calls of Sync, the writer refines the pipeline of Pipeline.antt.
use go_opentelemetry.Prelude.{
  ℕ, ◌+◌, ◌≤◌, ◌≡◌, refl, ap, ◌∙◌, Bool, true, none, some, List, [], ◌∷◌, ◌++◌, append-nil,
  append_assoc, arith, Option-cases, inl, inr, if_both, ltb, leb, ◌==◌, if◌then◌else◌,
}
use go_opentelemetry.Channel.{
  Chan, recv_cases, send_cases, is_sent, is_full, is_panicked, is_got, is_drained, is_waiting,
}
use go_opentelemetry.Timer
use go_opentelemetry.Pipeline
use go_opentelemetry.Pipeline.{Pipeline, Step, idle, accept, deliver, empty}
use go_opentelemetry.Zap.{
  ScopeLogs, Item, BatchWriteSyncer, Phase, processing, exporting, sending, draining, closing,
  finished, append_item, read_slice, calc_log_size,
}
use go_opentelemetry.Zap.Worker.{
  Case, stop_case, timer_case, queue_case, enqueue, export_begin, exporting_from,
  should_process_in_batch, batch_item, process_queue, process_export, stop_timer, exported,
  export_end,
}
use go_opentelemetry.Zap.System.{
  Event, work, offer, sync_start, sync_return, tick, step, work_at, Reach, start, next, Quiet,
  start_quiet, next_quiet, IsProper, Moves, Moves-moves,
}
use go_opentelemetry.Zap.View.{
  logs, logs-append, all_logs, all_logs-append, view, unsent, unsent_at, append_item-Same,
  append_item-Appended,
}
use go_opentelemetry.Zap.Invariant.{Inv, is_running}
use go_opentelemetry.Zap.Invariant.Steps.{Reach-Inv}

abbrev Refines : BatchWriteSyncer → BatchWriteSyncer → Type 0
Refines p q = Step (view p) (view q)

-- What is handed over counts as delivered, and the queue is left.
export_begin-Refines :
    (p : BatchWriteSyncer)
    → unsent p ≡ read_slice p.heap p.batch
    → Refines p (exporting_from processing (export_begin p))
unfolding export_begin
export_begin-Refines p e =
    if_both (λ r. Refines p (exporting_from processing r)) (ltb 0 p.batch.len)
      (deliver (logs (read_slice p.heap p.batch)) (logs p.queue.items)
        (ap (λ l. logs l ++ logs p.queue.items) e)
        (rw (all_logs-append p.seen (read_slice p.heap p.batch)) refl))
      (idle (rw e refl))

-- The end of an export empties the batch, all of which was handed over.
exported-Refines :
    (fails : Bool) (size : ℕ) (p : BatchWriteSyncer)
    → unsent p ≡ []
    → Refines p (exported fails size processing p)
unfolding exported export_end read_slice
exported-Refines fails size p e = idle (rw e refl)

-- An item that moves from the front of the queue to the back of the batch.
logs_cons :
    (sd : Item) (xs ys : List Item) → logs (xs ++ sd ∷ []) ++ logs ys ≡ logs xs ++ logs (sd ∷ ys)
logs_cons none xs ys = rw (logs-append, append-nil)
logs_cons (some l) xs ys = rw logs-append (append_assoc (logs xs) (l ∷ []) (logs ys))

-- The view of what `batch_item` makes of the answer of `shouldProcessInBatch`.
abbrev Viewed : BatchWriteSyncer → Bool × BatchWriteSyncer → Type 0
Viewed p (b, q) = view (if b then record q { phase = exporting } else q) ≡ view p

module _ (grow : ℕ → ℕ) (grows : (n : ℕ) → n ≤ grow n) where
  batch_item-view :
      (sd : Item) (c : Chan Item) (p : BatchWriteSyncer)
      → Inv p
      → p.phase ≡ processing
      → p.queue.items ≡ sd ∷ c.items
      → view (batch_item grow sd (record p { queue = c })) ≡ view p
  unfolding batch_item should_process_in_batch
  batch_item-view sd c p i m e =
      let r = record p { queue = c } in
      let q = append_item grow sd r in
      let s = append_item-Same grow sd r in
      let a = append_item-Appended grow sd r grows i.within in
      let moved : logs (read_slice q.heap q.batch) ++ logs q.queue.items
          ≡ logs (unsent p) ++ logs p.queue.items =
        rw (a.reads, s.queue, e, m) (logs_cons sd (read_slice p.heap p.batch) c.items) in
      let met : view (record q { phase = exporting }) ≡ view p =
        rw (s.accepted, s.seen, moved) refl in
      if_both (Viewed p) (q.batch.len == q.opt.max_export_batch_size) met (
        if_both (Viewed p) (leb q.opt.max_packet_size (q.batched_size + calc_log_size sd)) met (
          ap
            (λ l. record {
              accepted = logs q.accepted;
              delivered = all_logs q.seen;
              pending = logs l ++ logs q.queue.items;
            })
            (ap (λ ph. unsent_at ph (read_slice q.heap q.batch)) (s.phase ∙ m))
          ∙ met))

  process_queue-Refines :
      (c : Case) (p : BatchWriteSyncer)
      → Inv p
      → p.phase ≡ processing
      → Moves (Refines p) (process_queue grow c p)
  unfolding process_queue
  process_queue-Refines stop_case p i m = simp i.unstopped tt
  process_queue-Refines timer_case p i m = elim (Option-cases (Timer.receive p.timer)) [
    | inl h ↦ rw h tt
    | inr (t, h) ↦ rw h (
        export_begin-Refines
          (record p {
            timer = t;
            counters = record p.counters { by_timer = p.counters.by_timer + 1 };
          })
          (rw m refl))
  ]
  process_queue-Refines queue_case p i m = elim (recv_cases p.queue) [
    | is_got sd c r e _ _ ↦ rw r (idle (batch_item-view sd c p i m e))
    | is_drained r _ k ↦ absurd (cc)
    | is_waiting r _ _ ↦ rw r tt
  ]

  process_export-Refines :
      (p : BatchWriteSyncer) → p.phase ≡ exporting → Moves (Refines p) (process_export grow p)
  unfolding process_export
  process_export-Refines p m = elim (Option-cases (stop_timer p.timer)) [
    | inl h ↦ rw h tt
    | inr (t, h) ↦ rw h (export_begin-Refines (record p { timer = t }) (rw m refl))
  ]

  work_at-Refines :
      (ph : Phase) (c : Case) (fails : Bool) (p : BatchWriteSyncer)
      → Inv p
      → p.phase ≡ ph
      → is_running ph ≡ true
      → Moves (Refines p) (work_at grow ph c fails p)
  unfolding work_at
  work_at-Refines processing c fails p i m h = process_queue-Refines c p i m
  work_at-Refines exporting c fails p i m h = process_export-Refines p m
  work_at-Refines (sending size processing) c fails p i m h =
      exported-Refines fails size p (rw m refl)
  work_at-Refines (sending size (sending k back)) c fails p i m h = absurd (cc)
  work_at-Refines (sending size exporting) c fails p i m h = absurd (cc)
  work_at-Refines (sending size draining) c fails p i m h = absurd (cc)
  work_at-Refines (sending size closing) c fails p i m h = absurd (cc)
  work_at-Refines (sending size finished) c fails p i m h = absurd (cc)
  work_at-Refines draining c fails p i m h = absurd (cc)
  work_at-Refines closing c fails p i m h = absurd (cc)
  work_at-Refines finished c fails p i m h = absurd (cc)

  -- A log that enters the queue is taken in.
  enqueue-Refines :
      (l : ScopeLogs) (size : ℕ) (p : BatchWriteSyncer)
      → Inv p
      → Moves (Refines p) (enqueue (some l) size p)
  unfolding enqueue
  enqueue-Refines l size p i = simp i.unstopped (elim (send_cases (some l) p.queue) [
    | is_sent c r e _ _ _ _ ↦ rw r (
        accept l (
          ground (
            arith,
            logs-append p.accepted (some l ∷ []),
            logs-append p.queue.items (some l ∷ []),
            append_assoc (logs (unsent p)) (logs p.queue.items) (l ∷ []),
          )))
    | is_full r _ _ ↦ rw r (if_both (Moves (Refines p)) p.opt.block_on_queue_full tt (idle refl))
    | is_panicked r h ↦ absurd (cc)
  ])

  step-Refines :
      (e : Event) (p : BatchWriteSyncer) → Inv p → IsProper e → Moves (Refines p) (step grow e p)
  unfolding step
  step-Refines (work c fails) p i o = work_at-Refines p.phase c fails p i refl i.running
  step-Refines (offer l size) p i o = enqueue-Refines l size p i
  step-Refines sync_start p i o = absurd o
  step-Refines (sync_return n fails) p i o = absurd o
  step-Refines tick p i o = elim (Option-cases (Timer.fire p.timer)) [
    | inl h ↦ rw h tt
    | inr (t, h) ↦ rw h (idle refl)
  ]

  pub Quiet-Reach : {p : BatchWriteSyncer} → Quiet grow p → Reach grow p
  Quiet-Reach (start_quiet opts) = start opts
  Quiet-Reach (next_quiet e q o h) = next e (Quiet-Reach q) h

  Quiet-Pipeline : {p : BatchWriteSyncer} → Quiet grow p → Pipeline.Reach empty (view p)
  unfolding read_slice
  Quiet-Pipeline (start_quiet opts) = Pipeline.here
  Quiet-Pipeline (next_quiet e {p} q o h) = Pipeline.next (Quiet-Pipeline q) (
      Moves-moves (Refines p) (step grow e p)
        (step-Refines e p (Reach-Inv grow grows (Quiet-Reach q)) o) h)

  -- In every state that can come of a new writer without a call of Sync, whatever the options, the
  -- interleaving of callers, timer ticks and failed exports, and the growth of `append`, provided the new
  -- capacity holds the elements: the logs sent to the queue are, in order and each once, those that the
  -- slices handed to the exporter had at that time, then the batch unless it is being exported, then the
  -- queue.
  pub zap_conserved :
      {p : BatchWriteSyncer}
      → Quiet grow p
      → logs p.accepted ≡ all_logs p.seen ++ (logs (unsent p) ++ logs p.queue.items)
  zap_conserved q = Pipeline.Reach-IsConserved (Quiet-Pipeline q) refl
