-- ===== src/Logs/View.antt =====
-- The log processor as the pipeline of Pipeline.antt, and that each of its steps is one of the pipeline.
use go_opentelemetry.Prelude.{
  ◌≡◌, refl, Bool, none, some, List, [], ◌∷◌, ◌++◌, append-nil, append_assoc, arith, Bool-cases,
  ltb, length, inl, inr, eq_nil_of_length, if_both, ap, ◌∙◌, sym, Option-cases,
}
use go_opentelemetry.Channel.{Chan, close, recv, recv_cases, is_got, is_drained, is_waiting}
use go_opentelemetry.Timer
use go_opentelemetry.Pipeline.{Pipeline, Step, idle, deliver}
use go_opentelemetry.Logs.{
  Item, ResourceLogs, BatchProcessor, Phase, processing, exporting, draining, closing, finished,
}
use go_opentelemetry.Logs.Worker.{
  export, batch_item, process_received, process_queue, process_export, stop_timer, drain_item,
  drain_queue, close_queue, Case, stop_case, timer_case, queue_case,
}
use go_opentelemetry.Prelude.{◌==◌}
use go_opentelemetry.Logs.{default_max_export_batch_size}
use go_opentelemetry.Logs.System.{work_at, Moves}

-- The logs among the items, in order.
abbrev pub logs : List Item → List ResourceLogs
logs [] = []
logs (none ∷ xs) = logs xs
logs (some l ∷ xs) = l ∷ logs xs

pub logs-append : (xs ys : List Item) → logs (xs ++ ys) ≡ logs xs ++ logs ys
logs-append [] ys = refl
logs-append (none ∷ xs) ys = logs-append xs ys
logs-append (some l ∷ xs) ys = ground (arith, logs-append xs ys)

-- The logs of all the batches exported.
abbrev pub all_logs : List (List Item) → List ResourceLogs
all_logs [] = []
all_logs (b ∷ bs) = logs b ++ all_logs bs

pub all_logs-append :
    (bs : List (List Item)) (b : List Item) → all_logs (bs ++ b ∷ []) ≡ all_logs bs ++ logs b
all_logs-append [] b = append-nil (logs b)
all_logs-append (c ∷ bs) b =
    ground (arith, all_logs-append bs b, append_assoc (logs c) (all_logs bs) (logs b))

abbrev pub view : BatchProcessor → Pipeline ResourceLogs
view p = record {
  accepted = logs p.accepted;
  delivered = all_logs p.exports;
  pending = logs p.batch ++ logs p.queue.items;
}

abbrev pub Refines : BatchProcessor → BatchProcessor → Type 0
Refines p q = Step (view p) (view q)

export-view :
    (fails : Bool) (p : BatchProcessor)
    → view (export fails p) ≡ record (view p) {
      delivered = all_logs p.exports ++ logs p.batch;
      pending = logs p.queue.items;
    }
unfolding export
export-view fails p = elim (Bool-cases (ltb 0 (length p.batch))) [
  | inl e ↦ rw e (rw (all_logs-append p.exports p.batch))
  | inr e ↦ rw e (ground (arith, eq_nil_of_length p.batch, append-nil (all_logs p.exports)))
]

-- An export delivers the batch and leaves the queue.
export-Refines : (fails : Bool) (p : BatchProcessor) → Refines p (export fails p)
export-Refines fails p = deliver (logs p.batch) (logs p.queue.items) refl (export-view fails p)

-- An item that moves from the front of the queue to the back of the batch.
logs_cons :
    (sd : Item) (xs ys : List Item) → logs (xs ++ sd ∷ []) ++ logs ys ≡ logs xs ++ logs (sd ∷ ys)
logs_cons none xs ys = rw (logs-append, append-nil)
logs_cons (some l) xs ys = rw logs-append (append_assoc (logs xs) (l ∷ []) (logs ys))

batch_item-view :
    (sd : Item) (c : Chan Item) (p : BatchProcessor)
    → logs p.queue.items ≡ logs (sd ∷ c.items)
    → view (batch_item sd (record p { queue = c })) ≡ view p
unfolding batch_item
batch_item-view sd c p e = ground (arith, logs_cons sd p.batch c.items)

process_received-Refines :
    (p : BatchProcessor) → Moves (Refines p) (process_received (recv p.queue) p)
process_received-Refines p = elim (recv_cases p.queue) [
  | is_got sd c r e _ _ ↦ rw r (idle (batch_item-view sd c p (ap logs e)))
  | is_drained r e _ ↦ rw r (idle (batch_item-view none p.queue p refl))
  | is_waiting r _ _ ↦ rw r tt
]

process_queue-Refines :
    (c : Case) (fails : Bool) (p : BatchProcessor) → Moves (Refines p) (process_queue c fails p)
unfolding process_queue
process_queue-Refines stop_case fails p = if_both (Moves (Refines p)) p.stopped (idle refl) tt
process_queue-Refines timer_case fails p = elim (Option-cases (Timer.receive p.timer)) [
  | inl h ↦ rw h tt
  | inr (t, h) ↦ rw h (export-Refines fails (record p { timer = t }))
]
process_queue-Refines queue_case fails p = process_received-Refines p

process_export-Refines :
    (fails : Bool) (p : BatchProcessor) → Moves (Refines p) (process_export fails p)
unfolding process_export
process_export-Refines fails p = elim (Option-cases (stop_timer p.timer)) [
  | inl h ↦ rw h tt
  | inr (t, h) ↦ rw h (export-Refines fails (record p { timer = t }))
]

drain_item-Refines :
    (fails : Bool) (sd : Item) (c : Chan Item) (p : BatchProcessor)
    → logs p.queue.items ≡ logs (sd ∷ c.items)
    → Refines p (drain_item fails sd (record p { queue = c }))
unfolding drain_item
drain_item-Refines fails none c p e =
    deliver (logs p.batch) (logs c.items) (ap (λ l. logs p.batch ++ l) e)
      (export-view fails (record p { queue = c }))
drain_item-Refines fails (some l) c p e =
    let q = record p { queue = c; batch = p.batch ++ some l ∷ [] } in
    let moved = ap (λ m. logs p.batch ++ m) e ∙ sym (logs_cons (some l) p.batch c.items) in
    if_both (Refines p) (length q.batch == default_max_export_batch_size)
      (deliver (logs q.batch) (logs c.items) moved (export-view fails q))
      (idle (ground (arith, moved)))

drain_queue-Refines : (fails : Bool) (p : BatchProcessor) → Refines p (drain_queue fails p)
unfolding drain_queue
drain_queue-Refines fails p = elim (recv_cases p.queue) [
  | is_got sd c r e _ _ ↦ rw r (drain_item-Refines fails sd c p (ap logs e))
  | is_drained r e _ ↦ rw r (drain_item-Refines fails none p.queue p refl)
  | is_waiting r _ _ ↦ rw r (idle refl)
]

close_queue-Refines : (p : BatchProcessor) → Moves (Refines p) (close_queue p)
unfolding close_queue close
close_queue-Refines p = elim (Bool-cases p.queue.closed) [
  | inl h ↦ rw h tt
  | inr h ↦ rw h (idle refl)
]

pub work_at-Refines :
    (ph : Phase) (c : Case) (fails : Bool) (p : BatchProcessor)
    → Moves (Refines p) (work_at ph c fails p)
unfolding work_at
work_at-Refines processing c fails p = process_queue-Refines c fails p
work_at-Refines exporting c fails p = process_export-Refines fails p
work_at-Refines draining c fails p = drain_queue-Refines fails p
work_at-Refines closing c fails p = close_queue-Refines p
work_at-Refines finished c fails p = tt
