-- ===== src/Trace/BatchSpan/View.antt =====
-- The span processor as the pipeline of Pipeline.antt: which spans its state holds, and what exports and
-- batching do to that view.
use go_opentelemetry.Prelude.{
  ◌≡◌, refl, Bool, List, [], ◌∷◌, ◌++◌, append-nil, append_assoc, arith, Bool-cases, ltb, length,
  inl, inr, eq_nil_of_length,
}
use go_opentelemetry.Channel.{Chan}
use go_opentelemetry.Pipeline.{Pipeline, Step, deliver}
use go_opentelemetry.Trace.BatchSpan.{
  Item, nil, span, force_flush_span, ReadOnlySpan, BatchSpanProcessor,
}
use go_opentelemetry.Trace.BatchSpan.Export.{export_spans, should_process_in_batch}
use go_opentelemetry.Trace.BatchSpan.Worker.{batch_item, process_item}

-- The spans among the items, in order.
abbrev pub spans : List Item → List ReadOnlySpan
spans [] = []
spans (nil ∷ xs) = spans xs
spans (span s ∷ xs) = s ∷ spans xs
spans (force_flush_span n ∷ xs) = spans xs

pub spans-append : (xs ys : List Item) → spans (xs ++ ys) ≡ spans xs ++ spans ys
spans-append [] ys = refl
spans-append (nil ∷ xs) ys = spans-append xs ys
spans-append (span s ∷ xs) ys = ground (arith, spans-append xs ys)
spans-append (force_flush_span n ∷ xs) ys = spans-append xs ys

-- The spans of all the batches exported.
abbrev pub all_spans : List (List Item) → List ReadOnlySpan
all_spans [] = []
all_spans (b ∷ bs) = spans b ++ all_spans bs

pub all_spans-append :
    (bs : List (List Item)) (b : List Item) → all_spans (bs ++ b ∷ []) ≡ all_spans bs ++ spans b
all_spans-append [] b = append-nil (spans b)
all_spans-append (c ∷ bs) b =
    ground (arith, all_spans-append bs b, append_assoc (spans c) (all_spans bs) (spans b))

abbrev pub view : BatchSpanProcessor → Pipeline ReadOnlySpan
view p = record {
  accepted = spans p.accepted;
  delivered = all_spans p.exports;
  pending = spans p.batch ++ spans p.queue.items;
}

-- An export delivers the batch and leaves the queue.
pub export_spans-view :
    (fails : Bool) (p : BatchSpanProcessor)
    → view (export_spans fails p).1 ≡ record (view p) {
      delivered = all_spans p.exports ++ spans p.batch;
      pending = spans p.queue.items;
    }
unfolding export_spans
export_spans-view fails p = elim (Bool-cases (ltb 0 (length p.batch))) [
  | inl e ↦ rw e (rw (all_spans-append p.exports p.batch))
  | inr e ↦ rw e (ground (arith, eq_nil_of_length p.batch, append-nil (all_spans p.exports)))
]

abbrev pub Refines : BatchSpanProcessor → BatchSpanProcessor → Type 0
Refines p q = Step (view p) (view q)

-- The view depends on four fields.
pub same_view :
    (p q : BatchSpanProcessor)
    → spans q.accepted ≡ spans p.accepted
    → q.exports ≡ p.exports
    → spans q.batch ++ spans q.queue.items ≡ spans p.batch ++ spans p.queue.items
    → view q ≡ view p
same_view p q a b c = ground arith

pub export_spans-Refines :
    (fails : Bool) (p : BatchSpanProcessor) → Refines p (export_spans fails p).1
export_spans-Refines fails p =
    deliver (spans p.batch) (spans p.queue.items) refl (export_spans-view fails p)

-- What `process_item` does to the view of a processor that has taken `sd` off its queue.
pub batch_item-batch :
    (sd : Item) (p : BatchSpanProcessor)
    → let q = batch_item sd p in
      (q.batch ≡ p.batch ++ sd ∷ [])
      × (q.queue ≡ p.queue)
      × (q.accepted ≡ p.accepted)
      × (q.exports ≡ p.exports)
unfolding batch_item should_process_in_batch
batch_item-batch sd p = ground arith

pub spans_cons :
    (sd : Item) (xs ys : List Item)
    → spans (xs ++ sd ∷ []) ++ spans ys ≡ spans xs ++ spans (sd ∷ ys)
spans_cons nil xs ys = rw (spans-append, append-nil)
spans_cons (span s) xs ys = rw spans-append (append_assoc (spans xs) (s ∷ []) (spans ys))
spans_cons (force_flush_span n) xs ys = rw (spans-append, append-nil)

-- A batched item has moved from the queue to the batch.
pub batch_item-view :
    (sd : Item) (c : Chan Item) (p : BatchSpanProcessor)
    → p.queue.items ≡ sd ∷ c.items
    → view (batch_item sd (record p { queue = c })) ≡ view p
batch_item-view sd c p e =
    ground (arith, batch_item-batch sd (record p { queue = c }), spans_cons sd p.batch c.items)

pub process_item-view :
    (sd : Item) (c : Chan Item) (p : BatchSpanProcessor)
    → p.queue.items ≡ sd ∷ c.items
    → view (process_item sd (record p { queue = c })) ≡ view p
unfolding process_item
process_item-view nil c p e = batch_item-view nil c p e
process_item-view (span s) c p e = batch_item-view (span s) c p e
process_item-view (force_flush_span n) c p e = ground arith

pub batch_nil-view : (p : BatchSpanProcessor) → view (batch_item nil p) ≡ view p
batch_nil-view p =
    ground
      (arith, batch_item-batch nil p, spans-append p.batch (nil ∷ []), append-nil (spans p.batch))
