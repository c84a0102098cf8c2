-- ===== src/Trace/BatchSpan/Invariant.antt =====
-- What holds of a span processor between two steps, whatever the interleaving.
pub mod Steps
pub mod Reach
use go_opentelemetry.Prelude.{
  ℕ, suc, ◌+◌, ◌≤◌, ◌<◌, ◌≡◌, refl, Bool, true, false, ◌||◌, Option, some, List, [], ◌∷◌, ◌++◌,
  arith, length, length-append, eq_nil_of_length, ◌⊎◌, ◌%◌, ◌^◌,
}
use go_opentelemetry.Timer
use go_opentelemetry.Trace.BatchSpan.{
  Item, nil, span, force_flush_span, BatchSpanProcessor, BatchSpanProcessorOption, Phase,
  processing, exporting, draining, drain_exporting, closing, finished, calc_span_size,
}
use go_opentelemetry.Trace.BatchSpan.Export.{export_spans, should_process_in_batch}
use go_opentelemetry.Trace.BatchSpan.Worker.{is_finished}

abbrev pub has_nil : List Item → Bool
has_nil [] = false
has_nil (nil ∷ xs) = true
has_nil (span s ∷ xs) = has_nil xs
has_nil (force_flush_span n ∷ xs) = has_nil xs

-- The size that `batchedSize` counts.
abbrev pub total_size : List Item → ℕ
total_size [] = 0
total_size (x ∷ xs) = calc_span_size x + total_size xs

-- At a `select` there is room for one more item in the batch; behind `shouldExport` there may be none.
abbrev pub room : Phase → ℕ
room exporting = 0
room drain_exporting = 0
room _ = 1

abbrev pub is_processing : Phase → Bool
is_processing processing = true
is_processing exporting = true
is_processing _ = false

-- Where the queue cannot have been closed.
abbrev pub is_open : Phase → Bool
is_open processing = true
is_open exporting = true
is_open closing = true
is_open _ = false

-- A batch that the exporter may be given.
abbrev pub IsBatch : ℕ → List Item → Type 0
IsBatch limit b = (0 < length b) × (0 < limit → length b ≤ limit)

abbrev pub AllBatches : ℕ → List (List Item) → Type 0
AllBatches limit [] = Unit {0}
AllBatches limit (b ∷ bs) = IsBatch limit b × AllBatches limit bs

pub AllBatches-append :
    (limit : ℕ) (bs : List (List Item)) (b : List Item)
    → AllBatches limit bs
    → IsBatch limit b
    → AllBatches limit (bs ++ b ∷ [])
AllBatches-append limit [] b h k = (k, tt)
AllBatches-append limit (c ∷ bs) b h k = (h.0, AllBatches-append limit bs b h.1 k)

pub record Inv (p : BatchSpanProcessor) : Type 0 where
  -- the batch has not outgrown `MaxExportBatchSize`
  pub limited :
      0 < p.o.max_export_batch_size → length p.batch + room p.phase ≤ p.o.max_export_batch_size
  -- the queue has not outgrown `MaxQueueSize`
  pub capped : length p.queue.items ≤ p.queue.cap
  pub capacity : p.queue.cap ≡ p.o.max_queue_size
  -- before the drain the size counted is that of the batch
  pub counted : is_processing p.phase ≡ true → p.batched_size ≡ total_size p.batch
  -- at the `select` of `processQueue` the batch is lighter than `MaxPacketSize`
  pub light : p.phase ≡ processing → 0 < p.o.max_packet_size → p.batched_size < p.o.max_packet_size
  -- before the drain the timer runs, or its tick waits
  pub ticking : is_processing p.phase ≡ true → (p.timer.active || p.timer.ready) ≡ true
  -- the queue is closed only in the drain
  pub unclosed : is_open p.phase ≡ true → p.queue.closed ≡ false
  -- the batches exported were neither empty nor over `MaxExportBatchSize`
  pub batches : AllBatches p.o.max_export_batch_size p.exports
  pub no_nil : has_nil p.queue.items ≡ false
  -- behind the drain nothing is left, and nothing more can come
  pub emptied : p.phase ≡ finished → (p.batch ≡ []) × (p.queue.items ≡ []) × (p.queue.closed ≡ true)
  -- the drain begins after `close(stopCh)`
  pub stopping : is_processing p.phase ≡ false → p.stopped ≡ true
  -- every enqueue call has sent, dropped, been refused, or is under way
  pub accounted :
      p.counters.enqueue ≡ length p.accepted + p.counters.dropped + p.refused + p.in_flight
  -- `dropped` is a uint32
  pub wrapped : p.dropped ≡ p.counters.dropped % 2 ^ 32
  pub shut : p.shut_down ≡ true → p.phase ≡ finished

pub total_size-append :
    (xs : List Item) (x : Item) → total_size (xs ++ x ∷ []) ≡ total_size xs + calc_span_size x
total_size-append [] x = omega arith
total_size-append (y ∷ xs) x = omega (arith, total_size-append xs x)

pub has_nil-append : (xs ys : List Item) → has_nil (xs ++ ys) ≡ (has_nil xs || has_nil ys)
has_nil-append [] ys = refl
has_nil-append (nil ∷ xs) ys = refl
has_nil-append (span s ∷ xs) ys = has_nil-append xs ys
has_nil-append (force_flush_span n ∷ xs) ys = has_nil-append xs ys

-- What `exportSpans` leaves alone, and what it does to the batch.
pub record Exported (p q : BatchSpanProcessor) : Type 0 where
  pub o : q.o ≡ p.o
  pub phase : q.phase ≡ p.phase
  pub queue : q.queue ≡ p.queue
  pub stopped : q.stopped ≡ p.stopped
  pub shut_down : q.shut_down ≡ p.shut_down
  pub has_exporter : q.has_exporter ≡ p.has_exporter
  pub accepted : q.accepted ≡ p.accepted
  pub flushed : q.flushed ≡ p.flushed
  pub in_flight : q.in_flight ≡ p.in_flight
  pub refused : q.refused ≡ p.refused
  pub dropped : q.dropped ≡ p.dropped
  pub counted_enqueue : q.counters.enqueue ≡ p.counters.enqueue
  pub counted_dropped : q.counters.dropped ≡ p.counters.dropped
  pub timer : q.timer ≡ Timer.reset p.timer
  pub batch : q.batch ≡ []
  pub size : q.batched_size ≡ 0 ⊎ (p.batch ≡ []) × (q.batched_size ≡ p.batched_size)
  pub exports :
      (q.exports ≡ p.exports) ⊎ (0 < length p.batch) × (q.exports ≡ p.exports ++ p.batch ∷ [])

pub export_spans-Exported :
    (fails : Bool) (p : BatchSpanProcessor) → Exported p (export_spans fails p).1
unfolding export_spans
export_spans-Exported fails p = ground (arith, eq_nil_of_length p.batch)
