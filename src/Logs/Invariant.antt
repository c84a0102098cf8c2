-- ===== src/Logs/Invariant.antt =====
-- sdk/log/batch_processor.go: what holds between two steps, whatever the interleaving.
pub mod Reach
use go_opentelemetry.Prelude.{
  ℕ, zero, suc, ◌+◌, ◌≤◌, ◌<◌, ◌≡◌, refl, Bool, true, false, ◌||◌, Option, none, some, List, [],
  ◌∷◌, ◌++◌, arith, length, length-append, eq_nil_of_length, ◌⊎◌, ◌%◌, ◌^◌, Bool-cases,
  Option-cases, inl, inr, if_both, if◌then◌else◌, ◌==◌,
}
use go_opentelemetry.Channel.{
  Chan, close, recv, recv_cases, send_cases, is_sent, is_full, is_panicked, is_got, is_drained,
  is_waiting,
}
use go_opentelemetry.Timer
use go_opentelemetry.Logs.{
  Item, BatchProcessor, new_batch_processor, Outcome, moves, Phase, processing, exporting, draining,
  closing, finished, calc_log_size, default_max_export_batch_size, default_max_batched_packet_size,
}
use go_opentelemetry.Logs.Queue.{begin_enqueue, enqueue_send, send_at}
use go_opentelemetry.Logs.Worker.{
  export, batch_item, process_received, process_queue, process_export, export_after, stop_timer,
  drain_item, drain_received, drain_queue, close_queue, closed_to, shutdown, shutdown_exporter,
  Case, stop_case, timer_case, queue_case, on_tick, is_finished, should_process_in_batch,
}
use go_opentelemetry.Logs.System.{
  Event, work, begin, send, stop, close_exporter, tick, step, work_at, ticked, Moves,
}

abbrev pub has_nil : List Item → Bool
has_nil [] = false
has_nil (none ∷ xs) = true
has_nil (some l ∷ xs) = has_nil xs

-- The size that `batchedSize` counts.
abbrev pub total_size : List Item → ℕ
total_size [] = 0
total_size (x ∷ xs) = calc_log_size x + total_size xs

-- At a `select` there is room for one more item in the batch.
abbrev pub room : Phase → ℕ
room exporting = 0
room _ = 1

abbrev pub is_processing : Phase → Bool
is_processing processing = true
is_processing exporting = true
is_processing _ = false

-- Where the queue cannot have been closed.
abbrev pub is_open : Phase → Bool
is_open processing = true
is_open exporting = true
is_open closing = true
is_open _ = false

-- The batches are neither empty nor over the limit.
abbrev pub AllBatches : List (List Item) → Type 0
AllBatches [] = Unit {0}
AllBatches (b ∷ bs) = (0 < length b) × (length b ≤ default_max_export_batch_size) × AllBatches bs

pub AllBatches-append :
    (bs : List (List Item)) (b : List Item)
    → AllBatches bs
    → 0 < length b
    → length b ≤ default_max_export_batch_size
    → AllBatches (bs ++ b ∷ [])
AllBatches-append [] b h k l = (k, l, tt)
AllBatches-append (c ∷ bs) b (u, v, h) k l = (u, v, AllBatches-append bs b h k l)

pub record Inv (p : BatchProcessor) : Type 0 where
  pub limited : length p.batch + room p.phase ≤ default_max_export_batch_size
  pub counted : is_processing p.phase ≡ true → p.batched_size ≡ total_size p.batch
  pub light : p.phase ≡ processing → p.batched_size < default_max_batched_packet_size
  -- before the drain the timer runs, or its tick waits
  pub ticking : is_processing p.phase ≡ true → (p.timer.active || p.timer.ready) ≡ true
  pub unclosed : is_open p.phase ≡ true → p.queue.closed ≡ false
  pub batches : AllBatches p.exports
  pub no_nil : has_nil p.queue.items ≡ false
  -- behind the drain nothing is left, and nothing more can come
  pub emptied : p.phase ≡ finished → (p.batch ≡ []) × (p.queue.items ≡ []) × (p.queue.closed ≡ true)
  pub stopping : is_processing p.phase ≡ false → p.stopped ≡ true
  pub accounted :
      p.counters.enqueue ≡ length p.accepted + p.counters.dropped + p.refused + p.in_flight
  pub wrapped : p.dropped ≡ p.counters.dropped % 2 ^ 32
  pub shut : p.shut_down ≡ true → p.phase ≡ finished

total_size-append :
    (xs : List Item) (x : Item) → total_size (xs ++ x ∷ []) ≡ total_size xs + calc_log_size x
total_size-append [] x = omega arith
total_size-append (y ∷ xs) x = omega (arith, total_size-append xs x)

has_nil-append : (xs ys : List Item) → has_nil (xs ++ ys) ≡ (has_nil xs || has_nil ys)
has_nil-append [] ys = refl
has_nil-append (none ∷ xs) ys = refl
has_nil-append (some s ∷ xs) ys = has_nil-append xs ys

-- What `export` leaves alone, and what it does to the batch.
pub record Exported (p q : BatchProcessor) : Type 0 where
  pub phase : q.phase ≡ p.phase
  pub queue : q.queue ≡ p.queue
  pub stopped : q.stopped ≡ p.stopped
  pub shut_down : q.shut_down ≡ p.shut_down
  pub accepted : q.accepted ≡ p.accepted
  pub in_flight : q.in_flight ≡ p.in_flight
  pub refused : q.refused ≡ p.refused
  pub dropped : q.dropped ≡ p.dropped
  pub counted_enqueue : q.counters.enqueue ≡ p.counters.enqueue
  pub counted_dropped : q.counters.dropped ≡ p.counters.dropped
  pub timer : q.timer ≡ Timer.reset p.timer
  pub batch : q.batch ≡ []
  pub size : (q.batched_size ≡ 0) ⊎ ((p.batch ≡ []) × (q.batched_size ≡ p.batched_size))
  pub exports :
      (q.exports ≡ p.exports) ⊎ ((0 < length p.batch) × (q.exports ≡ p.exports ++ p.batch ∷ []))

pub export-Exported : (fails : Bool) (p : BatchProcessor) → Exported p (export fails p)
unfolding export
export-Exported fails p = ground (arith, eq_nil_of_length p.batch)

batch_item-Inv :
    (ld : Item) (c : Chan Item) (p : BatchProcessor)
    → Inv p
    → p.phase ≡ processing
    → p.queue.items ≡ ld ∷ c.items
    → c.closed ≡ p.queue.closed
    → Inv (batch_item ld (record p { queue = c }))
unfolding batch_item should_process_in_batch
batch_item-Inv none c p v ph e m = absurd (ground arith)
batch_item-Inv (some l) c p v ph e m =
    ground (arith, length-append p.batch (some l ∷ []), total_size-append p.batch (some l))

timer_export-Inv :
    (fails : Bool) (t : Timer.Timer) (p : BatchProcessor)
    → Inv p
    → p.phase ≡ processing
    → Inv (export fails (record p { timer = t }))
timer_export-Inv fails t p v ph =
    ground
      (arith, export-Exported fails (record p { timer = t }), AllBatches-append p.exports p.batch)

pub process_queue-Inv :
    (c : Case) (fails : Bool) (p : BatchProcessor)
    → Inv p
    → p.phase ≡ processing
    → Moves Inv (process_queue c fails p)
unfolding process_queue
process_queue-Inv stop_case fails p v ph = elim (Bool-cases p.stopped) [
  | inl h ↦ simp h (ground arith)
  | inr h ↦ simp h tt
]
process_queue-Inv timer_case fails p v ph = elim (Option-cases (Timer.receive p.timer)) [
  | inl h ↦ rw h tt
  | inr (t, h) ↦ rw h (timer_export-Inv fails t p v ph)
]
process_queue-Inv queue_case fails p v ph = elim (recv_cases p.queue) [
  | is_got sd c r e _ m ↦ rw r (batch_item-Inv sd c p v ph e m)
  | is_drained r e m ↦ absurd (ground arith)
  | is_waiting r _ _ ↦ rw r tt
]
