-- ===== src/Zap/Tests.antt =====
-- Runs of the zap writer, and its theorems at them.
use go_opentelemetry.Prelude.{
  ℕ, ◌*◌, ◌≤◌, ◌≡◌, refl, true, false, Option, none, some, List, [], ◌∷◌, ◌++◌, arith, String,
}
use go_opentelemetry.Channel
use go_opentelemetry.Channel.{recv, close}
use go_opentelemetry.Zap.{
  ScopeLogs, BatchWriteSyncer, new_batch_write_syncer, calc_log_size, write_at, append_item,
  read_slice, with_max_packet_size, with_max_queue_size, with_max_export_batch_size,
  with_batch_timeout, with_blocking, with_enable_sampler, with_enable_sampler_error,
  BatchSyncerOption,
}
use go_opentelemetry.Zap.Worker.{
  Outcome, moves, blocked, crashes, queue_case, enqueue, export_begin, export_end,
  should_process_in_batch, batch_item, process_queue, process_export, exported, drain_item,
  drain_queue, close_queue, sync_begin, sync_end,
}
use go_opentelemetry.Zap.System.{
  Event, work, offer, tick, IsProper, step, work_at, Quiet, start_quiet, next_quiet,
}
use go_opentelemetry.Zap.View.{logs, all_logs, unsent}
use go_opentelemetry.Zap.Invariant.{is_running}
use go_opentelemetry.Zap.Invariant.Steps.{never_stops}
use go_opentelemetry.Zap.Refine.{Quiet-Reach, zap_conserved}
use go_opentelemetry.Zap.Aliasing.{Aliased, handed_slice_overwritten}
use go_opentelemetry.Zap.Loss.{Missing, sync_loses_log}
use go_opentelemetry.Zap.Record.{
  LogRecord, bool_value, string_value, Line, Reader, convert_field, convert_from, convert_to_record,
  is_valid_record,
}
use go_opentelemetry.Zap.Filter.{level_greater_than_error, write}
use go_opentelemetry.Zap.Agreement.{write_filters}

abbrev double : ℕ → ℕ
double n = 2 * n

double-le : (n : ℕ) → n ≤ double n
double-le n = omega arith

abbrev or_same : BatchWriteSyncer → Outcome → BatchWriteSyncer
or_same p (moves q) = q
or_same p blocked = p
or_same p crashes = p

-- Run events in turn, passing over those that cannot happen.
unfoldable run : List Event → BatchWriteSyncer → BatchWriteSyncer
run [] p = p
run (e ∷ es) p = run es (or_same p (step double e p))

abbrev AllProper : List Event → Type 0
AllProper [] = Unit {0}
AllProper (e ∷ es) = IsProper e × AllProper es

or_same-Quiet :
    (e : Event) (p : BatchWriteSyncer) (o : Outcome)
    → step double e p ≡ o
    → IsProper e
    → Quiet double p
    → Quiet double (or_same p o)
or_same-Quiet e p (moves q) h i r = next_quiet e r i h
or_same-Quiet e p blocked h i r = r
or_same-Quiet e p crashes h i r = r

run-Quiet :
    (es : List Event) (p : BatchWriteSyncer)
    → AllProper es
    → Quiet double p
    → Quiet double (run es p)
unfolding run
run-Quiet [] p h r = r
run-Quiet (e ∷ es) p h r =
    run-Quiet es (or_same p (step double e p)) h.1 (or_same-Quiet e p (step double e p) refl h.0 r)

abbrev first : ScopeLogs
first = record { id = 1; proto_size = 100 }

abbrev second : ScopeLogs
second = record { id = 2; proto_size = 200 }

abbrev one_by_one : List BatchSyncerOption
one_by_one =
    with_max_export_batch_size 1
    ∷ with_max_queue_size 8
    ∷ with_batch_timeout 1000
    ∷ with_max_packet_size 4096
    ∷ with_blocking
    ∷ with_enable_sampler true
    ∷ with_enable_sampler_error true
    ∷ []

-- All that a run computes with.
all_steps : Unit {0}
unfolding run step work_at enqueue process_queue process_export export_begin export_end exported
    should_process_in_batch batch_item calc_log_size append_item read_slice write_at drain_item
    drain_queue close_queue sync_begin sync_end Channel.send recv close
all_steps = tt

-- The first log is being exported when the second is queued.
abbrev while_sending : List Event
while_sending = offer first 1 ∷ work queue_case false ∷ work queue_case false ∷ offer second 1 ∷ []

-- The first log is in the batch, and the second in the queue.
abbrev while_waiting : List Event
while_waiting = offer first 1 ∷ work queue_case false ∷ offer second 1 ∷ tick ∷ []

reached :
    (opts : List BatchSyncerOption) (es : List Event)
    → AllProper es
    → Quiet double (run es (new_batch_write_syncer opts))
reached opts es h = run-Quiet es (new_batch_write_syncer opts) h (start_quiet opts)

zap_conserved_example :
    let p = run while_sending (new_batch_write_syncer one_by_one) in
    logs p.accepted ≡ all_logs p.seen ++ (logs (unsent p) ++ logs p.queue.items)
zap_conserved_example =
    zap_conserved double double-le (reached one_by_one while_sending (omega arith))

never_stops_example :
    let p = run while_sending (new_batch_write_syncer one_by_one) in
    (p.stopped ≡ false)
    × (is_running p.phase ≡ true)
    × (p.queue.closed ≡ false)
    × ((e : Event) → ¬ (step double e p ≡ crashes))
never_stops_example =
    never_stops double double-le
      (Quiet-Reach double double-le (reached one_by_one while_sending (omega arith)))

handed_slice_overwritten_example :
    Aliased double true (some second) (run while_sending (new_batch_write_syncer one_by_one))
unfolding all_steps
handed_slice_overwritten_example =
    handed_slice_overwritten double double-le 1 (some second) [] true
      (reached one_by_one while_sending (omega arith)) refl refl

sync_loses_log_example : Missing double false second (run while_waiting (new_batch_write_syncer []))
unfolding all_steps
sync_loses_log_example =
    sync_loses_log double double-le second [] false (reached [] while_waiting (omega arith)) refl
      (omega arith) refl

-- A value of a line, as text or as a number.
data Json : Type 0 where
  text : String → Json
  number : ℕ → Json

abbrev string_of : Json → Option String
string_of (text s) = some s
string_of (number n) = none

abbrev number_of : Json → Option ℕ
number_of (text s) = none
number_of (number n) = some n

abbrev any_of : Json → String
any_of (text s) = s
any_of (number n) = "a number"

abbrev reader : Reader Json
reader = record {
  read_string = string_of;
  read_nanos = number_of;
  any_string = any_of;
  decode_hex = λ s. [];
}

abbrev error_line : Line Json
error_line = record {
  fields =
      ("level", text "error")
      ∷ ("ts", number 5)
      ∷ ("msg", text "disk full")
      ∷ ("sampled", text "false")
      ∷ ("caller", text "a.go:1")
      ∷ ("spanID", text "")
      ∷ ("traceID", text "")
      ∷ ("size", number 3)
      ∷ [];
  ends = true;
}

abbrev error_record : LogRecord
error_record = record {
  attributes =
      record { key = "sampled"; value = bool_value false }
      ∷ record { key = "line"; value = string_value "a.go:1" }
      ∷ record { key = "size"; value = string_value "a number" }
      ∷ [];
  severity_text = "error";
  body = some "disk full";
  trace_id = [];
  span_id = [];
  time_unix_nano = 5;
}

abbrev scope_of : LogRecord → ScopeLogs
scope_of l = first

write_filters_example :
    write reader scope_of error_line 90 (new_batch_write_syncer one_by_one) ≡ record {
      n = 90;
      failed = false;
      counted = some "error";
      outcome = enqueue (some first) 1 (new_batch_write_syncer one_by_one);
    }
unfolding convert_to_record convert_from convert_field is_valid_record level_greater_than_error
write_filters_example =
    write_filters reader scope_of error_line 90 (new_batch_write_syncer one_by_one) error_record
      refl (omega arith)
