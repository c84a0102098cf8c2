-- ===== src/Trace/BatchSpan.antt =====
-- sdk/trace/batch_span_processor.go: the data, the options and the constructor.
-- The operations are in Queue, Export and Worker below, the whole system in System.
pub mod Queue
pub mod Export
pub mod Worker
pub mod System
pub mod View
pub mod Refine
pub mod Invariant
pub mod Drain
pub mod Delivery
pub mod Flush
mod Tests
use go_opentelemetry.Prelude.{ℕ, ◌+◌, Bool, true, false, List, [], ◌∷◌, ◌++◌, length, if◌then◌else◌}
use go_opentelemetry.Channel.{Chan, make}
use go_opentelemetry.Timer.{Timer}
use go_opentelemetry.Timer

-- `attribute.KeyValue`: the key, and what `Value.AsString` returns for the value, as bytes.
pub record KeyValue : Type 0 where
  pub key : List ℕ
  pub as_string : List ℕ

pub record SpanEvent : Type 0 where
  pub attributes : List KeyValue

-- `sdktrace.ReadOnlySpan`, as far as the processor reads it. `id` stands for all the rest.
pub record ReadOnlySpan : Type 0 where
  pub id : ℕ
  pub events : List SpanEvent

-- What goes through the queue: a nil interface, a span, or a `forceFlushSpan` with its channel.
pub data Item : Type 0 where
  nil : Item
  span : ReadOnlySpan → Item
  force_flush_span : ℕ → Item

-- `BatchSpanProcessorOptions`. Sizes and durations (in nanoseconds) are not negative.
pub record BatchSpanProcessorOptions : Type 0 where
  pub max_queue_size : ℕ
  pub batch_timeout : ℕ
  pub export_timeout : ℕ
  pub max_export_batch_size : ℕ
  pub max_packet_size : ℕ
  pub block_on_queue_full : Bool

abbrev pub default_max_queue_size : ℕ
default_max_queue_size = 2048

abbrev pub default_batch_timeout : ℕ
default_batch_timeout = 5_000_000_000

abbrev pub default_export_timeout : ℕ
default_export_timeout = 30_000_000_000

abbrev pub default_max_export_batch_size : ℕ
default_max_export_batch_size = 512

abbrev pub default_max_batched_packet_size : ℕ
default_max_batched_packet_size = 2097152

abbrev pub BatchSpanProcessorOption : Type 0
BatchSpanProcessorOption = BatchSpanProcessorOptions → BatchSpanProcessorOptions

abbrev pub with_max_queue_size : ℕ → BatchSpanProcessorOption
with_max_queue_size size o = record o { max_queue_size = size }

abbrev pub with_max_export_batch_size : ℕ → BatchSpanProcessorOption
with_max_export_batch_size size o = record o { max_export_batch_size = size }

abbrev pub with_batch_timeout : ℕ → BatchSpanProcessorOption
with_batch_timeout delay o = record o { batch_timeout = delay }

abbrev pub with_export_timeout : ℕ → BatchSpanProcessorOption
with_export_timeout timeout o = record o { export_timeout = timeout }

abbrev pub with_blocking : BatchSpanProcessorOption
with_blocking o = record o { block_on_queue_full = true }

abbrev pub with_max_packet_size : ℕ → BatchSpanProcessorOption
with_max_packet_size size o = record o { max_packet_size = size }

-- The package's Prometheus counters. They only grow by whole numbers.
pub record Counters : Type 0 where
  pub failed : ℕ
  pub succeeded : ℕ
  pub by_count : ℕ
  pub by_packet_size : ℕ
  pub by_timer : ℕ
  pub enqueue : ℕ
  pub dropped : ℕ

-- Where the background goroutine stands: at the `select` of `processQueue`, behind its
-- `shouldExport`, at the `select` of `drainQueue`, behind that one's `shouldExport`, in its `default`
-- case, or returned.
pub data Phase : Type 0 where
  processing exporting draining drain_exporting closing finished : Phase

-- `batchSpanProcessor`. `has_exporter` is `e != nil`, `stopped` a closed `stopCh`, `stop_once` a
-- `stopOnce` that has run, `flushed` the flush channels closed so far.
-- The last five fields are a record of what happened: the batches given to `ExportSpans` in order,
-- whether `e.Shutdown` was called, the items sent to the queue in order, the producers between the
-- test of `stopCh` and the send, and the enqueue calls that returned false and dropped nothing.
pub record BatchSpanProcessor : Type 0 where
  pub o : BatchSpanProcessorOptions
  pub has_exporter : Bool
  pub queue : Chan Item
  pub dropped : ℕ
  pub batched_size : ℕ
  pub batch : List Item
  pub timer : Timer
  pub stopped : Bool
  pub stop_once : Bool
  pub flushed : List ℕ
  pub phase : Phase
  pub counters : Counters
  pub exports : List (List Item)
  pub shut_down : Bool
  pub accepted : List Item
  pub in_flight : ℕ
  pub refused : ℕ

abbrev pub apply_options : List BatchSpanProcessorOption → BatchSpanProcessorOption
apply_options [] o = o
apply_options (opt ∷ opts) o = apply_options opts (opt o)

abbrev pub default_options : BatchSpanProcessorOptions
default_options = record {
  max_queue_size = default_max_queue_size;
  batch_timeout = default_batch_timeout;
  export_timeout = default_export_timeout;
  max_export_batch_size = default_max_export_batch_size;
  max_packet_size = default_max_batched_packet_size;
  block_on_queue_full = false;
}

abbrev pub no_counts : Counters
no_counts = record {
  failed = 0;
  succeeded = 0;
  by_count = 0;
  by_packet_size = 0;
  by_timer = 0;
  enqueue = 0;
  dropped = 0;
}

-- `NewBatchSpanProcessor`
abbrev pub new_batch_span_processor : Bool → List BatchSpanProcessorOption → BatchSpanProcessor
new_batch_span_processor has_exporter options =
    let o = apply_options options default_options in
    record {
      o = o;
      has_exporter = has_exporter;
      queue = make o.max_queue_size;
      dropped = 0;
      batched_size = 0;
      batch = [];
      timer = Timer.new;
      stopped = false;
      stop_once = false;
      flushed = [];
      phase = processing;
      counters = no_counts;
      exports = [];
      shut_down = false;
      accepted = [];
      in_flight = 0;
      refused = 0;
    }

abbrev pub attributes_size : List KeyValue → ℕ
attributes_size [] = 0
attributes_size (kv ∷ kvs) = length kv.key + length kv.as_string + attributes_size kvs

abbrev pub events_size : List SpanEvent → ℕ
events_size [] = 0
events_size (e ∷ es) = attributes_size e.attributes + events_size es

-- `calcSpanSize`. It is not called on a flush request.
unfoldable pub calc_span_size : Item → ℕ
calc_span_size nil = 0
calc_span_size (span s) = events_size s.events
calc_span_size (force_flush_span n) = 0
