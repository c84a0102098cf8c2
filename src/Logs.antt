-- ===== src/Logs.antt =====
-- sdk/log/batch_processor.go: the data and the constructor. The operations are in Queue and Worker,
-- the whole system in System.
pub mod Queue
pub mod Worker
pub mod System
pub mod View
pub mod Refine
pub mod Invariant
pub mod Delivery
pub mod Race
mod Tests
use go_opentelemetry.Prelude.{ℕ, ◌+◌, Bool, true, false, Option, none, some, List, []}
use go_opentelemetry.Channel.{Chan, make}
use go_opentelemetry.Timer
use go_opentelemetry.Timer.{Timer}

-- `ResourceLogs`: which one it is, and what `proto.Size` returns for it.
pub record ResourceLogs : Type 0 where
  pub id : ℕ
  pub proto_size : ℕ

-- A pointer in the queue; `none` is nil.
abbrev pub Item : Type 0
Item = Option ResourceLogs

abbrev pub default_max_queue_size : ℕ
default_max_queue_size = 2048

abbrev pub default_batch_timeout : ℕ
default_batch_timeout = 5_000_000_000

abbrev pub default_max_export_batch_size : ℕ
default_max_export_batch_size = 512

abbrev pub default_max_batched_packet_size : ℕ
default_max_batched_packet_size = 2097152

abbrev pub default_block_on_queue_full : Bool
default_block_on_queue_full = false

-- `BatchProcessorOptions`, which no function takes. Sizes and durations are not negative.
record BatchProcessorOptions : Type 0 where
  max_queue_size : ℕ
  batch_timeout : ℕ
  max_export_batch_size : ℕ
  block_on_queue_full : Bool

abbrev BatchProcessorOption : Type 0
BatchProcessorOption = BatchProcessorOptions → BatchProcessorOptions

abbrev with_max_queue_size : ℕ → BatchProcessorOption
with_max_queue_size size o = record o { max_queue_size = size }

abbrev with_max_export_batch_size : ℕ → BatchProcessorOption
with_max_export_batch_size size o = record o { max_export_batch_size = size }

abbrev with_batch_timeout : ℕ → BatchProcessorOption
with_batch_timeout delay o = record o { batch_timeout = delay }

abbrev with_blocking : BatchProcessorOption
with_blocking o = record o { block_on_queue_full = true }

-- Where the background goroutine stands: at the `select` of `processQueue`, before the export behind
-- its `shouldProcessInBatch`, at the `select` of `drainQueue`, in its `default` case, or returned.
pub data Phase : Type 0 where
  processing exporting draining closing finished : Phase

-- The counters of the package's metrics. They only grow by whole numbers.
pub record Counters : Type 0 where
  pub enqueue : ℕ
  pub dropped : ℕ
  pub failed : ℕ
  pub succeeded : ℕ

-- `BatchProcessor`, whose exporter is not nil. `stopped` is a closed `stopCh`, `stop_once` a `stopOnce`
-- that has run. The last five fields are a record of what happened: the batches given to `ExportLogs`
-- in order, whether the exporter's `Shutdown` was called, the items sent to the queue in order, the
-- callers between the test of `stopCh` and the send, and the calls that returned at that test.
pub record BatchProcessor : Type 0 where
  pub queue : Chan Item
  pub dropped : ℕ
  pub batch : List Item
  pub batched_size : ℕ
  pub timer : Timer
  pub stopped : Bool
  pub stop_once : Bool
  pub phase : Phase
  pub counters : Counters
  pub exports : List (List Item)
  pub shut_down : Bool
  pub accepted : List Item
  pub in_flight : ℕ
  pub refused : ℕ

-- `NewBatchProcessor`
abbrev pub new_batch_processor : BatchProcessor
new_batch_processor = record {
  queue = make default_max_queue_size;
  dropped = 0;
  batch = [];
  batched_size = 0;
  timer = Timer.new;
  stopped = false;
  stop_once = false;
  phase = processing;
  counters = record { enqueue = 0; dropped = 0; failed = 0; succeeded = 0 };
  exports = [];
  shut_down = false;
  accepted = [];
  in_flight = 0;
  refused = 0;
}

-- `calcLogSize`
unfoldable pub calc_log_size : Item → ℕ
calc_log_size none = 0
calc_log_size (some l) = l.proto_size

-- How a step goes: to a new state, not now, or by a panic that nothing recovers.
pub data Outcome : Type 0 where
  moves : BatchProcessor → Outcome
  blocked : Outcome
  crashes : Outcome
