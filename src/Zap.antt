-- ===== src/Zap.antt =====
-- otelzap/writer.go: the data, the options and the constructor of BatchWriteSyncer. Record and Filter
-- are what Write does with a line, Worker the queue and the batch, System all of it together.
pub mod Record
pub mod Filter
pub mod Agreement
pub mod Worker
pub mod System
pub mod View
pub mod Keep
pub mod Loss
pub mod Invariant
pub mod Refine
pub mod Aliasing
mod Tests
use go_opentelemetry.Prelude.{
  ℕ, suc, ◌+◌, Bool, true, false, Option, none, some, List, [], ◌∷◌, ◌++◌, take, drop,
  if◌then◌else◌, ◌==◌, ltb,
}
use go_opentelemetry.Channel.{Chan, make}
use go_opentelemetry.Timer
use go_opentelemetry.Timer.{Timer}

-- `ScopeLogs`: which one it is, and what `proto.Size` returns for it.
pub record ScopeLogs : Type 0 where
  pub id : ℕ
  pub proto_size : ℕ

-- A pointer in the queue; `none` is nil.
abbrev pub Item : Type 0
Item = Option ScopeLogs

-- `BatchSyncerOptions`. Sizes and durations (in nanoseconds) are not negative.
pub record BatchSyncerOptions : Type 0 where
  pub max_queue_size : ℕ
  pub batch_timeout : ℕ
  pub max_export_batch_size : ℕ
  pub block_on_queue_full : Bool
  pub enable_sampler : Bool
  pub enable_sampler_error : Bool
  pub max_packet_size : ℕ

abbrev pub default_options : BatchSyncerOptions
default_options = record {
  max_queue_size = 2048;
  batch_timeout = 5_000_000_000;
  max_export_batch_size = 512;
  block_on_queue_full = false;
  enable_sampler = false;
  enable_sampler_error = false;
  max_packet_size = 2097152;
}

abbrev pub BatchSyncerOption : Type 0
BatchSyncerOption = BatchSyncerOptions → BatchSyncerOptions

abbrev pub with_max_packet_size : ℕ → BatchSyncerOption
with_max_packet_size size o = record o { max_packet_size = size }

abbrev pub with_max_queue_size : ℕ → BatchSyncerOption
with_max_queue_size size o = record o { max_queue_size = size }

abbrev pub with_max_export_batch_size : ℕ → BatchSyncerOption
with_max_export_batch_size size o = record o { max_export_batch_size = size }

abbrev pub with_batch_timeout : ℕ → BatchSyncerOption
with_batch_timeout delay o = record o { batch_timeout = delay }

abbrev pub with_blocking : BatchSyncerOption
with_blocking o = record o { block_on_queue_full = true }

abbrev pub with_enable_sampler : Bool → BatchSyncerOption
with_enable_sampler b o = record o { enable_sampler = b }

abbrev pub with_enable_sampler_error : Bool → BatchSyncerOption
with_enable_sampler_error b o = record o { enable_sampler_error = b }

abbrev pub apply_options : List BatchSyncerOption → BatchSyncerOption
apply_options [] o = o
apply_options (f ∷ fs) o = apply_options fs (f o)

-- A slice: the address of its array, its length and its capacity. The arrays stand in a heap.
pub record Slice : Type 0 where
  pub address : ℕ
  pub len : ℕ
  pub cap : ℕ

abbrev pub Heap : Type 0
Heap = ℕ → List Item

-- The elements of a slice, as the heap is now.
unfoldable pub read_slice : Heap → Slice → List Item
read_slice h s = take s.len (h s.address)

abbrev pub update : Heap → ℕ → List Item → Heap
update h a xs b = if a == b then xs else h b

-- Where the background goroutine stands: at the `select` of `processQueue`, before the export behind
-- its `shouldProcessInBatch`, at that of `drainQueue`, before its close, at the end, or within the call
-- of `ExportLogs` for so many logs, from which it goes on to another phase.
pub data Phase : Type 0 where
  processing exporting draining closing finished : Phase
  sending : ℕ → Phase → Phase

-- The package's counters of logs and batches. They only grow by whole numbers.
pub record Counters : Type 0 where
  pub failed : ℕ
  pub succeeded : ℕ
  pub by_count : ℕ
  pub by_packet_size : ℕ
  pub by_timer : ℕ
  pub enqueue : ℕ
  pub dropped : ℕ

-- `BatchWriteSyncer`, with the heap of the arrays that `append` writes; `stopped` is a closed `stopCh`,
-- `fresh` the next address of an array, `syncs` the sizes of the exports within calls of `Sync`.
-- The last three fields are a record of what happened: the slices handed to `ExportLogs`, the elements
-- that they had at that time, and the items sent to the queue, all in order.
pub record BatchWriteSyncer : Type 0 where
  pub opt : BatchSyncerOptions
  pub queue : Chan Item
  pub dropped : ℕ
  pub heap : Heap
  pub fresh : ℕ
  pub batch : Slice
  pub timer : Timer
  pub stopped : Bool
  pub batched_size : ℕ
  pub phase : Phase
  pub syncs : List ℕ
  pub counters : Counters
  pub handed : List Slice
  pub seen : List (List Item)
  pub accepted : List Item

abbrev pub no_counts : Counters
no_counts = record {
  failed = 0;
  succeeded = 0;
  by_count = 0;
  by_packet_size = 0;
  by_timer = 0;
  enqueue = 0;
  dropped = 0;
}

-- `NewBatchWriteSyncer`
abbrev pub new_batch_write_syncer : List BatchSyncerOption → BatchWriteSyncer
new_batch_write_syncer opts =
    let opt = apply_options opts default_options in
    record {
      opt = opt;
      queue = make opt.max_queue_size;
      dropped = 0;
      heap = λ a. [];
      fresh = 1;
      batch = record { address = 0; len = 0; cap = opt.max_export_batch_size };
      timer = Timer.new;
      stopped = false;
      batched_size = 0;
      phase = processing;
      syncs = [];
      counters = no_counts;
      handed = [];
      seen = [];
      accepted = [];
    }

-- `calcLogSize`; `proto.Size` of nil is 0.
unfoldable pub calc_log_size : Item → ℕ
calc_log_size none = 0
calc_log_size (some l) = l.proto_size

-- A write at an index of an array.
unfoldable pub write_at : ℕ → Item → List Item → List Item
write_at i x xs = take i xs ++ x ∷ drop (suc i) xs

-- `append(bp.batch, ld)`: in place where there is room, and else in a new array, whose capacity the
-- runtime chooses.
unfoldable pub append_item : (ℕ → ℕ) → Item → BatchWriteSyncer → BatchWriteSyncer
append_item grow x p =
    let s = p.batch in
    if ltb s.len s.cap
    then record p {
      heap = update p.heap s.address (write_at s.len x (p.heap s.address));
      batch = record s { len = suc s.len };
    }
    else record p {
      heap = update p.heap p.fresh (read_slice p.heap s ++ x ∷ []);
      fresh = p.fresh + 1;
      batch = record { address = p.fresh; len = suc s.len; cap = grow (suc s.len) };
    }
