-- ===== src/Lib.antt =====
-- trpc-opentelemetry (the module trpc.group/trpc-go/trpc-opentelemetry and, under oteltrpc/, its
-- plugin for tRPC-Go): an SDK that samples, batches and exports the traces, metrics and logs of
-- tRPC services.
--
-- The parts and how they interact.
-- A span that starts goes through the dyeing sampler (sdk/trace/dyeing_sampler.go), which
-- compares a trace id with the bound of a configured fraction (sdk/trace/fraction.go) or looks
-- its attributes up among those that the sampler service has sent. A context crosses calls in the
-- carriers of oteltrpc/traces/supplier.go. A span that ends goes through the deferred sample
-- processor (sdk/trace/deferred_sample_processor.go) to the batch span processor
-- (sdk/trace/batch_span_processor.go), whose background goroutine hands batches to an exporter. A
-- log line goes through the zap writer (otelzap/writer.go), which filters and converts it, or as
-- resource logs from the logger (sdk/log/logger.go) through the log processor
-- (sdk/log/batch_processor.go); each has a queue, a batch and a background goroutine of its own.
-- Batches of logs reach the collector through the asynchronous exporter
-- (exporter/asyncexporter/exporter.go), whose requests exporter/retry/retry.go may repeat. The
-- metric filters of calls and streams (oteltrpc/metrics/prometheus) run inside the trace filter
-- (oteltrpc/traces/filter.go) and report to sdk/metric's reporters, which label each call with
-- the code that config/codes makes of its return code and with a method name that
-- sdk/metric/utility.go has cleaned; sdk/metric/limit_cardinality.go bounds the number of series
-- exported; sdk/metric/internal/registry registers the instance in etcd. sdk/remote hands the
-- configuration of a remote service to the parts that have registered a function, config/codes
-- among them. pkg/cgroups reads the limits of the process's control groups.
--
-- Which file models which part.
-- Prelude passes on the library's names and adds the helpers on lists, Booleans, integers and
-- maps. Channel and Timer model what is used of Go's channels and of time.Timer: operations that
-- do not wait, with an outcome of their own for the ones that would wait or panic. Pipeline is
-- the abstract promise of a batch processor: what is accepted is delivered in order, once, or
-- still pending. Trace/BatchSpan is sdk/trace/batch_span_processor.go. Its state is the record
-- BatchSpanProcessor; Queue has enqueueBlockOnQueueFull, enqueue and OnEnd, Export has
-- exportSpans and shouldProcessInBatch, Worker has processQueue, drainQueue, Shutdown and
-- ForceFlush. System makes one step relation of them, in which a step is what no other goroutine
-- can interrupt: an enqueue call is two steps, the test of stopCh and the send, and the goroutine
-- moves between the phases of its loops. View and Refine map the state to a Pipeline, Invariant
-- holds what every reachable state has, Drain the measure by which drainQueue ends. Logs is
-- sdk/log/batch_processor.go in the same way: Queue has Enqueue, Worker the rest, System the step
-- relation, Delivery the drain, Race an Enqueue beside a Shutdown. Logger is sdk/log/logger.go,
-- and Logger/Admission compares it with the zap writer; Carriers is oteltrpc/traces/supplier.go.
-- Zap is otelzap/writer.go: its state BatchWriteSyncer has the arrays behind its slices in a
-- heap, since what append and batch[:0] do to them is observed by exporters. Record has
-- convertToRecordV2 and isValidRecord, Filter readSampledAndLevel, shouldKeep and Write,
-- Agreement compares the two; Worker has Enqueue, the goroutine and Sync, with each export in two
-- steps, before and behind the exporter's call, since Sync runs beside the goroutine without a
-- lock. Aliasing and Loss are about the shared array and about Sync. Encoder is the encoder of
-- otelzap/zap.go: Fields describes what convertFuncs makes of a list of fields, Convert shows it,
-- Entries the records of entries one after another; the record and the buffer, which an encoder
-- shares with its clones, are the field shared. Trace/Fraction, Trace/Sampler and Trace/Deferred
-- are the files of their names under sdk/trace. AsyncExporter is
-- exporter/asyncexporter/exporter.go: Workers has the goroutines and Shutdown, System the step
-- relation, Invariant what holds between its steps, Account what follows. Retry is
-- exporter/retry/retry.go. Codes is config/codes: Mapping is code_mapping.go. Cardinality is
-- sdk/metric/limit_cardinality.go, Names is sdk/metric/utility.go, Names/Hash is
-- oteltrpc/metrics/prometheus/fnv.go. Sink is oteltrpc/metrics/prometheus/trpc_metric.go, and
-- Sink/Vectors tells which vector a report reaches. Cgroups is pkg/cgroups, version 1: Numbers is
-- strconv.Atoi and Paths path/filepath as the package uses them, Parse has the two line formats,
-- Quota the rest, Lines what the parsers make of a printed line. Registry is
-- sdk/metric/internal/registry/registry_impl.go: System has the goroutine of Register and the
-- calls of cancelFunc as steps, Steady and Invariant what holds between them, Cancel, Progress
-- and Ending what follows for those calls. Remote is sdk/remote/configurator.go, Current which
-- configuration each function was given last, Codes a converter that has registered its function.
-- Rpc has sdk/metric/rpc_client_reporter.go and rpc_server_reporter.go, whose operations become
-- updates of vectors, and Handled their Handled; Labels is the declaration of the vectors,
-- Applied what the Prometheus library makes of the updates, which may be a panic, Filters the
-- metric filter with Calls its theorem, Streams the one of streams with Counts and StreamCounts,
-- Flow and Spans the end of a call in the trace filter, Exemplars the two filters together. Utf8
-- is strings.ToValidUTF8 with an empty replacement. CgroupsV2 is what pkg/cgroups/cgroupsv2 does
-- otherwise than version 1, whose parsers it repeats: Elements has the lemmas on the elements of
-- cleaned paths, Translate the reference that replaces a prefix, Quota the limits.
--
-- Numbers and parameters.
-- An int, a duration or a size is a native natural number where the code only ever has it
-- positive or zero; a limit that is not positive is 0. The durations of the deferred sampler are
-- integers. The uint32 of dropped spans wraps, FNV-1a wraps at 2^64, and Atoi keeps its 64-bit
-- bounds. Floating-point numbers are an interface with the laws used (Float64 in Trace/Fraction),
-- or a type with the operations used. Parameters are the exporters' answers, jsoniter,
-- encoding/hex and proto.Marshal, the capacity that append chooses, the gRPC library's, whether
-- the Prometheus library's metrics take exemplars and which label values its WithLabelValues
-- takes, the backoff library's, the decimal library's, regular expressions, sort.Slice, the file
-- system, the client of etcd, registered carriers and HTTP headers, the handlers of calls and
-- streams, Go's conversions of ints to text, the function that cleans method names, and the
-- remote configuration. A Go map is an association list, so that its iteration order is the
-- list's.
--
-- Bounds and fuel.
-- The loops of the goroutines are steps, so they need no fuel; the drain's theorem gives the
-- number of turns. The loop of the retries runs on fuel: one round more than the attempt at which
-- the backoff stops is enough. All else is structural recursion.
--
-- What is not modelled.
-- The contexts' deadlines, the wording of errors and logs, the UTF-8 report of a failed export,
-- the pool of batch slices, the dial options and the jitter of reconnections, and the rest of
-- Shutdown behind closing stopCh, which waits for the background connection; a queue of
-- MaxQueueSize 0, by which Go hands an item to a waiting receiver, and which here takes nothing.
-- In otelzap/writer.go the deprecated convertToRecord, and the resource of the batches, which
-- never changes; a line is what jsoniter reads of it. In otelzap/zap.go the writer behind the
-- encoder and the JSON cores. Of the RPC metrics the buckets and the registration of the vectors,
-- of the sink the registration of vectors and the table of pinyin, of the trace filter the start
-- of spans, and their attributes and events. The time of a call is compared in nanoseconds, not
-- as a float64. Setup, plugin glue, generated protocol code and examples have no logic of their
-- own.
pub mod Prelude
pub mod Channel
pub mod Timer
pub mod Pipeline
pub mod Utf8
pub mod Trace
pub mod Carriers
pub mod Codes
pub mod Cardinality
pub mod Retry
pub mod Cgroups
pub mod AsyncExporter
pub mod Registry
pub mod Remote
pub mod Rpc
pub mod Names
pub mod Sink
pub mod Logs
pub mod Logger
pub mod Zap
pub mod Encoder
pub mod CgroupsV2
