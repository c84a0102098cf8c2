-- ===== src/Trace/BatchSpan/Export.antt =====
-- sdk/trace/batch_span_processor.go: exportSpans, shouldProcessInBatch.
use go_opentelemetry.Prelude.{
  ℕ, ◌+◌, Bool, true, false, [], ◌∷◌, ◌++◌, length, ltb, leb, ◌==◌, if◌then◌else◌,
}
use go_opentelemetry.Timer
use go_opentelemetry.Trace.BatchSpan.{Counters, BatchSpanProcessor}

abbrev pub reset_timer : BatchSpanProcessor → BatchSpanProcessor
reset_timer p = record p { timer = Timer.reset p.timer }

abbrev pub count_export : Bool → ℕ → Counters → Counters
count_export fails size c =
    if fails
    then record c { failed = c.failed + size }
    else record c { succeeded = c.succeeded + size }

-- `exportSpans`. `fails` is whether the exporter's `ExportSpans` returns an error, which this
-- returns in turn. The deadline of `ExportTimeout` and the UTF-8 report change nothing here.
unfoldable pub export_spans : Bool → BatchSpanProcessor → Bool × BatchSpanProcessor
export_spans fails p =
    if ltb 0 (length p.batch)
    then (
      fails,
      record p {
        timer = Timer.reset p.timer;
        exports = p.exports ++ p.batch ∷ [];
        batch = [];
        batched_size = 0;
        counters = count_export fails (length p.batch) p.counters;
      },
    )
    else (false, reset_timer p)

-- `shouldProcessInBatch`
unfoldable pub should_process_in_batch : BatchSpanProcessor → Bool × BatchSpanProcessor
should_process_in_batch p =
    if length p.batch == p.o.max_export_batch_size
    then (true, record p { counters = record p.counters { by_count = p.counters.by_count + 1 } })
    else (if leb p.o.max_packet_size p.batched_size
        then (
          true,
          record p {
            counters = record p.counters { by_packet_size = p.counters.by_packet_size + 1 };
          },
        )
        else (false, p))
