-- ===== src/Zap/Worker.antt =====
-- otelzap/writer.go: Enqueue, export, shouldProcessInBatch, processQueue, drainQueue and Sync. An
-- export is two steps, before and after the call of `ExportLogs`, since nothing guards the batch.
use go_opentelemetry.Prelude.{
  zero, suc, ◌>>=◌, ℕ, ◌+◌, ◌%◌, ◌^◌, Bool, true, false, Option, none, some, List, [], ◌∷◌, ◌++◌,
  ltb, leb, ◌==◌, if◌then◌else◌,
}
use go_opentelemetry.Channel.{
  Chan, Send, sent, full, panicked, send, Recv, got, drained, waiting, recv, close,
}
use go_opentelemetry.Timer
use go_opentelemetry.Timer.{Timer}
use go_opentelemetry.Zap.{
  Item, BatchWriteSyncer, Counters, Phase, processing, exporting, sending, draining, closing,
  finished, calc_log_size, append_item, read_slice,
}

-- How a step goes: to a new state, not now, or by a panic that nothing recovers.
pub data Outcome : Type 0 where
  moves : BatchWriteSyncer → Outcome
  blocked : Outcome
  crashes : Outcome

abbrev pub count_enqueue : ℕ → BatchWriteSyncer → BatchWriteSyncer
count_enqueue size p = record p {
  counters = record p.counters { enqueue = p.counters.enqueue + size };
}

-- `dropCounter` and `atomic.AddUint32(&bp.dropped, 1)`
abbrev pub drop_item : ℕ → BatchWriteSyncer → BatchWriteSyncer
drop_item size p = record p {
  dropped = (p.dropped + 1) % 2 ^ 32;
  counters = record p.counters { dropped = p.counters.dropped + size };
}

abbrev pub send_outcome : Send Item → Item → ℕ → BatchWriteSyncer → Outcome
send_outcome (sent c) sl size p = moves (record p { queue = c; accepted = p.accepted ++ sl ∷ [] })
send_outcome full sl size p =
    if p.opt.block_on_queue_full then blocked else moves (drop_item size p)
send_outcome panicked sl size p = crashes

-- `Enqueue`. `stopCh` is never closed, so that nothing comes between its test and the send.
unfoldable pub enqueue : Item → ℕ → BatchWriteSyncer → Outcome
enqueue sl size p =
    let q = count_enqueue size p in
    if p.stopped then moves q else send_outcome (send sl q.queue) sl size q

-- `export` up to the call of `ExportLogs`: the size of what is handed over, where there is any.
unfoldable pub export_begin : BatchWriteSyncer → Option ℕ × BatchWriteSyncer
export_begin p =
    let q = record p { timer = Timer.reset p.timer } in
    if ltb 0 p.batch.len
    then (
      some p.batch.len,
      record q {
        handed = p.handed ++ p.batch ∷ [];
        seen = p.seen ++ read_slice p.heap p.batch ∷ [];
      },
    )
    else (none, q)

abbrev pub count_export : Bool → ℕ → Counters → Counters
count_export fails size c =
    if fails
    then record c { failed = c.failed + size }
    else record c { succeeded = c.succeeded + size }

-- `export` behind the call, which has returned an error or nil: `bp.batch = bp.batch[:0]` keeps the array.
unfoldable pub export_end : Bool → ℕ → BatchWriteSyncer → BatchWriteSyncer
export_end fails size p = record p {
  batch = record p.batch { len = 0 };
  batched_size = 0;
  counters = count_export fails size p.counters;
}

-- An export of the background goroutine, which goes on in `back` where there is nothing to export.
abbrev pub exporting_from : Phase → Option ℕ × BatchWriteSyncer → BatchWriteSyncer
exporting_from back (none, p) = record p { phase = back }
exporting_from back (some size, p) = record p { phase = sending size back }

-- `shouldProcessInBatch`
unfoldable pub should_process_in_batch : BatchWriteSyncer → Bool × BatchWriteSyncer
should_process_in_batch p =
    if p.batch.len == p.opt.max_export_batch_size
    then (true, record p { counters = record p.counters { by_count = p.counters.by_count + 1 } })
    else (if leb p.opt.max_packet_size p.batched_size
        then (
          true,
          record p {
            counters = record p.counters { by_packet_size = p.counters.by_packet_size + 1 };
          },
        )
        else (false, p))

-- The case of `processQueue`'s select that is taken.
pub data Case : Type 0 where
  stop_case timer_case queue_case : Case

-- `bp.timer.Stop()`, and `<-bp.timer.C` where that says that the timer was not running.
abbrev pub stop_timer : Timer → Option Timer
stop_timer t = if t.active then some (Timer.stop t).1 else Timer.receive t

module _ (grow : ℕ → ℕ) where
  -- The batch with an item more, and whether to export it.
  abbrev pub batch_with : Item → BatchWriteSyncer → Bool × BatchWriteSyncer
  batch_with ld p =
      let q = append_item grow ld p in
      should_process_in_batch (record q { batched_size = q.batched_size + calc_log_size ld })

  unfoldable pub batch_item : Item → BatchWriteSyncer → BatchWriteSyncer
  batch_item ld p =
      let (should_export, q) = batch_with ld p in
      if should_export then record q { phase = exporting } else q

  abbrev pub process_received : Recv Item → BatchWriteSyncer → Outcome
  process_received (got ld c) p = moves (batch_item ld (record p { queue = c }))
  process_received drained p = moves (batch_item none p)
  process_received waiting p = blocked

  abbrev pub on_tick : Option Timer → BatchWriteSyncer → Outcome
  on_tick none p = blocked
  on_tick (some t) p = moves (
      exporting_from processing (
        export_begin (record p {
          timer = t;
          counters = record p.counters { by_timer = p.counters.by_timer + 1 };
        })))

  -- One round of the loop of `processQueue`.
  unfoldable pub process_queue : Case → BatchWriteSyncer → Outcome
  process_queue stop_case p =
      if p.stopped
      then moves (record p { timer = (Timer.stop p.timer).1; phase = draining })
      else blocked
  process_queue timer_case p = on_tick (Timer.receive p.timer) p
  process_queue queue_case p = process_received (recv p.queue) p

  abbrev pub export_after : Option Timer → BatchWriteSyncer → Outcome
  export_after none p = blocked
  export_after (some t) p =
      moves (exporting_from processing (export_begin (record p { timer = t })))

  -- The export behind `shouldExport` in `processQueue`.
  unfoldable pub process_export : BatchWriteSyncer → Outcome
  process_export p = export_after (stop_timer p.timer) p

-- The call of `ExportLogs` comes back to the background goroutine.
unfoldable pub exported : Bool → ℕ → Phase → BatchWriteSyncer → BatchWriteSyncer
exported fails size back p = record (export_end fails size p) { phase = back }

module _ (grow : ℕ → ℕ) where
  -- The item of a receive in `drainQueue`.
  unfoldable pub drain_item : Item → BatchWriteSyncer → BatchWriteSyncer
  drain_item none p = exporting_from finished (export_begin p)
  drain_item (some l) p =
      let (should_export, q) = batch_with grow (some l) p in
      if should_export then exporting_from draining (export_begin q) else q

  abbrev pub drain_received : Recv Item → BatchWriteSyncer → BatchWriteSyncer
  drain_received (got ld c) p = drain_item ld (record p { queue = c })
  drain_received drained p = drain_item none p
  drain_received waiting p = record p { phase = closing }

  -- One round of the loop of `drainQueue`. Where nothing waits in the open queue, it is closed next.
  unfoldable pub drain_queue : BatchWriteSyncer → BatchWriteSyncer
  drain_queue p = drain_received (recv p.queue) p

abbrev pub closed_to : Option (Chan Item) → BatchWriteSyncer → Outcome
closed_to none p = crashes
closed_to (some c) p = moves (record p { queue = c; phase = draining })

-- The `default` case
unfoldable pub close_queue : BatchWriteSyncer → Outcome
close_queue p = closed_to (close p.queue) p

-- `Sync`, up to the call of `ExportLogs` and behind it.
abbrev pub syncing : Option ℕ × BatchWriteSyncer → BatchWriteSyncer
syncing (none, p) = p
syncing (some size, p) = record p { syncs = size ∷ p.syncs }

unfoldable pub sync_begin : BatchWriteSyncer → BatchWriteSyncer
sync_begin p = syncing (export_begin p)

-- Any of the calls that are under way may return next.
abbrev pub take_sync : ℕ → List ℕ → Option (ℕ × List ℕ)
take_sync n [] = none
take_sync zero (size ∷ sizes) = some (size, sizes)
take_sync (suc n) (size ∷ sizes) = take_sync n sizes >>= λ t. some (t.0, size ∷ t.1)

abbrev pub sync_end_at : Option (ℕ × List ℕ) → Bool → BatchWriteSyncer → Outcome
sync_end_at none fails p = blocked
sync_end_at (some (size, sizes)) fails p =
    moves (record (export_end fails size p) { syncs = sizes })

unfoldable pub sync_end : ℕ → Bool → BatchWriteSyncer → Outcome
sync_end n fails p = sync_end_at (take_sync n p.syncs) fails p
