-- ===== src/Zap/Invariant.antt =====
-- otelzap/writer.go: what holds between two steps, with calls of Sync or without.
pub mod Steps
use go_opentelemetry.Prelude.{
  Option, none, ℕ, ◌+◌, ◌≤◌, ◌≡◌, refl, Bool, true, false, some, List, [], ◌∷◌, arith, Option-cases,
  inl, inr, if_both, ltb, leb, ◌==◌, if◌then◌else◌, ◌∙◌,
}
use go_opentelemetry.Channel.{
  Chan, recv_cases, send_cases, is_sent, is_full, is_panicked, is_got, is_drained, is_waiting,
}
use go_opentelemetry.Timer
use go_opentelemetry.Timer.{Timer}
use go_opentelemetry.Zap.{
  Item, BatchSyncerOption, BatchWriteSyncer, new_batch_write_syncer, Phase, processing, exporting,
  sending, draining, closing, finished, append_item, calc_log_size,
}
use go_opentelemetry.Zap.Worker.{
  Outcome, moves, blocked, crashes, Case, stop_case, timer_case, queue_case, enqueue, export_begin,
  export_end, exporting_from, should_process_in_batch, batch_item, process_queue, process_export,
  stop_timer, exported, sync_begin, sync_end, syncing, sync_end_at,
}
use go_opentelemetry.Zap.System.{
  Event, work, offer, sync_start, sync_return, tick, step, work_at, Reach, start, next, Moves,
  Moves-moves,
}
use go_opentelemetry.Zap.View.{IsWithin, append_item-Same, append_item-Appended}

-- Where the goroutine is in `processQueue`.
abbrev pub is_running : Phase → Bool
is_running processing = true
is_running exporting = true
is_running (sending size processing) = true
is_running _ = false

pub record Inv (p : BatchWriteSyncer) : Type 0 where
  pub within : IsWithin p.heap p.batch
  pub running : is_running p.phase ≡ true
  pub unstopped : p.stopped ≡ false
  pub unclosed : p.queue.closed ≡ false

-- Neither of the parts of an export touches what the invariant speaks of, but the length of the batch.
pub export_begin-Inv :
    (p : BatchWriteSyncer) → Inv p → Inv (exporting_from processing (export_begin p))
unfolding export_begin
export_begin-Inv p i =
    if_both (λ r. Inv (exporting_from processing r)) (ltb 0 p.batch.len)
      (record { within = i.within; running = refl; unstopped = i.unstopped; unclosed = i.unclosed })
      (record { within = i.within; running = refl; unstopped = i.unstopped; unclosed = i.unclosed })

pub sync_begin-Inv : (p : BatchWriteSyncer) → Inv p → Inv (sync_begin p)
unfolding sync_begin export_begin
sync_begin-Inv p i =
    if_both (λ r. Inv (syncing r)) (ltb 0 p.batch.len)
      (record {
        within = i.within;
        running = i.running;
        unstopped = i.unstopped;
        unclosed = i.unclosed;
      })
      (record {
        within = i.within;
        running = i.running;
        unstopped = i.unstopped;
        unclosed = i.unclosed;
      })

pub export_end-Inv :
    (fails : Bool) (size : ℕ) (p : BatchWriteSyncer) → Inv p → Inv (export_end fails size p)
unfolding export_end
export_end-Inv fails size p i = record {
  within = record { filled = omega arith; roomy = omega arith };
  running = i.running;
  unstopped = i.unstopped;
  unclosed = i.unclosed;
}

pub sync_end-Inv :
    (fails : Bool) (o : Option (ℕ × List ℕ)) (p : BatchWriteSyncer)
    → Inv p
    → Moves Inv (sync_end_at o fails p)
sync_end-Inv fails none p i = tt
sync_end-Inv fails (some (size, sizes)) p i =
    let j = export_end-Inv fails size p i in
    record {
      within = j.within;
      running = j.running;
      unstopped = j.unstopped;
      unclosed = j.unclosed;
    }

pub enqueue-Inv :
    (x : Item) (size : ℕ) (p : BatchWriteSyncer) → Inv p → Moves Inv (enqueue x size p)
unfolding enqueue
enqueue-Inv x size p i = simp i.unstopped (elim (send_cases x p.queue) [
  | is_sent c r e _ k _ _ ↦
      rw r (record { within = i.within; running = i.running; unstopped = refl; unclosed = k })
  | is_full r _ _ ↦ rw r (
      if_both (Moves Inv) p.opt.block_on_queue_full tt (record {
        within = i.within;
        running = i.running;
        unstopped = refl;
        unclosed = i.unclosed;
      }))
  | is_panicked r h ↦ absurd (cc)
])
