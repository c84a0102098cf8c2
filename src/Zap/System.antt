-- ===== src/Zap/System.antt =====
-- otelzap/writer.go: the writer with its background goroutine and its callers, as interleavings of the
-- steps that the queue and the calls of the exporter separate.
use go_opentelemetry.Prelude.{ℕ, Bool, Option, none, some, ◌≡◌, subst, List}
use go_opentelemetry.Timer
use go_opentelemetry.Timer.{Timer}
use go_opentelemetry.Zap.{
  ScopeLogs, BatchSyncerOption, BatchWriteSyncer, new_batch_write_syncer, Phase, processing,
  exporting, sending, draining, closing, finished,
}
use go_opentelemetry.Zap.Worker.{
  Outcome, moves, blocked, crashes, Case, enqueue, process_queue, process_export, exported,
  drain_queue, close_queue, sync_begin, sync_end,
}

-- `work` moves the background goroutine, whose exports end as the Boolean says; `offer` is `Enqueue`
-- of some logs and a size; `tick` is the runtime's timer.
pub data Event : Type 0 where
  work : Case → Bool → Event
  offer : ScopeLogs → ℕ → Event
  sync_start : Event
  sync_return : ℕ → Bool → Event
  tick : Event

abbrev pub ticked : Option Timer → BatchWriteSyncer → Outcome
ticked none p = blocked
ticked (some t) p = moves (record p { timer = t })

-- The events among which no `Sync` is.
abbrev pub IsProper : Event → Type 0
IsProper sync_start = ⊥
IsProper (sync_return n fails) = ⊥
IsProper _ = Unit {0}

-- The step does not crash, and `P` holds of the new state, if there is one.
abbrev pub Moves : (BatchWriteSyncer → Type 0) → Outcome → Type 0
Moves P (moves q) = P q
Moves P blocked = Unit {0}
Moves P crashes = ⊥

pub Moves-moves :
    (P : BatchWriteSyncer → Type 0) (o : Outcome) {q : BatchWriteSyncer}
    → Moves P o
    → o ≡ moves q
    → P q
Moves-moves P (moves r) h e = subst P (cc) h
Moves-moves P blocked h e = absurd (cc)
Moves-moves P crashes h e = absurd h

module _ (grow : ℕ → ℕ) where
  unfoldable pub work_at : Phase → Case → Bool → BatchWriteSyncer → Outcome
  work_at processing c fails p = process_queue grow c p
  work_at exporting c fails p = process_export grow p
  work_at (sending size back) c fails p = moves (exported fails size back p)
  work_at draining c fails p = moves (drain_queue grow p)
  work_at closing c fails p = close_queue p
  work_at finished c fails p = blocked

  unfoldable pub step : Event → BatchWriteSyncer → Outcome
  step (work c fails) p = work_at p.phase c fails p
  step (offer l size) p = enqueue (some l) size p
  step sync_start p = moves (sync_begin p)
  step (sync_return n fails) p = sync_end n fails p
  step tick p = ticked (Timer.fire p.timer) p

  -- What can come of a new writer, with calls of `Sync` or without.
  pub data Reach : BatchWriteSyncer → Type 0 where
    start : (opts : List BatchSyncerOption) → Reach (new_batch_write_syncer opts)
    next : (e : Event) {p q : BatchWriteSyncer} → Reach p → step e p ≡ moves q → Reach q

  pub data Quiet : BatchWriteSyncer → Type 0 where
    start_quiet : (opts : List BatchSyncerOption) → Quiet (new_batch_write_syncer opts)
    next_quiet :
        (e : Event) {p q : BatchWriteSyncer} → Quiet p → IsProper e → step e p ≡ moves q → Quiet q
