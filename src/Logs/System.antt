-- ===== src/Logs/System.antt =====
-- sdk/log/batch_processor.go: the processor with its background goroutine and its callers, as
-- interleavings of the steps that the queue and the channels separate.
use go_opentelemetry.Prelude.{Bool, Option, none, some, ◌≡◌, subst}
use go_opentelemetry.Timer
use go_opentelemetry.Timer.{Timer}
use go_opentelemetry.Logs.{
  Item, BatchProcessor, new_batch_processor, Outcome, moves, blocked, crashes, Phase, processing,
  exporting, draining, closing, finished,
}
use go_opentelemetry.Logs.Queue.{begin_enqueue, enqueue_send}
use go_opentelemetry.Logs.Worker.{
  Case, process_queue, process_export, drain_queue, close_queue, shutdown, shutdown_exporter,
}

-- `work` moves the background goroutine, whose exports end as the Boolean says; `begin` and `send` are
-- the halves of an `Enqueue`; `tick` is the runtime's timer.
pub data Event : Type 0 where
  work : Case → Bool → Event
  begin : Event
  send : Item → Event
  stop close_exporter tick : Event

unfoldable pub work_at : Phase → Case → Bool → BatchProcessor → Outcome
work_at processing c fails p = process_queue c fails p
work_at exporting c fails p = process_export fails p
work_at draining c fails p = moves (drain_queue fails p)
work_at closing c fails p = close_queue p
work_at finished c fails p = blocked

abbrev pub ticked : Option Timer → BatchProcessor → Outcome
ticked none p = blocked
ticked (some t) p = moves (record p { timer = t })

unfoldable pub step : Event → BatchProcessor → Outcome
step (work c fails) p = work_at p.phase c fails p
step begin p = moves (begin_enqueue p)
step (send rl) p = enqueue_send rl p
step stop p = moves (shutdown p)
step close_exporter p = shutdown_exporter p
step tick p = ticked (Timer.fire p.timer) p

-- The callers hand no nil to `Enqueue`.
abbrev pub IsProper : Event → Type 0
IsProper (send none) = ⊥
IsProper _ = Unit {0}

-- What can come of a new processor.
pub data Reach : BatchProcessor → Type 0 where
  start : Reach new_batch_processor
  next : (e : Event) {p q : BatchProcessor} → Reach p → IsProper e → step e p ≡ moves q → Reach q

-- `P` holds of the new state, if there is one.
abbrev pub Moves {ℓ} : (BatchProcessor → Type ℓ) → Outcome → Type ℓ
Moves P (moves q) = P q
Moves P blocked = Unit
Moves P crashes = Unit

pub Moves-moves {ℓ} :
    (P : BatchProcessor → Type ℓ) (o : Outcome) {q : BatchProcessor} → Moves P o → o ≡ moves q → P q
Moves-moves P (moves r) h e = subst P (cc) h
Moves-moves P blocked h e = absurd (cc)
Moves-moves P crashes h e = absurd (cc)
