-- ===== src/Logs/Race.antt =====
-- sdk/log/batch_processor.go: a caller of Enqueue that a Shutdown overtakes.
use go_opentelemetry.Prelude.{◌+◌, ◌≡◌, refl, true, false, some, List, [], ◌∷◌, arith}
use go_opentelemetry.Channel
use go_opentelemetry.Channel.{recv, close}
use go_opentelemetry.Logs.{
  ResourceLogs, BatchProcessor, moves, crashes, processing, draining, closing,
}
use go_opentelemetry.Logs.Queue.{begin_enqueue, enqueue_send, count_enqueue}
use go_opentelemetry.Logs.Worker.{process_queue, stop_case, drain_queue, close_queue, shutdown}
use go_opentelemetry.Logs.System.{Event, work, begin, send, stop, step, work_at, Reach}
use go_opentelemetry.Logs.Invariant.Reach.{Reach-Inv}

-- A caller has passed the test of `stopCh`, the shutdown has closed it, and the goroutine has left
-- `processQueue`, found the queue empty, and closed it.
abbrev called : BatchProcessor → BatchProcessor
called p = record (count_enqueue p) { in_flight = p.in_flight + 1 }

abbrev stopping : BatchProcessor → BatchProcessor
stopping p = record (called p) { stop_once = true; stopped = true }

abbrev left : BatchProcessor → BatchProcessor
left p = record (stopping p) { timer = record p.timer { active = false }; phase = draining }

abbrev found_empty : BatchProcessor → BatchProcessor
found_empty p = record (left p) { phase = closing }

abbrev overtaken : BatchProcessor → BatchProcessor
overtaken p = record (left p) { queue = record p.queue { closed = true } }

module _ {p : BatchProcessor} (r : Reach p) (ph : p.phase ≡ processing) (once : p.stop_once ≡ false)
    (open_ : p.stopped ≡ false) (none_queued : p.queue.items ≡ []) where
  called-step : step begin p ≡ moves (called p)
  unfolding step begin_enqueue
  called-step = simp open_ refl

  stopping-step : step stop (called p) ≡ moves (stopping p)
  unfolding step shutdown
  stopping-step = simp once refl

  left-step : step (work stop_case false) (stopping p) ≡ moves (left p)
  unfolding step work_at process_queue
  left-step = simp ph refl

  found_empty-step : step (work stop_case false) (left p) ≡ moves (found_empty p)
  unfolding step work_at drain_queue recv
  found_empty-step = let v = Reach-Inv r in ground arith

  overtaken-step : step (work stop_case false) (found_empty p) ≡ moves (overtaken p)
  unfolding step work_at close_queue close
  overtaken-step = let v = Reach-Inv r in ground arith

  overtaken_crashes : (l : ResourceLogs) → step (send (some l)) (overtaken p) ≡ crashes
  unfolding step enqueue_send Channel.send
  overtaken_crashes l = ground arith

-- The events of that order.
abbrev pub overtaking : List Event
overtaking = begin ∷ stop ∷ work stop_case false ∷ work stop_case false ∷ work stop_case false ∷ []

-- The steps by some events, none of which waits or panics, from a state to another.
pub data Steps : List Event → BatchProcessor → BatchProcessor → Type 0 where
  there : {p : BatchProcessor} → Steps [] p p
  then_by :
      {e : Event} {es : List Event} {p q r : BatchProcessor}
      → step e p ≡ moves q
      → Steps es q r
      → Steps (e ∷ es) p r

-- From every reachable state in which the goroutine is at its `select`, no shutdown has begun and the
-- queue is empty, these steps lead to a state in which a caller of `Enqueue` panics: it passes the test of
-- `stopCh`, a `Shutdown` closes `stopCh`, the goroutine leaves the `select`, finds the queue empty and
-- closes it. Nothing has been accepted in them, and when the caller sends it panics.
pub enqueue_crashes :
    {p : BatchProcessor} (l : ResourceLogs)
    → Reach p
    → p.phase ≡ processing
    → p.stop_once ≡ false
    → p.stopped ≡ false
    → p.queue.items ≡ []
    → (q : BatchProcessor) × Steps overtaking p q
      × (q.accepted ≡ p.accepted)
      × (step (send (some l)) q ≡ crashes)
enqueue_crashes {p} l r ph once open_ e = (
  overtaken p,
  then_by (called-step r ph once open_ e) (
      then_by (stopping-step r ph once open_ e) (
        then_by (left-step r ph once open_ e) (
          then_by (found_empty-step r ph once open_ e)
            (then_by (overtaken-step r ph once open_ e) there)))),
  refl,
  overtaken_crashes r ph once open_ e l,
)
