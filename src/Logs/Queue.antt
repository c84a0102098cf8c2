-- ===== src/Logs/Queue.antt =====
-- sdk/log/batch_processor.go: Enqueue, in its two halves: the test of stopCh, and the send.
use go_opentelemetry.Prelude.{ℕ, zero, suc, ◌+◌, ◌%◌, ◌^◌, [], ◌∷◌, ◌++◌, if◌then◌else◌}
use go_opentelemetry.Channel.{Send, sent, full, panicked, send}
use go_opentelemetry.Logs.{
  Item, BatchProcessor, Outcome, moves, blocked, crashes, default_block_on_queue_full,
}

abbrev pub count_enqueue : BatchProcessor → BatchProcessor
count_enqueue p = record p { counters = record p.counters { enqueue = p.counters.enqueue + 1 } }

-- `atomic.AddUint32(&bp.dropped, 1)` and its counter
abbrev pub drop : BatchProcessor → BatchProcessor
drop p = record p {
  dropped = (p.dropped + 1) % 2 ^ 32;
  counters = record p.counters { dropped = p.counters.dropped + 1 };
}

-- The first half: a call that finds `stopCh` closed returns, any other goes on to the send.
unfoldable pub begin_enqueue : BatchProcessor → BatchProcessor
begin_enqueue p =
    if p.stopped
    then record (count_enqueue p) { refused = p.refused + 1 }
    else record (count_enqueue p) { in_flight = p.in_flight + 1 }

abbrev pub send_outcome : Send Item → Item → BatchProcessor → Outcome
send_outcome (sent c) rl p = moves (record p { queue = c; accepted = p.accepted ++ rl ∷ [] })
send_outcome full rl p = if default_block_on_queue_full then blocked else moves (drop p)
send_outcome panicked rl p = crashes

-- The second half. No deferred function recovers the panic of a send on a closed channel.
abbrev pub send_at : ℕ → Item → BatchProcessor → Outcome
send_at zero rl p = blocked
send_at (suc n) rl p = send_outcome (send rl p.queue) rl (record p { in_flight = n })

unfoldable pub enqueue_send : Item → BatchProcessor → Outcome
enqueue_send rl p = send_at p.in_flight rl p
