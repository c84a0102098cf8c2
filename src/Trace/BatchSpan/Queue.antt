-- ===== src/Trace/BatchSpan/Queue.antt =====
-- sdk/trace/batch_span_processor.go: enqueueBlockOnQueueFull, enqueue, OnEnd.
use go_opentelemetry.Prelude.{
  ◌+◌, ◌%◌, ◌^◌, Bool, true, false, Option, none, some, [], ◌∷◌, ◌++◌, ◌&&◌, if◌then◌else◌,
}
use go_opentelemetry.Channel.{Send, sent, full, panicked, send}
use go_opentelemetry.Trace.BatchSpan.{Item, BatchSpanProcessor}

abbrev pub count_enqueue : BatchSpanProcessor → BatchSpanProcessor
count_enqueue p = record p { counters = record p.counters { enqueue = p.counters.enqueue + 1 } }

abbrev pub refuse : BatchSpanProcessor → BatchSpanProcessor
refuse p = record p { refused = p.refused + 1 }

-- `atomic.AddUint32(&bsp.dropped, 1)`
abbrev pub drop : BatchSpanProcessor → BatchSpanProcessor
drop p = record p {
  dropped = (p.dropped + 1) % 2 ^ 32;
  counters = record p.counters { dropped = p.counters.dropped + 1 };
}

-- The first half of `enqueueBlockOnQueueFull`: count, and test `stopCh`. True goes on to the send.
unfoldable pub begin_enqueue : BatchSpanProcessor → Bool × BatchSpanProcessor
begin_enqueue p = if p.stopped then (false, refuse (count_enqueue p)) else (true, count_enqueue p)

abbrev pub send_outcome :
    Send Item → Bool → Item → Bool → BatchSpanProcessor → Option (Bool × BatchSpanProcessor)
send_outcome (sent c) done sd block p =
    if block && done
    then some (false, refuse p)
    else some (true, record p { queue = c; accepted = p.accepted ++ sd ∷ [] })
send_outcome full done sd true p = if done then some (false, refuse p) else none
send_outcome full done sd false p = some (false, drop p)
send_outcome panicked done sd block p = some (false, refuse p)

-- The second half: the send, with the recovered panic of a send on a closed channel. `done` tells
-- that the `select` takes its case `<-ctx.Done()`. The outcome `none` is a call that waits.
unfoldable pub send_item :
    Bool → Item → Bool → BatchSpanProcessor → Option (Bool × BatchSpanProcessor)
send_item done sd block p = send_outcome (send sd p.queue) done sd block p

-- `enqueueBlockOnQueueFull` with no other goroutine between its two halves.
unfoldable pub enqueue_block_on_queue_full :
    Bool → Item → Bool → BatchSpanProcessor → Option (Bool × BatchSpanProcessor)
unfolding begin_enqueue send_item
enqueue_block_on_queue_full done sd block p =
    let (go, p') = begin_enqueue p in if go then send_item done sd block p' else some (false, p')

-- `enqueue`: the context is `context.TODO()`, which is never done.
unfoldable pub enqueue : Item → BatchSpanProcessor → Option (Bool × BatchSpanProcessor)
unfolding enqueue_block_on_queue_full
enqueue sd p = enqueue_block_on_queue_full false sd p.o.block_on_queue_full p

-- `OnEnd`
unfoldable pub on_end : Item → BatchSpanProcessor → Option (Bool × BatchSpanProcessor)
unfolding enqueue
on_end sd p = if p.has_exporter then enqueue sd p else some (false, p)
