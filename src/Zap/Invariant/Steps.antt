-- ===== src/Zap/Invariant/Steps.antt =====
-- otelzap/writer.go: the steps of the goroutine and its callers keep the invariant.
use go_opentelemetry.Prelude.{
  ℕ, ◌+◌, ◌≤◌, ◌≡◌, refl, Bool, true, false, some, List, arith, Option-cases, inl, inr, if_both,
  leb, ◌==◌, if◌then◌else◌, ◌∙◌,
}
use go_opentelemetry.Channel.{Chan, recv_cases, is_got, is_drained, is_waiting}
use go_opentelemetry.Timer
use go_opentelemetry.Timer.{Timer}
use go_opentelemetry.Zap.{
  Item, BatchSyncerOption, BatchWriteSyncer, new_batch_write_syncer, Phase, processing, exporting,
  sending, draining, closing, finished, append_item, calc_log_size,
}
use go_opentelemetry.Zap.Worker.{
  Outcome, moves, blocked, crashes, Case, stop_case, timer_case, queue_case,
  should_process_in_batch, batch_item, process_queue, process_export, stop_timer, exported,
  sync_end, take_sync,
}
use go_opentelemetry.Zap.System.{
  Event, work, offer, sync_start, sync_return, tick, step, work_at, Reach, start, next, Moves,
  Moves-moves,
}
use go_opentelemetry.Zap.View.{append_item-Same, append_item-Appended}
use go_opentelemetry.Zap.Invariant.{
  is_running, Inv, export_begin-Inv, sync_begin-Inv, export_end-Inv, sync_end-Inv, enqueue-Inv,
}

-- The invariant of what `batch_item` makes of the answer of `shouldProcessInBatch`.
abbrev Batched : Bool × BatchWriteSyncer → Type 0
Batched (b, q) = Inv (if b then record q { phase = exporting } else q)

module _ (grow : ℕ → ℕ) (grows : (n : ℕ) → n ≤ grow n) where
  append_item-Inv : (ld : Item) (p : BatchWriteSyncer) → Inv p → Inv (append_item grow ld p)
  append_item-Inv ld p i =
      let s = append_item-Same grow ld p in
      record {
        within = (append_item-Appended grow ld p grows i.within).within;
        running = rw s.phase i.running;
        unstopped = rw s.stopped i.unstopped;
        unclosed = rw s.queue i.unclosed;
      }

  batch_item-Inv :
      (ld : Item) (c : Chan Item) (p : BatchWriteSyncer)
      → Inv p
      → c.closed ≡ false
      → Inv (batch_item grow ld (record p { queue = c }))
  unfolding batch_item should_process_in_batch
  batch_item-Inv ld c p i k =
      let r = record p { queue = c } in
      let q = append_item grow ld r in
      let j = append_item-Inv ld r (record {
        within = i.within;
        running = i.running;
        unstopped = i.unstopped;
        unclosed = k;
      }) in
      if_both Batched (q.batch.len == q.opt.max_export_batch_size)
        (record {
          within = j.within;
          running = refl;
          unstopped = j.unstopped;
          unclosed = j.unclosed;
        })
        (if_both Batched (leb q.opt.max_packet_size (q.batched_size + calc_log_size ld))
          (record {
            within = j.within;
            running = refl;
            unstopped = j.unstopped;
            unclosed = j.unclosed;
          })
          (record {
            within = j.within;
            running = j.running;
            unstopped = j.unstopped;
            unclosed = j.unclosed;
          }))

  process_queue-Inv : (c : Case) (p : BatchWriteSyncer) → Inv p → Moves Inv (process_queue grow c p)
  unfolding process_queue
  process_queue-Inv stop_case p i = simp i.unstopped tt
  process_queue-Inv timer_case p i = elim (Option-cases (Timer.receive p.timer)) [
    | inl h ↦ rw h tt
    | inr (t, h) ↦ rw h (
        export_begin-Inv _ (record {
          within = i.within;
          running = i.running;
          unstopped = i.unstopped;
          unclosed = i.unclosed;
        }))
  ]
  process_queue-Inv queue_case p i = elim (recv_cases p.queue) [
    | is_got sd c r e _ k ↦ rw r (batch_item-Inv sd c p i (k ∙ i.unclosed))
    | is_drained r e k ↦ absurd (cc)
    | is_waiting r _ _ ↦ rw r tt
  ]

  process_export-Inv : (p : BatchWriteSyncer) → Inv p → Moves Inv (process_export grow p)
  unfolding process_export
  process_export-Inv p i = elim (Option-cases (stop_timer p.timer)) [
    | inl h ↦ rw h tt
    | inr (t, h) ↦ rw h (
        export_begin-Inv _ (record {
          within = i.within;
          running = i.running;
          unstopped = i.unstopped;
          unclosed = i.unclosed;
        }))
  ]

  work_at-Inv :
      (ph : Phase) (c : Case) (fails : Bool) (p : BatchWriteSyncer)
      → Inv p
      → is_running ph ≡ true
      → Moves Inv (work_at grow ph c fails p)
  unfolding work_at exported
  work_at-Inv processing c fails p i h = process_queue-Inv c p i
  work_at-Inv exporting c fails p i h = process_export-Inv p i
  work_at-Inv (sending size processing) c fails p i h =
      let j = export_end-Inv fails size p i in
      record { within = j.within; running = refl; unstopped = j.unstopped; unclosed = j.unclosed }
  work_at-Inv (sending size (sending m back)) c fails p i h = absurd (cc)
  work_at-Inv (sending size exporting) c fails p i h = absurd (cc)
  work_at-Inv (sending size draining) c fails p i h = absurd (cc)
  work_at-Inv (sending size closing) c fails p i h = absurd (cc)
  work_at-Inv (sending size finished) c fails p i h = absurd (cc)
  work_at-Inv draining c fails p i h = absurd (cc)
  work_at-Inv closing c fails p i h = absurd (cc)
  work_at-Inv finished c fails p i h = absurd (cc)

  pub step-Inv : (e : Event) (p : BatchWriteSyncer) → Inv p → Moves Inv (step grow e p)
  unfolding step sync_end
  step-Inv (work c fails) p i = work_at-Inv p.phase c fails p i i.running
  step-Inv (offer l size) p i = enqueue-Inv (some l) size p i
  step-Inv sync_start p i = sync_begin-Inv p i
  step-Inv (sync_return n fails) p i = sync_end-Inv fails (take_sync n p.syncs) p i
  step-Inv tick p i = elim (Option-cases (Timer.fire p.timer)) [
    | inl h ↦ rw h tt
    | inr (t, h) ↦ rw h (record {
      within = i.within;
      running = i.running;
      unstopped = i.unstopped;
      unclosed = i.unclosed;
    })
  ]

  pub start-Inv : (opts : List BatchSyncerOption) → Inv (new_batch_write_syncer opts)
  start-Inv opts = record {
    within = record { filled = omega arith; roomy = omega arith };
    running = refl;
    unstopped = refl;
    unclosed = refl;
  }

  pub Reach-Inv : {p : BatchWriteSyncer} → Reach grow p → Inv p
  Reach-Inv (start opts) = start-Inv opts
  Reach-Inv (next e {p} r h) = Moves-moves Inv (step grow e p) (step-Inv e p (Reach-Inv r)) h

  no_crash : (o : Outcome) → Moves Inv o → ¬ (o ≡ crashes)
  no_crash (moves q) h e = absurd (cc)
  no_crash blocked h e = absurd (cc)
  no_crash crashes h e = h

  -- In every state that can come of a new writer, with calls of Sync or without, provided `append` makes
  -- room for the elements: `stopCh` is open, the goroutine is in `processQueue` and not in `drainQueue`,
  -- the queue is open, and no step panics.
  pub never_stops :
      {p : BatchWriteSyncer}
      → Reach grow p
      → (p.stopped ≡ false)
        × (is_running p.phase ≡ true)
        × (p.queue.closed ≡ false)
        × ((e : Event) → ¬ (step grow e p ≡ crashes))
  never_stops {p} r =
      let i = Reach-Inv r in
      (i.unstopped, i.running, i.unclosed, λ e. no_crash (step grow e p) (step-Inv e p i))
