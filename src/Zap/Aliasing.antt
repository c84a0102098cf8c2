-- ===== src/Zap/Aliasing.antt =====
-- otelzap/writer.go: `bp.batch[:0]` keeps the array whose slice the exporter was handed.
use go_opentelemetry.Prelude.{
  ℕ, zero, suc, ◌+◌, ◌≤◌, ◌<◌, ◌≡◌, refl, Bool, true, false, some, List, [], ◌∷◌, ◌++◌, arith, take,
  drop, Bool-cases, Option-cases, inl, inr, if_both, ltb, leb, ◌==◌, if◌then◌else◌, ap, ◌∙◌, lt→ltb,
}
use go_opentelemetry.Channel.{
  recv, recv_from, recv_cases, send_cases, is_sent, is_full, is_panicked, is_got, is_drained,
  is_waiting,
}
use go_opentelemetry.Timer
use go_opentelemetry.Zap.{
  Item, Slice, BatchWriteSyncer, Phase, processing, exporting, sending, draining, closing, finished,
  append_item, read_slice, calc_log_size, write_at,
}
use go_opentelemetry.Zap.Worker.{
  moves, Case, stop_case, timer_case, queue_case, enqueue, export_begin, exporting_from,
  should_process_in_batch, batch_item, process_received, process_queue, process_export, stop_timer,
  exported, export_end,
}
use go_opentelemetry.Zap.System.{
  Event, work, offer, sync_start, sync_return, tick, step, work_at, Quiet, start_quiet, next_quiet,
  IsProper, Moves, Moves-moves,
}
use go_opentelemetry.Zap.View.{update_here, append_item-Same}
use go_opentelemetry.Zap.Invariant.{Inv, is_running}
use go_opentelemetry.Zap.Invariant.Steps.{Reach-Inv}
use go_opentelemetry.Zap.Keep.{batch_item-Kept}
use go_opentelemetry.Zap.Refine.{Quiet-Reach}

-- The exporter has been handed the batch, as it is in the heap.
record HandedOver (p : BatchWriteSyncer) : Type 0 where
  nonempty : 0 < p.batch.len
  handed : (ss : List Slice) × (p.handed ≡ ss ++ p.batch ∷ [])
  seen : (bs : List (List Item)) × (p.seen ≡ bs ++ read_slice p.heap p.batch ∷ [])

abbrev is_sending : Phase → Bool
is_sending (sending size back) = true
is_sending _ = false

abbrev Sent : BatchWriteSyncer → Type 0
Sent p = is_sending p.phase ≡ true → HandedOver p

export_begin-Sent :
    (back : Phase) (p : BatchWriteSyncer)
    → is_sending back ≡ false
    → Sent (exporting_from back (export_begin p))
unfolding export_begin
export_begin-Sent back p b = elim (Bool-cases (ltb 0 p.batch.len)) [
  | inl h ↦
      rw h
        (λ s. record { nonempty = ground arith; handed = (p.handed, refl); seen = (p.seen, refl) })
  | inr h ↦ rw h (λ s. absurd (cc))
]

-- What `batch_item` makes of the answer of `shouldProcessInBatch` is not within an export.
abbrev Unsent : Bool × BatchWriteSyncer → Type 0
Unsent (b, q) = is_sending (if b then record q { phase = exporting } else q).phase ≡ false

module _ (grow : ℕ → ℕ) where
  batch_item-unsent :
      (sd : Item) (p : BatchWriteSyncer)
      → p.phase ≡ processing
      → is_sending (batch_item grow sd p).phase ≡ false
  unfolding batch_item should_process_in_batch
  batch_item-unsent sd p m =
      let q = append_item grow sd p in
      if_both Unsent (q.batch.len == q.opt.max_export_batch_size) refl (
        if_both Unsent (leb q.opt.max_packet_size (q.batched_size + calc_log_size sd)) refl
          (ap is_sending ((append_item-Same grow sd p).phase ∙ m)))

  process_queue-Sent :
      (c : Case) (p : BatchWriteSyncer)
      → Inv p
      → p.phase ≡ processing
      → Moves Sent (process_queue grow c p)
  unfolding process_queue
  process_queue-Sent stop_case p i m = simp i.unstopped tt
  process_queue-Sent timer_case p i m = elim (Option-cases (Timer.receive p.timer)) [
    | inl h ↦ rw h tt
    | inr (t, h) ↦ rw h (export_begin-Sent processing _ refl)
  ]
  process_queue-Sent queue_case p i m = elim (recv_cases p.queue) [
    | is_got sd c r e _ _ ↦
        rw r (λ s. absurd (cc (batch_item-unsent sd (record p { queue = c }) m)))
    | is_drained r _ k ↦ absurd (cc)
    | is_waiting r _ _ ↦ rw r tt
  ]

  process_export-Sent : (p : BatchWriteSyncer) → Moves Sent (process_export grow p)
  unfolding process_export
  process_export-Sent p = elim (Option-cases (stop_timer p.timer)) [
    | inl h ↦ rw h tt
    | inr (t, h) ↦ rw h (export_begin-Sent processing _ refl)
  ]

  work_at-Sent :
      (ph : Phase) (c : Case) (fails : Bool) (p : BatchWriteSyncer)
      → Inv p
      → p.phase ≡ ph
      → is_running ph ≡ true
      → Moves Sent (work_at grow ph c fails p)
  unfolding work_at exported
  work_at-Sent processing c fails p i m h = process_queue-Sent c p i m
  work_at-Sent exporting c fails p i m h = process_export-Sent p
  work_at-Sent (sending size processing) c fails p i m h = λ s. absurd (cc)
  work_at-Sent (sending size (sending k back)) c fails p i m h = absurd (cc)
  work_at-Sent (sending size exporting) c fails p i m h = absurd (cc)
  work_at-Sent (sending size draining) c fails p i m h = absurd (cc)
  work_at-Sent (sending size closing) c fails p i m h = absurd (cc)
  work_at-Sent (sending size finished) c fails p i m h = absurd (cc)
  work_at-Sent draining c fails p i m h = absurd (cc)
  work_at-Sent closing c fails p i m h = absurd (cc)
  work_at-Sent finished c fails p i m h = absurd (cc)

  enqueue-Sent :
      (x : Item) (size : ℕ) (p : BatchWriteSyncer) → Inv p → Sent p → Moves Sent (enqueue x size p)
  unfolding enqueue
  enqueue-Sent x size p i s = simp i.unstopped (elim (send_cases x p.queue) [
    | is_sent c r e _ k _ _ ↦
        rw r
          (λ m. let h = s m in record { nonempty = h.nonempty; handed = h.handed; seen = h.seen })
    | is_full r _ _ ↦ rw r (
        if_both (Moves Sent) p.opt.block_on_queue_full tt
          (λ m. let h = s m in record { nonempty = h.nonempty; handed = h.handed; seen = h.seen }))
    | is_panicked r h ↦ absurd (cc)
  ])

  step-Sent :
      (e : Event) (p : BatchWriteSyncer) → Inv p → Sent p → IsProper e → Moves Sent (step grow e p)
  unfolding step
  step-Sent (work c fails) p i s o = work_at-Sent p.phase c fails p i refl i.running
  step-Sent (offer l size) p i s o = enqueue-Sent (some l) size p i s
  step-Sent sync_start p i s o = absurd o
  step-Sent (sync_return n fails) p i s o = absurd o
  step-Sent tick p i s o = elim (Option-cases (Timer.fire p.timer)) [
    | inl h ↦ rw h tt
    | inr (t, h) ↦
        rw h
          (λ m. let h = s m in record { nonempty = h.nonempty; handed = h.handed; seen = h.seen })
  ]

  Quiet-Sent : ((n : ℕ) → n ≤ grow n) → {p : BatchWriteSyncer} → Quiet grow p → Sent p
  Quiet-Sent g (start_quiet opts) = λ s. absurd (cc)
  Quiet-Sent g (next_quiet e {p} q o h) =
      Moves-moves Sent (step grow e p)
        (step-Sent e p (Reach-Inv grow g (Quiet-Reach grow g q)) (Quiet-Sent g q) o) h

  take_overwritten :
      (n : ℕ) (x : Item) (xs : List Item) → 0 < n → take n (x ∷ drop 1 xs) ≡ x ∷ drop 1 (take n xs)
  take_overwritten zero x xs h = absurd (omega arith)
  take_overwritten (suc zero) x [] h = refl
  take_overwritten (suc (suc n)) x [] h = refl
  take_overwritten (suc n) x (y ∷ xs) h = refl

  append_item-overwrites :
      (x : Item) (p : BatchWriteSyncer)
      → 0 < p.batch.len
      → p.batch.len ≤ p.batch.cap
      → read_slice
          (append_item grow x (record p { batch = record p.batch { len = 0 } })).heap
          p.batch
        ≡ x ∷ drop 1 (read_slice p.heap p.batch)
  unfolding append_item read_slice write_at
  append_item-overwrites x p n c =
      let a = p.batch.address in
      rw (lt→ltb 0 p.batch.cap (omega arith)) (
        rw (update_here p.heap a (x ∷ drop 1 (p.heap a)))
          (take_overwritten p.batch.len x (p.heap a) n))

  -- Two steps of the goroutine from `p`, an end of an export and a receive, through `ended` to `taken`:
  -- the last slice handed over reads otherwise behind them than when it was handed over.
  pub record Aliased (fails : Bool) (x : Item) (p : BatchWriteSyncer) : Type 0 where
    pub slices : List Slice
    pub contents : List (List Item)
    pub ended : BatchWriteSyncer
    pub taken : BatchWriteSyncer
    pub ends : step grow (work queue_case fails) p ≡ moves ended
    pub takes : step grow (work queue_case fails) ended ≡ moves taken
    pub handed : taken.handed ≡ slices ++ p.batch ∷ []
    pub seen : taken.seen ≡ contents ++ read_slice p.heap p.batch ∷ []
    pub reads : read_slice taken.heap p.batch ≡ x ∷ drop 1 (read_slice p.heap p.batch)

  -- Where the goroutine exports, no call of Sync has been made, and an item waits in the queue: after the
  -- end of the export and the receive of the item, the slice that was handed over starts with that item
  -- instead of the one that it had when it was handed over, provided `append` makes room for the elements.
  pub handed_slice_overwritten :
      ((n : ℕ) → n ≤ grow n)
      → {p : BatchWriteSyncer} (size : ℕ) (x : Item) (xs : List Item) (fails : Bool) → Quiet grow p
      → p.phase ≡ sending size processing
      → p.queue.items ≡ x ∷ xs
      → Aliased fails x p
  unfolding step work_at process_queue exported export_end recv
  handed_slice_overwritten g {p} size x xs fails q m e =
      let i = Reach-Inv grow g (Quiet-Reach grow g q) in
      let h = Quiet-Sent g q (rw m refl) in
      let ended = exported fails size processing p in
      let r = record ended { queue = record p.queue { items = xs } } in
      let s = append_item-Same grow x r in
      let k = batch_item-Kept grow x r in
      record {
        slices = h.handed.0;
        contents = h.seen.0;
        ended = ended;
        taken = batch_item grow x r;
        ends = ap (λ ph. work_at grow ph queue_case fails p) m;
        takes = ap (λ l. process_received grow (recv_from l p.queue) ended) e;
        handed = k.handed ∙ s.handed ∙ h.handed.1;
        seen = k.seen ∙ s.seen ∙ h.seen.1;
        reads =
            ap (λ a. read_slice a p.batch) k.heap
            ∙ append_item-overwrites x (record r { batch = p.batch }) h.nonempty i.within.roomy;
      }
