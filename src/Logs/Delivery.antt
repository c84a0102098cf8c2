-- ===== src/Logs/Delivery.antt =====
-- sdk/log/batch_processor.go: that drainQueue ends, and what a shutdown has delivered.
use go_opentelemetry.Prelude.{
  ℕ, zero, suc, ◌+◌, ◌≤◌, ◌<◌, ◌≡◌, refl, Bool, true, false, none, some, [], ◌∷◌, ◌++◌, arith,
  length, append-nil, ◌⊎◌, inl, inr, if◌then◌else◌, subst, sym, ◌∙◌, Bool-cases,
}
use go_opentelemetry.Channel.{Chan, close, recv_cases, is_got, is_drained, is_waiting}
use go_opentelemetry.Logs.{
  Item, BatchProcessor, Outcome, moves, blocked, crashes, Phase, processing, exporting, draining,
  closing, finished,
}
use go_opentelemetry.Logs.Worker.{stop_case, drain_item, drain_queue, close_queue}
use go_opentelemetry.Logs.System.{work, step, work_at, Reach, next}
use go_opentelemetry.Logs.View.{logs, all_logs}
use go_opentelemetry.Logs.Refine.{logs_conserved}
use go_opentelemetry.Logs.Invariant.{Inv, is_processing, export-Exported}
use go_opentelemetry.Logs.Invariant.Reach.{Reach-Inv}

-- The goroutine's turns to go in a drain that no caller disturbs.
abbrev pub stage : Phase → Bool → ℕ
stage draining closed = if closed then 1 else 3
stage closing closed = 2
stage _ closed = 0

abbrev pub to_go : BatchProcessor → ℕ
to_go p = length p.queue.items + stage p.phase p.queue.closed

-- A turn of the drain: what it leaves, and that it takes nothing in.
pub record Drained (p q : BatchProcessor) : Type 0 where
  pub less : to_go q < to_go p
  pub draining : is_processing q.phase ≡ false
  pub accepted : q.accepted ≡ p.accepted

drain_item-Drained :
    (fails : Bool) (sd : Item) (c : Chan Item) (p : BatchProcessor)
    → p.phase ≡ draining
    → p.queue.items ≡ sd ∷ c.items
    → c.closed ≡ p.queue.closed
    → Drained p (drain_item fails sd (record p { queue = c }))
unfolding drain_item
drain_item-Drained fails none c p ph e m =
    ground (arith, export-Exported fails (record p { queue = c }))
drain_item-Drained fails (some l) c p ph e m =
    ground (arith, export-Exported fails (record p { queue = c; batch = p.batch ++ some l ∷ [] }))

drain_queue-Drained :
    (fails : Bool) (p : BatchProcessor) → p.phase ≡ draining → Drained p (drain_queue fails p)
unfolding drain_queue drain_item
drain_queue-Drained fails p ph = elim (recv_cases p.queue) [
  | is_got sd c r e k m ↦ rw r (drain_item-Drained fails sd c p ph e m)
  | is_drained r e m ↦ rw r (ground (arith, export-Exported fails p))
  | is_waiting r e m ↦ rw r (ground arith)
]

-- There is a next state, with `P`.
abbrev pub Next : (BatchProcessor → Type 0) → Outcome → Type 0
Next P o = (q : BatchProcessor) × (o ≡ moves q) × P q

close_queue-Drained :
    (p : BatchProcessor) → Inv p → p.phase ≡ closing → Next (Drained p) (close_queue p)
unfolding close_queue close
close_queue-Drained p v ph = elim (Bool-cases p.queue.closed) [
  | inl h ↦ absurd (ground arith)
  | inr h ↦
      (record p { queue = record p.queue { closed = true }; phase = draining }, rw h, ground arith)
]

-- In the drain the goroutine always has a turn, which brings it nearer to its end.
drain_turn :
    (ph : Phase) (fails : Bool) (p : BatchProcessor)
    → Inv p
    → p.phase ≡ ph
    → is_processing ph ≡ false
    → (ph ≡ finished) ⊎ Next (Drained p) (work_at ph stop_case fails p)
unfolding work_at
drain_turn processing fails p v e d = absurd (cc)
drain_turn exporting fails p v e d = absurd (cc)
drain_turn draining fails p v e d = inr (drain_queue fails p, refl, drain_queue-Drained fails p e)
drain_turn closing fails p v e d = inr (close_queue-Drained p v e)
drain_turn finished fails p v e d = inl refl

abbrev pub or_same : BatchProcessor → Outcome → BatchProcessor
or_same p (moves q) = q
or_same p blocked = p
or_same p crashes = p

-- `n` turns of the goroutine alone, with the exporter's answers.
unfoldable pub solo : (ℕ → Bool) → ℕ → BatchProcessor → BatchProcessor
solo a zero p = p
solo a (suc n) p = solo a n (or_same p (work_at p.phase stop_case (a n) p))

or_same-Reach :
    (fails : Bool) (p : BatchProcessor) (o : Outcome)
    → work_at p.phase stop_case fails p ≡ o
    → Reach p
    → Reach (or_same p o)
unfolding step
or_same-Reach fails p (moves q) h r = next (work stop_case fails) r tt h
or_same-Reach fails p blocked h r = r
or_same-Reach fails p crashes h r = r

-- What the goroutine comes to alone.
pub record Ended (p q : BatchProcessor) : Type 0 where
  pub reach : Reach q
  pub phase : q.phase ≡ finished
  pub accepted : q.accepted ≡ p.accepted

solo_stays :
    (a : ℕ → Bool) (n : ℕ) (p : BatchProcessor)
    → Reach p
    → p.phase ≡ finished
    → Ended p (solo a n p)
unfolding solo work_at
solo_stays a zero p r e = record { reach = r; phase = e; accepted = refl }
solo_stays a (suc n) p r e =
    let same : work_at p.phase stop_case (a n) p ≡ blocked = rw e refl in
    subst (λ o. Ended p (solo a n (or_same p o))) (sym same) (solo_stays a n p r e)

-- The phase is not `finished` while there is a turn to go.
finished_at_end :
    (p : BatchProcessor) → is_processing p.phase ≡ false → to_go p ≤ 0 → p.phase ≡ finished
finished_at_end p d h = ground arith

solo-Ended :
    (a : ℕ → Bool) (n : ℕ) (p : BatchProcessor)
    → Reach p
    → is_processing p.phase ≡ false
    → to_go p ≤ n
    → Ended p (solo a n p)
unfolding solo
solo-Ended a zero p r d h = record { reach = r; phase = finished_at_end p d h; accepted = refl }
solo-Ended a (suc n) p r d h = elim (drain_turn p.phase (a n) p (Reach-Inv r) refl d) [
  | inl e ↦ solo_stays a (suc n) p r e
  | inr (q, e, m) ↦
      let rest =
        solo-Ended a n q (or_same-Reach (a n) p (moves q) e r) m.draining (omega (arith, m, h)) in
      subst (λ o. Ended p (solo a n (or_same p o))) (sym e)
        (record { reach = rest.reach; phase = rest.phase; accepted = rest.accepted ∙ m.accepted })
]

-- From any reachable state of the drain, if no caller sends any more, the goroutine returns within one
-- turn for each queued item and three more, whatever the exporter answers, and then every log that was
-- ever sent to the queue has been handed to the exporter, in order.
pub logs_drained :
    (a : ℕ → Bool) (n : ℕ) (p : BatchProcessor)
    → Reach p
    → is_processing p.phase ≡ false
    → length p.queue.items + 3 ≤ n
    → let q = solo a n p in (q.phase ≡ finished) × (logs p.accepted ≡ all_logs q.exports)
logs_drained a n p r d h =
    let e = solo-Ended a n p r d (ground arith) in
    let v = Reach-Inv e.reach in
    ground (arith, logs_conserved e.reach, append-nil (all_logs (solo a n p).exports))

-- When the exporter has been shut down, every log that was ever sent to the queue has been handed to it,
-- in the order of sending, and none twice.
pub shutdown_delivers_logs :
    {p : BatchProcessor} → Reach p → p.shut_down ≡ true → logs p.accepted ≡ all_logs p.exports
shutdown_delivers_logs {p} r h =
    ground (arith, Reach-Inv r, logs_conserved r, append-nil (all_logs p.exports))
