-- ===== src/AsyncExporter/Invariant.antt =====
-- exporter/asyncexporter/exporter.go: what holds between two steps of the exporter.
use go_opentelemetry.Prelude.{
  ℕ, zero, suc, ◌+◌, ◌*◌, ◌≤◌, ◌<◌, ◌≡◌, refl, Bool, true, false, Option, none, some, List, [], ◌∷◌,
  ◌++◌, if◌then◌else◌, not, arith, length, Ok, Ok-some, Bool-cases, Option-cases, inl, inr, if_both,
}
use go_opentelemetry.Channel.{
  close, recv_cases, is_got, is_drained, is_waiting, send_cases, is_sent, is_full, is_panicked,
}
use go_opentelemetry.AsyncExporter.{
  Exporter, Batch, Status, Dial, already_started, dialed, dial_failed, Error,
  new_unstarted_exporter, start, start_body, export_logs, connect, enable_connections, note_connect,
  connected, Background, unborn, awaiting, connecting, sleeping, returned,
}
use go_opentelemetry.AsyncExporter.Workers.{
  take_batch, take_batch_at, finish_batch, finish_picked, pick, shutdown, shutdown_wait,
  shutdown_wait_at, all_returned, closing, indefinite_background_connection, background_at,
  export_logs_internal, count_result, after_request,
}
use go_opentelemetry.AsyncExporter.System.{
  Event, starts, offers, takes, finishes, shuts, waited, reconnects, when_taken, step, Reach, fresh,
  next,
}

-- The logs of all the batches.
abbrev pub size : List Batch → ℕ
size [] = 0
size (b ∷ bs) = length b + size bs

size-append : (bs : List Batch) (b : Batch) → size (bs ++ b ∷ []) ≡ size bs + length b
size-append [] b = omega arith
size-append (c ∷ bs) b = omega (arith, size-append bs b)

pub record Inv (e : Exporter) : Type 0 where
  pub counted :
      size e.accepted ≡ e.async_success + e.async_failed + size e.logs_batch_ch.items + size e.busy
  pub answered : size e.delivered ≡ e.async_success
  pub unstarted :
      e.start_once ≡ false
      → (e.logs_batch_ch.items ≡ [])
        × (e.busy ≡ [])
        × (e.idle ≡ 0)
        × (e.started ≡ false)
        × (e.shutting ≡ none)
        × (e.stop_closed ≡ false)
  pub workers : e.start_once ≡ true → e.idle + length e.busy ≤ e.concurrency
  pub left :
      e.start_once ≡ true
      → e.idle + length e.busy < e.concurrency
      → (e.logs_batch_ch.items ≡ []) × (e.logs_batch_ch.closed ≡ true)
  pub stops : e.stop_closed ≡ true → (e.idle ≡ 0) × (e.busy ≡ [])

fresh-Inv : (c : ℕ) → Inv (new_unstarted_exporter c)
fresh-Inv c = ground arith

-- What connecting leaves as it is.
record Connected (e f : Exporter) : Type 0 where
  pub accepted : f.accepted ≡ e.accepted
  pub delivered : f.delivered ≡ e.delivered
  pub async_success : f.async_success ≡ e.async_success
  pub async_failed : f.async_failed ≡ e.async_failed
  pub logs_batch_ch : f.logs_batch_ch ≡ e.logs_batch_ch
  pub busy : f.busy ≡ e.busy
  pub idle : f.idle ≡ e.idle
  pub start_once : f.start_once ≡ e.start_once
  pub started : f.started ≡ e.started
  pub shutting : f.shutting ≡ e.shutting
  pub stop_closed : f.stop_closed ≡ e.stop_closed
  pub concurrency : f.concurrency ≡ e.concurrency

connect-Connected : (dial : Dial) (e : Exporter) → Connected e (note_connect (connect dial e))
unfolding connect enable_connections
connect-Connected (dial_failed n) e = ground arith
connect-Connected (dialed cc) e = elim (Bool-cases e.started) [
  | inl h ↦ rw h (ground arith)
  | inr h ↦ rw h (ground arith)
]

start-Inv : (dial : Dial) (e : Exporter) → Inv e → Inv (start dial e).1
unfolding start
start-Inv dial e v = by_once e.start_once refl
  where
    body : e.start_once ≡ false → Inv (start_body dial e)
    body h =
        let ready = record e {
          started = true;
          start_once = true;
          stop_closed = false;
          disconnected_token = false;
          logs_batch_ch = record { items = []; cap = 2 * e.concurrency; closed = false };
        } in
        let k = connect-Connected dial ready in ground (arith, v, k)

    by_once :
        (b : Bool)
        → e.start_once ≡ b
        → Inv
            (if◌then◌else◌ {A = Option Error × Exporter} b
              (some already_started, e)
              (none, start_body dial e)).1
    by_once true h = v
    by_once false h = body h

export_logs-Inv : (b : Batch) (e : Exporter) → Inv e → Ok Inv (when_taken (export_logs b e))
unfolding export_logs
export_logs-Inv b e v = elim (Bool-cases e.start_once) [
  | inl h ↦ elim (send_cases b e.logs_batch_ch) [
    | is_sent c r i _ k m _ ↦
        rw (h, r) (ground (arith, size-append e.accepted b, size-append e.logs_batch_ch.items b))
    | is_full r _ _ ↦ rw (h, r) tt
    | is_panicked r _ ↦ rw (h, r) tt
  ]
  | inr h ↦ rw h tt
]

take_batch-Inv : (n : ℕ) (e : Exporter) → Inv e → e.idle ≡ n → Ok Inv (take_batch_at n e)
take_batch-Inv zero e v q = tt
take_batch-Inv (suc n) e v q = elim (recv_cases e.logs_batch_ch) [
  | is_got b c r i _ m ↦ rw (r, Ok, take_batch_at) (ground arith)
  | is_drained r i m ↦ rw (r, Ok, take_batch_at) (ground arith)
  | is_waiting r i m ↦ rw (r, Ok, take_batch_at) tt
]

-- The batch that is picked and the others make up all of them.
record Picked (bs cs : List Batch) (b : Batch) : Type 0 where
  pub sizes : size bs ≡ length b + size cs
  pub lengths : length bs ≡ suc (length cs)

pick-Picked :
    (i : ℕ) (bs : List Batch) (b : Batch) (cs : List Batch)
    → pick i bs ≡ some (b, cs)
    → Picked bs cs b
unfolding pick
pick-Picked i [] b cs h = absurd (cc)
pick-Picked zero (c ∷ bs) b cs h = ground (arith, h)
pick-Picked (suc i) (c ∷ bs) b cs h = elim (Option-cases (pick i bs)) [
  | inl q ↦ absurd (ground (arith, h, q))
  | inr ((d, ds), q) ↦ ground (arith, h, q, pick-Picked i bs d ds q)
]

-- A batch that has been exported is counted once, as a success or as a failure.
export_logs_internal-Inv :
    (b : Batch) (cs : List Batch) (answer : Option Status) (canceled : Bool) (e : Exporter)
    → Inv e
    → Picked e.busy cs b
    → Inv (
        count_result
          (length b)
          (export_logs_internal b answer canceled (record e { busy = cs; idle = e.idle + 1 })))
unfolding export_logs_internal connected
export_logs_internal-Inv [] cs answer canceled e v k = ground (arith, v, k)
export_logs_internal-Inv (l ∷ ls) cs answer canceled e v k =
    if_both (λ o. Inv (count_result (suc (length ls)) o)) (not (connected e)) (ground (arith, v, k))
      (if_both (λ o. Inv (count_result (suc (length ls)) o)) e.stop_closed (ground (arith, v, k))
        (by_answer answer))
  where
    by_answer :
        (answer : Option Status)
        → Inv (
            count_result
              (suc (length ls))
              (after_request (l ∷ ls) answer (record e { busy = cs; idle = e.idle + 1 })))
    by_answer none = ground (arith, v, k, size-append e.delivered (l ∷ ls))
    by_answer (some s) = ground (arith, v, k)

finish_picked-Inv :
    (o : Option (Batch × List Batch)) (answer : Option Status) (canceled : Bool) (e : Exporter)
    → Inv e
    → ((b : Batch) (cs : List Batch) → o ≡ some (b, cs) → Picked e.busy cs b)
    → Ok Inv (finish_picked o answer canceled e)
finish_picked-Inv none answer canceled e v h = tt
finish_picked-Inv (some (b, cs)) answer canceled e v h =
    export_logs_internal-Inv b cs answer canceled e v (h b cs refl)

closing-Inv : (e : Exporter) → Inv e → e.started ≡ true → Ok Inv (closing (close e.logs_batch_ch) e)
unfolding close
closing-Inv e v h = elim (Bool-cases e.logs_batch_ch.closed) [
  | inl k ↦ rw k tt
  | inr k ↦ rw k (ground arith)
]

shutdown-Inv : (e : Exporter) → Inv e → Ok Inv (shutdown e)
unfolding shutdown
shutdown-Inv e v = elim (Bool-cases e.started) [
  | inl h ↦ simp h (closing-Inv e v h)
  | inr h ↦ simp h v
]

returned-Empty : (n : ℕ) (bs : List Batch) → all_returned n bs ≡ true → (n ≡ 0) × (bs ≡ [])
returned-Empty zero [] h = (refl, refl)
returned-Empty zero (b ∷ bs) h = absurd (cc)
returned-Empty (suc n) bs h = absurd (cc)

shutdown_wait-Inv :
    (o : Option (Option ℕ)) (e : Exporter) → Inv e → e.shutting ≡ o → Ok Inv (shutdown_wait_at o e)
shutdown_wait-Inv none e v h = tt
shutdown_wait-Inv (some cc_) e v h = elim (Bool-cases (all_returned e.idle e.busy)) [
  | inl k ↦ rw k (ground (arith, returned-Empty e.idle e.busy k))
  | inr k ↦ rw k tt
]

background-Inv :
    (b : Background) (stops : Bool) (dial : Dial) (e : Exporter)
    → Inv e
    → Ok Inv (background_at b stops dial e)
background-Inv unborn stops dial e v = tt
background-Inv awaiting true dial e v = if_both (Ok Inv) e.stop_closed (ground arith) tt
background-Inv awaiting false dial e v = if_both (Ok Inv) e.disconnected_token (ground arith) tt
background-Inv connecting stops dial e v = ground (arith, connect-Connected dial e, v)
background-Inv sleeping true dial e v = if_both (Ok Inv) e.stop_closed (ground arith) tt
background-Inv sleeping false dial e v = ground arith
background-Inv returned stops dial e v = tt

step-Inv : (w : Event) (e : Exporter) → Inv e → Ok Inv (step w e)
unfolding step take_batch finish_batch shutdown_wait indefinite_background_connection
step-Inv (starts dial) e v = start-Inv dial e v
step-Inv (offers b) e v = export_logs-Inv b e v
step-Inv takes e v = take_batch-Inv e.idle e v refl
step-Inv (finishes i answer canceled) e v =
    finish_picked-Inv (pick i e.busy) answer canceled e v (λ b cs h. pick-Picked i e.busy b cs h)
step-Inv shuts e v = shutdown-Inv e v
step-Inv waited e v = shutdown_wait-Inv e.shutting e v refl
step-Inv (reconnects stops dial) e v = background-Inv e.background stops dial e v

pub Reach-Inv : {c : ℕ} {e : Exporter} → Reach c e → Inv e
Reach-Inv {c} fresh = fresh-Inv c
Reach-Inv (next w {e} {f} r h) = Ok-some Inv (step w e) (step-Inv w e (Reach-Inv r)) h
