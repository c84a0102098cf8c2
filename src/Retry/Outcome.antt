-- ===== src/Retry/Outcome.antt =====
-- exporter/retry/retry.go: how and when RequestFunc's loop ends.
use go_opentelemetry.Prelude.{
  ℕ, zero, suc, ◌+◌, ◌≤◌, ◌<◌, ◌≡◌, ◌≢◌, refl, Bool, true, false, Option, none, some, not, arith,
  ltb, ◌==◌, ◌&&◌, Option-cases, inl, inr, ◌⊎◌, if_both, subst,
}
use go_opentelemetry.Retry.{
  World, Ending, succeeded, not_retryable, max_retry_time_elapsed, max_retry_time_would_elapse,
  context_error, unfinished, Run, wait, end_with, after_delay, wait_then, delay_or_end,
  back_off_or_end, on_error, after_request, retry_loop, Config, request_func, of_request,
}

-- What all runs have whose last attempt is the n-th, and what a delay before a run keeps.
pub record Closed {E : Type 0} (w : World E) (n : ℕ) (P : Run E → Type 0) : Type 0 where
  pub on_success : w.request n ≡ none → P (end_with E n succeeded)
  pub on_refusal : (e : E) → w.request n ≡ some e → P (end_with E n (not_retryable e))
  pub on_stop : (e : E) → w.request n ≡ some e → P (end_with E n (max_retry_time_elapsed e))
  pub on_throttle :
      (e : E) → w.request n ≡ some e → P (end_with E n (max_retry_time_would_elapse e))
  pub on_context : (e : E) → P (end_with E n (context_error e))
  pub on_delay : (d : ℕ) (r : Run E) → P r → P (after_delay E d r)

module _ {E : Type 0} (evaluate : E → Bool × ℕ) (max_elapsed_time : ℕ) (w : World E) (n : ℕ)
    (P : Run E → Type 0) (c : Closed w n P) (rest : Run E) where
  wait_then_keeps : (delay : ℕ) → P rest → P (wait_then E evaluate max_elapsed_time w n delay rest)
  wait_then_keeps delay h = elim (Option-cases (wait E (w.context_done n) (w.timer_fired n))) [
    | inl e ↦ rw (e, wait_then) (c.on_delay delay rest h)
    | inr (x, e) ↦
        rw (e, wait_then) (c.on_delay delay (end_with E n (context_error x)) (c.on_context x))
  ]

  delay_or_end_keeps :
      (e : E) (throttle back_off : ℕ)
      → w.request n ≡ some e
      → P rest
      → P (delay_or_end E evaluate max_elapsed_time w n e throttle back_off rest)
  delay_or_end_keeps e throttle back_off q h =
      if_both P (ltb throttle back_off) (wait_then_keeps back_off h) (
        if_both P
          (not (max_elapsed_time == 0) && ltb max_elapsed_time (w.elapsed_time n + throttle))
          (c.on_throttle e q) (wait_then_keeps throttle h))

  back_off_keeps :
      (e : E) (throttle : ℕ) (o : Option ℕ)
      → w.request n ≡ some e
      → (o ≡ none) ⊎ P rest
      → P (back_off_or_end E evaluate max_elapsed_time w n e throttle o rest)
  back_off_keeps e throttle none q h = c.on_stop e q
  back_off_keeps e throttle (some b) q (inl p) = absurd (cc)
  back_off_keeps e throttle (some b) q (inr h) = delay_or_end_keeps e throttle b q h

  on_error_keeps :
      (e : E) (answer : Bool × ℕ)
      → w.request n ≡ some e
      → (w.next_back_off n ≡ none) ⊎ P rest
      → P (on_error E evaluate max_elapsed_time w n e answer rest)
  on_error_keeps e (false, t) q h = c.on_refusal e q
  on_error_keeps e (true, t) q h = back_off_keeps e t (w.next_back_off n) q h

  -- A round keeps what the rest has, or needs no rest where the backoff stops.
  round_keeps :
      (o : Option E)
      → w.request n ≡ o
      → (w.next_back_off n ≡ none) ⊎ P rest
      → P (after_request E evaluate max_elapsed_time w n o rest)
  round_keeps none q h = c.on_success q
  round_keeps (some e) q h = on_error_keeps e (evaluate e) q h

-- The call has ended, after at most so many attempts.
abbrev pub Ended : {E : Type 0} → ℕ → Run E → Type 0
Ended n r = (r.ending ≢ unfinished) × (r.attempts ≤ n)

Ended-Closed : {E : Type 0} (w : World E) (m n : ℕ) → n < m → Closed w n (Ended m)
Ended-Closed w m n lt = record {
  on_success = λ q. (λ p. cc, lt);
  on_refusal = λ e q. (λ p. cc, lt);
  on_stop = λ e q. (λ p. cc, lt);
  on_throttle = λ e q. (λ p. cc, lt);
  on_context = λ e. (λ p. cc, lt);
  on_delay = λ d r h. h;
}

-- The ending tells what the k-th request answered.
abbrev pub Tells : {E : Type 0} → World E → Ending E → ℕ → Type 0
Tells w succeeded k = w.request k ≡ none
Tells w (not_retryable e) k = w.request k ≡ some e
Tells w (max_retry_time_elapsed e) k = w.request k ≡ some e
Tells w (max_retry_time_would_elapse e) k = w.request k ≡ some e
Tells w (context_error e) k = Unit {0}
Tells w unfinished k = Unit {0}

-- The last attempt is the one that the ending tells of.
abbrev pub TellsLast : {E : Type 0} → World E → Run E → Type 0
TellsLast w r = (r.ending ≡ unfinished) ⊎ ((k : ℕ) × ((r.attempts ≡ suc k) × Tells w r.ending k))

TellsLast-Closed : {E : Type 0} (w : World E) (n : ℕ) → Closed w n (TellsLast w)
TellsLast-Closed w n = record {
  on_success = λ q. inr (n, (refl, q));
  on_refusal = λ e q. inr (n, (refl, q));
  on_stop = λ e q. inr (n, (refl, q));
  on_throttle = λ e q. inr (n, (refl, q));
  on_context = λ e. inr (n, (refl, tt));
  on_delay = λ d r h. h;
}

module _ {E : Type 0} (evaluate : E → Bool × ℕ) (max_elapsed_time : ℕ) (w : World E) where
  retry_loop-Ended :
      (k fuel n : ℕ)
      → w.next_back_off (n + k) ≡ none
      → k < fuel
      → Ended (n + suc k) (retry_loop E evaluate max_elapsed_time w fuel n)
  unfolding retry_loop
  retry_loop-Ended k zero n h lt = absurd (omega (arith, lt))
  retry_loop-Ended zero (suc fuel) n h lt =
      round_keeps evaluate max_elapsed_time w n (Ended (n + 1))
        (Ended-Closed w (n + 1) n (omega arith))
        (retry_loop E evaluate max_elapsed_time w fuel (suc n)) (w.request n) refl
        (inl (ground (arith, h)))
  retry_loop-Ended (suc k) (suc fuel) n h lt =
      let later =
        retry_loop-Ended k fuel (suc n) (subst (λ i. w.next_back_off i ≡ none) (omega arith) h)
          (omega (arith, lt)) in
      round_keeps evaluate max_elapsed_time w n (Ended (n + suc (suc k)))
        (Ended-Closed w (n + suc (suc k)) n (omega arith))
        (retry_loop E evaluate max_elapsed_time w fuel (suc n)) (w.request n) refl
        (inr (later.0, omega (arith, later.1)))

  retry_loop-TellsLast :
      (fuel n : ℕ) → TellsLast w (retry_loop E evaluate max_elapsed_time w fuel n)
  unfolding retry_loop
  retry_loop-TellsLast zero n = inl refl
  retry_loop-TellsLast (suc fuel) n =
      round_keeps evaluate max_elapsed_time w n (TellsLast w) (TellsLast-Closed w n)
        (retry_loop E evaluate max_elapsed_time w fuel (suc n)) (w.request n) refl
        (inr (retry_loop-TellsLast fuel (suc n)))

-- If the backoff answers `Stop` at the k-th attempt, counted from 0, the call ends by then, whatever
-- the requests, the throttle delays and the context do: k + 1 rounds of fuel are enough, and at most
-- k + 1 requests are made.
pub request_func_ends :
    {E : Type 0} (evaluate : E → Bool × ℕ) (w : World E) (c : Config) (k fuel : ℕ)
    → w.next_back_off k ≡ none
    → k < fuel
    → let r = request_func E evaluate c w fuel in (r.ending ≢ unfinished) × (r.attempts ≤ suc k)
unfolding request_func
request_func_ends {E} evaluate w c k fuel h lt =
    if_both (Ended (suc k)) (not c.enabled) (once (w.request 0)) (
      subst (λ m. Ended m (retry_loop E evaluate c.max_elapsed_time w fuel 0)) (omega arith)
        (retry_loop-Ended evaluate c.max_elapsed_time w k fuel 0 (ground (arith, h)) lt))
  where
    once : (o : Option E) → Ended (suc k) (end_with E 0 (of_request E o))
    once none = (λ p. cc, omega arith)
    once (some e) = (λ p. cc, omega arith)

-- A call that has ended says what its last request answered: nil only if that request succeeded, and
-- of the other endings each but the context's error carries the error that the last request returned.
pub request_func_tells :
    {E : Type 0} (evaluate : E → Bool × ℕ) (w : World E) (c : Config) (fuel : ℕ)
    → TellsLast w (request_func E evaluate c w fuel)
unfolding request_func
request_func_tells {E} evaluate w c fuel =
    if_both (TellsLast w) (not c.enabled) (once (w.request 0) refl)
      (retry_loop-TellsLast evaluate c.max_elapsed_time w fuel 0)
  where
    once : (o : Option E) → w.request 0 ≡ o → TellsLast w (end_with E 0 (of_request E o))
    once none q = inr (0, (refl, q))
    once (some e) q = inr (0, (refl, q))
