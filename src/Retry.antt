-- ===== src/Retry.antt =====
-- exporter/retry/retry.go: RequestFunc's loop. The request, the exponential backoff of the library and
-- the clock are given by what they answer at the n-th attempt.
pub mod Outcome
mod Tests
use go_opentelemetry.Prelude.{
  ℕ, zero, suc, ◌+◌, Bool, true, false, Option, none, some, List, [], ◌∷◌, if◌then◌else◌, not, ◌==◌,
  ◌&&◌, ltb,
}

-- `Config`. Durations are in nanoseconds and not negative.
pub record Config : Type 0 where
  pub enabled : Bool
  pub initial_interval : ℕ
  pub max_interval : ℕ
  pub max_elapsed_time : ℕ

abbrev pub default_config : Config
default_config = record {
  enabled = true;
  initial_interval = 1_000_000_000;
  max_interval = 2_000_000_000;
  max_elapsed_time = 5_000_000_000;
}

module _ (E : Type 0) where
  -- What the n-th attempt meets: the request's error, `NextBackOff`, where `none` is `Stop`,
  -- `GetElapsedTime`, and for the wait the context's error, if the select of `wait` takes the case of
  -- the context, with whether the timer has fired by then.
  pub record World : Type 0 where
    pub request : ℕ → Option E
    pub next_back_off : ℕ → Option ℕ
    pub elapsed_time : ℕ → ℕ
    pub context_done : ℕ → Option E
    pub timer_fired : ℕ → Bool

  -- How a call ends: nil, the request's error as it is, wrapped by one of the two messages, or the
  -- context's error; or it has not ended when the fuel is spent.
  pub data Ending : Type 0 where
    succeeded : Ending
    not_retryable : E → Ending
    max_retry_time_elapsed : E → Ending
    max_retry_time_would_elapse : E → Ending
    context_error : E → Ending
    unfinished : Ending

  -- An ending, the attempts made, and the delays waited for, first to last.
  pub record Run : Type 0 where
    pub ending : Ending
    pub attempts : ℕ
    pub delays : List ℕ

  -- `wait`
  unfoldable pub wait : Option E → Bool → Option E
  wait none fired = none
  wait (some e) fired = if fired then none else some e

  abbrev pub end_with : ℕ → Ending → Run
  end_with n e = record { ending = e; attempts = suc n; delays = [] }

  abbrev pub after_delay : ℕ → Run → Run
  after_delay d r = record r { delays = d ∷ r.delays }

  module _ (evaluate : E → Bool × ℕ) (max_elapsed_time : ℕ) (w : World) where
    -- `waitFunc(ctx, delay)`, and the next round of the loop
    abbrev pub wait_then : ℕ → ℕ → Run → Run
    wait_then n delay rest = elim (wait (w.context_done n) (w.timer_fired n)) [
      | none ↦ after_delay delay rest
      | some e ↦ after_delay delay (end_with n (context_error e))
    ]

    -- The greater of the backoff and the throttle delay, unless the throttle is too long.
    abbrev pub delay_or_end : ℕ → E → ℕ → ℕ → Run → Run
    delay_or_end n e throttle back_off rest =
        if ltb throttle back_off
        then wait_then n back_off rest
        else (if not (max_elapsed_time == 0) && ltb max_elapsed_time (w.elapsed_time n + throttle)
            then end_with n (max_retry_time_would_elapse e)
            else wait_then n throttle rest)

    abbrev pub back_off_or_end : ℕ → E → ℕ → Option ℕ → Run → Run
    back_off_or_end n e throttle none rest = end_with n (max_retry_time_elapsed e)
    back_off_or_end n e throttle (some back_off) rest = delay_or_end n e throttle back_off rest

    abbrev pub on_error : ℕ → E → Bool × ℕ → Run → Run
    on_error n e (retryable, throttle) rest =
        if not retryable
        then end_with n (not_retryable e)
        else back_off_or_end n e throttle (w.next_back_off n) rest

    abbrev pub after_request : ℕ → Option E → Run → Run
    after_request n none rest = end_with n succeeded
    after_request n (some e) rest = on_error n e (evaluate e) rest

    -- The loop from the n-th attempt on, for so many rounds.
    unfoldable pub retry_loop : ℕ → ℕ → Run
    retry_loop zero n = record { ending = unfinished; attempts = n; delays = [] }
    retry_loop (suc fuel) n = after_request n (w.request n) (retry_loop fuel (suc n))

  abbrev pub of_request : Option E → Ending
  of_request none = succeeded
  of_request (some e) = not_retryable e

  -- The function that `RequestFunc` returns.
  unfoldable pub request_func : (E → Bool × ℕ) → Config → World → ℕ → Run
  request_func evaluate c w fuel =
      if not c.enabled
      then end_with 0 (of_request (w.request 0))
      else retry_loop evaluate c.max_elapsed_time w fuel 0
