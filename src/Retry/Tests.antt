-- ===== src/Retry/Tests.antt =====
-- exporter/retry/retry.go on a concrete sequence of answers.
use go_opentelemetry.Prelude.{
  ℕ, zero, suc, ◌≤◌, ◌≡◌, ◌≢◌, refl, Bool, true, none, some, [], ◌∷◌, arith, if◌then◌else◌, ltb,
}
use go_opentelemetry.Retry.{
  World, default_config, request_func, retry_loop, wait, unfinished, succeeded, Run,
}
use go_opentelemetry.Retry.Outcome.{request_func_ends, request_func_tells, TellsLast}

-- The request fails twice; the backoff would stop at the sixth attempt.
abbrev flaky : World ℕ
flaky = record {
  request = λ n. if ltb n 2 then some n else none;
  next_back_off = λ n. if ltb n 5 then some 10 else none;
  elapsed_time = λ n. n;
  context_done = λ n. none;
  timer_fired = λ n. true;
}

-- The second error asks for a longer delay than the backoff's.
abbrev throttled : ℕ → Bool × ℕ
throttled zero = (true, 0)
throttled (suc n) = (true, 30)

abbrev expected : Run ℕ
expected = record { ending = succeeded; attempts = 3; delays = 10 ∷ 30 ∷ [] }

third_time : request_func ℕ throttled default_config flaky 6 ≡ expected
unfolding request_func retry_loop wait
third_time = refl

request_func_ends_example :
    let r = request_func ℕ throttled default_config flaky 6 in
    (r.ending ≢ unfinished) × (r.attempts ≤ 6)
request_func_ends_example = request_func_ends throttled flaky default_config 5 6 refl (omega arith)

request_func_tells_example : TellsLast flaky (request_func ℕ throttled default_config flaky 6)
request_func_tells_example = request_func_tells throttled flaky default_config 6
