-- ===== src/Trace/Deferred/Tests.antt =====
-- The deferred sampler on three spans.
use go_opentelemetry.Prelude.{ℕ, pos, ◌≡◌, refl, true, false, some, List, [], ◌∷◌, ◌++◌}
use go_opentelemetry.Trace.Deferred.{
  EndedSpan, DeferredSampleConfig, DeferredCounters, error, ok, end_all, on_end_deferred,
  deferred_sampler, Ended, end_all-kept,
}

abbrev three : List EndedSpan
three =
    record { sampled = false; code = ok; start_time = 0; duration = pos 5 }
    ∷ record { sampled = false; code = error; start_time = 1; duration = pos 5 }
    ∷ record { sampled = false; code = ok; start_time = 2; duration = pos 50 }
    ∷ []

abbrev config : DeferredSampleConfig
config = record { enabled = true; sample_error = true; sample_slow_duration = pos 20 }

abbrev zeros : DeferredCounters
zeros = record { sampled = 0; errors = 0; slow = 0; unsampled = 0 }

abbrev collect : EndedSpan → List ℕ → List ℕ
collect s l = l ++ s.start_time ∷ []

keeps_two : (end_all collect (some config) three (zeros, [])).1 ≡ 1 ∷ 2 ∷ []
unfolding end_all on_end_deferred deferred_sampler
keeps_two = refl

end_all-kept_example :
    Ended collect config three zeros [] (end_all collect (some config) three (zeros, []))
end_all-kept_example = end_all-kept collect config three zeros []
