-- ===== src/Sink/Tests.antt =====
-- Two reports of one histogram, with one dimension and with none, and the names of vectors.
use go_opentelemetry.Prelude.{
  ℕ, Bool, false, Option, none, some, List, [], ◌∷◌, ◌++◌, ◌≡◌, refl, arith,
}
use go_opentelemetry.Cgroups.{Bytes}
use go_opentelemetry.Sink.{
  Sink, policy_histogram, report, observe_histogram, get_counter_name, counter_prefix, total_suffix,
}
use go_opentelemetry.Sink.Vectors.{histogram_panics}

abbrev same : Bytes → Bytes
same s = s

abbrev never : ℕ → Bool
never n = false

abbrev seconds : ℕ → ℕ
seconds n = n

abbrev new_sink : Sink ℕ
new_sink = record { counter = []; gauge = []; counters = []; gauges = []; histograms = [] }

abbrev cost : Bytes
cost = b'c' ∷ b'o' ∷ b's' ∷ b't' ∷ []

abbrev zone : List (Bytes × Bytes)
zone = (b'z' ∷ [], b'1' ∷ []) ∷ []

abbrev or_new : Option (Sink ℕ) → Sink ℕ
or_new none = new_sink
or_new (some s) = s

abbrev reported : Sink ℕ
reported = or_new (
    report same never seconds (b'r' ∷ []) zone
      (record { name = cost; policy = policy_histogram; value = 3 } ∷ []) new_sink)

histogram_panics_example :
    report same never seconds
      (b'q' ∷ [])
      []
      (record { name = cost; policy = policy_histogram; value = 4 } ∷ [])
      reported
    ≡ none
unfolding report observe_histogram
histogram_panics_example =
    histogram_panics same never seconds cost 3 4 (b'r' ∷ []) (b'q' ∷ []) zone [] new_sink
      (λ e. absurd (omega (arith, e))) refl

counter_named : get_counter_name (counter_prefix ++ cost) ≡ counter_prefix ++ cost ++ total_suffix
unfolding get_counter_name
counter_named = refl
