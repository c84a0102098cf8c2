-- ===== src/Rpc/Handled.antt =====
-- sdk/metric/rpc_client_reporter.go, rpc_server_reporter.go: Handled, and which updates carry an
-- exemplar. The time a call took is compared in nanoseconds, and in seconds as a float64 in the source.
-- The panic of WithLabelValues is in Applied.
use go_opentelemetry.Prelude.{
  ℕ, ◌-◌, Bool, Option, none, some, String, List, [], ◌∷◌, ◌++◌, map, if◌then◌else◌, not, ◌&&◌, leb,
  str_eq,
}
use go_opentelemetry.Codes.{Code, code_type_success, code_type_string}
use go_opentelemetry.Codes.Mapping.{CodeConverter, mapping}
use go_opentelemetry.Rpc.{
  Side, Reporter, Update, Label, text, bytes, reserved, handled_counter, handled_histogram, inc,
  add_with_exemplar, observe, observe_with_exemplar,
}

-- `counterNeedUseExemplar`, where `sampled` is `IsSampled` of the context's span.
unfoldable pub counter_need_use_exemplar : Reporter → Bool → String → Bool
counter_need_use_exemplar r sampled code_type =
    if r.enable_deferred_sample && r.deferred_sample_error
    then not (str_eq code_type (code_type_string code_type_success))
    else sampled

-- `histogramNeedUseExemplar`
unfoldable pub histogram_need_use_exemplar : Reporter → Bool → ℕ → Bool
histogram_need_use_exemplar r sampled cost =
    if r.enable_deferred_sample then leb r.deferred_sample_slow_duration cost else sampled

abbrev pub end_or : Option ℕ → ℕ → ℕ
end_or none now = now
end_or (some t) now = t

abbrev pub handled_labels : Reporter → String → Code → List Label
handled_labels r code c =
    reserved r ++ (text code ∷ text c.type ∷ bytes c.description ∷ []) ++ map text r.extra_labels

-- The end of a call, as `Handled` takes it, less its start.
abbrev pub cost_of : Reporter → ℕ → ℕ
cost_of r now = end_or r.end_time now - r.start_time

module _ (cm : CodeConverter) (is_adder is_observer : Bool) where
  -- `Handled` of a reporter, at a time. `is_adder` and `is_observer` are whether the library's counters
  -- and histograms implement the interfaces for exemplars.
  unfoldable pub handled : Side → Reporter → Bool → String → ℕ → Reporter × List Update
  handled side r sampled code now =
      let c = mapping cm code r.callee_service r.callee_method in
      let labels = handled_labels r code c in
      let cost = cost_of r now in
      let counted =
        if counter_need_use_exemplar r sampled c.type
        then (if is_adder
            then (record { vec = handled_counter side; labels = labels; op = add_with_exemplar }
                ∷ [])
            else [])
        else (record { vec = handled_counter side; labels = labels; op = inc } ∷ []) in
      let observed =
        if histogram_need_use_exemplar r sampled cost
        then (if is_observer
            then (record {
              vec = handled_histogram side;
              labels = labels;
              op = observe_with_exemplar cost;
            }
                ∷ [])
            else [])
        else (record { vec = handled_histogram side; labels = labels; op = observe cost } ∷ []) in
      (record r { end_time = some (end_or r.end_time now) }, counted ++ observed)
