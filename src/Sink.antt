-- ===== src/Sink.antt =====
-- oteltrpc/metrics/prometheus/trpc_metric.go: the sink of tRPC's metrics. A vector of the Prometheus
-- library is its labels, what names it, and the values that it has been given, each with the values of
-- its labels. Names are bytes, and the values are floating-point numbers F.
pub mod Vectors
mod Tests
use go_opentelemetry.Prelude.{
  ℕ, ◌==◌, Bool, true, false, Option, none, some, List, [], ◌∷◌, ◌++◌, map, if◌then◌else◌, length,
  ◌>>=◌, ◌&&◌, not,
}
use go_opentelemetry.Cgroups.{Bytes, bytes_eq}
use go_opentelemetry.CgroupsV2.{has_prefix}
use go_opentelemetry.Utf8.{to_valid_utf8}
use go_opentelemetry.Names.Hash.{hash_new, hash_add, hash_add_byte}

-- `model.SeparatorByte`
abbrev pub separator_byte : ℕ
separator_byte = 255

-- `labelsHash`
unfoldable pub add_labels : ℕ → List Bytes → ℕ
add_labels h [] = h
add_labels h (v ∷ vs) = add_labels (hash_add_byte (hash_add h v) separator_byte) vs

abbrev pub labels_hash : Bytes → List Bytes → ℕ
labels_hash name labels = add_labels (hash_add hash_new name) labels

-- `trpc_counter_`, `_total` and `trpc_gauge_`
abbrev pub counter_prefix : Bytes
counter_prefix =
    b't' ∷ b'r' ∷ b'p' ∷ b'c' ∷ b'_' ∷ b'c' ∷ b'o' ∷ b'u' ∷ b'n' ∷ b't' ∷ b'e' ∷ b'r' ∷ b'_' ∷ []

abbrev pub total_suffix : Bytes
total_suffix = b'_' ∷ b't' ∷ b'o' ∷ b't' ∷ b'a' ∷ b'l' ∷ []

abbrev pub gauge_prefix : Bytes
gauge_prefix = b't' ∷ b'r' ∷ b'p' ∷ b'c' ∷ b'_' ∷ b'g' ∷ b'a' ∷ b'u' ∷ b'g' ∷ b'e' ∷ b'_' ∷ []

-- `trpc_histogram_`
abbrev pub histogram_prefix : Bytes
histogram_prefix =
    b't' ∷ b'r' ∷ b'p' ∷ b'c' ∷ b'_' ∷ b'h' ∷ b'i' ∷ b's' ∷ b't' ∷ b'o' ∷ b'g' ∷ b'r' ∷ b'a' ∷ b'm'
    ∷ b'_' ∷ []

-- `strings.HasSuffix`
abbrev pub has_suffix : Bytes → Bytes → Bool
has_suffix suffix [] = bytes_eq suffix []
has_suffix suffix (b ∷ bs) =
    let rest = has_suffix suffix bs in if bytes_eq suffix (b ∷ bs) then true else rest

-- `getCounterName`
unfoldable pub get_counter_name : Bytes → Bytes
get_counter_name name =
    let n = if not (has_prefix counter_prefix name) then counter_prefix ++ name else name in
    if not (has_suffix total_suffix n) then n ++ total_suffix else n

-- `getGaugeName`
unfoldable pub get_gauge_name : Bytes → Bytes
get_gauge_name name = if not (has_prefix gauge_prefix name) then gauge_prefix ++ name else name

-- `_name`, `_type` and `histogram`
abbrev pub fixed_labels : List Bytes
fixed_labels =
    (b'_' ∷ b'n' ∷ b'a' ∷ b'm' ∷ b'e' ∷ []) ∷ (b'_' ∷ b't' ∷ b'y' ∷ b'p' ∷ b'e' ∷ []) ∷ []

abbrev pub histogram_type : Bytes
histogram_type = b'h' ∷ b'i' ∷ b's' ∷ b't' ∷ b'o' ∷ b'g' ∷ b'r' ∷ b'a' ∷ b'm' ∷ []

-- The labels of a histogram that is made for a report, and the values: the user's, or the fixed ones.
abbrev pub labels_for : List Bytes → List Bytes → List Bytes
labels_for labels values =
    if not (length labels == 0) && length labels == length values then labels else fixed_labels

abbrev pub values_for : List Bytes → List Bytes → Bytes → List Bytes
values_for labels values name =
    if not (length labels == 0) && length labels == length values
    then values
    else to_valid_utf8 name ∷ histogram_type ∷ []

-- `Policy`
pub data Policy : Type 0 where
  policy_sum policy_set policy_timer policy_histogram policy_other : Policy

module _ (F : Type 0) where
  -- A vector: its name, the record's name and the metric's in its constant label `_name`, its labels, and
  -- the values given.
  pub record MetricVec : Type 0 where
    pub name : Bytes
    pub const_name : Option (Bytes × Bytes)
    pub labels : List Bytes
    pub values : List (List Bytes × F)

  -- `Sink`: what the two vectors of single metrics have been given, the vectors by their hash, and the
  -- histograms by their metric's name.
  pub record Sink : Type 0 where
    pub counter : List (Bytes × F)
    pub gauge : List (Bytes × F)
    pub counters : List (ℕ × MetricVec)
    pub gauges : List (ℕ × MetricVec)
    pub histograms : List (Bytes × MetricVec)

  -- A metric of a record.
  pub record Metric : Type 0 where
    pub name : Bytes
    pub policy : Policy
    pub value : F

module _ {F : Type 0} where
  -- `WithLabelValues` with what is then done to the metric; `none` is its panic.
  abbrev pub give : List Bytes → F → MetricVec F → Option (MetricVec F)
  give values value v =
      if length values == length v.labels
      then some (record v { values = v.values ++ (values, value) ∷ [] })
      else none

  -- `LoadOrStore` of the vector at a key and a change of it. `fresh` is stored where there is none.
  abbrev pub give_at :
      {K : Type 0}
      → (K → K → Bool)
      → K
      → MetricVec F
      → List Bytes
      → F
      → List (K × MetricVec F)
      → Option (List (K × MetricVec F))
  give_at same k fresh values value [] = give values value fresh >>= λ v. some ((k, v) ∷ [])
  give_at same k fresh values value ((j, v) ∷ m) =
      let rest = give_at same k fresh values value m in
      if same j k
      then (give values value v >>= λ w. some ((j, w) ∷ m))
      else (rest >>= λ n. some ((j, v) ∷ n))

  -- The single metric where there are no labels, the vector otherwise.
  abbrev pub by_labels : List Bytes → Option (Sink F) → Option (Sink F) → Option (Sink F)
  by_labels [] single multi = single
  by_labels (l ∷ ls) single multi = multi

  -- `negative` tells the values for which `Add` panics; `convert_metric_name` is `convertMetricName`, by the
  -- library's tables, and `to_seconds` reads a value as a duration.
  module _ (convert_metric_name : Bytes → Bytes) (negative : F → Bool) (to_seconds : F → F) where
    -- `incrCounter`
    unfoldable pub incr_counter :
        Bytes → Bytes → F → List Bytes → List Bytes → Sink F → Option (Sink F)
    incr_counter rec_name name value labels values s =
        if negative value
        then none
        else by_labels labels
            (some (record s { counter = s.counter ++ (to_valid_utf8 name, value) ∷ [] }))
            (give_at (λ a b. a == b) (labels_hash name labels)
                (record {
                  name = get_counter_name (convert_metric_name name);
                  const_name = some (rec_name, name);
                  labels = labels;
                  values = [];
                })
                values value s.counters
              >>= λ m. some (record s { counters = m }))

    -- `setGauge`
    unfoldable pub set_gauge :
        Bytes → Bytes → F → List Bytes → List Bytes → Sink F → Option (Sink F)
    set_gauge rec_name name value labels values s =
        by_labels labels (some (record s { gauge = s.gauge ++ (to_valid_utf8 name, value) ∷ [] })) (
          give_at (λ a b. a == b) (labels_hash name labels)
            (record {
              name = get_gauge_name (convert_metric_name name);
              const_name = some (rec_name, name);
              labels = labels;
              values = [];
            })
            values value s.gauges
          >>= λ m. some (record s { gauges = m }))

    abbrev pub histogram_vec : Bytes → List Bytes → MetricVec F
    histogram_vec name labels = record {
      name = histogram_prefix ++ convert_metric_name name;
      const_name = none;
      labels = labels;
      values = [];
    }

    -- `observeHistogram`
    unfoldable pub observe_histogram :
        Bytes → F → List Bytes → List Bytes → Sink F → Option (Sink F)
    observe_histogram name value labels values s =
        give_at bytes_eq name (histogram_vec name (labels_for labels values))
          (values_for labels values name) value s.histograms
        >>= λ m. some (record s { histograms = m })

    abbrev pub report_metric :
        Bytes → List Bytes → List Bytes → Policy → Bytes → F → Sink F → Option (Sink F)
    report_metric rec_name labels values policy_sum name value s =
        incr_counter rec_name name value labels values s
    report_metric rec_name labels values policy_set name value s =
        set_gauge rec_name name value labels values s
    report_metric rec_name labels values policy_timer name value s =
        observe_histogram name (to_seconds value) labels values s
    report_metric rec_name labels values policy_histogram name value s =
        observe_histogram name value labels values s
    report_metric rec_name labels values policy_other name value s =
        set_gauge rec_name name value labels values s

    -- `Report`, without `WithNoSink`; a dimension is a label and its value.
    unfoldable pub report :
        Bytes → List (Bytes × Bytes) → List (Metric F) → Sink F → Option (Sink F)
    report rec_name dimensions [] s = some s
    report rec_name dimensions (m ∷ ms) s =
        report_metric rec_name (map (λ d. d.0) dimensions) (map (λ d. d.1) dimensions) m.policy
          m.name m.value s
        >>= report rec_name dimensions ms
