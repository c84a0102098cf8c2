-- ===== src/Cardinality.antt =====
-- sdk/metric/limit_cardinality.go: the gatherer and the collector that bound how many series are
-- exported. Names are bytes; a gauge's value is the newest entry of its name.
pub mod Limits
mod Tests
use go_opentelemetry.Prelude.{
  ℕ, zero, suc, ◌+◌, Bool, true, false, Option, none, some, List, [], ◌∷◌, ◌++◌, if◌then◌else◌, not,
  ◌==◌, ◌&&◌, ◌||◌, ltb, leb, length, take,
}

abbrev pub has_prefix : List ℕ → List ℕ → Bool
has_prefix s [] = true
has_prefix [] (p ∷ ps) = false
has_prefix (b ∷ bs) (p ∷ ps) = b == p && has_prefix bs ps

-- `rpc_client`, `rpc_server` and `total`
abbrev pub rpc_client : List ℕ
rpc_client = b'r' ∷ b'p' ∷ b'c' ∷ b'_' ∷ b'c' ∷ b'l' ∷ b'i' ∷ b'e' ∷ b'n' ∷ b't' ∷ []

abbrev pub rpc_server : List ℕ
rpc_server = b'r' ∷ b'p' ∷ b'c' ∷ b'_' ∷ b's' ∷ b'e' ∷ b'r' ∷ b'v' ∷ b'e' ∷ b'r' ∷ []

abbrev pub total_name : List ℕ
total_name = b't' ∷ b'o' ∷ b't' ∷ b'a' ∷ b'l' ∷ []

-- What a gather changes outside: the gauges set, and how often the two groups of metrics were reset.
pub record Effects : Type 0 where
  pub gauges : List (List ℕ × ℕ)
  pub client_resets : ℕ
  pub server_resets : ℕ

abbrev pub set_gauge : List ℕ → ℕ → Effects → Effects
set_gauge name v e = record e { gauges = (name, v) ∷ e.gauges }

-- `LimitCardinalityGatherer`'s limits; 0 stands for each limit that is not positive.
pub record LimitCardinalityGatherer : Type 0 where
  pub per_metric_limit : ℕ
  pub total_metric_limit : ℕ

-- `dto.MetricFamily`
pub record MetricFamily (M : Type 0) : Type 0 where
  pub name : List ℕ
  pub metrics : List M

-- The two `sync.Once` of a gather
pub record Resets : Type 0 where
  pub client_done : Bool
  pub server_done : Bool

abbrev pub reset_client : Bool → Resets × Effects → Resets × Effects
reset_client false (r, e) = (r, e)
reset_client true (r, e) =
    if r.client_done
    then (r, e)
    else (record r { client_done = true }, record e { client_resets = e.client_resets + 1 })

abbrev pub reset_server : Bool → Resets × Effects → Resets × Effects
reset_server false (r, e) = (r, e)
reset_server true (r, e) =
    if r.server_done
    then (r, e)
    else (record r { server_done = true }, record e { server_resets = e.server_resets + 1 })

abbrev pub is_over : ℕ → ℕ → Bool
is_over limit n = ltb 0 limit && ltb limit n

module _ {M : Type 0} where
  -- The first half of a round: the family's own limit.
  unfoldable pub cut : LimitCardinalityGatherer → MetricFamily M → MetricFamily M
  cut l v =
      if is_over l.per_metric_limit (length v.metrics)
      then record v { metrics = take l.per_metric_limit v.metrics }
      else v

  unfoldable pub note_cut :
      LimitCardinalityGatherer → MetricFamily M → Resets × Effects → Resets × Effects
  note_cut l v (r, e) =
      if is_over l.per_metric_limit (length v.metrics)
      then reset_server (has_prefix v.name rpc_server)
          (reset_client (has_prefix v.name rpc_client) (r, set_gauge v.name (length v.metrics) e))
      else (r, set_gauge v.name 0 e)

  module _ (processor : List (MetricFamily M) → List (MetricFamily M))
      (l : LimitCardinalityGatherer) where
    -- The loop of `Gather`: the families passed, how many there are in all, the series so far.
    unfoldable pub gather_loop :
        List (MetricFamily M)
        → ℕ
        → ℕ
        → List (MetricFamily M)
        → Resets × Effects
        → List (MetricFamily M) × Effects
    gather_loop done count total [] (r, e) = (processor done, e)
    gather_loop done count total (v ∷ vs) s =
        let w = cut l v in
        let (r, e) = note_cut l v s in
        let total2 = total + length w.metrics in
        let rest = gather_loop (done ++ w ∷ []) count total2 vs (r, set_gauge total_name 0 e) in
        if is_over l.total_metric_limit total2 then (done, set_gauge total_name count e) else rest

    -- `Gather`, when the gatherer inside returns the families without an error.
    unfoldable pub gather : List (MetricFamily M) → Effects → List (MetricFamily M) × Effects
    gather res e =
        gather_loop [] (length res) 0 res (record { client_done = false; server_done = false }, e)

-- `LimitCardinalityCollector`; what its metrics are sorted and dropped by are parameters: a metric's
-- value, the order of floating-point numbers, whether one is at most 1, and sort.Slice.
pub record LimitCardinalityCollector : Type 0 where
  pub desc : List ℕ
  pub limit : ℕ

module _ {M F : Type 0} (get_metric_value : M → F) (greater : F → F → Bool) (at_most_one : F → Bool)
    (sort_slice : (M → M → Bool) → List M → List M) where
  -- The loop over the sorted metrics from index `i` on: those kept, and those deleted.
  unfoldable pub split_metrics : ℕ → ℕ → List M → List M × List M
  split_metrics limit i [] = ([], [])
  split_metrics limit i (m ∷ ms) =
      let (kept, deleted) = split_metrics limit (suc i) ms in
      if at_most_one (get_metric_value m) || leb limit i
      then (kept, m ∷ deleted)
      else (m ∷ kept, deleted)

  abbrev pub higher : M → M → Bool
  higher a b = greater (get_metric_value a) (get_metric_value b)

  -- `Collect` of the metrics that the collector inside yields: what is sent on, what is deleted.
  unfoldable pub collect :
      LimitCardinalityCollector → List M → Effects → (List M × List M) × Effects
  collect c results e = if leb (length results) c.limit then ((results, []), e) else (
    split_metrics c.limit 0 (sort_slice higher results),
    set_gauge c.desc (length results) e,
  )
