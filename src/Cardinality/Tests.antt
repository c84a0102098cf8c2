-- ===== src/Cardinality/Tests.antt =====
-- sdk/metric/limit_cardinality.go on concrete families.
use go_opentelemetry.Prelude.{ℕ, ◌≤◌, ◌≡◌, refl, List, [], ◌∷◌, arith}
use go_opentelemetry.Cardinality.{
  LimitCardinalityGatherer, MetricFamily, Effects, gather, gather_loop, cut, note_cut, rpc_client,
  rpc_server,
}
use go_opentelemetry.Cardinality.Limits.{series, AllWithin, same_families, gather_limited}

abbrev limits : LimitCardinalityGatherer
limits = record { per_metric_limit = 2; total_metric_limit = 3 }

abbrev families : List (MetricFamily ℕ)
families =
    record { name = rpc_client; metrics = 5 ∷ 6 ∷ 7 ∷ [] }
    ∷ record { name = rpc_server; metrics = 8 ∷ [] }
    ∷ record { name = rpc_server; metrics = 9 ∷ [] }
    ∷ []

abbrev nothing_yet : Effects
nothing_yet = record { gauges = []; client_resets = 0; server_resets = 0 }

-- The third family is left out whole, the first is cut, and its client metrics are reset.
gathered :
    (gather same_families limits families nothing_yet).0
    ≡ record { name = rpc_client; metrics = 5 ∷ 6 ∷ [] }
      ∷ record { name = rpc_server; metrics = 8 ∷ [] }
      ∷ []
unfolding gather gather_loop cut
gathered = refl

reset_once : (gather same_families limits families nothing_yet).1.client_resets ≡ 1
unfolding gather gather_loop cut note_cut
reset_once = refl

gather_limited_example :
    let out = (gather same_families limits families nothing_yet).0 in
    (series out ≤ 3) × AllWithin 2 out
gather_limited_example = gather_limited limits families nothing_yet (omega arith) (omega arith)
