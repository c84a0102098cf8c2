-- ===== src/Carriers/Tests.antt =====
-- A supplier with both headers and one registered carrier, which keeps pairs of its own, and adds another
-- key to the shared metadata.
use go_opentelemetry.Prelude.{
  ◌≡◌, ◌≢◌, refl, Option, none, some, String, List, [], ◌∷◌, eq_iff, arith, Map, get, put, get-put,
}
use go_opentelemetry.Carriers.{
  Shared, Supplier, get_text_map_carriers, make_carriers, new_supplier, supplier_get, composite_get,
  composite_set, composite_keys, occurrences, value_of, SameAt, md_get, set_then_get,
}

abbrev pairs_get : Map String → Shared → String → String
pairs_get m w key = value_of (get key m)

abbrev with_baggage : Option (Map String) → Option (Map String)
with_baggage none = none
with_baggage (some md) = some (put "baggage" "" md)

abbrev pairs_set : String → String → Map String → Shared → Option (Map String × Shared)
pairs_set key value m w = some (put key value m, record w { md = with_baggage w.md })

abbrev first_keys : Map String → Shared → List String
first_keys [] w = []
first_keys ((k, v) ∷ m) w = k ∷ []

abbrev shared : Shared
shared = record {
  md = some (("traceparent", "") ∷ []);
  server_header = some (λ k. "head");
  client_header = some [];
}

abbrev carriers : Supplier × List (Map String)
carriers = (record { shared = shared; keys = [] }, (("traceparent", "old") ∷ []) ∷ [])

carriers_made :
    get_text_map_carriers
      ((λ w. (none, w)) ∷ (λ w. (some (("traceparent", "old") ∷ []), w)) ∷ [])
      shared
    ≡ carriers
unfolding get_text_map_carriers make_carriers new_supplier
carriers_made = refl

baggage-SameAt :
    (key : String) (w : Shared)
    → key ≢ "baggage"
    → SameAt key w (record w { md = with_baggage w.md })
baggage-SameAt key w n = (md_lem key w.md n, refl)
  where
    md_lem :
        (k : String) (o : Option (Map String))
        → k ≢ "baggage"
        → md_get k (with_baggage o) ≡ md_get k o
    md_lem k none m = refl
    md_lem k (some md) m = ground (arith, get-put "baggage" k "" md, eq_iff "baggage" k)

pairs_set-quiet :
    (c : Map String) (w : Shared)
    → (d : Map String) × (x : Shared) × (pairs_set "traceparent" "00-1" c w ≡ some (d, x))
      × SameAt "traceparent" w x
      × SameAt "tracestate" w x
pairs_set-quiet c w = (
  put "traceparent" "00-1" c,
  record w { md = with_baggage w.md },
  refl,
  baggage-SameAt "traceparent" w (ground (arith, eq_iff "traceparent" "baggage")),
  baggage-SameAt "tracestate" w (ground (arith, eq_iff "tracestate" "baggage")),
)

set_then_get_example :
    (u : Supplier × List (Map String)) × (composite_set pairs_get pairs_set first_keys "traceparent"
        "00-1" carriers
      ≡ some u)
    × (composite_get pairs_get pairs_set first_keys u "traceparent" ≡ "00-1")
    × (supplier_get u.0 "tracestate" ≡ supplier_get carriers.0 "tracestate")
    × (occurrences "traceparent" (composite_keys pairs_get pairs_set first_keys u) ≡ 1)
set_then_get_example =
    set_then_get pairs_get pairs_set first_keys carriers (("traceparent", "") ∷ []) "traceparent"
      "00-1" "tracestate" refl (ground (arith, eq_iff "00-1" ""))
      (ground (arith, eq_iff "traceparent" "tracestate")) pairs_set-quiet
