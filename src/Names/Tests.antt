-- ===== src/Names/Tests.antt =====
-- sdk/metric/utility.go and oteltrpc/metrics/prometheus/fnv.go on concrete names.
use go_opentelemetry.Prelude.{ℕ, ◌≡◌, refl, Bool, true, false, List, [], ◌∷◌}
use go_opentelemetry.Utf8.{to_valid_utf8, valid_from, rune_length}
use go_opentelemetry.Names.{
  MethodMapping, default_clean_rpc_method, register_method_mapping, method_to_pattern, trim_query,
  default_pattern_method, anchored,
}
use go_opentelemetry.Names.Hash.{hash_add, hash_new}

-- A pattern for every path of at least three bytes.
abbrev compile : List ℕ → List ℕ → Bool
compile regex [] = false
compile regex (a ∷ []) = false
compile regex (a ∷ b ∷ []) = false
compile regex (a ∷ b ∷ c ∷ s) = true

abbrev user : List ℕ
user = b'/' ∷ b'u' ∷ b'/' ∷ b':' ∷ []

abbrev mappings : List MethodMapping
mappings = record { match_string = compile []; pattern = user } ∷ []

abbrev path : List ℕ
path = b'u' ∷ b'/' ∷ b'7' ∷ []

registered :
    register_method_mapping compile (b'^' ∷ []) user []
    ≡ record { match_string = compile (b'^' ∷ []); pattern = user } ∷ []
unfolding register_method_mapping anchored
registered = refl

cleaned : default_clean_rpc_method mappings (47 ∷ path) ≡ user
unfolding default_clean_rpc_method method_to_pattern trim_query to_valid_utf8 valid_from rune_length
cleaned = refl

not_registered : default_clean_rpc_method [] (47 ∷ path) ≡ default_pattern_method
unfolding default_clean_rpc_method method_to_pattern trim_query
not_registered = refl

-- The hash of `a`, as the published test vectors have it.
vector : hash_add hash_new (b'a' ∷ []) ≡ 12638187200555641996
unfolding hash_add
vector = refl
