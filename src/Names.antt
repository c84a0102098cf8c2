-- ===== src/Names.antt =====
-- sdk/metric/utility.go: the names of methods and services that become labels, over bytes.
-- oteltrpc/metrics/prometheus/fnv.go: the hash of label sets, in Hash.
pub mod Labels
pub mod Hash
mod Tests
use go_opentelemetry.Prelude.{
  ℕ, Bool, true, false, Option, none, some, List, [], ◌∷◌, ◌++◌, if◌then◌else◌, ◌==◌, ltb, length,
  take, str_eq,
}
use go_opentelemetry.Utf8.{to_valid_utf8}
use go_opentelemetry.Cardinality.{has_prefix}

-- `-`, `/0x` and `default_pattern_method`
abbrev pub no_name : List ℕ
no_name = b'-' ∷ []

abbrev pub oidb_prefix : List ℕ
oidb_prefix = b'/' ∷ b'0' ∷ b'x' ∷ []

abbrev pub default_pattern_method : List ℕ
default_pattern_method =
    (b'd' ∷ b'e' ∷ b'f' ∷ b'a' ∷ b'u' ∷ b'l' ∷ b't' ∷ b'_' ∷ [])
    ++ (b'p' ∷ b'a' ∷ b't' ∷ b't' ∷ b'e' ∷ b'r' ∷ b'n' ∷ b'_' ∷ [])
    ++ (b'm' ∷ b'e' ∷ b't' ∷ b'h' ∷ b'o' ∷ b'd' ∷ [])

-- `MethodMapping`: what its regular expression matches, and its pattern.
pub record MethodMapping : Type 0 where
  pub match_string : List ℕ → Bool
  pub pattern : List ℕ

-- What `RegisterMethodMapping` compiles.
unfoldable pub anchored : List ℕ → List ℕ
anchored regex = if has_prefix regex (b'^' ∷ []) then regex else b'^' ∷ (regex ++ b'$' ∷ [])

-- `RegisterMethodMapping`; `compile` is that of package regexp.
unfoldable pub register_method_mapping :
    (List ℕ → List ℕ → Bool) → List ℕ → List ℕ → List MethodMapping → List MethodMapping
register_method_mapping compile regex pattern ms =
    ms ++ record { match_string = compile (anchored regex); pattern = pattern } ∷ []

-- `methodToPattern`
unfoldable pub method_to_pattern : List MethodMapping → List ℕ → Option (List ℕ)
method_to_pattern [] method = none
method_to_pattern (v ∷ vs) method =
    if v.match_string method then some v.pattern else method_to_pattern vs method

-- The bytes before the first `?`. The method begins with `/`, so that the index is not 0.
unfoldable pub trim_query : List ℕ → List ℕ
trim_query [] = []
trim_query (b ∷ bs) = if b == b'?' then [] else b ∷ trim_query bs

abbrev pub pattern_or_default : Option (List ℕ) → List ℕ
pattern_or_default none = default_pattern_method
pattern_or_default (some v) = to_valid_utf8 v

abbrev pub max_length : ℕ
max_length = 64

-- `defaultCleanRPCMethod`
unfoldable pub default_clean_rpc_method : List MethodMapping → List ℕ → List ℕ
default_clean_rpc_method ms [] = no_name
default_clean_rpc_method ms (b ∷ bs) =
    let method = b ∷ bs in
    if has_prefix method oidb_prefix
    then to_valid_utf8 method
    else (if b == b'/'
        then pattern_or_default (method_to_pattern ms (trim_query method))
        else to_valid_utf8
            (if ltb max_length (length method) then take max_length method else method))

-- `cleanServiceName`
unfoldable pub clean_service_name : List ℕ → List ℕ
clean_service_name [] = no_name
clean_service_name (b ∷ bs) = to_valid_utf8 (b ∷ bs)
