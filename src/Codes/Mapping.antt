-- ===== src/Codes/Mapping.antt =====
-- config/codes/code_mapping.go: the CodeConverter, its configurator's updates and its lookups.
-- sort.Slice is a parameter: which order it leaves depends on the library's algorithm.
use go_opentelemetry.Prelude.{
  ℕ, ◌≡◌, refl, Bool, true, Option, none, some, String, List, [], ◌∷◌, ◌++◌, Map, get, put, get-put,
  str_eq, eq_iff, if◌then◌else◌, ◌&&◌, ◌||◌, not, arith, Bool-cases, inl, inr, append_assoc,
  append-nil, ◌≢◌,
}
use go_opentelemetry.Codes.{Code, new_code, default_code_type_func}

-- The comparison of `covertCodesToMapping`.
unfoldable pub less : Code → Code → Bool
less a b =
    not (str_eq a.service "") && str_eq b.service ""
    || not (str_eq a.method "") && str_eq b.method ""

abbrev pub or_none : Option (List Code) → List Code
or_none none = []
or_none (some cs) = cs

-- `codeMapping[v.Code] = append(codeMapping[v.Code], v)` for each code in turn.
unfoldable pub append_codes : List Code → Map (List Code) → Map (List Code)
append_codes [] m = m
append_codes (v ∷ vs) m = append_codes vs (put v.code (or_none (get v.code m) ++ v ∷ []) m)

-- `matchCode`
unfoldable pub match_code : List Code → String → String → Option Code
match_code [] service method = none
match_code (v ∷ vs) service method =
    let rest = match_code vs service method in
    if str_eq v.service service || str_eq v.method method
    then some v
    else (if str_eq v.service "" && str_eq v.method "" then some v else rest)

-- An entry of a remote configuration; `code` is its number printed in decimal.
pub record RemoteCode : Type 0 where
  pub code : String
  pub type : String
  pub description : List ℕ
  pub service : String
  pub method : String

abbrev pub remote_code : RemoteCode → Code
remote_code v = record (new_code v.code v.type v.description) {
  service = v.service;
  method = v.method;
}

abbrev pub remote_codes : List RemoteCode → List Code
remote_codes [] = []
remote_codes (v ∷ vs) = remote_code v ∷ remote_codes vs

-- `CodeConverter`, with the function that it falls back on.
pub record CodeConverter : Type 0 where
  pub codes : List Code
  pub code_mapping : Map (List Code)
  pub default_code_type_func : String → String → String → Code

abbrev pub or_default : Option (String → String → String → Code) → String → String → String → Code
or_default none = default_code_type_func
or_default (some f) = f

abbrev pub or_else : Option Code → Code → Code
or_else none c = c
or_else (some v) c = v

-- `Mapping`
unfoldable pub mapping : CodeConverter → String → String → String → Code
mapping cm code service method =
    or_else (match_code (or_none (get code cm.code_mapping)) service method)
      (cm.default_code_type_func code service method)

module _ (sort_slice : (Code → Code → Bool) → List Code → List Code) where
  -- `covertCodesToMapping`. The slice that the caller holds is sorted in place.
  unfoldable pub covert_codes_to_mapping : List Code → List Code × Map (List Code)
  covert_codes_to_mapping codes =
      let sorted = sort_slice less codes in (sorted, append_codes sorted [])

  -- `New`, with the codes and the default function that the options leave.
  unfoldable pub new_code_converter :
      List Code → Option (String → String → String → Code) → CodeConverter
  new_code_converter codes f =
      let (sorted, m) = covert_codes_to_mapping codes in
      record { codes = sorted; code_mapping = m; default_code_type_func = or_default f }

  -- What `genConfigApplyFunc` stores when a configuration arrives.
  unfoldable pub apply_config : List RemoteCode → CodeConverter → CodeConverter
  apply_config config cm =
      let (sorted, m) = covert_codes_to_mapping cm.codes in
      record cm { codes = sorted; code_mapping = append_codes (remote_codes config) m }

-- The codes with a given number, in order.
abbrev pub with_code : String → List Code → List Code
with_code c [] = []
with_code c (v ∷ vs) = if str_eq v.code c then v ∷ with_code c vs else with_code c vs

append_codes_lem :
    (c : String) (vs : List Code) (m : Map (List Code))
    → or_none (get c (append_codes vs m)) ≡ or_none (get c m) ++ with_code c vs
unfolding append_codes
append_codes_lem c [] m = rw append-nil
append_codes_lem c (v ∷ vs) m = elim (Bool-cases (str_eq v.code c)) [
  | inl h ↦ ground (
    arith,
    append_codes_lem c vs (put v.code (or_none (get v.code m) ++ v ∷ []) m),
    get-put v.code c (or_none (get v.code m) ++ v ∷ []) m,
    eq_iff v.code c,
    append_assoc (or_none (get v.code m)) (v ∷ []) (with_code c vs),
  )
  | inr h ↦ ground (
    arith,
    append_codes_lem c vs (put v.code (or_none (get v.code m) ++ v ∷ []) m),
    get-put v.code c (or_none (get v.code m) ++ v ∷ []) m,
    eq_iff v.code c,
  )
]

-- The code applies to a call: it names its service or its method, or neither of the two.
abbrev pub applies : String → String → Code → Bool
applies service method v =
    (str_eq v.service service || str_eq v.method method)
    || str_eq v.service "" && str_eq v.method ""

abbrev pub first : (Code → Bool) → List Code → Option Code
first p [] = none
first p (v ∷ vs) = if p v then some v else first p vs

match_code-first :
    (cs : List Code) (service method : String)
    → match_code cs service method ≡ first (applies service method) cs
unfolding match_code
match_code-first [] service method = refl
match_code-first (v ∷ vs) service method = ground (arith, match_code-first vs service method)

with_code-append :
    (c : String) (xs ys : List Code) → with_code c (xs ++ ys) ≡ with_code c xs ++ with_code c ys
with_code-append c [] ys = refl
with_code-append c (v ∷ vs) ys = ground (arith, with_code-append c vs ys)

module _ (sort_slice : (Code → Code → Bool) → List Code → List Code) where
  -- A lookup where a configuration has come to a converter.
  pub mapping-apply_config :
      (config : List RemoteCode) (cm : CodeConverter) (code service method : String)
      → mapping (apply_config sort_slice config cm) code service method
        ≡ or_else
            (first
              (applies service method)
              (with_code code (sort_slice less cm.codes ++ remote_codes config)))
            (cm.default_code_type_func code service method)
  unfolding mapping apply_config covert_codes_to_mapping get
  mapping-apply_config config cm code service method =
      let sorted = sort_slice less cm.codes in
      ground (
        arith,
        append_codes_lem code (remote_codes config) (append_codes sorted []),
        append_codes_lem code sorted [],
        with_code-append code sorted (remote_codes config),
        match_code-first
            (or_none (get code (append_codes (remote_codes config) (append_codes sorted []))))
            service method,
      )

  -- The lookup after a remote configuration has arrived is that of one list: the local codes, as
  -- sort.Slice leaves them when it has run twice, then the remote ones as they came. Of the codes
  -- there with the number asked for, the first that names the service or the method, or neither,
  -- is the answer, and where there is none the converter's default function answers.
  local_then_remote :
      (codes : List Code) (f : Option (String → String → String → Code)) (config : List RemoteCode)
      (code service method : String)
      → mapping
          (apply_config sort_slice config (new_code_converter sort_slice codes f))
          code
          service
          method
        ≡ or_else
            (first
              (applies service method)
              (with_code code (sort_slice less (sort_slice less codes) ++ remote_codes config)))
            (or_default f code service method)
  unfolding new_code_converter covert_codes_to_mapping
  local_then_remote codes f config code service method =
      mapping-apply_config config (new_code_converter sort_slice codes f) code service method

-- Of a code that names only a service and one that names only a method each is less than the other.
less_both_ways :
    (a b : Code)
    → a.service ≢ ""
    → a.method ≡ ""
    → b.service ≡ ""
    → b.method ≢ ""
    → (less a b ≡ true) × (less b a ≡ true)
unfolding less
less_both_ways a b p q r s =
    ground (arith, eq_iff a.service "", eq_iff a.method "", eq_iff b.service "", eq_iff b.method "")

-- A code that names both a service and a method answers every call of the service that reaches it,
-- whatever the call's method.
pub method_ignored :
    (v : Code) (vs : List Code) (method : String) → match_code (v ∷ vs) v.service method ≡ some v
unfolding match_code
method_ignored v vs method = ground (arith, eq_iff v.service v.service)
