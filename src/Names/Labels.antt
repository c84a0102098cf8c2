-- ===== src/Names/Labels.antt =====
-- sdk/metric/utility.go: that the label of a method is one of few.
use go_opentelemetry.Prelude.{
  ℕ, ◌≤◌, ◌≡◌, ◌≢◌, refl, false, List, [], ◌∷◌, ◌++◌, if◌then◌else◌, ◌==◌, ltb, length, take,
  length-take, arith, ◌⊎◌, inl, inr, if_both, subst, sym,
}
use go_opentelemetry.Utf8.{to_valid_utf8, length-to_valid_utf8}
use go_opentelemetry.Cardinality.{has_prefix}
use go_opentelemetry.Names.{
  MethodMapping, method_to_pattern, default_clean_rpc_method, trim_query, oidb_prefix,
  default_pattern_method, pattern_or_default, max_length,
}

-- The labels that registered patterns come to.
abbrev pub InPatterns : List ℕ → List MethodMapping → Type 0
InPatterns s [] = ⊥
InPatterns s (m ∷ ms) = (s ≡ to_valid_utf8 m.pattern) ⊎ InPatterns s ms

-- The default pattern, or one that is registered.
abbrev pub Known : List ℕ → List MethodMapping → Type 0
Known s ms = (s ≡ default_pattern_method) ⊎ InPatterns s ms

one_more :
    (s : List ℕ) (m : MethodMapping) (ms : List MethodMapping) → Known s ms → Known s (m ∷ ms)
one_more s m ms (inl p) = inl p
one_more s m ms (inr p) = inr (inr p)

pattern-Known :
    (ms : List MethodMapping) (method : List ℕ)
    → Known (pattern_or_default (method_to_pattern ms method)) ms
unfolding method_to_pattern
pattern-Known [] method = inl refl
pattern-Known (m ∷ ms) method =
    if_both (λ o. Known (pattern_or_default o) (m ∷ ms)) (m.match_string method) (inr (inl refl))
      (one_more (pattern_or_default (method_to_pattern ms method)) m ms (pattern-Known ms method))

-- The label of an HTTP path that does not begin with `/0x`, whatever else it is, is the default pattern
-- or one of the registered ones.
path-Known :
    (ms : List MethodMapping) (bs : List ℕ)
    → has_prefix (47 ∷ bs) oidb_prefix ≡ false
    → Known (default_clean_rpc_method ms (47 ∷ bs)) ms
unfolding default_clean_rpc_method
path-Known ms bs h =
    subst (λ s. Known s ms) (sym (clean_path h)) (pattern-Known ms (trim_query (47 ∷ bs)))
  where
    clean_path :
        has_prefix (47 ∷ bs) oidb_prefix ≡ false
        → default_clean_rpc_method ms (47 ∷ bs)
          ≡ pattern_or_default (method_to_pattern ms (trim_query (47 ∷ bs)))
    clean_path h = rw h refl

clipped-le : (k : ℕ) (m : List ℕ) → length (if ltb k (length m) then take k m else m) ≤ k
clipped-le k m = ground (arith, length-take k m)

clipped_short :
    (m : List ℕ)
    → length (to_valid_utf8 (if ltb max_length (length m) then take max_length m else m)) ≤ 64
clipped_short m =
    let c = if ltb max_length (length m) then take max_length m else m in
    omega (arith, length-to_valid_utf8 c, clipped-le 64 m)

-- The label of a method that does not begin with `/` is at most 64 bytes long.
label_short :
    (ms : List MethodMapping) (b : ℕ) (bs : List ℕ)
    → b ≢ 47
    → length (default_clean_rpc_method ms (b ∷ bs)) ≤ 64
unfolding default_clean_rpc_method
label_short ms b bs n =
    let other : b == 47 ≡ false = ground (arith, n) in rw other (clipped_short (b ∷ bs))

trim_query-append : (s q : List ℕ) → trim_query (s ++ 63 ∷ q) ≡ trim_query s
unfolding trim_query
trim_query-append [] q = refl
trim_query-append (b ∷ bs) q = ground (arith, trim_query-append bs q)

prefix-append :
    (s q : List ℕ) → has_prefix (47 ∷ (s ++ 63 ∷ q)) oidb_prefix ≡ has_prefix (47 ∷ s) oidb_prefix
prefix-append [] q = refl
prefix-append (a ∷ []) q = ground arith
prefix-append (a ∷ b ∷ s) q = ground arith

-- What stands behind the `?` of an HTTP path does not change its label, if the path does not begin
-- with `/0x`.
query_ignored :
    (ms : List MethodMapping) (s q : List ℕ)
    → has_prefix (47 ∷ s) oidb_prefix ≡ false
    → default_clean_rpc_method ms (47 ∷ (s ++ 63 ∷ q)) ≡ default_clean_rpc_method ms (47 ∷ s)
unfolding default_clean_rpc_method trim_query
query_ignored ms s q h = rw (prefix-append s q, h, trim_query-append s q) refl
