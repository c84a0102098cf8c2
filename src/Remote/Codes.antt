-- ===== src/Remote/Codes.antt =====
-- sdk/remote/configurator.go with config/codes/code_mapping.go: a CodeConverter that has registered its
-- apply function with the configurator. The codes of an operation are what protobuf's getters read of it.
use go_opentelemetry.Prelude.{
  some_inj, if_both, ℕ, ◌==◌, ◌<◌, Bool, Option, some, List, [], ◌∷◌, ◌++◌, if◌then◌else◌, ◌≡◌,
  refl, inl, inr, Bool-cases, subst, ◌∙◌, ap, String,
}
use mathlib.Core.List.{Perm}
use mathlib.Core.List.Perm
use go_opentelemetry.Codes.{Code}
use go_opentelemetry.Codes.Mapping.{
  CodeConverter, RemoteCode, less, mapping, apply_config, new_code_converter, or_else, or_default,
  first, applies, with_code, remote_codes, mapping-apply_config, covert_codes_to_mapping,
}
use go_opentelemetry.Remote.{Event, run, last_call, new_remote_configurator}
use go_opentelemetry.Remote.Current.{Follows, registered_follow}

module _ {C : Type 0} (sort_slice : (Code → Code → Bool) → List Code → List Code)
    (codes_of : Option C → List RemoteCode) where
  -- What the calls of the i-th function, which is the one of `genConfigApplyFunc`, do to its converter.
  unfoldable pub replay : ℕ → List (ℕ × Option C) → CodeConverter → CodeConverter
  replay i [] cm = cm
  replay i ((j, c) ∷ log) cm =
      let before = replay i log cm in
      if j == i then apply_config sort_slice (codes_of c) before else before

  -- The converters that updates make of one.
  record Updated (cm after : CodeConverter) : Type 0 where
    same_codes : Perm after.codes cm.codes
    same_func : after.default_code_type_func ≡ cm.default_code_type_func

  module _ (sorts : (codes : List Code) → Perm (sort_slice less codes) codes) where
    replay-Updated :
        (i : ℕ) (log : List (ℕ × Option C)) (cm : CodeConverter) → Updated cm (replay i log cm)
    unfolding replay apply_config covert_codes_to_mapping
    replay-Updated i [] cm = record { same_codes = Perm.refl cm.codes; same_func = refl }
    replay-Updated i ((j, c) ∷ log) cm =
        let v = replay-Updated i log cm in
        if_both (Updated cm) (j == i)
          (record {
            same_codes = Perm.trans (sorts (replay i log cm).codes) v.same_codes;
            same_func = v.same_func;
          })
          v

    replay_last :
        (i : ℕ) (log : List (ℕ × Option C)) (cm : CodeConverter) {c : Option C}
        → last_call i log ≡ some c
        → (b : CodeConverter) × (replay i log cm ≡ apply_config sort_slice (codes_of c) b)
          × Updated cm b
    unfolding replay
    replay_last i [] cm h = absurd (cc)
    replay_last i ((j, d) ∷ log) cm {c = c} h = elim (Bool-cases (j == i)) [
      | inl p ↦ (
        replay i log cm,
        rw p (
            ap (λ x. apply_config sort_slice (codes_of x) (replay i log cm))
              (some_inj (rw p at h))),
        replay-Updated i log cm,
      )
      | inr p ↦ let (b, q, u) = replay_last i log cm (rw p at h) in (b, rw p q, u)
    ]

    -- Where sort.Slice only changes the order of the codes: a converter that has registered its function
    -- as the i-th, whatever turns and registrations there have been before and after, answers by the last
    -- configuration that the configurator has, if that is not nil. Of the local codes in some order, then
    -- the codes of that configuration as they came, the first with the number asked for that names the
    -- service or the method, or neither, is the answer, and where there is none the default function's.
    pub codes_follow :
        (codes : List Code) (f : Option (String → String → String → Code)) (interval : ℕ)
        (has_addr : Bool) (ws : List (Event C)) (i : ℕ) (c : C) (code service method : String)
        → i < (run ws (new_remote_configurator {C = C} interval has_addr).0).config_apply_funcs
        → (run ws (new_remote_configurator interval has_addr).0).last_config ≡ some c
        → (locals : List Code) × Perm locals codes
          × (mapping
                (replay i
                  (run ws (new_remote_configurator interval has_addr).0).applied
                  (new_code_converter sort_slice codes f))
                code
                service
                method
              ≡ or_else
                  (first
                    (applies service method)
                    (with_code code (locals ++ remote_codes (codes_of (some c)))))
                  (or_default f code service method))
    unfolding new_code_converter covert_codes_to_mapping
    codes_follow codes f interval has_addr ws i c code service method h l =
        let rc = run ws (new_remote_configurator {C = C} interval has_addr).0 in
        let q =
          subst (λ o. Follows o (last_call i rc.applied)) l
            (registered_follow interval has_addr ws i h) in
        let (b, r, u) = replay_last i rc.applied (new_code_converter sort_slice codes f) q in
        (
          sort_slice less b.codes,
          Perm.trans (sorts b.codes) (Perm.trans u.same_codes (sorts codes)),
          rw r (
              mapping-apply_config sort_slice (codes_of (some c)) b code service method
              ∙ ap
                  (λ g.
                    or_else
                      (first (applies service method) (
                        with_code code
                          (sort_slice less b.codes ++ remote_codes (codes_of (some c)))))
                      (g code service method))
                  u.same_func),
        )
