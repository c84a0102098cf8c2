-- ===== src/Trace/Sampler/Ratio.antt =====
-- sdk/trace/dyeing_sampler.go and fraction.go: which fraction applies, and what it samples.
use go_opentelemetry.Prelude.{
  ℕ, ◌+◌, ◌*◌, ◌/◌, ◌^◌, ◌<◌, ◌≡◌, refl, ◌∙◌, ap, true, false, Option, none, some, String, List, [],
  ◌∷◌, Map, get, str_eq, arith, length, Bool-cases, inl, inr, eq_iff,
}
use native.Mathlib.Nat.{pow-succ'}
use go_opentelemetry.Trace.Fraction.{
  Float64, SamplerConfig, SpecialFraction, MethodFraction, get_sampler_config,
  get_trace_id_upper_bound, get_special_fraction, get_special_fractions,
  get_methods_special_fraction, get_methods_fractions, upper_bound_mono, upper_bound_one,
  upper_bound_zero,
}
use go_opentelemetry.Trace.Sampler.{
  MethodInfo, SamplingParameters, SamplingDecision, record_and_sample, drop, new_sampler,
  big_endian, method_bound, methods_bound, service_bound, services_bound,
  get_sampler_trace_id_upper_bound, ratio_sample, should_sample,
}

-- Bytes of a trace id.
abbrev pub AreBytes : List ℕ → Type 0
AreBytes [] = Unit {0}
AreBytes (b ∷ bs) = (b < 256) × AreBytes bs

abbrev weight : List ℕ → ℕ
weight [] = 1
weight (b ∷ bs) = 256 * weight bs

weight-eq : (l : List ℕ) → weight l ≡ 256 ^ length l
weight-eq [] = refl
weight-eq (b ∷ bs) = rw (pow-succ', weight-eq bs)

step_weight : (acc b w x : ℕ) → b < 256 → x < (acc * 256 + b + 1) * w → x < (acc + 1) * (256 * w)
step_weight acc b w x h k = grind arith

big_endian-lt : (l : List ℕ) (acc : ℕ) → AreBytes l → big_endian acc l < (acc + 1) * weight l
big_endian-lt [] acc h = omega arith
big_endian-lt (b ∷ bs) acc h =
    step_weight acc b (weight bs) _ h.0 (big_endian-lt bs (acc * 256 + b) h.1)

trace_id-lt : (l : List ℕ) → AreBytes l → length l ≡ 8 → big_endian 0 l / 2 < 2 ^ 63
trace_id-lt l h e =
    let w : weight l ≡ 2 ^ 64 = weight-eq l ∙ ap (λ n. 256 ^ n) e in
    omega (arith, big_endian-lt l 0 h, w)

module _ (fl : Float64) where
  open fl use {F, zero, one, leb}

  abbrev or_fraction : F → Option (MethodFraction fl) → F
  or_fraction default none = default
  or_fraction default (some m) = m.fraction

  abbrev methods_fraction : F → Option (Map (MethodFraction fl)) → String → F
  methods_fraction default none name = default
  methods_fraction default (some ms) name = or_fraction default (get name ms)

  abbrev service_fraction : F → Option (SpecialFraction fl) → String → F
  service_fraction default none name = default
  service_fraction default (some s) name = methods_fraction s.default_fraction s.methods name

  abbrev services_fraction : F → Option (Map (SpecialFraction fl)) → MethodInfo → F
  services_fraction default none info = default
  services_fraction default (some services) info =
      service_fraction default (get info.callee_service services) info.callee_method

  -- The fraction that is configured for a callee: its method's, else its service's, else the default.
  abbrev pub effective_fraction : Option MethodInfo → SamplerConfig fl → F
  effective_fraction none config = config.fraction
  effective_fraction (some info) config =
      services_fraction config.fraction config.special_fractions info

  methods_lookup :
      (d : F) (name : String) (m : Map (MethodFraction fl))
      → method_bound fl (get_trace_id_upper_bound fl d) (get name (get_methods_fractions fl m))
        ≡ get_trace_id_upper_bound fl (or_fraction d (get name m))
  unfolding get get_methods_fractions
  methods_lookup d name [] = refl
  methods_lookup d name ((k, v) ∷ m) = elim (Bool-cases (str_eq k name)) [
    | inl h ↦ rw h refl
    | inr h ↦ rw h (methods_lookup d name m)
  ]

  methods_special_lookup :
      (d : F) (name : String) (m : Option (Map (MethodFraction fl)))
      → methods_bound fl (get_trace_id_upper_bound fl d) (get_methods_special_fraction fl m) name
        ≡ get_trace_id_upper_bound fl (methods_fraction d m name)
  unfolding get_methods_special_fraction get
  methods_special_lookup d name none = refl
  methods_special_lookup d name (some m) = methods_lookup d name m

  services_lookup :
      (d : F) (info : MethodInfo) (m : Map (SpecialFraction fl))
      → service_bound fl
          (get_trace_id_upper_bound fl d)
          (get info.callee_service (get_special_fractions fl m))
          info.callee_method
        ≡ get_trace_id_upper_bound fl
            (service_fraction d (get info.callee_service m) info.callee_method)
  unfolding get get_special_fractions
  services_lookup d info [] = refl
  services_lookup d info ((k, v) ∷ m) = elim (Bool-cases (str_eq k info.callee_service)) [
    | inl h ↦ rw h (methods_special_lookup v.default_fraction info.callee_method v.methods)
    | inr h ↦ rw h (services_lookup d info m)
  ]

  special_lookup :
      (d : F) (info : MethodInfo) (m : Option (Map (SpecialFraction fl)))
      → services_bound fl (get_trace_id_upper_bound fl d) (get_special_fraction fl m) info
        ≡ get_trace_id_upper_bound fl (services_fraction d m info)
  unfolding get_special_fraction get
  special_lookup d info none = refl
  special_lookup d info (some m) = services_lookup d info m

  -- The bound that the sampler compares a trace id with is the one of the fraction configured for
  -- the callee: its method's, else its service's default, else the global one, also where a map of
  -- the configuration is nil or a name is missing.
  pub upper_bound-effective_fraction :
      (info : Option MethodInfo) (config : SamplerConfig fl)
      → get_sampler_trace_id_upper_bound fl info (get_sampler_config fl config)
        ≡ get_trace_id_upper_bound fl (effective_fraction info config)
  unfolding get_sampler_trace_id_upper_bound get_sampler_config
  upper_bound-effective_fraction none config = refl
  upper_bound-effective_fraction (some info) config =
      special_lookup config.fraction info config.special_fractions

  -- A sampler that is new from a configuration whose fraction for the callee is 1 or more records and
  -- samples every span whose trace id begins with eight bytes.
  samples_all :
      (tenant : String) (config : SamplerConfig fl) (d : SamplingDecision) (env : String)
      (p : SamplingParameters)
      → AreBytes p.trace_id
      → length p.trace_id ≡ 8
      → leb one (effective_fraction p.callee config) ≡ true
      → (should_sample fl (new_sampler fl tenant config d env) p).decision ≡ record_and_sample
  unfolding should_sample ratio_sample new_sampler
  samples_all tenant config d env p h e l = ground (
    arith,
    upper_bound-effective_fraction p.callee config,
    upper_bound_one fl (effective_fraction p.callee config),
    trace_id-lt p.trace_id h e,
  )

  -- A sampler that is new from a configuration with no sampler service, whose fraction for the callee
  -- is 0 or less, gives a span without a sampled parent its default decision.
  samples_none :
      (tenant : String) (config : SamplerConfig fl) (d : SamplingDecision) (env : String)
      (p : SamplingParameters)
      → p.parent_sampled ≡ false
      → config.sampler_service_addr ≡ ""
      → leb (effective_fraction p.callee config) zero ≡ true
      → (should_sample fl (new_sampler fl tenant config d env) p).decision ≡ d
  unfolding should_sample ratio_sample new_sampler get_sampler_config
  samples_none tenant config d env p q a l = ground (
    arith,
    eq_iff config.sampler_service_addr "",
    upper_bound-effective_fraction p.callee config,
    upper_bound_zero fl (effective_fraction p.callee config),
  )

  -- What a sampler samples by its fraction, one with a fraction at least as high for the callee
  -- samples too, if the first one drops by default.
  ratio_mono :
      (tenant env : String) (config config' : SamplerConfig fl) (p : SamplingParameters)
      → leb (effective_fraction p.callee config) (effective_fraction p.callee config') ≡ true
      → (ratio_sample fl (new_sampler fl tenant config drop env) p).decision ≡ record_and_sample
      → (ratio_sample fl (new_sampler fl tenant config' drop env) p).decision ≡ record_and_sample
  unfolding ratio_sample new_sampler
  ratio_mono tenant env config config' p h r = ground (
    arith,
    upper_bound-effective_fraction p.callee config,
    upper_bound-effective_fraction p.callee config',
    upper_bound_mono fl (effective_fraction p.callee config) (effective_fraction p.callee config'),
  )
