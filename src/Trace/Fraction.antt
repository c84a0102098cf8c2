-- ===== src/Trace/Fraction.antt =====
-- sdk/trace/fraction.go: from sampling fractions to upper bounds of trace ids.
-- float64 is a parameter: its comparisons and the conversion to uint64 are Go's.
use go_opentelemetry.Prelude.{
  ℕ, ◌≤◌, ◌^◌, ◌≡◌, Bool, true, false, Option, none, some, String, [], ◌∷◌, Map, if◌then◌else◌,
  arith, ◌==◌,
}

-- What the sampler uses of float64, with what IEEE 754 says of it. `scale f` is
-- `uint64(f * (1 << 63))` for a fraction between 0 and 1, which is exact or rounded monotonically.
pub record Float64 : Type 1 where
  pub F : Type 0
  pub zero : F
  pub one : F
  pub leb : F → F → Bool
  pub scale : F → ℕ
  pub leb_trans : (a b c : F) → leb a b ≡ true → leb b c ≡ true → leb a c ≡ true
  pub zero-leb-one : leb zero one ≡ true
  pub one-leb-zero : leb one zero ≡ false
  pub scale-zero : scale zero ≡ 0
  pub scale-one : scale one ≡ 2 ^ 63
  pub scale_mono :
      (a b : F) → leb zero a ≡ true → leb a b ≡ true → leb b one ≡ true → scale a ≤ scale b
  -- fractions are not NaN
  pub leb_total : (a b : F) → leb a b ≡ false → leb b a ≡ true

module _ (fl : Float64) where
  open fl use {F, zero, one, leb, scale}

  -- `getTraceIDUpperBound`
  unfoldable pub get_trace_id_upper_bound : F → ℕ
  get_trace_id_upper_bound fraction =
      let f = if leb one fraction then one else fraction in
      let g = if leb f zero then zero else f in scale g

  -- `MethodFraction`
  pub record MethodFraction : Type 0 where
    pub fraction : F
    pub trace_id_upper_bound : ℕ

  -- `SpecialFraction`; a nil map is `none`.
  pub record SpecialFraction : Type 0 where
    pub default_fraction : F
    pub methods : Option (Map MethodFraction)
    pub default_trace_id_upper_bound : ℕ

  -- `SamplerConfig`; durations are nanoseconds.
  pub record SamplerConfig : Type 0 where
    pub fraction : F
    pub special_fractions : Option (Map SpecialFraction)
    pub sampler_service_addr : String
    pub sync_interval : ℕ
    pub trace_id_upper_bound : ℕ

  unfoldable pub get_sampler_sync_interval : ℕ → ℕ
  get_sampler_sync_interval sync_interval =
      if sync_interval == 0 then 10_000_000_000 else sync_interval

  unfoldable pub get_methods_fractions : Map MethodFraction → Map MethodFraction
  get_methods_fractions [] = []
  get_methods_fractions ((k, v) ∷ m) =
      (
        k,
        record {
          fraction = v.fraction;
          trace_id_upper_bound = get_trace_id_upper_bound v.fraction;
        },
      )
      ∷ get_methods_fractions m

  -- `getMethodsSpecialFraction`: a range over a nil map makes no round, and the result is not nil.
  unfoldable pub get_methods_special_fraction :
      Option (Map MethodFraction) → Option (Map MethodFraction)
  get_methods_special_fraction none = some []
  get_methods_special_fraction (some m) = some (get_methods_fractions m)

  unfoldable pub get_special_fractions : Map SpecialFraction → Map SpecialFraction
  get_special_fractions [] = []
  get_special_fractions ((k, v) ∷ m) =
      (
        k,
        record {
          default_fraction = v.default_fraction;
          methods = get_methods_special_fraction v.methods;
          default_trace_id_upper_bound = get_trace_id_upper_bound v.default_fraction;
        },
      )
      ∷ get_special_fractions m

  -- `getSpecialFraction`
  unfoldable pub get_special_fraction : Option (Map SpecialFraction) → Option (Map SpecialFraction)
  get_special_fraction none = some []
  get_special_fraction (some m) = some (get_special_fractions m)

  unfoldable pub get_sampler_config : SamplerConfig → SamplerConfig
  get_sampler_config config = record {
    fraction = config.fraction;
    special_fractions = get_special_fraction config.special_fractions;
    sampler_service_addr = config.sampler_service_addr;
    sync_interval = get_sampler_sync_interval config.sync_interval;
    trace_id_upper_bound = get_trace_id_upper_bound config.fraction;
  }

  -- The bound is at most 2^63, and a fraction of 1 or more reaches it.
  pub upper_bound-le : (f : F) → get_trace_id_upper_bound f ≤ 2 ^ 63
  unfolding get_trace_id_upper_bound
  upper_bound-le f = ground (
    arith,
    fl.scale-zero,
    fl.scale-one,
    fl.leb_total f zero,
    fl.leb_total one f,
    fl.leb_total one one,
    fl.scale_mono f one,
    fl.one-leb-zero,
  )

  pub upper_bound_mono :
      (f g : F) → leb f g ≡ true → get_trace_id_upper_bound f ≤ get_trace_id_upper_bound g
  unfolding get_trace_id_upper_bound
  upper_bound_mono f g h = ground (
    arith,
    fl.scale-zero,
    fl.scale-one,
    fl.leb_total f zero,
    fl.leb_total one f,
    fl.leb_total g zero,
    fl.leb_total one g,
    fl.leb_total one one,
    fl.leb_trans one f g,
    fl.leb_trans f g zero,
    fl.scale_mono f one,
    fl.scale_mono f g,
    fl.one-leb-zero,
  )

  pub upper_bound_one : (f : F) → leb one f ≡ true → get_trace_id_upper_bound f ≡ 2 ^ 63
  unfolding get_trace_id_upper_bound
  upper_bound_one f h = ground (arith, fl.scale-one, fl.one-leb-zero)

  pub upper_bound_zero : (f : F) → leb f zero ≡ true → get_trace_id_upper_bound f ≡ 0
  unfolding get_trace_id_upper_bound
  upper_bound_zero f h = ground (arith, fl.scale-zero, fl.leb_trans one f zero, fl.one-leb-zero)
