-- ===== src/Trace/Sampler.antt =====
-- sdk/trace/dyeing_sampler.go.
pub mod Ratio
pub mod Dyeing
mod Tests
use go_opentelemetry.Prelude.{
  ℕ, ◌+◌, ◌*◌, ◌/◌, Bool, true, false, Option, none, some, String, List, [], ◌∷◌, Map, get, put,
  ltb, str_eq, if◌then◌else◌, not, ◌&&◌, ◌||◌,
}
use go_opentelemetry.Trace.Fraction.{
  Float64, SamplerConfig, SpecialFraction, MethodFraction, get_sampler_config,
}

pub data SamplingDecision : Type 0 where
  drop record_only record_and_sample : SamplingDecision

-- `Tracestate` of a result: empty, or `dyeingTraceState`.
pub data TraceState : Type 0 where
  no_state dyeing : TraceState

pub record SamplingResult : Type 0 where
  pub decision : SamplingDecision
  pub tracestate : TraceState

pub record MethodInfo : Type 0 where
  pub callee_service : String
  pub callee_method : String

-- An attribute: its key, and what `Value.Emit` returns for the value.
pub record Attribute : Type 0 where
  pub key : String
  pub emit : String

-- `SamplingParameters`: whether the parent span context is sampled, what the function
-- `DefaultGetCalleeMethodInfo` returns for the parent context (`none` where it is nil), the first
-- eight bytes of the trace id, and the attributes.
pub record SamplingParameters : Type 0 where
  pub parent_sampled : Bool
  pub callee : Option MethodInfo
  pub trace_id : List ℕ
  pub attributes : List Attribute

-- An entry of the sampler service's answer.
pub record SamplerAttribute : Type 0 where
  pub key : String
  pub values : List String

abbrev pub SampledKvs : Type 0
SampledKvs = Map (Map Bool)

abbrev pub force_sampler_key : String
force_sampler_key = "trace.force.sample"

-- `binary.BigEndian.Uint64`
abbrev pub big_endian : ℕ → List ℕ → ℕ
big_endian acc [] = acc
big_endian acc (b ∷ bs) = big_endian (acc * 256 + b) bs

-- `sampledKv[vv] = true` for all values
unfoldable pub mark_values : List String → Map Bool → Map Bool
mark_values [] kv = kv
mark_values (v ∷ vs) kv = mark_values vs (put v true kv)

abbrev pub or_empty : Option (Map Bool) → Map Bool
or_empty none = []
or_empty (some kv) = kv

-- The loop over the answer's attributes.
unfoldable pub mark_attributes : List SamplerAttribute → SampledKvs → SampledKvs
mark_attributes [] kvs = kvs
mark_attributes (a ∷ rest) kvs =
    mark_attributes rest (put a.key (mark_values a.values (or_empty (get a.key kvs))) kvs)

-- `ok2 && values[attr.Value.Emit()]`; a missing key of `values` reads as false.
abbrev pub is_true : Option Bool → Bool
is_true (some true) = true
is_true _ = false

abbrev pub holds : Option (Map Bool) → String → Bool
holds none v = false
holds (some values) v = is_true (get v values)

unfoldable pub is_sampled_kv : SampledKvs → Attribute → Bool
is_sampled_kv kvs a = holds (get a.key kvs) a.emit

-- `attr.Key == ForceSamplerKey && attr.Value.Emit() != ""`
unfoldable pub is_forced : Attribute → Bool
is_forced a = str_eq a.key force_sampler_key && not (str_eq a.emit "")

-- `sampledKvs, ok := ...`: without `ok` only the forced key counts.
abbrev pub is_dyed_by : Option SampledKvs → Attribute → Bool
is_dyed_by none a = is_forced a
is_dyed_by (some kvs) a = is_forced a || is_sampled_kv kvs a

-- The loop over the attributes in `ShouldSample`.
unfoldable pub is_dyed : Option SampledKvs → List Attribute → Bool
is_dyed kvs [] = false
is_dyed kvs (a ∷ rest) = let later = is_dyed kvs rest in if is_dyed_by kvs a then true else later

module _ (fl : Float64) where
  -- `Sampler`. `client` tells whether the service has been dialled.
  pub record Sampler : Type 0 where
    pub sampler_config : SamplerConfig fl
    pub tenant_id : String
    pub client : Bool
    pub sampled_kvs : Option SampledKvs
    pub debug : Bool
    pub default_sampling_decision : SamplingDecision

  -- `NewSampler`, with the decision that the options leave and the value of the variable
  -- DyeingSamplerDebug.
  unfoldable pub new_sampler : String → SamplerConfig fl → SamplingDecision → String → Sampler
  new_sampler tps_tenant_id config decision debug_env = record {
    sampler_config = get_sampler_config fl config;
    tenant_id = tps_tenant_id;
    client = false;
    sampled_kvs = if str_eq config.sampler_service_addr "" then none else some [];
    debug = str_eq debug_env "true";
    default_sampling_decision = decision;
  }

  -- `updateDyeingMetadata`: whether the dial succeeds, and the service's answer or its error.
  unfoldable pub update_dyeing_metadata : Bool → Option (List SamplerAttribute) → Sampler → Sampler
  update_dyeing_metadata dials none ws = record ws { client = ws.client || dials }
  update_dyeing_metadata dials (some attributes) ws =
      if ws.client || dials
      then record ws { client = true; sampled_kvs = some (mark_attributes attributes []) }
      else ws

  abbrev pub method_bound : ℕ → Option (MethodFraction fl) → ℕ
  method_bound default none = default
  method_bound default (some m) = m.trace_id_upper_bound

  abbrev pub methods_bound : ℕ → Option (Map (MethodFraction fl)) → String → ℕ
  methods_bound default none name = default
  methods_bound default (some methods) name = method_bound default (get name methods)

  abbrev pub service_bound : ℕ → Option (SpecialFraction fl) → String → ℕ
  service_bound default none name = default
  service_bound default (some s) name = methods_bound s.default_trace_id_upper_bound s.methods name

  abbrev pub services_bound : ℕ → Option (Map (SpecialFraction fl)) → MethodInfo → ℕ
  services_bound default none info = default
  services_bound default (some services) info =
      service_bound default (get info.callee_service services) info.callee_method

  -- `getSamplerTraceIDUpperBound`
  unfoldable pub get_sampler_trace_id_upper_bound : Option MethodInfo → SamplerConfig fl → ℕ
  get_sampler_trace_id_upper_bound none config = config.trace_id_upper_bound
  get_sampler_trace_id_upper_bound (some info) config =
      services_bound config.trace_id_upper_bound config.special_fractions info

  -- `shouldSample`
  unfoldable pub ratio_sample : Sampler → SamplingParameters → SamplingResult
  ratio_sample ws p =
      let x = big_endian 0 p.trace_id / 2 in
      let bound = get_sampler_trace_id_upper_bound p.callee ws.sampler_config in
      if ltb x bound
      then record { decision = record_and_sample; tracestate = no_state }
      else record { decision = ws.default_sampling_decision; tracestate = no_state }

  -- `ShouldSample`
  unfoldable pub should_sample : Sampler → SamplingParameters → SamplingResult
  should_sample ws p =
      if p.parent_sampled
      then record { decision = record_and_sample; tracestate = no_state }
      else (if not (str_eq ws.sampler_config.sampler_service_addr "")
            && is_dyed ws.sampled_kvs p.attributes
          then record { decision = record_and_sample; tracestate = dyeing }
          else ratio_sample ws p)
