-- ===== src/Trace/Sampler/Tests.antt =====
-- The sampler over fractions in thousandths.
use go_opentelemetry.Prelude.{
  ℕ, ◌*◌, ◌/◌, ◌^◌, ◌≡◌, ◌≤◌, refl, true, false, some, String, List, [], ◌∷◌, arith, leb,
  if◌then◌else◌, ◌||◌, not, ◌&&◌, str_eq,
}
use go_opentelemetry.Trace.Fraction.{
  Float64, SamplerConfig, get_trace_id_upper_bound, get_sampler_config,
}
use go_opentelemetry.Trace.Sampler.{
  SamplingParameters, MethodInfo, SamplerAttribute, Sampler, drop, no_state, dyeing,
  get_sampler_trace_id_upper_bound, should_sample, ratio_sample, record_and_sample,
  update_dyeing_metadata,
}
use go_opentelemetry.Trace.Sampler.Ratio.{effective_fraction, upper_bound-effective_fraction}
use go_opentelemetry.Trace.Sampler.Dyeing.{any_listed, dyed_iff_listed}

thousandths_mono : (a b : ℕ) → leb a b ≡ true → a * 2 ^ 63 / 1000 ≤ b * 2 ^ 63 / 1000
thousandths_mono a b h = ground arith

leb_trans : (a b c : ℕ) → leb a b ≡ true → leb b c ≡ true → leb a c ≡ true
leb_trans a b c h k = ground arith

leb_total : (a b : ℕ) → leb a b ≡ false → leb b a ≡ true
leb_total a b h = ground arith

abbrev thousandths : Float64
thousandths = record {
  F = ℕ;
  zero = 0;
  one = 1000;
  leb = leb;
  scale = λ f. f * 2 ^ 63 / 1000;
  leb_trans = leb_trans;
  zero-leb-one = refl;
  one-leb-zero = refl;
  scale-zero = refl;
  scale-one = refl;
  scale_mono = λ a b z h o. thousandths_mono a b h;
  leb_total = leb_total;
}

abbrev config_of : ℕ → String → SamplerConfig thousandths
config_of f addr = record {
  fraction = f;
  special_fractions = some (
      (
        "greeter",
        record {
          default_fraction = 500;
          methods = some (("hello", record { fraction = 1000; trace_id_upper_bound = 0 }) ∷ []);
          default_trace_id_upper_bound = 0;
        },
      )
      ∷ []);
  sampler_service_addr = addr;
  sync_interval = 0;
  trace_id_upper_bound = 0;
}

abbrev hello : MethodInfo
hello = record { callee_service = "greeter"; callee_method = "hello" }

abbrev request : SamplingParameters
request = record {
  parent_sampled = false;
  callee = some hello;
  trace_id = 255 ∷ 255 ∷ 255 ∷ 255 ∷ 255 ∷ 255 ∷ 255 ∷ 255 ∷ [];
  attributes = record { key = "user"; emit = "bob" } ∷ [];
}

upper_bound-effective_fraction_example :
    get_sampler_trace_id_upper_bound thousandths
      (some hello)
      (get_sampler_config thousandths (config_of 1 ""))
    ≡ get_trace_id_upper_bound thousandths
        (effective_fraction thousandths (some hello) (config_of 1 ""))
upper_bound-effective_fraction_example =
    upper_bound-effective_fraction thousandths (some hello) (config_of 1 "")

abbrev answer : List SamplerAttribute
answer = record { key = "user"; values = "al" ∷ "bob" ∷ [] } ∷ []

abbrev served : Sampler thousandths
served = record {
  sampler_config = config_of 0 "addr:80";
  tenant_id = "t";
  client = false;
  sampled_kvs = some [];
  debug = false;
  default_sampling_decision = drop;
}

dyed_iff_listed_example :
    let q =
      should_sample thousandths
        (update_dyeing_metadata thousandths true (some answer) served)
        request in
    let dyed =
      not request.parent_sampled
      && (not (str_eq served.sampler_config.sampler_service_addr "")
          && any_listed answer request.attributes) in
    (q.tracestate ≡ (if dyed then dyeing else no_state))
    × (q.decision ≡ (
        if dyed || request.parent_sampled
        then record_and_sample
        else (ratio_sample thousandths served request).decision))
dyed_iff_listed_example = dyed_iff_listed thousandths served answer request
