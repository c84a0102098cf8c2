-- ===== src/Trace/Sampler/Dyeing.antt =====
-- sdk/trace/dyeing_sampler.go: which spans the sampler service's answer dyes.
use go_opentelemetry.Prelude.{
  ◌≡◌, refl, Bool, true, false, Option, none, some, String, List, [], ◌∷◌, Map, get, put, get-put,
  str_eq, if◌then◌else◌, arith, eq_iff, not, ◌&&◌, ◌||◌,
}
use go_opentelemetry.Trace.Fraction.{Float64}
use go_opentelemetry.Trace.Sampler.{
  Attribute, SamplerAttribute, SampledKvs, SamplingParameters, no_state, dyeing, Sampler,
  record_and_sample, mark_values, mark_attributes, or_empty, is_true, holds, is_sampled_kv,
  is_forced, is_dyed, update_dyeing_metadata, ratio_sample, should_sample,
}

abbrev is_member : String → List String → Bool
is_member v [] = false
is_member v (w ∷ ws) = str_eq w v || is_member v ws

-- The answer lists the value for the key.
abbrev pub is_listed : List SamplerAttribute → String → String → Bool
is_listed [] k v = false
is_listed (a ∷ rest) k v = str_eq a.key k && is_member v a.values || is_listed rest k v

mark_values_lem :
    (v : String) (vs : List String) (kv : Map Bool)
    → is_true (get v (mark_values vs kv)) ≡ (is_member v vs || is_true (get v kv))
unfolding mark_values
mark_values_lem v [] kv = refl
mark_values_lem v (w ∷ vs) kv =
    ground (arith, mark_values_lem v vs (put w true kv), get-put w v true kv)

holds-or_empty : (o : Option (Map Bool)) (v : String) → is_true (get v (or_empty o)) ≡ holds o v
unfolding get
holds-or_empty none v = refl
holds-or_empty (some kv) v = refl

mark_attributes_lem :
    (k v : String) (as' : List SamplerAttribute) (kvs : SampledKvs)
    → holds (get k (mark_attributes as' kvs)) v ≡ (is_listed as' k v || holds (get k kvs) v)
unfolding mark_attributes
mark_attributes_lem k v [] kvs = refl
mark_attributes_lem k v (a ∷ rest) kvs = ground (
  arith,
  mark_attributes_lem k v rest (put a.key (mark_values a.values (or_empty (get a.key kvs))) kvs),
  get-put a.key k (mark_values a.values (or_empty (get a.key kvs))) kvs,
  mark_values_lem v a.values (or_empty (get a.key kvs)),
  holds-or_empty (get a.key kvs) v,
  eq_iff a.key k,
)

-- Some attribute is the forced one, or is listed in the answer.
abbrev pub any_listed : List SamplerAttribute → List Attribute → Bool
any_listed answer [] = false
any_listed answer (a ∷ rest) =
    (is_forced a || is_listed answer a.key a.emit) || any_listed answer rest

is_dyed-any_listed :
    (answer : List SamplerAttribute) (attrs : List Attribute)
    → is_dyed (some (mark_attributes answer [])) attrs ≡ any_listed answer attrs
unfolding is_dyed is_sampled_kv get
is_dyed-any_listed answer [] = refl
is_dyed-any_listed answer (a ∷ rest) =
    ground (arith, is_dyed-any_listed answer rest, mark_attributes_lem a.key a.emit answer [])

module _ (fl : Float64) where
  -- A span is dyed when its parent is not sampled, a sampler service is configured and some attribute
  -- is the forced one with a value, or has a value that the last answer lists for its key; else it is
  -- not dyed, whatever its fraction decides. One that is dyed, or whose parent is sampled, is recorded
  -- and sampled, and of any other the fraction decides.
  pub dyed_iff_listed :
      (ws : Sampler fl) (answer : List SamplerAttribute) (p : SamplingParameters)
      → let q = should_sample fl (update_dyeing_metadata fl true (some answer) ws) p in
        let dyed =
          not p.parent_sampled
          && (not (str_eq ws.sampler_config.sampler_service_addr "")
              && any_listed answer p.attributes) in
        (q.tracestate ≡ (if dyed then dyeing else no_state))
        × (q.decision ≡ (
            if dyed || p.parent_sampled
            then record_and_sample
            else (ratio_sample fl ws p).decision))
  unfolding should_sample update_dyeing_metadata ratio_sample
  dyed_iff_listed ws answer p = ground (arith, is_dyed-any_listed answer p.attributes)
