-- ===== src/Trace/Deferred.antt =====
-- sdk/trace/deferred_sample_processor.go. The next processor is a parameter: what its OnEnd does to
-- its state. Times and durations are nanoseconds.
mod Tests
use go_opentelemetry.Prelude.{
  ℕ, ◌+◌, ◌≡◌, ◌≢◌, ◌⊎◌, refl, Bool, true, false, Option, none, some, List, [], ◌∷◌, ◌&&◌, not, ℤ,
  pos, negsuc, is_zero, leb_int, if◌then◌else◌, arith, length, Bool-cases, inl, inr, ◌∙◌, ap,
}

-- The span's status code: go.opentelemetry.io/otel/codes.
pub data StatusCode : Type 0 where
  unset error ok : StatusCode

-- What the deferred sampler reads of a `ReadOnlySpan`, with the end less the start as an int64.
pub record EndedSpan : Type 0 where
  pub sampled : Bool
  pub code : StatusCode
  pub start_time : ℕ
  pub duration : ℤ

pub record DeferredSampleConfig : Type 0 where
  pub enabled : Bool
  pub sample_error : Bool
  pub sample_slow_duration : ℤ

-- The counters of `NewDeferredSampler`.
pub record DeferredCounters : Type 0 where
  pub sampled : ℕ
  pub errors : ℕ
  pub slow : ℕ
  pub unsampled : ℕ

abbrev pub is_ok : StatusCode → Bool
is_ok ok = true
is_ok _ = false

-- The function that `NewDeferredSampler` returns.
unfoldable pub deferred_sampler :
    DeferredSampleConfig → EndedSpan → DeferredCounters → Bool × DeferredCounters
deferred_sampler cfg s c =
    if s.sampled
    then (true, record c { sampled = c.sampled + 1 })
    else (if cfg.enabled && (cfg.sample_error && not (is_ok s.code))
        then (true, record c { errors = c.errors + 1 })
        else (if cfg.enabled
              && (not (is_zero cfg.sample_slow_duration)
                  && leb_int cfg.sample_slow_duration s.duration)
            then (true, record c { slow = c.slow + 1 })
            else (false, record c { unsampled = c.unsampled + 1 })))

module _ {State : Type 0} (next_on_end : EndedSpan → State → State) where
  -- `OnEnd`, where `none` is a nil `deferredSampler`.
  unfoldable pub on_end_deferred :
      Option DeferredSampleConfig → EndedSpan → DeferredCounters × State → DeferredCounters × State
  on_end_deferred none s (c, n) = (c, next_on_end s n)
  on_end_deferred (some cfg) s (c, n) =
      let (keep, c') = deferred_sampler cfg s c in (c', if keep then next_on_end s n else n)

  unfoldable pub end_all :
      Option DeferredSampleConfig
      → List EndedSpan
      → DeferredCounters × State
      → DeferredCounters × State
  end_all cfg [] t = t
  end_all cfg (s ∷ rest) t = end_all cfg rest (on_end_deferred cfg s t)

-- A span that the configuration asks for: it is sampled, or the deferred sampling is enabled and either
-- takes errors, where the status is not ok, or has a duration other than 0, which the span reaches.
abbrev pub IsWanted : DeferredSampleConfig → EndedSpan → Type 0
IsWanted cfg s =
    (s.sampled ≡ true)
    ⊎ ((cfg.enabled ≡ true) × (cfg.sample_error ≡ true) × (s.code ≢ ok))
    ⊎ ((cfg.enabled ≡ true)
        × (is_zero cfg.sample_slow_duration ≡ false)
        × (leb_int cfg.sample_slow_duration s.duration ≡ true))

-- The second list has those of the first that are wanted, in order, and no other.
pub data Wanted (cfg : DeferredSampleConfig) : List EndedSpan → List EndedSpan → Type 0 where
  nothing : Wanted cfg [] []
  keeps :
      {s : EndedSpan} {spans kept : List EndedSpan}
      → IsWanted cfg s
      → Wanted cfg spans kept
      → Wanted cfg (s ∷ spans) (s ∷ kept)
  drops :
      {s : EndedSpan} {spans kept : List EndedSpan}
      → ¬ IsWanted cfg s
      → Wanted cfg spans kept
      → Wanted cfg (s ∷ spans) kept

-- The spans that have been counted as kept.
abbrev pub kept_count : DeferredCounters → ℕ
kept_count c = c.sampled + c.errors + c.slow

is_ok-ok : (c : StatusCode) → is_ok c ≡ false → c ≢ ok
is_ok-ok unset h = ground arith
is_ok-ok error h = ground arith
is_ok-ok ok h = absurd (cc)

ok-is_ok : (c : StatusCode) → c ≢ ok → is_ok c ≡ false
ok-is_ok unset h = refl
ok-is_ok error h = refl
ok-is_ok ok h = absurd (h refl)

-- The sampler keeps what is wanted.
pub deferred_sampler-IsWanted :
    (cfg : DeferredSampleConfig) (s : EndedSpan) (c : DeferredCounters)
    → (deferred_sampler cfg s c).0 ≡ true
    → IsWanted cfg s
unfolding deferred_sampler
deferred_sampler-IsWanted cfg s c h = elim (Bool-cases s.sampled) [
  | inl a ↦ inl a
  | inr a ↦ elim (Bool-cases (cfg.enabled && (cfg.sample_error && not (is_ok s.code)))) [
    | inl b ↦ inr (inl (ground arith, ground arith, is_ok-ok s.code (ground arith)))
    | inr b ↦ inr (inr (ground arith, ground arith, ground arith))
  ]
]

unwanted :
    (cfg : DeferredSampleConfig) (s : EndedSpan) (c : DeferredCounters)
    → (deferred_sampler cfg s c).0 ≡ false
    → ¬ IsWanted cfg s
unfolding deferred_sampler
unwanted cfg s c h (inl a) = ground arith
unwanted cfg s c h (inr (inl a)) = ground (arith, ok-is_ok s.code a.2)
unwanted cfg s c h (inr (inr a)) = ground arith

module _ {State : Type 0} (next_on_end : EndedSpan → State → State) where
  abbrev pub feed : List EndedSpan → State → State
  feed [] n = n
  feed (s ∷ rest) n = feed rest (next_on_end s n)

  -- What a sampler comes to from counters and a state: which spans the next processor has seen, and how
  -- they have been counted.
  pub record Ended (cfg : DeferredSampleConfig) (spans : List EndedSpan) (c : DeferredCounters)
      (n : State) (t : DeferredCounters × State) : Type 0 where
    pub kept : List EndedSpan
    pub wanted : Wanted cfg spans kept
    pub fed : t.1 ≡ feed kept n
    pub counted : kept_count t.0 ≡ kept_count c + length kept
    pub others : t.0.unsampled + length kept ≡ c.unsampled + length spans

  on_end-kept :
      (cfg : DeferredSampleConfig) (s : EndedSpan) (c : DeferredCounters) (n : State)
      → (deferred_sampler cfg s c).0 ≡ true
      → let t = on_end_deferred next_on_end (some cfg) s (c, n) in
        (t.1 ≡ next_on_end s n)
        × (kept_count t.0 ≡ kept_count c + 1)
        × (t.0.unsampled ≡ c.unsampled)
  unfolding on_end_deferred deferred_sampler
  on_end-kept cfg s c n h = ground arith

  on_end-dropped :
      (cfg : DeferredSampleConfig) (s : EndedSpan) (c : DeferredCounters) (n : State)
      → (deferred_sampler cfg s c).0 ≡ false
      → let t = on_end_deferred next_on_end (some cfg) s (c, n) in
        (t.1 ≡ n) × (kept_count t.0 ≡ kept_count c) × (t.0.unsampled ≡ c.unsampled + 1)
  unfolding on_end_deferred deferred_sampler
  on_end-dropped cfg s c n h = ground arith

  -- For every configuration and spans that end one after another: the next processor is handed the wanted
  -- ones, in order, and no other, where a span is wanted that is sampled or, with the sampling enabled,
  -- is not ok where errors are taken, or is as long as a slow duration that is not 0. The three counters
  -- of kept spans have grown by as many, the fourth by the number of the others.
  pub end_all-kept :
      (cfg : DeferredSampleConfig) (spans : List EndedSpan) (c : DeferredCounters) (n : State)
      → Ended cfg spans c n (end_all next_on_end (some cfg) spans (c, n))
  unfolding end_all
  end_all-kept cfg [] c n = record {
    kept = [];
    wanted = nothing;
    fed = refl;
    counted = omega arith;
    others = refl;
  }
  end_all-kept cfg (s ∷ rest) c n =
      let t = on_end_deferred next_on_end (some cfg) s (c, n) in
      let later = end_all-kept cfg rest t.0 t.1 in
      elim (Bool-cases (deferred_sampler cfg s c).0) [
        | inl h ↦
            let k = on_end-kept cfg s c n h in
            record {
              kept = s ∷ later.kept;
              wanted = keeps (deferred_sampler-IsWanted cfg s c h) later.wanted;
              fed = later.fed ∙ ap (feed later.kept) k.0;
              counted = omega (arith, later.counted, k.1);
              others = omega (arith, later.others, k.2);
            }
        | inr h ↦
            let k = on_end-dropped cfg s c n h in
            record {
              kept = later.kept;
              wanted = drops (unwanted cfg s c h) later.wanted;
              fed = later.fed ∙ ap (feed later.kept) k.0;
              counted = omega (arith, later.counted, k.1);
              others = omega (arith, later.others, k.2);
            }
      ]
