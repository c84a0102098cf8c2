-- ===== src/Rpc/Counts.antt =====
-- sdk/metric/rpc_client_reporter.go, rpc_server_reporter.go: how many updates go to each counter.
use go_opentelemetry.Prelude.{
  ℕ, suc, ◌+◌, Bool, true, false, Option, none, some, String, List, [], ◌∷◌, ◌++◌, if◌then◌else◌,
  ◌≡◌, refl, arith, Bool-cases, inl, inr,
}
use go_opentelemetry.Codes.Mapping.{CodeConverter, mapping}
use go_opentelemetry.Rpc.{
  Side, Reporter, Update, StreamMetrics, Vec, Label, started_counter, handled_counter,
  stream_msg_received, stream_msg_sent,
}
use go_opentelemetry.Rpc.Handled.{
  handled, counter_need_use_exemplar, histogram_need_use_exemplar, cost_of,
}
use go_opentelemetry.Rpc.Applied.{Accepting, panics}
use go_opentelemetry.Rpc.Streams.{StreamCall, sends, receives}

-- The four counters.
abbrev pub is_started : Vec → Bool
is_started (started_counter s) = true
is_started _ = false

abbrev pub is_handled : Vec → Bool
is_handled (handled_counter s) = true
is_handled _ = false

abbrev pub is_received : Vec → Bool
is_received (stream_msg_received s) = true
is_received _ = false

abbrev pub is_sent : Vec → Bool
is_sent (stream_msg_sent s) = true
is_sent _ = false

-- How many updates go to such a vector.
abbrev pub count : (Vec → Bool) → List Update → ℕ
count p [] = 0
count p (u ∷ us) = if p u.vec then suc (count p us) else count p us

pub count-append :
    (p : Vec → Bool) (us vs : List Update) → count p (us ++ vs) ≡ count p us + count p vs
count-append p [] vs = omega arith
count-append p (u ∷ us) vs = ground (arith, count-append p us vs)

-- The updates add so many to the counters of handled calls, and of messages received and sent, and
-- nothing to the one of started calls.
abbrev pub Adds : ℕ → ℕ → ℕ → List Update → Type 0
Adds h g s us =
    (count is_started us ≡ 0)
    × ((count is_handled us ≡ h) × ((count is_received us ≡ g) × (count is_sent us ≡ s)))

pub Adds-append :
    {h g s h' g' s' : ℕ} (us vs : List Update)
    → Adds h g s us
    → Adds h' g' s' vs
    → Adds (h + h') (g + g') (s + s') (us ++ vs)
Adds-append us vs (z, (a, (b, c))) (z', (a', (b', c'))) = (
  omega (arith, z, z', count-append is_started us vs),
  (
    omega (arith, a, a', count-append is_handled us vs),
    (
      omega (arith, b, b', count-append is_received us vs),
      omega (arith, c, c', count-append is_sent us vs),
    ),
  ),
)

module _ {E : Type 0} where
  -- What a call's answer is to be counted as.
  abbrev pub ends : StreamCall E → ℕ
  ends (receives (some e) sampled now) = 1
  ends _ = 0

  abbrev pub gets : StreamCall E → ℕ
  gets (receives none sampled now) = 1
  gets _ = 0

  abbrev pub puts : StreamCall E → ℕ
  puts (sends none) = 1
  puts _ = 0

  abbrev pub total : (StreamCall E → ℕ) → List (StreamCall E) → ℕ
  total f [] = 0
  total f (c ∷ cs) = f c + total f cs

  -- A call on a stream whose reporter has metrics and no extra labels.
  pub record Counted (accepts : Vec → List Label → Bool) (m : StreamMetrics) (c : StreamCall E)
      (o : Option (Reporter × List Update)) : Type 0 where
    pub reporter : Reporter
    pub updates : List Update
    pub answers : o ≡ some (reporter, updates)
    pub has_metrics : reporter.metrics ≡ some m
    pub no_extra : reporter.extra_labels ≡ []
    pub adds : Adds (ends c) (gets c) (puts c) updates
    pub passes : panics accepts updates ≡ false

module _ (cm : CodeConverter) where
  pub handled-Adds :
      (side : Side) (r : Reporter) (sampled : Bool) (code : String) (now : ℕ)
      → Adds 1 0 0 (handled cm true true side r sampled code now).1
        × ((handled cm true true side r sampled code now).0.metrics ≡ r.metrics)
        × ((handled cm true true side r sampled code now).0.extra_labels ≡ r.extra_labels)
  unfolding handled
  handled-Adds side r sampled code now =
      let c =
        counter_need_use_exemplar r sampled
          (mapping cm code r.callee_service r.callee_method).type in
      elim (Bool-cases c) [
        | inl a ↦ elim (Bool-cases (histogram_need_use_exemplar r sampled (cost_of r now))) [
          | inl b ↦ rw (a, b) ((refl, (refl, (refl, refl))), refl, refl)
          | inr b ↦ rw (a, b) ((refl, (refl, (refl, refl))), refl, refl)
        ]
        | inr a ↦ elim (Bool-cases (histogram_need_use_exemplar r sampled (cost_of r now))) [
          | inl b ↦ rw (a, b) ((refl, (refl, (refl, refl))), refl, refl)
          | inr b ↦ rw (a, b) ((refl, (refl, (refl, refl))), refl, refl)
        ]
      ]

  pub handled-passes :
      (accepts : Vec → List Label → Bool) (side : Side) (r : Reporter) (sampled : Bool)
      (code : String) (now : ℕ)
      → Accepting cm accepts
      → r.extra_labels ≡ []
      → panics accepts (handled cm true true side r sampled code now).1 ≡ false
  unfolding handled panics
  handled-passes accepts side r sampled code now a e =
      let c =
        counter_need_use_exemplar r sampled
          (mapping cm code r.callee_service r.callee_method).type in
      let x = a.of_handled side r code e in
      let y = a.of_time side r code e in
      elim (Bool-cases c) [
        | inl p ↦ elim (Bool-cases (histogram_need_use_exemplar r sampled (cost_of r now))) [
          | inl q ↦ rw (p, q, x, y) refl
          | inr q ↦ rw (p, q, x, y) refl
        ]
        | inr p ↦ elim (Bool-cases (histogram_need_use_exemplar r sampled (cost_of r now))) [
          | inl q ↦ rw (p, q, x, y) refl
          | inr q ↦ rw (p, q, x, y) refl
        ]
      ]
