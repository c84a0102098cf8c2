-- ===== src/Registry/Steady.antt =====
-- sdk/metric/internal/registry/registry_impl.go: what a step keeps of a registration.
use go_opentelemetry.Prelude.{
  some_inj, ℕ, suc, ◌+◌, false, Option, none, some, List, [], ◌∷◌, ◌++◌, ◌≡◌, refl, subst, arith,
  length,
}
use go_opentelemetry.Registry.{
  Granted, Call, Phase, Registration, keeping, ranging, selecting, sleeping, registering,
  signalling, ended, register, keep_alive, keeps, deletes, puts, grants, refused, granted,
}

-- What a step that has yielded `y` tells of `y`.
pub of_some : {A : Type 0} (P : A → Type 0) (x : A) {y : A} → some x ≡ some y → P x → P y
of_some P x h = subst P (some_inj h)

module _ {E : Type 0} where
  -- How many calls of `Delete` have been made.
  abbrev pub deletions : List (Call E) → ℕ
  deletions [] = 0
  deletions (deletes a ∷ cs) = suc (deletions cs)
  deletions (grants s g ∷ cs) = deletions cs
  deletions (puts id a ∷ cs) = deletions cs
  deletions (keeps id a ∷ cs) = deletions cs

  -- The lease under which the key has last been put, or 0 where the last attempt has failed.
  abbrev pub current_lease : List (Call E) → ℕ
  current_lease [] = 0
  current_lease (deletes a ∷ cs) = current_lease cs
  current_lease (grants s g ∷ cs) = 0
  current_lease (puts id none ∷ cs) = id
  current_lease (puts id (some e) ∷ cs) = 0
  current_lease (keeps id a ∷ cs) = current_lease cs

  -- Each `KeepAlive` has been for the lease that was the current one.
  abbrev pub KeepsCurrent : List (Call E) → Type 0
  KeepsCurrent [] = Unit {0}
  KeepsCurrent (deletes a ∷ cs) = KeepsCurrent cs
  KeepsCurrent (grants s g ∷ cs) = KeepsCurrent cs
  KeepsCurrent (puts id a ∷ cs) = KeepsCurrent cs
  KeepsCurrent (keeps id a ∷ cs) = (id ≡ current_lease cs) × KeepsCurrent cs

  -- The last call is `Delete`, and there is no other.
  abbrev pub Unregistered : List (Call E) → Type 0
  Unregistered cs =
      (answer : Option E) × (before : List (Call E)) × (cs ≡ deletes answer ∷ before)
      × (deletions before ≡ 0)

  -- What each place in the goroutine tells of the calls, of how many items `ch` has and of how many
  -- calls of `cancelFunc` have returned.
  abbrev pub Live : List (Call E) → ℕ → ℕ → Type 0
  Live cs n k = (deletions cs ≡ 0) × ((n ≡ 0) × (k ≡ 0))

  abbrev pub AtPhase : Phase E → List (Call E) → ℕ → ℕ → Type 0
  AtPhase signalling cs n k = Unregistered cs × ((n ≡ 0) × (k ≡ 0))
  AtPhase ended cs n k = Unregistered cs × (n + k ≡ 1)
  AtPhase keeping cs n k = Live cs n k
  AtPhase ranging cs n k = Live cs n k
  AtPhase (selecting err) cs n k = Live cs n k
  AtPhase (sleeping d) cs n k = Live cs n k
  AtPhase registering cs n k = Live cs n k

  pub record Steady (r : Registration E) : Type 0 where
    pub cap : r.ch.cap ≡ 1
    pub ch_open : r.ch.closed ≡ false
    pub lease : r.lease_id ≡ current_lease r.calls
    pub kept : KeepsCurrent r.calls
    pub at_phase : AtPhase r.phase r.calls (length r.ch.items) r.returned_calls

  pub AtPhase-of :
      {p : Phase E} (r : Registration E)
      → r.phase ≡ p
      → Steady r
      → AtPhase p r.calls (length r.ch.items) r.returned_calls
  AtPhase-of r eq v =
      subst (λ p. AtPhase p r.calls (length r.ch.items) r.returned_calls) eq v.at_phase

  -- A move that changes nothing but the phase.
  pub move-Steady :
      (p : Phase E) (r : Registration E)
      → Steady r
      → AtPhase p r.calls (length r.ch.items) r.returned_calls
      → Steady (record r { phase = p })
  move-Steady p r v a = record {
    cap = v.cap;
    ch_open = v.ch_open;
    lease = v.lease;
    kept = v.kept;
    at_phase = a;
  }

  -- What a successful attempt of `register` or a failed one adds.
  pub register_lem :
      (ttl : ℕ) (grant : Granted E) (answer : Option E) (cs : List (Call E))
      → let g = register none ttl grant answer in
        (g.lease_id ≡ current_lease (g.made ++ cs))
        × ((deletions (g.made ++ cs) ≡ deletions cs)
            × (KeepsCurrent cs → KeepsCurrent (g.made ++ cs)))
  unfolding register
  register_lem ttl (refused x) answer cs = (refl, (refl, λ k. k))
  register_lem ttl (granted id) none cs = (refl, (refl, λ k. k))
  register_lem ttl (granted id) (some x) cs = (refl, (refl, λ k. k))

  pub keep_alive-Live :
      (answer : Option E) (cs : List (Call E)) (n k : ℕ)
      → Live cs n k
      → AtPhase (keep_alive answer) cs n k
  keep_alive-Live none cs n k h = h
  keep_alive-Live (some x) cs n k h = h

  -- Only a goroutine that has ended has sent on `ch`.
  pub only_ended :
      (p : Phase E) (cs : List (Call E)) {m n : ℕ} (k : ℕ)
      → m ≡ suc n
      → AtPhase p cs m k
      → (p ≡ ended) × (Unregistered cs × (n + suc k ≡ 1))
  only_ended signalling cs k h (u, w) = absurd (omega arith)
  only_ended ended cs k h (u, z) = (refl, (u, omega arith))
  only_ended keeping cs k h (u, w) = absurd (omega arith)
  only_ended ranging cs k h (u, w) = absurd (omega arith)
  only_ended (selecting x) cs k h (u, w) = absurd (omega arith)
  only_ended (sleeping x) cs k h (u, w) = absurd (omega arith)
  only_ended registering cs k h (u, w) = absurd (omega arith)
