-- ===== src/Registry/Progress.antt =====
-- sdk/metric/internal/registry/registry_impl.go: each move of the goroutine towards its end once cctx is done.
use go_opentelemetry.Prelude.{
  ℕ, suc, ◌≤◌, ◌<◌, true, Option, none, some, ◌∷◌, ◌++◌, ◌≡◌, refl, arith,
}
use go_opentelemetry.Channel.{is_sent, is_full, is_panicked, send_cases}
use go_opentelemetry.Registry.{
  EtcdRegistry, Granted, Phase, Registration, keeping, ranging, selecting, sleeping, registering,
  signalling, ended, register, keep_alive, keep_alive_closed, unregister, keeps,
}
use go_opentelemetry.Registry.System.{run, register_again}
use go_opentelemetry.Registry.Steady.{Steady, AtPhase-of}

module _ {E : Type 0} where
  -- How far the goroutine of a context that is done is from its end.
  abbrev pub left : Phase E → ℕ
  left ended = 0
  left signalling = 1
  left (selecting err) = 2
  left ranging = 3
  left keeping = 4
  left registering = 5
  left (sleeping d) = 6

  keep_alive_left : (answer : Option E) → suc (left (keep_alive answer)) ≤ 4
  keep_alive_left none = omega arith
  keep_alive_left (some x) = omega arith

  -- A move towards the end.
  pub record Moved (e : EtcdRegistry E) (ttl : ℕ) (grant : Granted E) (answer : Option E)
      (random : ℕ) (p : Phase E) (r : Registration E) : Type 0 where
    pub after : Registration E
    pub moves : run e ttl p grant answer random r ≡ some after
    pub nearer : suc (left after.phase) ≤ left p
    pub still_done : after.done ≡ true
    pub same_waiting : after.waiting_calls ≡ r.waiting_calls
    pub same_returned : after.returned_calls ≡ r.returned_calls

  pub progress :
      (e : EtcdRegistry E) (ttl : ℕ) (grant : Granted E) (answer : Option E) (random : ℕ)
      (p : Phase E) (r : Registration E)
      → r.phase ≡ p
      → Steady r
      → r.done ≡ true
      → 0 < left p
      → Moved e ttl grant answer random p r
  unfolding run
  progress e ttl grant answer random keeping r eq v d h = record {
    after = record r { phase = keep_alive answer; calls = keeps r.lease_id answer ∷ r.calls };
    moves = refl;
    nearer = keep_alive_left answer;
    still_done = d;
    same_waiting = refl;
    same_returned = refl;
  }
  progress e ttl grant answer random ranging r eq v d h = record {
    after = record r { phase = keep_alive_closed };
    moves = refl;
    nearer = omega arith;
    still_done = d;
    same_waiting = refl;
    same_returned = refl;
  }
  progress e ttl grant answer random (selecting err) r eq v d h = record {
    after = record r { phase = signalling; calls = unregister e.err answer ++ r.calls };
    moves = rw d;
    nearer = omega arith;
    still_done = d;
    same_waiting = refl;
    same_returned = refl;
  }
  progress e ttl grant answer random (sleeping x) r eq v d h = record {
    after = record r { phase = registering };
    moves = refl;
    nearer = omega arith;
    still_done = d;
    same_waiting = refl;
    same_returned = refl;
  }
  progress e ttl grant answer random registering r eq v d h = record {
    after = register_again r (register e.err ttl grant answer);
    moves = refl;
    nearer = omega arith;
    still_done = d;
    same_waiting = refl;
    same_returned = refl;
  }
  progress e ttl grant answer random signalling r eq v d h = elim (send_cases tt r.ch) [
    | is_sent ch q i c o b l ↦ record {
      after = record r { phase = ended; ch = ch };
      moves = rw q;
      nearer = omega arith;
      still_done = d;
      same_waiting = refl;
      same_returned = refl;
    }
    | is_full q l b ↦
        let (u, (z, w)) = AtPhase-of {p = signalling} r eq v in absurd (omega (arith, z, l, v.cap))
    | is_panicked q b ↦ absurd (cc (b, v.ch_open))
  ]
  progress e ttl grant answer random ended r eq v d h = absurd (omega arith)
