-- ===== src/Registry/Invariant.antt =====
-- sdk/metric/internal/registry/registry_impl.go: what holds of a registration whatever has happened.
use go_opentelemetry.Prelude.{
  ℕ, zero, suc, ◌-◌, true, Option, none, some, List, [], ◌∷◌, ◌≡◌, refl, sym, ap, subst, arith,
  length, Bool-cases, inl, inr, yields_some, length-append, ◌∙◌,
}
use go_opentelemetry.Channel.{
  is_got, is_drained, is_waiting, recv_cases, is_sent, is_full, is_panicked, send_cases,
}
use go_opentelemetry.Registry.{
  EtcdRegistry, Granted, Call, Phase, Registration, keeping, ranging, selecting, sleeping,
  registering, signalling, ended, KeepAliveError, register, keep_alive, keep_alive_closed,
  unregister, retry_wait, keeps, deletes,
}
use go_opentelemetry.Registry.System.{
  Event, runs, cancels, receives, parent_done, run, step, register_again, receive, on_error,
}
use go_opentelemetry.Registry.Steady.{
  of_some, Live, AtPhase, Steady, AtPhase-of, move-Steady, register_lem, keep_alive-Live,
  only_ended,
}

module _ {E : Type 0} where
  module _ (e : EtcdRegistry E) (ttl : ℕ) (no_err : e.err ≡ none) where
    on_error-Live :
        (random : ℕ) (err : Option (KeepAliveError E)) {p : Phase E} (cs : List (Call E)) (n k : ℕ)
        → on_error e random err ≡ some p
        → Live cs n k
        → AtPhase p cs n k
    on_error-Live random none cs n k h l = of_some (λ p. AtPhase p cs n k) keeping h l
    on_error-Live random (some x) cs n k h l =
        let (d, _, q) = yields_some (retry_wait e.register_ttl random) sleeping h in
        subst (λ p. AtPhase p cs n k) (sym q) l

    run-Steady :
        (p : Phase E) (grant : Granted E) (answer : Option E) (random : ℕ) (r : Registration E)
        {s : Registration E}
        → r.phase ≡ p
        → run e ttl p grant answer random r ≡ some s
        → Steady r
        → Steady s
    unfolding run unregister
    run-Steady keeping grant answer random r eq h v =
        let r' = record r {
          phase = keep_alive answer;
          calls = keeps r.lease_id answer ∷ r.calls;
        } in
        of_some Steady r' h (record {
          cap = v.cap;
          ch_open = v.ch_open;
          lease = v.lease;
          kept = (v.lease, v.kept);
          at_phase = keep_alive-Live answer _ _ _ (AtPhase-of r eq v);
        })
    run-Steady ranging grant answer random r eq h v =
        of_some Steady _ h (move-Steady keep_alive_closed r v (AtPhase-of r eq v))
    run-Steady (selecting err) grant answer random r eq h v = elim (Bool-cases r.done) [
      | inl d ↦
          let (n, l) = AtPhase-of {p = selecting err} r eq v in
          let r' = record r { phase = signalling; calls = deletes answer ∷ r.calls } in
          of_some Steady r' (sym (rw (d, no_err)) ∙ h) (record {
            cap = v.cap;
            ch_open = v.ch_open;
            lease = v.lease;
            kept = v.kept;
            at_phase = ((answer, r.calls, refl, n), l);
          })
      | inr d ↦
          let (p, q, f) =
            yields_some (on_error e random err) (λ p. record r { phase = p }) (sym (rw d) ∙ h) in
          subst Steady (sym f) (
            move-Steady p r v
              (on_error-Live random err _ _ _ q (AtPhase-of {p = selecting err} r eq v)))
    ]
    run-Steady (sleeping d) grant answer random r eq h v =
        of_some Steady _ h (move-Steady registering r v (AtPhase-of r eq v))
    run-Steady registering grant answer random r eq h v =
        let (l, (n, k)) = register_lem ttl grant answer r.calls in
        let (z, w) = AtPhase-of {p = registering} r eq v in
        of_some Steady (register_again r (register none ttl grant answer)) (sym (rw no_err) ∙ h)
          (record {
            cap = v.cap;
            ch_open = v.ch_open;
            lease = l;
            kept = k v.kept;
            at_phase = (n ∙ z, w);
          })
    run-Steady signalling grant answer random r eq h v = elim (send_cases tt r.ch) [
      | is_sent ch q i c o b l ↦
          let (u, (z, w)) = AtPhase-of {p = signalling} r eq v in
          of_some Steady (record r { phase = ended; ch = ch }) (sym (rw q) ∙ h)
            (record {
              cap = c ∙ v.cap;
              ch_open = o;
              lease = v.lease;
              kept = v.kept;
              at_phase = (u, ground (arith, i, length-append r.ch.items (tt ∷ [])));
            })
      | is_full q l b ↦
          let (u, (z, w)) = AtPhase-of {p = signalling} r eq v in
          absurd (omega (arith, z, l, v.cap))
      | is_panicked q b ↦ absurd (cc (b, v.ch_open))
    ]
    run-Steady ended grant answer random r eq h v = absurd (cc)

    receive-Steady :
        (n : ℕ) (r : Registration E) {s : Registration E}
        → receive e ttl n r ≡ some s
        → Steady r
        → Steady s
    receive-Steady zero r h v = absurd (cc)
    receive-Steady (suc n) r h v = elim (recv_cases r.ch) [
      | is_got x ch q i c o ↦
          let (eq, (u, z)) = only_ended r.phase r.calls r.returned_calls (ap length i) v.at_phase in
          of_some Steady
            (record r {
              ch = ch;
              waiting_calls = r.waiting_calls - 1;
              returned_calls = suc r.returned_calls;
            })
            (sym (rw q) ∙ h)
            (record {
              cap = c ∙ v.cap;
              ch_open = o ∙ v.ch_open;
              lease = v.lease;
              kept = v.kept;
              at_phase =
                  subst (λ p. AtPhase p r.calls (length ch.items) (suc r.returned_calls)) (sym eq)
                    (u, z);
            })
      | is_drained q i c ↦ absurd (cc (c, v.ch_open))
      | is_waiting q i c ↦ absurd (cc (rw q at h))
    ]

    pub step-Steady :
        (w : Event E) (r : Registration E) {s : Registration E}
        → step e ttl w r ≡ some s
        → Steady r
        → Steady s
    unfolding step
    step-Steady (runs grant answer random) r h v = run-Steady r.phase grant answer random r refl h v
    step-Steady cancels r h v =
        of_some Steady (record r { done = true; waiting_calls = suc r.waiting_calls }) h
          (record {
            cap = v.cap;
            ch_open = v.ch_open;
            lease = v.lease;
            kept = v.kept;
            at_phase = v.at_phase;
          })
    step-Steady receives r h v = receive-Steady r.waiting_calls r h v
    step-Steady parent_done r h v =
        of_some Steady (record r { done = true }) h
          (record {
            cap = v.cap;
            ch_open = v.ch_open;
            lease = v.lease;
            kept = v.kept;
            at_phase = v.at_phase;
          })
