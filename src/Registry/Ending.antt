-- ===== src/Registry/Ending.antt =====
-- sdk/metric/internal/registry/registry_impl.go: the goroutine's way to its end once cctx is done.
use go_opentelemetry.Prelude.{
  ltb→lt, ℕ, zero, suc, ◌-◌, ◌≤◌, ◌<◌, true, Option, some, ◌≡◌, ◌>>=◌, refl, sym, ap, subst, arith,
  length, Bool-cases, inl, inr, ◌∙◌, ltb,
}
use go_opentelemetry.Channel.{is_got, is_drained, is_waiting, recv_cases}
use go_opentelemetry.Registry.{
  EtcdRegistry, Granted, Phase, Registration, keeping, ranging, selecting, sleeping, registering,
  signalling, ended,
}
use go_opentelemetry.Registry.System.{runs, receives, step, Reach, next, receive}
use go_opentelemetry.Registry.Steady.{AtPhase-of}
use go_opentelemetry.Registry.Cancel.{Reach-Steady}
use go_opentelemetry.Registry.Progress.{left, progress}

module _ {E : Type 0} where
  -- What the client and the random source answer to one move after another.
  abbrev pub turns :
      EtcdRegistry E
      → ℕ
      → (ℕ → Granted E × (Option E × ℕ))
      → ℕ
      → Registration E
      → Option (Registration E)
  turns e ttl answers zero r = some r
  turns e ttl answers (suc n) r =
      step e ttl (runs (answers 0).0 (answers 0).1.0 (answers 0).1.1) r
      >>= turns e ttl (λ i. answers (suc i)) n

  -- The goroutine's end, as `turns` reaches it in no more than so many moves.
  record Ended (e : EtcdRegistry E) (ttl : ℕ) (answers : ℕ → Granted E × (Option E × ℕ)) (fuel : ℕ)
      (r : Registration E) : Type 0 where
    moves : ℕ
    few : moves ≤ fuel
    last : Registration E
    reaches : turns e ttl answers moves r ≡ some last
    at_end : last.phase ≡ ended
    as_waiting : last.waiting_calls ≡ r.waiting_calls
    as_returned : last.returned_calls ≡ r.returned_calls
    reachable : Reach e ttl last

  left_zero : (p : Phase E) → left p ≤ 0 → p ≡ ended
  left_zero ended h = refl
  left_zero signalling h = absurd (omega arith)
  left_zero (selecting x) h = absurd (omega arith)
  left_zero ranging h = absurd (omega arith)
  left_zero keeping h = absurd (omega arith)
  left_zero registering h = absurd (omega arith)
  left_zero (sleeping x) h = absurd (omega arith)

  left_le : (p : Phase E) → left p ≤ 6
  left_le signalling = omega arith
  left_le ended = omega arith
  left_le (selecting x) = omega arith
  left_le ranging = omega arith
  left_le keeping = omega arith
  left_le registering = omega arith
  left_le (sleeping x) = omega arith

  ends_within :
      (e : EtcdRegistry E) (ttl fuel : ℕ) (answers : ℕ → Granted E × (Option E × ℕ))
      (r : Registration E)
      → left r.phase ≤ fuel
      → r.done ≡ true
      → Reach e ttl r
      → Ended e ttl answers fuel r
  unfolding step
  ends_within e ttl zero answers r l d b = record {
    moves = 0;
    few = omega arith;
    last = r;
    reaches = refl;
    at_end = left_zero r.phase l;
    as_waiting = refl;
    as_returned = refl;
    reachable = b;
  }
  ends_within e ttl (suc fuel) answers r l d b = elim (Bool-cases (ltb 0 (left r.phase))) [
    | inl h ↦
        let m =
          progress e ttl (answers 0).0 (answers 0).1.0 (answers 0).1.1 r.phase r refl
            (Reach-Steady e ttl b).1 d (ltb→lt 0 (left r.phase) h) in
        let x =
          ends_within e ttl fuel (λ i. answers (suc i)) m.after (omega (arith, m.nearer, l))
            m.still_done (next (runs (answers 0).0 (answers 0).1.0 (answers 0).1.1) b m.moves) in
        record {
          moves = suc x.moves;
          few = omega (arith, x.few);
          last = x.last;
          reaches = rw m.moves x.reaches;
          at_end = x.at_end;
          as_waiting = x.as_waiting ∙ m.same_waiting;
          as_returned = x.as_returned ∙ m.same_returned;
          reachable = x.reachable;
        }
    | inr h ↦ record {
      moves = 0;
      few = omega arith;
      last = r;
      reaches = refl;
      at_end = left_zero r.phase (ground arith);
      as_waiting = refl;
      as_returned = refl;
      reachable = b;
    }
  ]

  received :
      (e : EtcdRegistry E) (ttl n : ℕ) (s : Registration E)
      → 0 < n
      → length s.ch.items ≡ 1
      → (t : Registration E) × (receive e ttl n s ≡ some t)
        × (t.returned_calls ≡ suc s.returned_calls)
  received e ttl zero s h l = absurd (omega arith)
  received e ttl (suc n) s h l = elim (recv_cases s.ch) [
    | is_got x ch q i c o ↦ (
      record s {
        ch = ch;
        waiting_calls = s.waiting_calls - 1;
        returned_calls = suc s.returned_calls;
      },
      rw q,
      refl,
    )
    | is_drained q i c ↦ absurd (omega (arith, l, ap length i))
    | is_waiting q i c ↦ absurd (omega (arith, l, ap length i))
  ]

  -- In every state that can come of a successful Register in which `cctx` is done, a call of `cancelFunc`
  -- waits and none has returned: whatever the client and the random source answer, within six moves the
  -- goroutine has ended, and a call of `cancelFunc` then returns. None of the moves panics.
  pub cancel_returns :
      (e : EtcdRegistry E) (ttl : ℕ) (answers : ℕ → Granted E × (Option E × ℕ)) {r : Registration E}
      → Reach e ttl r
      → r.done ≡ true
      → 0 < r.waiting_calls
      → r.returned_calls ≡ 0
      → (n : ℕ) × (s : Registration E) × (t : Registration E) × (n ≤ 6)
        × (turns e ttl answers n r ≡ some s)
        × (s.phase ≡ ended)
        × (step e ttl receives s ≡ some t)
        × (t.returned_calls ≡ 1)
  unfolding step
  cancel_returns e ttl answers {r = r} b d w z =
      let x = ends_within e ttl 6 answers r (left_le r.phase) d b in
      let (u, o) = AtPhase-of {p = ended} x.last x.at_end (Reach-Steady e ttl x.reachable).1 in
      let (t, q, c) =
        received e ttl x.last.waiting_calls x.last (subst (λ k. 0 < k) (sym x.as_waiting) w)
          (omega (arith, o, z, x.as_returned)) in
      (x.moves, x.last, t, x.few, x.reaches, x.at_end, q, c ∙ ap suc (x.as_returned ∙ z))
