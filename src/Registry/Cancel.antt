-- ===== src/Registry/Cancel.antt =====
-- sdk/metric/internal/registry/registry_impl.go: what the calls of cancelFunc come to.
use go_opentelemetry.Prelude.{
  ℕ, zero, suc, ◌<◌, Option, none, some, List, ◌≡◌, refl, ap, subst, arith, length,
}
use go_opentelemetry.Channel.{is_got, is_drained, is_waiting, recv_cases}
use go_opentelemetry.Registry.{
  EtcdRegistry, Granted, Call, Phase, Registration, keeping, ranging, selecting, sleeping,
  registering, signalling, ended, register, register_instance, started, Registered, refused,
  granted, start_goroutine, new_registration, register_unless,
}
use go_opentelemetry.Registry.System.{receives, step, Reach, fresh, next, receive}
use go_opentelemetry.Registry.Steady.{
  Steady, Unregistered, AtPhase, AtPhase-of, KeepsCurrent, current_lease, deletions,
}
use go_opentelemetry.Registry.Invariant.{step-Steady}

module _ {E : Type 0} where
  register_made :
      (ttl : ℕ) (grant : Granted E) (put : Option E)
      → let g = register none ttl grant put in
        (g.lease_id ≡ current_lease g.made) × ((deletions g.made ≡ 0) × KeepsCurrent g.made)
  unfolding register
  register_made ttl (refused x) put = (refl, (refl, tt))
  register_made ttl (granted id) none = (refl, (refl, tt))
  register_made ttl (granted id) (some x) = (refl, (refl, tt))

  start_goroutine-Steady :
      (g : Registered E) (failure : Option E) {r : Registration E}
      → start_goroutine g failure ≡ started r
      → (g.lease_id ≡ current_lease g.made) × ((deletions g.made ≡ 0) × KeepsCurrent g.made)
      → Steady r
  start_goroutine-Steady g (some x) h q = absurd (cc)
  start_goroutine-Steady g none h (l, (n, k)) =
      subst Steady {x = new_registration g} (cc)
        (record { cap = refl; ch_open = refl; lease = l; kept = k; at_phase = (n, (refl, refl)) })

  register_unless-Steady :
      (e : EtcdRegistry E) (err : Option E) (ttl : ℕ) (grant : Granted E) (put : Option E)
      {r : Registration E}
      → e.err ≡ err
      → register_unless e err ttl grant put ≡ started r
      → (e.err ≡ none) × Steady r
  register_unless-Steady e (some x) ttl grant put eq h = absurd (cc)
  register_unless-Steady e none ttl grant put eq h =
      let g = register none ttl grant put in
      (eq, start_goroutine-Steady g g.failure (rw eq at h) (register_made ttl grant put))

  pub Reach-Steady :
      (e : EtcdRegistry E) (ttl : ℕ) {r : Registration E}
      → Reach e ttl r
      → (e.err ≡ none) × Steady r
  unfolding register_instance
  Reach-Steady e ttl (fresh grant put h) = register_unless-Steady e e.err ttl grant put refl h
  Reach-Steady e ttl (next v {r = r} b h) =
      let (n, s) = Reach-Steady e ttl b in (n, step-Steady e ttl n v r h s)

  returned_ended :
      (p : Phase E) (cs : List (Call E)) (n : ℕ) {k : ℕ}
      → 0 < k
      → AtPhase p cs n k
      → (p ≡ ended) × (Unregistered cs × (k ≡ 1))
  returned_ended signalling cs n h (u, (z, w)) = absurd (omega arith)
  returned_ended ended cs n h (u, z) = (refl, (u, omega arith))
  returned_ended keeping cs n h (u, (z, w)) = absurd (omega arith)
  returned_ended ranging cs n h (u, (z, w)) = absurd (omega arith)
  returned_ended (selecting x) cs n h (u, (z, w)) = absurd (omega arith)
  returned_ended (sleeping x) cs n h (u, (z, w)) = absurd (omega arith)
  returned_ended registering cs n h (u, (z, w)) = absurd (omega arith)

  -- In every state that can come of a successful Register: where a call of `cancelFunc` has returned,
  -- it is the only one that has, the goroutine has ended, and the last call of the client is `Delete`,
  -- the only one.
  pub cancel_returned :
      (e : EtcdRegistry E) (ttl : ℕ) {r : Registration E}
      → Reach e ttl r
      → 0 < r.returned_calls
      → (r.phase ≡ ended) × (Unregistered r.calls × (r.returned_calls ≡ 1))
  cancel_returned e ttl {r = r} b h =
      returned_ended r.phase r.calls (length r.ch.items) h (Reach-Steady e ttl b).1.at_phase

  emptied :
      (e : EtcdRegistry E) (ttl n : ℕ) (r : Registration E)
      → length r.ch.items ≡ 0
      → receive e ttl n r ≡ none
  emptied e ttl zero r z = refl
  emptied e ttl (suc n) r z = elim (recv_cases r.ch) [
    | is_got x ch q i c o ↦ absurd (omega (arith, z, ap length i))
    | is_drained q i c ↦ rw q
    | is_waiting q i c ↦ rw q
  ]

  -- In every state that can come of a successful Register: where a call of `cancelFunc` has returned,
  -- no other call of it can return.
  next_cancel_blocks :
      (e : EtcdRegistry E) (ttl : ℕ) {r : Registration E}
      → Reach e ttl r
      → 0 < r.returned_calls
      → step e ttl receives r ≡ none
  unfolding step
  next_cancel_blocks e ttl {r = r} b h =
      let (p, (u, k)) = cancel_returned e ttl b h in
      let (v, z) = AtPhase-of {p = ended} r p (Reach-Steady e ttl b).1 in
      emptied e ttl r.waiting_calls r (omega (arith, z, k))

  -- In every state that can come of a successful Register: each `KeepAlive` has been for the lease under
  -- which the key had last been put, or for lease 0 where the last attempt to put it had failed.
  pub lease_kept :
      (e : EtcdRegistry E) (ttl : ℕ) {r : Registration E}
      → Reach e ttl r
      → KeepsCurrent r.calls × (r.lease_id ≡ current_lease r.calls)
  lease_kept e ttl b = let v = (Reach-Steady e ttl b).1 in (v.kept, v.lease)
