-- ===== src/Registry/Tests.antt =====
-- sdk/metric/internal/registry/registry_impl.go: a registration that is cancelled while the goroutine
-- sleeps after a failed KeepAlive. The client's errors are texts here.
use go_opentelemetry.Prelude.{
  ℕ, suc, ◌≤◌, ◌≡◌, refl, Option, none, some, String, List, [], ◌∷◌, arith,
}
use go_opentelemetry.Channel.{send, recv}
use go_opentelemetry.Registry.{
  EtcdRegistry, Granted, granted, refused, Registration, new_registration, register,
  register_instance, new_etcd_registry, unregister, retry_wait, ended, deletes, keeps, puts, grants,
}
use go_opentelemetry.Registry.System.{Event, runs, cancels, receives, run, step, Reach, fresh, next}
use go_opentelemetry.Registry.Steady.{Unregistered, KeepsCurrent, current_lease}
use go_opentelemetry.Registry.Cancel.{cancel_returned, lease_kept}
use go_opentelemetry.Registry.Ending.{turns, cancel_returns}

abbrev etcd : EtcdRegistry String
etcd = new_etcd_registry (λ n. none) 0 "tenant" (suc ∷ [])

abbrev or_same : Registration String → Option (Registration String) → Registration String
or_same r none = r
or_same r (some s) = s

-- Run events in turn, passing over those that cannot happen.
unfoldable run_all : List (Event String) → Registration String → Registration String
run_all [] r = r
run_all (v ∷ vs) r = run_all vs (or_same r (step etcd 60_000_000_000 v r))

or_same-Reach :
    {r : Registration String} (v : Event String) (o : Option (Registration String))
    → step etcd 60_000_000_000 v r ≡ o
    → Reach etcd 60_000_000_000 r
    → Reach etcd 60_000_000_000 (or_same r o)
or_same-Reach v none h b = b
or_same-Reach v (some s) h b = next v b h

run_all-Reach :
    (vs : List (Event String)) (r : Registration String)
    → Reach etcd 60_000_000_000 r
    → Reach etcd 60_000_000_000 (run_all vs r)
unfolding run_all
run_all-Reach [] r b = b
run_all-Reach (v ∷ vs) r b =
    run_all-Reach vs (or_same r (step etcd 60_000_000_000 v r))
      (or_same-Reach v (step etcd 60_000_000_000 v r) refl b)

abbrev first_state : Registration String
first_state = new_registration (register none 60_000_000_000 (granted 7) none)

first_state-Reach : Reach etcd 60_000_000_000 first_state
unfolding register_instance new_etcd_registry register
first_state-Reach = fresh (granted 7) none refl

-- KeepAlive fails, and `cancelFunc` is called twice while the goroutine sleeps.
abbrev before_end : List (Event String)
before_end = runs (refused "") (some "timeout") 0 ∷ runs (refused "") none 1 ∷ cancels ∷ []

abbrev waiting_state : Registration String
waiting_state = run_all before_end first_state

waiting_state-Reach : Reach etcd 60_000_000_000 waiting_state
waiting_state-Reach = run_all-Reach before_end first_state first_state-Reach

abbrev to_end : List (Event String)
to_end =
    runs (refused "") none 0
    ∷ runs (granted 8) none 0
    ∷ runs (refused "") none 0
    ∷ runs (refused "") none 0
    ∷ runs (refused "") none 0
    ∷ runs (refused "") none 0
    ∷ receives
    ∷ cancels
    ∷ []

abbrev last_state : Registration String
last_state = run_all to_end waiting_state

last_state-Reach : Reach etcd 60_000_000_000 last_state
last_state-Reach = run_all-Reach to_end waiting_state waiting_state-Reach

last_calls :
    last_state.calls
    ≡ deletes none
      ∷ keeps 8 none
      ∷ puts 8 none
      ∷ grants 60 (granted 8)
      ∷ keeps 7 (some "timeout")
      ∷ puts 7 none
      ∷ grants 60 (granted 7)
      ∷ []
unfolding run_all step run register unregister new_etcd_registry retry_wait send recv
last_calls = refl

cancel_returned_example :
    (last_state.phase ≡ ended) × (Unregistered last_state.calls × (last_state.returned_calls ≡ 1))
unfolding run_all step run register unregister new_etcd_registry retry_wait send recv
cancel_returned_example = cancel_returned etcd 60_000_000_000 last_state-Reach (omega arith)

lease_kept_example :
    KeepsCurrent last_state.calls × (last_state.lease_id ≡ current_lease last_state.calls)
lease_kept_example = lease_kept etcd 60_000_000_000 last_state-Reach

abbrev all_fail : ℕ → Granted String × (Option String × ℕ)
all_fail i = (refused "down", (some "down", i))

cancel_returns_example :
    (n : ℕ) × (s : Registration String) × (t : Registration String) × (n ≤ 6)
    × (turns etcd 60_000_000_000 all_fail n waiting_state ≡ some s)
    × (s.phase ≡ ended)
    × (step etcd 60_000_000_000 receives s ≡ some t)
    × (t.returned_calls ≡ 1)
unfolding run_all step run register unregister new_etcd_registry retry_wait send recv
cancel_returns_example =
    cancel_returns etcd 60_000_000_000 all_fail waiting_state-Reach refl (omega arith) refl
