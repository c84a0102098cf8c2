-- ===== src/Registry/System.antt =====
-- sdk/metric/internal/registry/registry_impl.go: the goroutine of Register, the calls of cancelFunc and
-- the etcd client, as interleavings.
use go_opentelemetry.Prelude.{
  ℕ, zero, suc, ◌-◌, true, Option, none, some, ◌∷◌, ◌++◌, if◌then◌else◌, ◌≡◌, ◌>>=◌,
}
use go_opentelemetry.Channel.{Send, sent, full, panicked, send, Recv, got, drained, waiting, recv}
use go_opentelemetry.Registry.{
  EtcdRegistry, Granted, Phase, Registration, keeping, ranging, selecting, sleeping, registering,
  signalling, ended, KeepAliveError, register, register_instance, keep_alive, keep_alive_closed,
  unregister, retry_wait, keeps, started, Registered,
}

-- `runs` moves the goroutine by what the client and the random source answer, if they are asked; where
-- it is in its loop over the channel, the client closes the channel. `cancels` begins a call of
-- `cancelFunc` and `receives` ends one; `parent_done` is the end of the caller's context.
pub data Event (E : Type 0) : Type 0 where
  runs : Granted E → Option E → ℕ → Event E
  cancels receives parent_done : Event E

module _ {E : Type 0} where
  -- The default case of the select, with the error of `keepAlive`.
  abbrev pub on_error : EtcdRegistry E → ℕ → Option (KeepAliveError E) → Option (Phase E)
  on_error e random none = some keeping
  on_error e random (some err) = retry_wait e.register_ttl random >>= λ d. some (sleeping d)

  abbrev pub after_send : Registration E → Send (Unit {0}) → Option (Registration E)
  after_send r (sent ch) = some (record r { phase = ended; ch = ch })
  after_send r full = none
  after_send r panicked = none

  abbrev pub register_again : Registration E → Registered E → Registration E
  register_again r g = record r {
    phase = keeping;
    lease_id = g.lease_id;
    calls = g.made ++ r.calls;
  }

  module _ (e : EtcdRegistry E) (ttl : ℕ) where
    -- One move of the goroutine. `none` is a goroutine that waits, has ended or panics.
    unfoldable pub run :
        Phase E → Granted E → Option E → ℕ → Registration E → Option (Registration E)
    run keeping grant answer random r =
        some (record r { phase = keep_alive answer; calls = keeps r.lease_id answer ∷ r.calls })
    run ranging grant answer random r = some (record r { phase = keep_alive_closed })
    run (selecting err) grant answer random r =
        if r.done
        then some (record r { phase = signalling; calls = unregister e.err answer ++ r.calls })
        else (on_error e random err >>= λ p. some (record r { phase = p }))
    run (sleeping d) grant answer random r = some (record r { phase = registering })
    run registering grant answer random r =
        some (register_again r (register e.err ttl grant answer))
    run signalling grant answer random r = after_send r (send tt r.ch)
    run ended grant answer random r = none

    abbrev pub after_recv : Registration E → Recv (Unit {0}) → Option (Registration E)
    after_recv r (got u ch) = some (record r {
      ch = ch;
      waiting_calls = r.waiting_calls - 1;
      returned_calls = suc r.returned_calls;
    })
    after_recv r drained = none
    after_recv r waiting = none

    -- The rest of a call of `cancelFunc`, which receives from `ch`, if there is such a call.
    abbrev pub receive : ℕ → Registration E → Option (Registration E)
    receive zero r = none
    receive (suc n) r = after_recv r (recv r.ch)

    -- `none` is an event that cannot happen now.
    unfoldable pub step : Event E → Registration E → Option (Registration E)
    step (runs grant answer random) r = run r.phase grant answer random r
    step cancels r = some (record r { done = true; waiting_calls = suc r.waiting_calls })
    step receives r = receive r.waiting_calls r
    step parent_done r = some (record r { done = true })

    -- What can come of a `Register` that succeeds.
    pub data Reach : Registration E → Type 0 where
      fresh :
          (grant : Granted E) (put : Option E) {r : Registration E}
          → register_instance e ttl grant put ≡ started r
          → Reach r
      next : (v : Event E) {r s : Registration E} → Reach r → step v r ≡ some s → Reach s
