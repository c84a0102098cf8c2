-- ===== src/Registry.antt =====
-- sdk/metric/internal/registry/registry_impl.go: an instance's registration in etcd. The client of
-- etcd is given by what it answers to each call; an answer that is `none` is a nil error.
pub mod System
pub mod Steady
pub mod Invariant
pub mod Cancel
pub mod Progress
pub mod Ending
mod Tests
use go_opentelemetry.Prelude.{
  ℕ, zero, suc, ◌/◌, ◌%◌, ◌*◌, String, ◌+◌, ◌==◌, Bool, true, false, Option, none, some, List, [],
  ◌∷◌, if◌then◌else◌,
}
use go_opentelemetry.Channel.{Chan, Send, sent, full, panicked, make, send}

-- Durations are in nanoseconds.
abbrev pub second : ℕ
second = 1_000_000_000

abbrev pub default_register_ttl : ℕ
default_register_ttl = 60 * second

-- `retryWait`, by the number that the random source gives. `Int63n` panics for a bound of 0.
unfoldable pub retry_wait : ℕ → ℕ → Option ℕ
retry_wait register_ttl random =
    let third = register_ttl / 3 in if third == 0 then none else some (third + random % third)

-- The options change the client's configuration in turn.
abbrev pub apply_options : {C : Type 0} → List (C → C) → C → C
apply_options [] c = c
apply_options (opt ∷ opts) c = apply_options opts (opt c)

module _ (E : Type 0) where
  -- `etcdRegistry`; `err` is the error of the client's constructor.
  pub record EtcdRegistry : Type 0 where
    pub tenant_id : String
    pub register_ttl : ℕ
    pub err : Option E

  -- What the client answers to `Grant`: an error or the lease's number.
  pub data Granted : Type 0 where
    refused : E → Granted
    granted : ℕ → Granted

  -- A call of the client, with its arguments and its answer.
  pub data Call : Type 0 where
    grants : ℕ → Granted → Call
    puts : ℕ → Option E → Call
    keeps : ℕ → Option E → Call
    deletes : Option E → Call

  -- The error of `keepAlive`: the one of the call, wrapped, or that the channel has been closed.
  pub data KeepAliveError : Type 0 where
    keep_alive_err : E → KeepAliveError
    keep_alive_ch_closed : KeepAliveError

  -- What `register` returns, and the calls that it has made, the last one first.
  pub record Registered : Type 0 where
    pub lease_id : ℕ
    pub failure : Option E
    pub made : List Call

  -- Where the goroutine of `Register` stands: before `keepAlive`, in its loop over the channel, at the
  -- select behind it, asleep for a time, before `register`, before the send on `ch`, or ended.
  pub data Phase : Type 0 where
    keeping ranging : Phase
    selecting : Option KeepAliveError → Phase
    sleeping : ℕ → Phase
    registering signalling ended : Phase

  -- A successful `Register`: its goroutine, whether `cctx` is done, `ch`, the calls of the client, the
  -- last one first, and how many calls of `cancelFunc` wait for `ch` and how many have returned.
  pub record Registration : Type 0 where
    pub phase : Phase
    pub lease_id : ℕ
    pub done : Bool
    pub ch : Chan (Unit {0})
    pub calls : List Call
    pub waiting_calls : ℕ
    pub returned_calls : ℕ

  -- `Register`: an error, or the registration whose goroutine has just been started.
  pub data Register : Type 0 where
    failed : E → List Call → Register
    started : Registration → Register

module _ {E : Type 0} where
  -- `NewEtcdRegistry`, by the error of `clientv3.New`.
  unfoldable pub new_etcd_registry :
      {C : Type 0} → (C → Option E) → C → String → List (C → C) → EtcdRegistry E
  new_etcd_registry new_client config tenant_id opts = record {
    tenant_id = tenant_id;
    register_ttl = default_register_ttl;
    err = new_client (apply_options opts config);
  }

  abbrev pub after_put : ℕ → ℕ → Option E → Registered E
  after_put seconds id none = record {
    lease_id = id;
    failure = none;
    made = puts id none ∷ grants seconds (granted id) ∷ [];
  }
  after_put seconds id (some e) = record {
    lease_id = 0;
    failure = some e;
    made = puts id (some e) ∷ grants seconds (granted id) ∷ [];
  }

  abbrev pub after_grant : ℕ → Granted E → Option E → Registered E
  after_grant seconds (refused e) put = record {
    lease_id = 0;
    failure = some e;
    made = grants seconds (refused e) ∷ [];
  }
  after_grant seconds (granted id) put = after_put seconds id put

  -- `register`, by what `Grant` and `Put` answer. The lease is asked for in whole seconds.
  unfoldable pub register : Option E → ℕ → Granted E → Option E → Registered E
  register (some e) ttl grant put = record { lease_id = 0; failure = some e; made = [] }
  register none ttl grant put = after_grant (ttl / second) grant put

  abbrev pub new_registration : Registered E → Registration E
  new_registration r = record {
    phase = keeping;
    lease_id = r.lease_id;
    done = false;
    ch = make 1;
    calls = r.made;
    waiting_calls = 0;
    returned_calls = 0;
  }

  abbrev pub start_goroutine : Registered E → Option E → Register E
  start_goroutine r (some e) = failed e (r.made)
  start_goroutine r none = started (new_registration r)

  abbrev pub register_unless : EtcdRegistry E → Option E → ℕ → Granted E → Option E → Register E
  register_unless e (some err) ttl grant put = failed err []
  register_unless e none ttl grant put =
      let r = register e.err ttl grant put in start_goroutine r r.failure

  unfoldable pub register_instance : EtcdRegistry E → ℕ → Granted E → Option E → Register E
  register_instance e ttl grant put = register_unless e e.err ttl grant put

  -- `keepAlive`, up to its loop over the channel.
  abbrev pub keep_alive : Option E → Phase E
  keep_alive none = ranging
  keep_alive (some e) = selecting (some (keep_alive_err e))

  -- The end of the loop, when the client closes the channel.
  abbrev pub keep_alive_closed : Phase E
  keep_alive_closed = selecting (some keep_alive_ch_closed)

  -- `unregister`, by what `Delete` answers.
  unfoldable pub unregister : Option E → Option E → List (Call E)
  unregister (some e) answer = []
  unregister none answer = deletes answer ∷ []
