-- ===== src/Remote.antt =====
-- sdk/remote/configurator.go: the remote configurator. An apply function is known by the place at which
-- it has been registered, and what the functions do to their own state is the list of their calls. The
-- connection and the service's answers are given.
pub mod Current
pub mod Codes
mod Tests
use go_opentelemetry.Prelude.{
  ℕ, suc, zero, ◌==◌, Bool, true, false, Option, none, some, List, [], ◌∷◌, ◌++◌, if◌then◌else◌,
  ◌≡◌,
}

abbrev pub minute : ℕ
minute = 60_000_000_000

module _ (C : Type 0) where
  -- `remoteConfigurator`: its interval in nanoseconds, whether it has a client, `lastConfig`, where
  -- `none` is nil, how many functions `configApplyFuncList` has, and the calls of them, each with its
  -- function and its argument, the last one first.
  pub record RemoteConfigurator : Type 0 where
    pub sync_interval : ℕ
    pub has_client : Bool
    pub last_config : Option C
    pub config_apply_funcs : ℕ
    pub applied : List (ℕ × Option C)

  -- What the service answers: an error, or a response with an operation or none.
  pub data Answer : Type 0 where
    failed : Answer
    answered : Option C → Answer

  -- Turns of the daemon and registrations. Each holds the lock where it touches what they share.
  pub data Event : Type 0 where
    syncs : Bool → Answer → Event
    registers : Event

module _ {C : Type 0} where
  -- `NewRemoteConfigurator`, and whether the daemon is started; `has_addr` tells an address that is not
  -- empty.
  unfoldable pub new_remote_configurator : ℕ → Bool → RemoteConfigurator C × Bool
  new_remote_configurator sync_interval has_addr = (
    record {
      sync_interval = if sync_interval == 0 then minute else sync_interval;
      has_client = false;
      last_config = none;
      config_apply_funcs = 0;
      applied = [];
    },
    has_addr,
  )

  -- The loop over `configApplyFuncList`, up to the n-th function. Their errors are printed at most.
  unfoldable pub apply_all : ℕ → Option C → List (ℕ × Option C) → List (ℕ × Option C)
  apply_all zero c log = log
  apply_all (suc n) c log = (n, c) ∷ apply_all n c log

  abbrev pub on_answer : Answer C → RemoteConfigurator C → RemoteConfigurator C
  on_answer failed rc = rc
  on_answer (answered c) rc = record rc {
    last_config = c;
    applied = apply_all rc.config_apply_funcs c rc.applied;
  }

  -- `sync`, by whether a dial would succeed and the answer of the service.
  unfoldable pub sync : Bool → Answer C → RemoteConfigurator C → RemoteConfigurator C
  sync dials answer rc =
      if rc.has_client
      then on_answer answer rc
      else (if dials then on_answer answer (record rc { has_client = true }) else rc)

  abbrev pub apply_last : Option C → ℕ → List (ℕ × Option C) → List (ℕ × Option C)
  apply_last none n log = log
  apply_last (some c) n log = (n, some c) ∷ log

  -- `RegisterConfigApplyFunc`
  unfoldable pub register_config_apply_func : RemoteConfigurator C → RemoteConfigurator C
  register_config_apply_func rc = record rc {
    config_apply_funcs = suc rc.config_apply_funcs;
    applied = apply_last rc.last_config rc.config_apply_funcs rc.applied;
  }

  abbrev pub step : Event C → RemoteConfigurator C → RemoteConfigurator C
  step (syncs dials answer) rc = sync dials answer rc
  step registers rc = register_config_apply_func rc

  unfoldable pub run : List (Event C) → RemoteConfigurator C → RemoteConfigurator C
  run [] rc = rc
  run (v ∷ vs) rc = run vs (step v rc)

  -- The argument of the last call of a function, if it has been called.
  abbrev pub last_call : ℕ → List (ℕ × Option C) → Option (Option C)
  last_call i [] = none
  last_call i ((j, c) ∷ log) = if j == i then some c else last_call i log
