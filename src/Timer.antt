-- ===== src/Timer.antt =====
-- What the programs use of Go's time.Timer.
use go_opentelemetry.Prelude.{Bool, true, false, Option, none, some, if◌then◌else◌}

-- A timer of package time: whether it runs, and whether a tick waits in its channel.
pub record Timer : Type 0 where
  pub active : Bool
  pub ready : Bool

-- `NewTimer`
abbrev pub new : Timer
new = record { active = true; ready = false }

-- `Stop` reports whether the timer was running. It does not empty the channel.
abbrev pub stop : Timer → Bool × Timer
stop t = (t.active, record t { active = false })

-- `Reset` starts the timer and does not empty the channel.
abbrev pub reset : Timer → Timer
reset t = record t { active = true }

-- The runtime's tick.
abbrev pub fire : Timer → Option Timer
fire t = if t.active then some (record { active = false; ready = true }) else none

-- `<-C`, which waits where no tick is there.
abbrev pub receive : Timer → Option Timer
receive t = if t.ready then some (record t { ready = false }) else none
