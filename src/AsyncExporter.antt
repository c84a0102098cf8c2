-- ===== src/AsyncExporter.antt =====
-- exporter/asyncexporter/exporter.go: the exporter's state and its operations. The gRPC library is
-- given by what it answers: the error of a dial, the error of a request.
pub mod Workers
pub mod System
pub mod Invariant
pub mod Account
mod Tests
use go_opentelemetry.Prelude.{
  ℕ, zero, suc, ◌+◌, ◌*◌, Bool, true, false, Option, none, some, List, [], ◌∷◌, ◌++◌, if◌then◌else◌,
  not, length, String, str_eq,
}
use go_opentelemetry.Channel.{Chan, Send, sent, full, panicked, send, close, make}

-- `status.Code`, as far as `retryable` tells the codes apart.
pub data Code : Type 0 where
  canceled deadline_exceeded resource_exhausted aborted out_of_range unavailable data_loss : Code
  other_code : Code

-- `status.Details`: a retry delay in nanoseconds, or some other message.
pub data Detail : Type 0 where
  retry_info : ℕ → Detail
  other_detail : Detail

pub record Status : Type 0 where
  pub code : Code
  pub details : List Detail

-- `throttleDelay`
unfoldable pub throttle_delay : List Detail → ℕ
throttle_delay [] = 0
throttle_delay (retry_info d ∷ ds) = d
throttle_delay (other_detail ∷ ds) = throttle_delay ds

-- `retryable`
abbrev pub is_retryable : Code → Bool
is_retryable other_code = false
is_retryable _ = true

unfoldable pub retryable : Status → Bool × ℕ
retryable s = if is_retryable s.code then (true, throttle_delay s.details) else (false, 0)

-- The errors of the exporter.
pub data Error : Type 0 where
  already_started not_started disconnected stopped context_canceled : Error
  dial_error : ℕ → Error
  request_error : Status → Error

-- Where the goroutine of `indefiniteBackgroundConnection` is: not begun, at its first select, about to
-- connect, at its second select, or returned.
pub data Background : Type 0 where
  unborn awaiting connecting sleeping returned : Background

-- A batch of resource logs, each given by a number.
abbrev pub Batch : Type 0
Batch = List ℕ

-- `Exporter`. `conn` is `grpcClientConn`, `disconnected_token` what `disconnectedCh` holds, `stop_closed`
-- a closed `stopCh`, `idle` the export goroutines that wait for a batch, `busy` the batches that the
-- others are exporting, `async_success` and `async_failed` the counters of logs, `shutting` the connection
-- that a `Shutdown` which waits for those goroutines has read. The last three fields record what happened: the batches taken in, those that the collector has answered without an error,
-- and the connections closed.
pub record Exporter : Type 0 where
  pub started : Bool
  pub start_once : Bool
  pub concurrency : ℕ
  pub conn : Option ℕ
  pub last_connect_error : Option Error
  pub stop_closed : Bool
  pub disconnected_token : Bool
  pub logs_batch_ch : Chan Batch
  pub idle : ℕ
  pub busy : List Batch
  pub background : Background
  pub async_success : ℕ
  pub async_failed : ℕ
  pub shutting : Option (Option ℕ)
  pub accepted : List Batch
  pub delivered : List Batch
  pub closed_conns : List ℕ

-- `NewUnstartedExporter`. The channels are made by `Start`.
abbrev pub new_unstarted_exporter : ℕ → Exporter
new_unstarted_exporter concurrency = record {
  started = false;
  start_once = false;
  concurrency = concurrency;
  conn = none;
  last_connect_error = none;
  stop_closed = false;
  disconnected_token = false;
  logs_batch_ch = make 0;
  idle = 0;
  busy = [];
  background = unborn;
  async_success = 0;
  async_failed = 0;
  shutting = none;
  accepted = [];
  delivered = [];
  closed_conns = [];
}

abbrev pub is_none {ℓ} : {A : Type ℓ} → Option A → Bool
is_none none = true
is_none (some a) = false

-- `connected`
unfoldable pub connected : Exporter → Bool
connected e = is_none e.last_connect_error

-- `setStateConnected`
abbrev pub set_state_connected : Exporter → Exporter
set_state_connected e = record e { last_connect_error = none }

-- `setStateDisconnected`: the channel holds one token at most.
abbrev pub set_state_disconnected : Error → Exporter → Exporter
set_state_disconnected err e = record e { last_connect_error = some err; disconnected_token = true }

abbrev pub close_conn : Option ℕ → List ℕ → List ℕ
close_conn none cs = cs
close_conn (some c) cs = c ∷ cs

-- `enableConnections` with a new connection
unfoldable pub enable_connections : ℕ → Exporter → Option Error × Exporter
enable_connections cc e =
    if not e.started
    then (some not_started, e)
    else (none, record e { conn = some cc; closed_conns = close_conn e.conn e.closed_conns })

-- What `dialToCollector` comes to.
pub data Dial : Type 0 where
  dialed : ℕ → Dial
  dial_failed : ℕ → Dial

-- `connect`
unfoldable pub connect : Dial → Exporter → Option Error × Exporter
connect (dial_failed n) e = (some (dial_error n), e)
connect (dialed cc) e = enable_connections cc e

abbrev pub note_connect : Option Error × Exporter → Exporter
note_connect (none, e) = set_state_connected e
note_connect (some err, e) = set_state_disconnected err e

-- The body of `Start`'s `startOnce.Do`
abbrev pub start_body : Dial → Exporter → Exporter
start_body dial e =
    let ready = record e {
      started = true;
      start_once = true;
      stop_closed = false;
      disconnected_token = false;
      logs_batch_ch = make (2 * e.concurrency);
    } in
    record (note_connect (connect dial ready)) { background = awaiting; idle = e.concurrency }

-- `Start`
unfoldable pub start : Dial → Exporter → Option Error × Exporter
start dial e = if e.start_once then (some already_started, e) else (none, start_body dial e)

-- How a call of `ExportLogs` goes: it returns nil, waits for room, or panics.
pub data Export : Type 0 where
  taken : Exporter → Export
  waits : Export
  panics : Export

-- What a send on a closed channel says, and what the deferred function lets pass.
abbrev pub panic_message : String
panic_message = "send on closed channel"

abbrev pub recover_message : String
recover_message = "send on closed channel logsBatchCh"

abbrev pub export_outcome : Send Batch → Batch → Exporter → Export
export_outcome (sent c) logs e =
    taken (record e { logs_batch_ch = c; accepted = e.accepted ++ logs ∷ [] })
export_outcome full logs e = waits
export_outcome panicked logs e = if str_eq panic_message recover_message then taken e else panics

-- `ExportLogs` of a started exporter. Before `Start` the pool yields nil, and the call panics.
unfoldable pub export_logs : Batch → Exporter → Export
export_logs logs e =
    if not e.start_once then panics else export_outcome (send logs e.logs_batch_ch) logs e
