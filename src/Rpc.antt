-- ===== src/Rpc.antt =====
-- sdk/metric/rpc_client_reporter.go, rpc_server_reporter.go: the reporters of calls. What a reporter does
-- to the vectors of the Prometheus library is the list of its updates, in order. Times are nanoseconds,
-- and none is before another that the program takes earlier; the zero time is `none`. An update whose
-- WithLabelValues panics is the last one made: Applied tells whether there is one.
pub mod Handled
pub mod Labels
pub mod Flow
pub mod Spans
pub mod Exemplars
pub mod Filters
pub mod Applied
pub mod Calls
pub mod Streams
pub mod Counts
pub mod StreamCounts
mod Tests
use go_opentelemetry.Prelude.{
  ℕ, Bool, true, false, Option, none, some, String, List, [], ◌∷◌, ◌++◌, map, if◌then◌else◌,
}

-- The reporters of the two sides, of the same shape in the source.
pub data Side : Type 0 where
  client server : Side

-- The vectors. Those of single messages have a histogram on the client's side only.
pub data Vec : Type 0 where
  started_counter handled_counter handled_histogram : Side → Vec
  stream_msg_received stream_msg_sent : Side → Vec
  stream_recv_histogram stream_send_histogram : Vec

-- A label's value; descriptions of codes are bytes.
pub data Label : Type 0 where
  text : String → Label
  bytes : List ℕ → Label

-- What is done to the metric of some label values: `Inc`, `AddWithExemplar(1, …)`, `Observe`,
-- `ObserveWithExemplar`, or the observation of a timer that has been started.
pub data Op : Type 0 where
  inc add_with_exemplar : Op
  observe observe_with_exemplar : ℕ → Op
  observe_timer : Op

-- `WithLabelValues` of a vector, and what is done to the metric.
pub record Update : Type 0 where
  pub vec : Vec
  pub labels : List Label
  pub op : Op

-- `RPCType`
abbrev pub unary : String
unary = "unary"

abbrev pub client_stream : String
client_stream = "client_stream"

abbrev pub server_stream : String
server_stream = "server_stream"

abbrev pub bidi_stream : String
bidi_stream = "bidi_stream"

-- What a reporter reads of `ClientMetrics`: which histograms of messages are enabled.
pub record StreamMetrics : Type 0 where
  pub recv_histogram_enabled : Bool
  pub send_histogram_enabled : Bool

-- `ClientReporter` and `ServerReporter`; `metrics` is `none` where it is a nil pointer.
pub record Reporter : Type 0 where
  pub system_name : String
  pub caller_service : String
  pub caller_method : String
  pub callee_service : String
  pub callee_method : String
  pub start_time : ℕ
  pub end_time : Option ℕ
  pub extra_labels : List String
  pub metrics : Option StreamMetrics
  pub rpc_type : String
  pub enable_deferred_sample : Bool
  pub deferred_sample_error : Bool
  pub deferred_sample_slow_duration : ℕ

-- `WithClientExtraLabels`
abbrev pub with_extra_labels : List String → Reporter → Reporter
with_extra_labels labels r = record r { extra_labels = labels }

-- `WithClientTraceConfig`
abbrev pub with_trace_config : Bool → Bool → ℕ → Reporter → Reporter
with_trace_config enabled error slow r = record r {
  enable_deferred_sample = enabled;
  deferred_sample_error = error;
  deferred_sample_slow_duration = slow;
}

-- `WithClientStartTime`
abbrev pub with_start_time : ℕ → Reporter → Reporter
with_start_time t r = record r { start_time = t }

-- `WithClientEndTime`
abbrev pub with_end_time : Option ℕ → Reporter → Reporter
with_end_time t r = record r { end_time = t }

-- `WithClientMetrics`
abbrev pub with_metrics : Option StreamMetrics → Reporter → Reporter
with_metrics m r = record r { metrics = m }

-- `WithClientRPCType`
abbrev pub with_rpc_type : String → Reporter → Reporter
with_rpc_type t r = record r { rpc_type = t }

abbrev pub apply_options : List (Reporter → Reporter) → Reporter → Reporter
apply_options [] r = r
apply_options (opt ∷ options) r = apply_options options (opt r)

-- The labels of who calls whom, in front of the others.
abbrev pub reserved : Reporter → List Label
reserved r =
    text r.system_name
    ∷ text r.caller_service
    ∷ text r.caller_method
    ∷ text r.callee_service
    ∷ text r.callee_method
    ∷ []

-- `cleanServiceName` and `CleanRPCMethod`, which users replace. Names models the default on bytes.
module _ (clean_service_name clean_rpc_method : String → String) where
  -- `NewClientReporter` and `NewServerReporter`, with the time.
  unfoldable pub new_reporter :
      Side
      → String
      → String
      → String
      → String
      → String
      → ℕ
      → List (Reporter → Reporter)
      → Reporter × List Update
  new_reporter side system_name caller_service caller_method callee_service callee_method now
        options =
      let r = apply_options options (record {
        system_name = system_name;
        caller_service = clean_service_name caller_service;
        caller_method = clean_rpc_method caller_method;
        callee_service = clean_service_name callee_service;
        callee_method = clean_rpc_method callee_method;
        start_time = now;
        end_time = none;
        extra_labels = [];
        metrics = none;
        rpc_type = "";
        enable_deferred_sample = false;
        deferred_sample_error = false;
        deferred_sample_slow_duration = 0;
      }) in
      (
        r,
        record {
          vec = started_counter side;
          labels = reserved r ++ map text r.extra_labels;
          op = inc;
        }
            ∷ [],
      )

-- `streamLabels`
abbrev pub stream_labels : Reporter → List Label
stream_labels r =
    text r.system_name
    ∷ text r.rpc_type
    ∷ text r.caller_service
    ∷ text r.caller_method
    ∷ text r.callee_service
    ∷ text r.callee_method
    ∷ []

abbrev pub stream_update : Vec → Op → Reporter → Update
stream_update v op r = record { vec = v; labels = stream_labels r; op = op }

-- The updates of a reporter of streams. `none` is the panic on a nil `metrics`; that of
-- WithLabelValues is in Applied.
abbrev pub if_metrics : Option StreamMetrics → List Update → Option (List Update)
if_metrics none us = none
if_metrics (some m) us = some us

-- `ReceivedMessage`
unfoldable pub received_message : Side → Reporter → Option (List Update)
received_message side r = if_metrics r.metrics (stream_update (stream_msg_received side) inc r ∷ [])

-- `SentMessage`
unfoldable pub sent_message : Side → Reporter → Option (List Update)
sent_message side r = if_metrics r.metrics (stream_update (stream_msg_sent side) inc r ∷ [])

abbrev pub recv_timer_for : Option StreamMetrics → Reporter → Option (List Update)
recv_timer_for none r = none
recv_timer_for (some m) r = some (
    if m.recv_histogram_enabled
    then stream_update stream_recv_histogram observe_timer r ∷ []
    else [])

-- `ReceiveMessageTimer`, with what `ObserveDuration` of its timer does.
unfoldable pub receive_message_timer : Reporter → Option (List Update)
receive_message_timer r = recv_timer_for r.metrics r

abbrev pub send_timer_for : Option StreamMetrics → Reporter → Option (List Update)
send_timer_for none r = none
send_timer_for (some m) r = some (
    if m.send_histogram_enabled
    then stream_update stream_send_histogram observe_timer r ∷ []
    else [])

-- `SendMessageTimer`, with what `ObserveDuration` of its timer does.
unfoldable pub send_message_timer : Reporter → Option (List Update)
send_message_timer r = send_timer_for r.metrics r
