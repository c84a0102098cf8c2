-- ===== src/Rpc/Flow.antt =====
-- oteltrpc/traces/filter.go, oteltrpc/logs/log.go, config/config.go: the flow of a call as it is logged,
-- and when. Strings are text.
use go_opentelemetry.Prelude.{
  ◌≡◌, refl, Bool, true, false, Option, none, some, String, List, if◌then◌else◌, str_eq, not, ◌||◌,
}
use go_opentelemetry.Trace.Deferred.{StatusCode}
use go_opentelemetry.Rpc.{Side, client, server}

-- `LogMode`
pub data LogMode : Type 0 where
  log_mode_default log_mode_one_line log_mode_disable log_mode_multi_line : LogMode

-- `TraceLogRule`
pub record TraceLogRule : Type 0 where
  pub code : String
  pub service : String
  pub method : String

-- `MarshalText`
unfoldable pub marshal_text : LogMode → String
marshal_text log_mode_default = "oneline"
marshal_text log_mode_one_line = "oneline"
marshal_text log_mode_disable = "disable"
marshal_text log_mode_multi_line = "multiline"

-- `logModeMap`, where a missing key gives the zero value.
unfoldable pub log_mode_of : String → LogMode
log_mode_of s =
    if str_eq s "disable"
    then log_mode_disable
    else (if str_eq s "verbose" || (str_eq s "" || str_eq s "oneline")
        then log_mode_one_line
        else (if str_eq s "multiline" then log_mode_multi_line else log_mode_default))

abbrev pub known_or_one_line : LogMode → LogMode
known_or_one_line log_mode_default = log_mode_one_line
known_or_one_line m = m

-- `UnmarshalText`; `strings.ToLower` is the library's.
unfoldable pub unmarshal_text : (String → String) → String → LogMode
unmarshal_text to_lower s = known_or_one_line (log_mode_of (to_lower s))

-- Reading a mode that has been written gives the mode, where lower-casing leaves the three names as they
-- are; the default mode comes back as the one of one line.
unmarshal_text-marshal_text :
    (to_lower : String → String)
    → ((m : LogMode) → to_lower (marshal_text m) ≡ marshal_text m)
    → (m : LogMode) → unmarshal_text to_lower (marshal_text m) ≡ known_or_one_line m
unfolding unmarshal_text marshal_text log_mode_of
unmarshal_text-marshal_text to_lower h log_mode_default = rw (h log_mode_default) refl
unmarshal_text-marshal_text to_lower h log_mode_one_line = rw (h log_mode_one_line) refl
unmarshal_text-marshal_text to_lower h log_mode_disable = rw (h log_mode_disable) refl
unmarshal_text-marshal_text to_lower h log_mode_multi_line = rw (h log_mode_multi_line) refl

-- `FilterOptions`
pub record FilterOptions : Type 0 where
  pub trace_log_mode : LogMode
  pub exclude : List TraceLogRule
  pub disable_trace_body : Bool
  pub disable_parent_sampling : Bool

-- `Service`
pub record Service : Type 0 where
  pub name : String
  pub method : String
  pub namespace : String
  pub address : String

-- What the filters read of a `codec.Msg`.
pub record Msg : Type 0 where
  pub caller_service_name : String
  pub caller_method : String
  pub callee_service_name : String
  pub callee_method : String
  pub env_name : String
  pub remote_addr : Option String
  pub local_addr : Option String

abbrev pub or_empty : Option String → String
or_empty none = ""
or_empty (some s) = s

-- The addresses of the source and the target, by the local one and the remote one.
abbrev pub addresses : Side → String → String → String × String
addresses server local remote = (remote, local)
addresses client local remote = (local, remote)

-- The code and message of an `*errs.Error`, with its type's number, or an error of another type.
pub data Err (Int : Type 0) : Type 0 where
  trpc_error : Int → String → Int → Err Int
  other_error : String → Err Int

-- What the type switch of `DefaultGetCodeFunc` finds in a response.
pub record Rsp (Int : Type 0) : Type 0 where
  pub get_retcode : Option Int
  pub get_ret_code : Option Int
  pub get_code : Option Int

-- `Status` of a flow log.
pub record Status (Int : Type 0) : Type 0 where
  pub code : Int
  pub message : String
  pub type : String

-- `FlowLog`, less the heads, which nothing sets.
pub record FlowLog (Int : Type 0) : Type 0 where
  pub kind : Side
  pub source : Service
  pub target : Service
  pub request_body : String
  pub response_body : String
  pub cost : String
  pub status : Status Int

-- What `handleError` sets of a span: its status with a description, and the three attributes.
pub record SpanEnd (Int : Type 0) : Type 0 where
  pub status_code : StatusCode
  pub description : String
  pub code_attribute : Int
  pub message_attribute : String
  pub type_attribute : Int

-- What the logger is handed at the debug level.
pub data Logged (Int : Type 0) : Type 0 where
  one_line multi_line : FlowLog Int → Logged Int

-- `needToTraceBody`
abbrev pub is_disabled : LogMode → Bool
is_disabled log_mode_disable = true
is_disabled _ = false

abbrev pub is_error {ℓ} : {A : Type ℓ} → Option A → Bool
is_error none = false
is_error (some e) = true

unfoldable pub need_to_trace_body : {Int : Type 0} → Bool → FilterOptions → Option (Err Int) → Bool
need_to_trace_body sampled opt err =
    if opt.disable_trace_body
    then false
    else (if sampled then true else not (is_disabled opt.trace_log_mode) || is_error err)
