-- ===== src/Rpc/Spans.antt =====
-- oteltrpc/traces/filter.go and log.go, oteltrpc/codes/codes.go: what the trace filter makes of a call's
-- end. Go's ints, their conversions and errs.Code are parameters.
use go_opentelemetry.Prelude.{
  Bool, Option, none, some, String, List, [], ◌∷◌, if◌then◌else◌, str_eq, not, ◌&&◌, ◌||◌,
}
use go_opentelemetry.Codes.{code_type_success, code_type_string}
use go_opentelemetry.Codes.Mapping.{CodeConverter, mapping}
use go_opentelemetry.Trace.Deferred.{error, ok}
use go_opentelemetry.Rpc.{Side}
use go_opentelemetry.Rpc.Flow.{
  LogMode, TraceLogRule, FilterOptions, Msg, or_empty, addresses, Err, Rsp, FlowLog, SpanEnd,
  Logged, is_disabled, need_to_trace_body, log_mode_default, log_mode_one_line, log_mode_disable,
  log_mode_multi_line, trpc_error, other_error, one_line, multi_line,
}

-- Go's ints and their conversions, and what errs fixes: `RetUnknown`, the numbers of its three types of
-- errors, and `Code`.
pub record Ints (Int : Type 0) : Type 0 where
  pub int_zero : Int
  pub int_eq : Int → Int → Bool
  pub to_int32 : Int → Int
  pub itoa : Int → String
  pub atoi : String → Option Int
  pub ret_unknown : Int
  pub error_type_business : Int
  pub error_type_callee_framework : Int
  pub error_type_framework : Int
  pub errs_code : Err Int → Int

module _ {Int : Type 0} (ints : Ints Int) where
  -- `toErrorType`
  unfoldable pub to_error_type : Int → String
  to_error_type t =
      if ints.int_eq t ints.error_type_business
      then "business"
      else (if ints.int_eq t ints.error_type_callee_framework
          then "callee_framework"
          else (if ints.int_eq t ints.error_type_framework then "framework" else ""))

  abbrev pub first_code : Option Int → Option Int → Option Int → Int
  first_code (some c) b d = c
  first_code none (some c) d = c
  first_code none none (some c) = c
  first_code none none none = ints.int_zero

  -- `DefaultGetCodeFunc`
  unfoldable pub default_get_code_func : Rsp Int → Option (Err Int) → Int × Option (Err Int)
  default_get_code_func rsp (some e) = (ints.errs_code e, some e)
  default_get_code_func rsp none = (first_code rsp.get_retcode rsp.get_ret_code rsp.get_code, none)

  -- `defaultGetCodeFunc`
  unfoldable pub default_get_string_code_func :
      Rsp Int → Option (Err Int) → String × Option (Err Int)
  default_get_string_code_func rsp err =
      let (code, e) = default_get_code_func rsp err in (ints.itoa code, e)

  -- `getErrCode`
  unfoldable pub get_err_code : Int → Option (Err Int) → Int × (String × Int)
  get_err_code err_code none = (err_code, ("", ints.int_zero))
  get_err_code err_code (some (trpc_error c m t)) = (c, (m, t))
  get_err_code err_code (some (other_error m)) = (ints.ret_unknown, (m, ints.int_zero))

  -- `buildFlowLog`
  unfoldable pub build_flow_log : Msg → Side → FlowLog Int
  build_flow_log msg kind =
      let (source_addr, target_addr) =
        addresses kind (or_empty msg.local_addr) (or_empty msg.remote_addr) in
      record {
        kind = kind;
        source = record {
          name = msg.caller_service_name;
          method = msg.caller_method;
          namespace = msg.env_name;
          address = source_addr;
        };
        target = record {
          name = msg.callee_service_name;
          method = msg.callee_method;
          namespace = msg.env_name;
          address = target_addr;
        };
        request_body = "";
        response_body = "";
        cost = "";
        status = record { code = ints.int_zero; message = ""; type = "" };
      }

  -- `handleError`
  unfoldable pub handle_error :
      CodeConverter → Int → Option (Err Int) → FlowLog Int → SpanEnd Int × FlowLog Int
  handle_error cm err_code err flow =
      let (code, (msg, err_type)) = get_err_code err_code err in
      let c = mapping cm (ints.itoa code) flow.target.name flow.target.method in
      (
        record {
          status_code =
              if not (str_eq c.type (code_type_string code_type_success)) then error else ok;
          description = msg;
          code_attribute = code;
          message_attribute = msg;
          type_attribute = err_type;
        },
        record flow {
          status = record {
            code = ints.to_int32 code;
            message = msg;
            type = to_error_type err_type;
          };
        },
      )

  abbrev pub matches : TraceLogRule → FlowLog Int → Bool
  matches v flow =
      (str_eq v.service ""
        || (str_eq v.service flow.source.name || str_eq v.service flow.target.name))
      && ((str_eq v.method ""
            || (str_eq v.method flow.source.method || str_eq v.method flow.target.method))
          && (str_eq v.code "" || str_eq v.code (ints.itoa flow.status.code)))

  abbrev pub by_mode : LogMode → FlowLog Int → Option (Logged Int)
  by_mode log_mode_disable flow = none
  by_mode log_mode_multi_line flow = some (multi_line flow)
  by_mode log_mode_one_line flow = some (one_line flow)
  by_mode log_mode_default flow = some (one_line flow)

  -- The loop over the rules, and what follows it.
  unfoldable pub log_unless : List TraceLogRule → LogMode → FlowLog Int → Option (Logged Int)
  log_unless [] mode flow = by_mode mode flow
  log_unless (v ∷ vs) mode flow =
      let rest = log_unless vs mode flow in if matches v flow then none else rest

  -- `doFlowLog`
  unfoldable pub do_flow_log : FlowLog Int → FilterOptions → Option (Logged Int)
  do_flow_log flow opt =
      if is_disabled opt.trace_log_mode
      then none
      else log_unless opt.exclude opt.trace_log_mode flow

  abbrev pub or_zero : Option Int → Int
  or_zero none = ints.int_zero
  or_zero (some n) = n

  -- What the filters do once the call has returned: the span's end and the flow's log. `bodies` are the
  -- request's and the response's, as `addEvent` prints them, and `cost` the time since the start.
  unfoldable pub end_span :
      CodeConverter
      → FilterOptions
      → Msg
      → Side
      → Bool
      → String
      → Option (Err Int)
      → String × String
      → String
      → SpanEnd Int × Option (Logged Int)
  end_span cm opt msg kind sampled code_str err1 bodies cost =
      let (s, flow) =
        handle_error cm (or_zero (ints.atoi code_str)) err1 (build_flow_log msg kind) in
      let traced =
        if need_to_trace_body sampled opt err1
        then (record flow { request_body = bodies.0; response_body = bodies.1 })
        else flow in
      (s, do_flow_log (record traced { cost = cost }) opt)
