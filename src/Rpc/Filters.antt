-- ===== src/Rpc/Filters.antt =====
-- oteltrpc/metrics/prometheus/filter.go: the metric filters of the two sides. The handler, the function
-- that finds a call's code, and the clean-up of names are parameters.
use go_opentelemetry.Prelude.{ℕ, ◌+◌, Bool, Option, none, some, String, List, [], ◌∷◌, ◌++◌}
use go_opentelemetry.Codes.Mapping.{CodeConverter}
use go_opentelemetry.Rpc.{Side, client, server, Reporter, Update, new_reporter, with_trace_config}
use go_opentelemetry.Rpc.Handled.{handled}
use go_opentelemetry.Rpc.Flow.{Msg}

-- `serverFilterOption` and `clientFilterOption`
pub record FilterOption : Type 0 where
  pub enable_deferred_sample : Bool
  pub deferred_sample_error : Bool
  pub deferred_sample_slow_duration : ℕ

-- What the handler comes to: a response with an error or nil, or a panic, which the filter lets pass.
pub data Outcome (Rsp Err : Type 0) : Type 0 where
  returned : Rsp → Option Err → Outcome Rsp Err
  panicked : Outcome Rsp Err

-- What a call through the filter comes to, its updates, and what it has observed of the sizes of the
-- request's body and its metadata.
pub record Filtered (Rsp Err : Type 0) : Type 0 where
  pub outcome : Outcome Rsp Err
  pub updates : List Update
  pub sizes : List (ℕ × ℕ)

-- `calcBodySize`, by `proto.Size` where the request is a message of protobuf.
abbrev pub calc_body_size : Option ℕ → ℕ
calc_body_size none = 0
calc_body_size (some n) = n

-- `calcMetaDataSize`, by the lengths of the values.
unfoldable pub calc_meta_data_size : List ℕ → ℕ
calc_meta_data_size [] = 0
calc_meta_data_size (n ∷ ns) = n + calc_meta_data_size ns

-- The callee's method: of an HTTP call `[verb]path`, as the library prints it.
abbrev pub server_method :
    (String → String) → (String → String → String) → Msg → Option (String × String) → String
server_method clean_rpc_method sprintf msg none = msg.callee_method
server_method clean_rpc_method sprintf msg (some (verb, path)) =
    sprintf verb (clean_rpc_method path)

module _ (clean_service_name clean_rpc_method : String → String) where
  -- The reporter that a filter makes.
  unfoldable pub reporter_for : Side → FilterOption → Msg → String → ℕ → Reporter × List Update
  reporter_for side opt msg callee_method start =
      new_reporter clean_service_name clean_rpc_method side "trpc" msg.caller_service_name
        msg.caller_method msg.callee_service_name callee_method start
        (with_trace_config opt.enable_deferred_sample opt.deferred_sample_error
            opt.deferred_sample_slow_duration
          ∷ [])

module _ (clean_service_name clean_rpc_method : String → String) (cm : CodeConverter)
    (is_adder is_observer : Bool) where
  module _ {Rsp Err : Type 0} (get_code : Rsp → Option Err → String) where
    -- What follows the handler's call, with the time of its end.
    abbrev pub report_outcome :
        Side → Reporter × List Update → Outcome Rsp Err → Bool → ℕ → List (ℕ × ℕ) → Filtered Rsp Err
    report_outcome side (r, us) (returned rsp err) sampled end sizes = record {
      outcome = returned rsp err;
      updates = us ++ (handled cm is_adder is_observer side r sampled (get_code rsp err) end).1;
      sizes = sizes;
    }
    report_outcome side (r, us) panicked sampled end sizes = record {
      outcome = panicked;
      updates = us;
      sizes = sizes;
    }

    -- `ServerFilter`
    unfoldable pub server_filter :
        (String → String → String)
        → FilterOption
        → Msg
        → Option (String × String)
        → ℕ
        → Outcome Rsp Err
        → Bool
        → ℕ
        → Filtered Rsp Err
    server_filter sprintf opt msg head start outcome sampled end =
        report_outcome server
          (reporter_for clean_service_name clean_rpc_method server opt msg
            (server_method clean_rpc_method sprintf msg head) start)
          outcome sampled end []

    -- `ClientFilter`, with the sizes of the request's body and of its metadata's values.
    unfoldable pub client_filter :
        FilterOption → Msg → Option ℕ → List ℕ → ℕ → Outcome Rsp Err → Bool → ℕ → Filtered Rsp Err
    client_filter opt msg body meta_data start outcome sampled end =
        report_outcome client
          (reporter_for clean_service_name clean_rpc_method client opt msg msg.callee_method start)
          outcome sampled end ((calc_body_size body, calc_meta_data_size meta_data) ∷ [])
