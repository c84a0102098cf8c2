-- ===== src/Rpc/Tests.antt =====
-- Calls and streams on concrete inputs. There are two ints here, 0 and 1, and 1 is `RetUnknown`.
use go_opentelemetry.Prelude.{
  pos, get, ◌-◌, ◌==◌, length, ◌≡◌, refl, Bool, true, false, Option, none, some, String, List, [],
  ◌∷◌, ◌++◌, arith, str_eq, if◌then◌else◌,
}
use go_opentelemetry.Codes.{code_type_string, default_code_type_func}
use go_opentelemetry.Codes.Mapping.{CodeConverter, mapping, match_code}
use go_opentelemetry.Trace.Deferred.{deferred_sampler}
use go_opentelemetry.Rpc.{
  Side, Vec, Label, client, server, Reporter, Update, StreamMetrics, new_reporter,
  with_extra_labels, received_message, sent_message, receive_message_timer, send_message_timer,
}
use go_opentelemetry.Rpc.Handled.{handled, counter_need_use_exemplar, histogram_need_use_exemplar}
use go_opentelemetry.Rpc.Labels.{
  labels_option, labels_fit, AllFit, OptionFit, declared_labels, started_counter_name,
  handled_counter_name, handled_histogram_name,
}
use go_opentelemetry.Rpc.Applied.{AreValid, panics, plain}
use go_opentelemetry.Rpc.Flow.{Msg, Err, Rsp, FilterOptions, other_error, log_mode_one_line}
use go_opentelemetry.Rpc.Spans.{
  Ints, default_get_string_code_func, default_get_code_func, get_err_code, handle_error, or_zero,
  end_span, build_flow_log,
}
use go_opentelemetry.Rpc.Filters.{
  FilterOption, returned, reporter_for, server_filter, client_filter, server_method,
}
use go_opentelemetry.Rpc.Calls.{call_of, calls_counted}
use go_opentelemetry.Rpc.Exemplars.{codes_agree, exemplars_kept}
use go_opentelemetry.Rpc.Streams.{
  StreamCall, StreamError, sends, receives, eof, broken, client_calls, stream_client_filter,
  stream_server_filter,
}
use go_opentelemetry.Rpc.Counts.{count, is_started, is_handled, is_received, is_sent}
use go_opentelemetry.Rpc.StreamCounts.{client_stream_counted, server_stream_counted}

abbrev same : String → String
same s = s

abbrev converter : CodeConverter
converter = record {
  codes = [];
  code_mapping = [];
  default_code_type_func = default_code_type_func;
}

-- A label more than the default ones, in each vector.
abbrev with_one_more : Side → String → List String
with_one_more side name = labels_option side name ++ "zone" ∷ []

labels_fit_example :
    let (r, us) =
      new_reporter same same client "trpc" "a" "b" "c" "d" 3 (with_extra_labels ("gz" ∷ []) ∷ []) in
    AllFit with_one_more us
    × (AllFit with_one_more (handled converter true true client r true "0" 9).1
        × (OptionFit with_one_more (received_message client r)
            × (OptionFit with_one_more (sent_message client r)
                × (OptionFit with_one_more (receive_message_timer r)
                    × OptionFit with_one_more (send_message_timer r)))))
unfolding labels_option new_reporter
labels_fit_example =
    labels_fit same same with_one_more converter true true client "trpc" "a" "b" "c" "d" 3
      (with_extra_labels ("gz" ∷ []) ∷ []) true "0" 9 (refl, (refl, refl))

abbrev some_msg : Msg
some_msg = record {
  caller_service_name = "shop";
  caller_method = "Buy";
  callee_service_name = "bank";
  callee_method = "Pay";
  env_name = "test";
  remote_addr = some "10.0.0.2";
  local_addr = none;
}

abbrev deferred : FilterOption
deferred = record {
  enable_deferred_sample = true;
  deferred_sample_error = true;
  deferred_sample_slow_duration = 5;
}

abbrev ints : Ints Bool
ints = record {
  int_zero = false;
  int_eq = λ a b. if a then b else (if b then false else true);
  to_int32 = λ a. a;
  itoa = λ a. if a then "1" else "0";
  atoi = λ s. if str_eq s "1" then some true else (if str_eq s "0" then some false else none);
  ret_unknown = true;
  error_type_business = true;
  error_type_callee_framework = true;
  error_type_framework = true;
  errs_code = λ e. true;
}

atoi-itoa : (b : Bool) → ints.atoi (ints.itoa b) ≡ some b
atoi-itoa true = refl
atoi-itoa false = refl

abbrev failure : Option (Err Bool)
failure = some (other_error "refused")

abbrev no_code : Rsp Bool
no_code = record { get_retcode = none; get_ret_code = none; get_code = none }

errs_code-refused :
    (e : Err Bool) → failure ≡ some e → ints.errs_code e ≡ (get_err_code ints false failure).0
unfolding get_err_code
errs_code-refused e h = refl

codes_agree_example :
    let (code, e) = default_get_string_code_func ints no_code failure in
    ints.itoa
      (handle_error ints converter
        (or_zero ints (ints.atoi code))
        e
        (build_flow_log ints some_msg client)).0.code_attribute
    ≡ code
codes_agree_example =
    codes_agree ints converter no_code failure (build_flow_log ints some_msg client) atoi-itoa
      errs_code-refused

abbrev print_code : Rsp Bool → Option (Err Bool) → String
print_code r e = (default_get_string_code_func ints r e).0

abbrev sprintf : String → String → String
sprintf verb path = path

-- A library that only counts the values, for vectors with the default labels.
abbrev fits : Vec → List Label → Bool
fits v ls = length ls == length (declared_labels labels_option v)

fits_lem :
    (v : Vec) (ls : List Label)
    → length ls ≡ length (declared_labels labels_option v)
    → AreValid (λ b. true) ls
    → fits v ls ≡ true
fits_lem v ls h k = ground (arith, h)

five_labels : (side : Side) → length (labels_option side (started_counter_name side)) ≡ 5
unfolding labels_option
five_labels client = refl
five_labels server = refl

eight_labels : (side : Side) → length (labels_option side (handled_counter_name side)) ≡ 8
unfolding labels_option
eight_labels client = refl
eight_labels server = refl

eight_time_labels : (side : Side) → length (labels_option side (handled_histogram_name side)) ≡ 8
unfolding labels_option
eight_time_labels client = refl
eight_time_labels server = refl

calls_counted_example :
    let f =
      server_filter same same converter true true print_code sprintf deferred some_msg
        (some ("GET", "/pay"))
        3
        (returned no_code failure)
        false
        9 in
    let g =
      client_filter same same converter true true print_code deferred some_msg
        (some 12)
        (4 ∷ [])
        3
        (returned no_code failure)
        false
        9 in
    let code = print_code no_code failure in
    ((f.outcome ≡ returned no_code failure)
      × (panics fits f.updates ≡ false)
      × (plain f.updates
          ≡ call_of same same converter server some_msg
              (server_method same sprintf some_msg (some ("GET", "/pay")))
              code
              (9 - 3)))
    × ((g.outcome ≡ returned no_code failure)
        × (panics fits g.updates ≡ false)
        × (plain g.updates ≡ call_of same same converter client some_msg "Pay" code (9 - 3)))
calls_counted_example =
    calls_counted same same converter print_code (λ b. true) labels_option fits deferred sprintf
      some_msg (some ("GET", "/pay")) (some 12) (4 ∷ []) 3 no_code failure false 9
      (λ code service method. refl) five_labels eight_labels eight_time_labels fits_lem

abbrev quiet : FilterOptions
quiet = record {
  trace_log_mode = log_mode_one_line;
  exclude = [];
  disable_trace_body = true;
  disable_parent_sampling = false;
}

-- A call that fails and is not sampled.
exemplars_kept_example :
    (deferred_sampler
      (record { enabled = true; sample_error = true; sample_slow_duration = pos 5 })
      (record {
        sampled = false;
        code =
            (end_span ints converter quiet some_msg client false
              (default_get_string_code_func ints no_code failure).0
              (default_get_string_code_func ints no_code failure).1
              ("", "")
              "6ns").0.status_code;
        start_time = 3;
        duration = pos 6;
      })
      (record { sampled = 0; errors = 0; slow = 0; unsampled = 0 })).0
    ≡ true
unfolding default_get_string_code_func default_get_code_func client_filter handled reporter_for
    new_reporter counter_need_use_exemplar histogram_need_use_exemplar mapping match_code
    default_code_type_func get code_type_string
exemplars_kept_example =
    exemplars_kept ints same same converter true true deferred quiet some_msg (some 12) (4 ∷ [])
      no_code failure false 3 9 3 6 ("", "") "6ns"
      (record { sampled = 0; errors = 0; slow = 0; unsampled = 0 }) refl refl atoi-itoa
      errs_code-refused (omega arith) (omega arith) refl

abbrev both : StreamMetrics
both = record { recv_histogram_enabled = true; send_histogram_enabled = false }

-- The stream is read once more after its end.
abbrev stream_calls : List (StreamCall String)
stream_calls =
    sends none
    ∷ receives none true 5
    ∷ sends (some (broken "closed"))
    ∷ receives (some eof) true 7
    ∷ receives (some eof) true 8
    ∷ []

abbrev stream_code : Option (StreamError String) → String
stream_code e = "1"

client_stream_counted_example :
    let t =
      stream_client_filter converter true true stream_code same same both some_msg true true 3 none
        true 4 in
    (r : Reporter) × (s : Reporter) × (us : List Update) × (t.0 ≡ some r)
    × (client_calls converter true true stream_code stream_calls r ≡ some (s, us))
    × (panics fits (t.1 ++ us) ≡ false)
    × (count is_started (t.1 ++ us) ≡ 1)
    × (count is_handled (t.1 ++ us) ≡ 2)
    × (count is_received (t.1 ++ us) ≡ 1)
    × (count is_sent (t.1 ++ us) ≡ 1)
client_stream_counted_example =
    client_stream_counted converter stream_code (λ b. true) labels_option fits same same both
      some_msg true true 3 true 4 stream_calls (λ code service method. refl) five_labels
      eight_labels eight_time_labels fits_lem

server_stream_counted_example :
    (us : List Update) × (stream_server_filter converter true true stream_code same same both
        some_msg true true 3 stream_calls
        (some (broken "closed"))
        true
        9
      ≡ some us)
    × (panics fits us ≡ false)
    × (count is_started us ≡ 1)
    × (count is_handled us ≡ 1)
    × (count is_received us ≡ 1)
    × (count is_sent us ≡ 1)
server_stream_counted_example =
    server_stream_counted converter stream_code (λ b. true) labels_option fits same same both
      some_msg true true 3 stream_calls (some (broken "closed")) true 9
      (λ code service method. refl) five_labels eight_labels eight_time_labels fits_lem
