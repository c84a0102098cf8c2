-- ===== src/Rpc/Labels.antt =====
-- sdk/metric/rpc_client_metrics.go, rpc_server_metrics.go: the labels that the vectors are made with,
-- against the values that the reporters give. The library panics where their numbers differ.
use go_opentelemetry.Prelude.{
  ℕ, ◌+◌, Bool, Option, none, some, String, List, [], ◌∷◌, ◌++◌, if◌then◌else◌, length, length-map,
  ◌≡◌, refl, arith, str_eq, ◌||◌, if_both,
}
use go_opentelemetry.Codes.Mapping.{CodeConverter, mapping}
use go_opentelemetry.Rpc.{
  Side, client, server, Vec, Reporter, Update, text, new_reporter, handled_counter,
  handled_histogram, started_counter, stream_msg_received, stream_msg_sent, stream_recv_histogram,
  stream_send_histogram, received_message, sent_message, receive_message_timer, send_message_timer,
  if_metrics, recv_timer_for, send_timer_for, StreamMetrics,
}
use go_opentelemetry.Rpc.Handled.{
  handled, handled_labels, counter_need_use_exemplar, histogram_need_use_exemplar, cost_of,
}

-- `ClientStartedCounter`, `ServerStartedCounter`, and so on.
abbrev pub started_counter_name : Side → String
started_counter_name client = "ClientStartedCounter"
started_counter_name server = "ServerStartedCounter"

abbrev pub handled_counter_name : Side → String
handled_counter_name client = "ClientHandledCounter"
handled_counter_name server = "ServerHandledCounter"

abbrev pub handled_histogram_name : Side → String
handled_histogram_name client = "ClientHandledHistogram"
handled_histogram_name server = "ServerHandledHistogram"

-- The values of `clientLabelsOption` and `serverLabelsOption` that users can replace.
unfoldable pub labels_option : Side → String → List String
labels_option side name =
    if str_eq name (started_counter_name side)
    then "system_name" ∷ "caller_service" ∷ "caller_method" ∷ "callee_service" ∷ "callee_method"
      ∷ []
    else (if str_eq name (handled_counter_name side) || str_eq name (handled_histogram_name side)
        then "system_name" ∷ "caller_service" ∷ "caller_method" ∷ "callee_service" ∷ "callee_method"
          ∷ "code" ∷ "code_type" ∷ "code_desc" ∷ []
        else [])

-- `defaultStreamLabels`
abbrev pub default_stream_labels : List String
default_stream_labels =
    "system_name" ∷ "rpc_type" ∷ "caller_service" ∷ "caller_method" ∷ "callee_service"
    ∷ "callee_method" ∷ []

-- The labels of the vectors that `initClientCollectors`, `initServerCollectors`,
-- `registerRPCHandledHistograms` and the constructors of the metrics of streams make.
unfoldable pub declared_labels : (Side → String → List String) → Vec → List String
declared_labels option (started_counter s) = option s (started_counter_name s)
declared_labels option (handled_counter s) = option s (handled_counter_name s)
declared_labels option (handled_histogram s) = option s (handled_histogram_name s)
declared_labels option (stream_msg_received s) = default_stream_labels
declared_labels option (stream_msg_sent s) = default_stream_labels
declared_labels option stream_recv_histogram = default_stream_labels
declared_labels option stream_send_histogram = default_stream_labels

-- Each update gives as many values as its vector has labels.
abbrev pub AllFit : (Side → String → List String) → List Update → Type 0
AllFit option [] = Unit {0}
AllFit option (u ∷ us) =
    (length u.labels ≡ length (declared_labels option u.vec)) × AllFit option us

abbrev pub OptionFit : (Side → String → List String) → Option (List Update) → Type 0
OptionFit option none = Unit {0}
OptionFit option (some us) = AllFit option us

AllFit-append :
    (option : Side → String → List String) (us vs : List Update)
    → AllFit option us
    → AllFit option vs
    → AllFit option (us ++ vs)
AllFit-append option [] vs h k = k
AllFit-append option (u ∷ us) vs (p, h) k = (p, AllFit-append option us vs h k)

length-handled_labels :
    (cm : CodeConverter) (r : Reporter) (code : String)
    → length (handled_labels r code (mapping cm code r.callee_service r.callee_method))
      ≡ 8 + length r.extra_labels
length-handled_labels cm r code = omega (arith, length-map r.extra_labels text)

handled-AllFit :
    (option : Side → String → List String) (cm : CodeConverter) (is_adder is_observer : Bool)
    (side : Side) (r : Reporter) (sampled : Bool) (code : String) (now : ℕ)
    → length (option side (handled_counter_name side)) ≡ 8 + length r.extra_labels
    → length (option side (handled_histogram_name side)) ≡ 8 + length r.extra_labels
    → AllFit option (handled cm is_adder is_observer side r sampled code now).1
unfolding handled declared_labels
handled-AllFit option cm is_adder is_observer side r sampled code now c h =
    let type = (mapping cm code r.callee_service r.callee_method).type in
    let l = length-handled_labels cm r code in
    AllFit-append option _ _
      (if_both (AllFit option) (counter_need_use_exemplar r sampled type)
        (if_both (AllFit option) is_adder (omega (arith, l, c), tt) tt) (omega (arith, l, c), tt))
      (if_both (AllFit option) (histogram_need_use_exemplar r sampled (cost_of r now))
        (if_both (AllFit option) is_observer (omega (arith, l, h), tt) tt)
        (omega (arith, l, h), tt))

metrics-OptionFit :
    (option : Side → String → List String) (m : Option StreamMetrics) (us : List Update)
    → AllFit option us
    → OptionFit option (if_metrics m us)
metrics-OptionFit option none us h = tt
metrics-OptionFit option (some m) us h = h

recv_timer-OptionFit :
    (option : Side → String → List String) (m : Option StreamMetrics) (r : Reporter)
    → OptionFit option (recv_timer_for m r)
unfolding declared_labels
recv_timer-OptionFit option none r = tt
recv_timer-OptionFit option (some m) r =
    if_both (AllFit option) m.recv_histogram_enabled (refl, tt) tt

send_timer-OptionFit :
    (option : Side → String → List String) (m : Option StreamMetrics) (r : Reporter)
    → OptionFit option (send_timer_for m r)
unfolding declared_labels
send_timer-OptionFit option none r = tt
send_timer-OptionFit option (some m) r =
    if_both (AllFit option) m.send_histogram_enabled (refl, tt) tt

-- The vectors of a side have 5, 8 and 8 labels, and as many more as the reporter has extra ones.
abbrev pub DeclaredFor : (Side → String → List String) → Side → Reporter → Type 0
DeclaredFor option side r =
    (length (option side (started_counter_name side)) ≡ 5 + length r.extra_labels)
    × ((length (option side (handled_counter_name side)) ≡ 8 + length r.extra_labels)
        × (length (option side (handled_histogram_name side)) ≡ 8 + length r.extra_labels))

-- Whatever the options that a reporter is made with, where the vectors of its side are declared with 5, 8
-- and 8 labels and as many more as the reporter has extra ones: each of its updates, when it is made, at
-- every Handled, and for messages and their timers, gives as many values as its vector has labels.
pub labels_fit :
    (clean_service_name clean_rpc_method : String → String) (option : Side → String → List String)
    (cm : CodeConverter) (is_adder is_observer : Bool) (side : Side) (system a b c d : String)
    (now : ℕ) (options : List (Reporter → Reporter)) (sampled : Bool) (code : String) (end : ℕ)
    → DeclaredFor option side
        (new_reporter clean_service_name clean_rpc_method side system a b c d now options).0
    → let (r, us) =
        new_reporter clean_service_name clean_rpc_method side system a b c d now options in
      AllFit option us
      × (AllFit option (handled cm is_adder is_observer side r sampled code end).1
          × (OptionFit option (received_message side r)
              × (OptionFit option (sent_message side r)
                  × (OptionFit option (receive_message_timer r)
                      × OptionFit option (send_message_timer r)))))
unfolding declared_labels new_reporter received_message sent_message receive_message_timer
    send_message_timer
labels_fit clean_service_name clean_rpc_method option cm is_adder is_observer side system a b c d
      now options sampled code end (s, (h, o)) =
    let (r, us) =
      new_reporter clean_service_name clean_rpc_method side system a b c d now options in
    (
      (omega (arith, s, length-map r.extra_labels text), tt),
      (
        handled-AllFit option cm is_adder is_observer side r sampled code end h o,
        (
          metrics-OptionFit option r.metrics _ (refl, tt),
          (
            metrics-OptionFit option r.metrics _ (refl, tt),
            (recv_timer-OptionFit option r.metrics r, send_timer-OptionFit option r.metrics r),
          ),
        ),
      ),
    )
