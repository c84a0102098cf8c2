-- ===== src/Rpc/StreamCounts.antt =====
-- oteltrpc/metrics/prometheus/stream_filter.go: what the filters of streams count.
use go_opentelemetry.Prelude.{
  if_both, ℕ, suc, Bool, true, Option, none, some, String, List, [], ◌∷◌, ◌++◌, ◌≡◌, refl, arith,
  ap, ◌∙◌, length, false,
}
use go_opentelemetry.Codes.Mapping.{CodeConverter, mapping}
use go_opentelemetry.Rpc.{
  Side, Vec, Label, client, server, Reporter, Update, StreamMetrics, new_reporter,
  receive_message_timer, received_message, send_message_timer, sent_message, stream_msg_received,
  stream_msg_sent, recv_timer_for, send_timer_for, stream_update, inc,
}
use go_opentelemetry.Rpc.Handled.{handled}
use go_opentelemetry.Rpc.Labels.{
  declared_labels, started_counter_name, handled_counter_name, handled_histogram_name,
}
use go_opentelemetry.Rpc.Applied.{AreValid, Accepting, accepting, panics, panics-append}
use go_opentelemetry.Rpc.Flow.{Msg}
use go_opentelemetry.Rpc.Streams.{
  StreamCall, StreamError, sends, receives, eof, broken, client_call, client_calls, client_send_msg,
  client_recv_msg, server_call, server_calls, stream_client_filter, stream_server_filter,
  stream_reporter, stream_type,
}
use go_opentelemetry.Rpc.Counts.{
  count, is_started, is_handled, is_received, is_sent, Adds, Adds-append, ends, gets, puts, total,
  handled-Adds, handled-passes, Counted,
}

module _ (cm : CodeConverter) where
  recv_timer_lem :
      (accepts : Vec → List Label → Bool) (m : StreamMetrics) (r : Reporter)
      → Accepting cm accepts
      → r.metrics ≡ some m
      → (t : List Update) × (receive_message_timer r ≡ some t)
        × Adds 0 0 0 t
        × (panics accepts t ≡ false)
  unfolding receive_message_timer panics
  recv_timer_lem accepts m r a h = (
    _,
    ap (λ o. recv_timer_for o r) h,
    if_both (Adds 0 0 0) m.recv_histogram_enabled (refl, (refl, (refl, refl)))
        (refl, (refl, (refl, refl))),
    if_both (λ us. panics accepts us ≡ false) m.recv_histogram_enabled (rw (a.of_recv_time r) refl)
        refl,
  )

  send_timer_lem :
      (accepts : Vec → List Label → Bool) (m : StreamMetrics) (r : Reporter)
      → Accepting cm accepts
      → r.metrics ≡ some m
      → (t : List Update) × (send_message_timer r ≡ some t)
        × Adds 0 0 0 t
        × (panics accepts t ≡ false)
  unfolding send_message_timer panics
  send_timer_lem accepts m r a h = (
    _,
    ap (λ o. send_timer_for o r) h,
    if_both (Adds 0 0 0) m.send_histogram_enabled (refl, (refl, (refl, refl)))
        (refl, (refl, (refl, refl))),
    if_both (λ us. panics accepts us ≡ false) m.send_histogram_enabled (rw (a.of_send_time r) refl)
        refl,
  )

  module _ {E : Type 0} (get_code : Option (StreamError E) → String) where
    client_call-Counted :
        (accepts : Vec → List Label → Bool) (m : StreamMetrics) (c : StreamCall E) (r : Reporter)
        → Accepting cm accepts
        → r.metrics ≡ some m
        → r.extra_labels ≡ []
        → Counted accepts m c (client_call cm true true get_code c r)
    unfolding client_send_msg client_recv_msg received_message sent_message panics
    client_call-Counted accepts m (sends none) r l h x =
        let (t, q, a, p) = send_timer_lem accepts m r l h in
        record {
          reporter = r;
          updates = t ++ stream_update (stream_msg_sent client) inc r ∷ [];
          answers = rw (q, h) refl;
          has_metrics = h;
          no_extra = x;
          adds = Adds-append t _ a (refl, (refl, (refl, refl)));
          passes = panics-append accepts t _ p (rw (l.of_sent client r) refl);
        }
    client_call-Counted accepts m (sends (some e)) r l h x =
        let (t, q, a, p) = send_timer_lem accepts m r l h in
        record {
          reporter = r;
          updates = t;
          answers = rw q refl;
          has_metrics = h;
          no_extra = x;
          adds = a;
          passes = p;
        }
    client_call-Counted accepts m (receives none sampled now) r l h x =
        let (t, q, a, p) = recv_timer_lem accepts m r l h in
        record {
          reporter = r;
          updates = t ++ stream_update (stream_msg_received client) inc r ∷ [];
          answers = rw (q, h) refl;
          has_metrics = h;
          no_extra = x;
          adds = Adds-append t _ a (refl, (refl, (refl, refl)));
          passes = panics-append accepts t _ p (rw (l.of_received client r) refl);
        }
    client_call-Counted accepts m (receives (some eof) sampled now) r l h x =
        let (t, q, a, p) = recv_timer_lem accepts m r l h in
        let (b, k, e) = handled-Adds cm client r sampled "0" now in
        record {
          reporter = (handled cm true true client r sampled "0" now).0;
          updates = t ++ (handled cm true true client r sampled "0" now).1;
          answers = rw q refl;
          has_metrics = k ∙ h;
          no_extra = e ∙ x;
          adds = Adds-append t _ a b;
          passes =
              panics-append accepts t _ p (handled-passes cm accepts client r sampled "0" now l x);
        }
    client_call-Counted accepts m (receives (some (broken y)) sampled now) r l h x =
        let (t, q, a, p) = recv_timer_lem accepts m r l h in
        let code = get_code (some (broken y)) in
        let (b, k, e) = handled-Adds cm client r sampled code now in
        record {
          reporter = (handled cm true true client r sampled code now).0;
          updates = t ++ (handled cm true true client r sampled code now).1;
          answers = rw q refl;
          has_metrics = k ∙ h;
          no_extra = e ∙ x;
          adds = Adds-append t _ a b;
          passes =
              panics-append accepts t _ p (handled-passes cm accepts client r sampled code now l x);
        }

    client_calls-Adds :
        (accepts : Vec → List Label → Bool) (m : StreamMetrics) (cs : List (StreamCall E))
        (r : Reporter)
        → Accepting cm accepts
        → r.metrics ≡ some m
        → r.extra_labels ≡ []
        → (s : Reporter) × (us : List Update) × (client_calls cm true true get_code cs r
            ≡ some (s, us))
          × Adds (total ends cs) (total gets cs) (total puts cs) us
          × (panics accepts us ≡ false)
    unfolding client_calls panics
    client_calls-Adds accepts m [] r l h x = (r, [], refl, (refl, (refl, (refl, refl))), refl)
    client_calls-Adds accepts m (c ∷ cs) r l h x =
        let y = client_call-Counted accepts m c r l h x in
        let (s, us, q, a, p) =
          client_calls-Adds accepts m cs y.reporter l y.has_metrics y.no_extra in
        (
          s,
          y.updates ++ us,
          rw (y.answers, q) refl,
          Adds-append y.updates us y.adds a,
          panics-append accepts y.updates us y.passes p,
        )

    server_call-Counted :
        (accepts : Vec → List Label → Bool) (m : StreamMetrics) (c : StreamCall E) (r : Reporter)
        → Accepting cm accepts
        → r.metrics ≡ some m
        → (us : List Update) × (server_call cm true true get_code c r ≡ some (r, us))
          × Adds 0 (gets c) (puts c) us
          × (panics accepts us ≡ false)
    unfolding server_call sent_message received_message panics
    server_call-Counted accepts m (sends none) r l h = (
      stream_update (stream_msg_sent server) inc r ∷ [],
      rw h refl,
      (refl, (refl, (refl, refl))),
      rw (l.of_sent server r) refl,
    )
    server_call-Counted accepts m (sends (some e)) r l h =
        ([], refl, (refl, (refl, (refl, refl))), refl)
    server_call-Counted accepts m (receives none sampled now) r l h = (
      stream_update (stream_msg_received server) inc r ∷ [],
      rw h refl,
      (refl, (refl, (refl, refl))),
      rw (l.of_received server r) refl,
    )
    server_call-Counted accepts m (receives (some e) sampled now) r l h =
        ([], refl, (refl, (refl, (refl, refl))), refl)

    server_calls-Adds :
        (accepts : Vec → List Label → Bool) (m : StreamMetrics) (cs : List (StreamCall E))
        (r : Reporter)
        → Accepting cm accepts
        → r.metrics ≡ some m
        → (us : List Update) × (server_calls cm true true get_code cs r ≡ some (r, us))
          × Adds 0 (total gets cs) (total puts cs) us
          × (panics accepts us ≡ false)
    unfolding server_calls panics
    server_calls-Adds accepts m [] r l h = ([], refl, (refl, (refl, (refl, refl))), refl)
    server_calls-Adds accepts m (c ∷ cs) r l h =
        let (us, q, a, x) = server_call-Counted accepts m c r l h in
        let (vs, p, b, y) = server_calls-Adds accepts m cs r l h in
        (us ++ vs, rw (q, p) refl, Adds-append us vs a b, panics-append accepts us vs x y)

    -- Where the library's counters and histograms take exemplars, its WithLabelValues takes values that
    -- are valid and as many as the vector has labels, the vectors are declared with 5, 8 and 8 labels, and
    -- the converter's descriptions are valid, a client's stream that has been opened: whatever is sent and
    -- received on it, no call panics, neither on nil metrics nor in WithLabelValues; it is counted as
    -- started once, each message sent or received without an error once, and it is counted as handled once
    -- for each receive that has failed, at the end of the stream or otherwise, and not at all where none
    -- has.
    pub client_stream_counted :
        (valid : List ℕ → Bool) (option : Side → String → List String)
        (accepts : Vec → List Label → Bool) (clean_service_name clean_rpc_method : String → String)
        (m : StreamMetrics) (msg : Msg) (client_streams server_streams : Bool) (start : ℕ)
        (sampled : Bool) (now : ℕ) (cs : List (StreamCall E))
        → ((code service method : String)
            → valid (mapping cm code service method).description ≡ true)
        → ((side : Side) → length (option side (started_counter_name side)) ≡ 5)
        → ((side : Side) → length (option side (handled_counter_name side)) ≡ 8)
        → ((side : Side) → length (option side (handled_histogram_name side)) ≡ 8)
        → ((v : Vec) (ls : List Label)
            → length ls ≡ length (declared_labels option v)
            → AreValid valid ls
            → accepts v ls ≡ true)
        → let t =
            stream_client_filter cm true true get_code clean_service_name clean_rpc_method m msg
              client_streams server_streams start none sampled now in
          (r : Reporter) × (s : Reporter) × (us : List Update) × (t.0 ≡ some r)
          × (client_calls cm true true get_code cs r ≡ some (s, us))
          × (panics accepts (t.1 ++ us) ≡ false)
          × (count is_started (t.1 ++ us) ≡ 1)
          × (count is_handled (t.1 ++ us) ≡ total ends cs)
          × (count is_received (t.1 ++ us) ≡ total gets cs)
          × (count is_sent (t.1 ++ us) ≡ total puts cs)
    unfolding stream_client_filter stream_reporter new_reporter panics
    client_stream_counted valid option accepts clean_service_name clean_rpc_method m msg
          client_streams server_streams start sampled now cs d o c h lib =
        let l = accepting cm valid option accepts d o c h lib in
        let r =
          (stream_reporter clean_service_name clean_rpc_method client (some m) msg
            (stream_type client_streams server_streams) start).0 in
        let (s, us, q, (z, (a, (b, e))), p) = client_calls-Adds accepts m cs r l refl refl in
        let w =
          l.of_started client r.system_name r.caller_service r.caller_method r.callee_service
            r.callee_method in
        (r, s, us, refl, q, rw (w, p) refl, ap suc z, a, b, e)

    -- Where the library's counters and histograms take exemplars, its WithLabelValues takes values that
    -- are valid and as many as the vector has labels, the vectors are declared with 5, 8 and 8 labels, and
    -- the converter's descriptions are valid, whatever calls the handler of a server's stream makes on it
    -- and whatever it returns: the filter does not panic, neither on nil metrics nor in WithLabelValues;
    -- the stream is counted as started once and as handled once, and each message sent or received without
    -- an error once.
    pub server_stream_counted :
        (valid : List ℕ → Bool) (option : Side → String → List String)
        (accepts : Vec → List Label → Bool) (clean_service_name clean_rpc_method : String → String)
        (m : StreamMetrics) (msg : Msg) (client_streams server_streams : Bool) (start : ℕ)
        (cs : List (StreamCall E)) (err : Option (StreamError E)) (sampled : Bool) (now : ℕ)
        → ((code service method : String)
            → valid (mapping cm code service method).description ≡ true)
        → ((side : Side) → length (option side (started_counter_name side)) ≡ 5)
        → ((side : Side) → length (option side (handled_counter_name side)) ≡ 8)
        → ((side : Side) → length (option side (handled_histogram_name side)) ≡ 8)
        → ((v : Vec) (ls : List Label)
            → length ls ≡ length (declared_labels option v)
            → AreValid valid ls
            → accepts v ls ≡ true)
        → (us : List Update) × (stream_server_filter cm true true get_code clean_service_name
              clean_rpc_method m msg client_streams server_streams start cs err sampled now
            ≡ some us)
          × (panics accepts us ≡ false)
          × (count is_started us ≡ 1)
          × (count is_handled us ≡ 1)
          × (count is_received us ≡ total gets cs)
          × (count is_sent us ≡ total puts cs)
    unfolding stream_server_filter stream_reporter new_reporter panics
    server_stream_counted valid option accepts clean_service_name clean_rpc_method m msg
          client_streams server_streams start cs err sampled now d o c' h' lib =
        let l = accepting cm valid option accepts d o c' h' lib in
        let (r, us) =
          stream_reporter clean_service_name clean_rpc_method server (some m) msg
            (stream_type client_streams server_streams) start in
        let (vs, q, a, p) = server_calls-Adds accepts m cs r l refl in
        let hs = (handled cm true true server r sampled (get_code err) now).1 in
        let (z, (h, (b, c))) =
          Adds-append vs hs a (handled-Adds cm server r sampled (get_code err) now).0 in
        let w =
          l.of_started server r.system_name r.caller_service r.caller_method r.callee_service
            r.callee_method in
        let y = handled-passes cm accepts server r sampled (get_code err) now l refl in
        (
          us ++ vs ++ hs,
          rw q refl,
          rw (w, panics-append accepts vs hs p y) refl,
          ap suc z,
          omega (arith, h),
          omega (arith, b),
          omega (arith, c),
        )
