-- ===== src/Rpc/Streams.antt =====
-- oteltrpc/metrics/prometheus/stream_filter.go: the filters of streams, and the streams that they wrap.
-- What the wrapped stream answers is given; an error of `none` is nil.
use go_opentelemetry.Prelude.{
  ℕ, Bool, Option, none, some, String, List, [], ◌∷◌, ◌++◌, if◌then◌else◌, ◌>>=◌, not, ◌&&◌,
}
use go_opentelemetry.Codes.Mapping.{CodeConverter}
use go_opentelemetry.Rpc.{
  Side, client, server, Reporter, Update, StreamMetrics, new_reporter, with_metrics, with_rpc_type,
  receive_message_timer, received_message, send_message_timer, sent_message, unary, client_stream,
  server_stream, bidi_stream,
}
use go_opentelemetry.Rpc.Handled.{handled}
use go_opentelemetry.Rpc.Flow.{Msg}

-- `clientStreamType` and `serverStreamType`, by which of the two sides streams.
unfoldable pub stream_type : Bool → Bool → String
stream_type client_streams server_streams =
    if client_streams && not server_streams
    then client_stream
    else (if not client_streams && server_streams
        then server_stream
        else (if client_streams && server_streams then bidi_stream else unary))

-- `io.EOF`, which ends a stream, or another error.
pub data StreamError (E : Type 0) : Type 0 where
  eof : StreamError E
  broken : E → StreamError E

-- A call on a stream with the wrapped stream's answer, whether the context's span is sampled, and the
-- time at its end.
pub data StreamCall (E : Type 0) : Type 0 where
  sends : Option (StreamError E) → StreamCall E
  receives : Option (StreamError E) → Bool → ℕ → StreamCall E

module _ (clean_service_name clean_rpc_method : String → String) where
  -- The reporter that a filter of streams makes.
  unfoldable pub stream_reporter :
      Side → Option StreamMetrics → Msg → String → ℕ → Reporter × List Update
  stream_reporter side metrics msg type start =
      new_reporter clean_service_name clean_rpc_method side "trpc" msg.caller_service_name
        msg.caller_method msg.callee_service_name msg.callee_method start
        (with_metrics metrics ∷ with_rpc_type type ∷ [])

module _ (cm : CodeConverter) (is_adder is_observer : Bool) {E : Type 0}
    (get_code : Option (StreamError E) → String) where
  -- `monitoredClientStream.SendMsg`. `none` is a panic of the reporter.
  abbrev pub after_send :
      Option (StreamError E) → Reporter → List Update → Option (Reporter × List Update)
  after_send none r t = sent_message client r >>= λ u. some (r, t ++ u)
  after_send (some e) r t = some (r, t)

  unfoldable pub client_send_msg :
      Option (StreamError E) → Reporter → Option (Reporter × List Update)
  client_send_msg answer r = send_message_timer r >>= after_send answer r

  abbrev pub after_recv :
      Option (StreamError E) → Bool → ℕ → Reporter → List Update → Option (Reporter × List Update)
  after_recv none sampled now r t = received_message client r >>= λ u. some (r, t ++ u)
  after_recv (some eof) sampled now r t =
      let (s, us) = handled cm is_adder is_observer client r sampled "0" now in some (s, t ++ us)
  after_recv (some (broken x)) sampled now r t =
      let (s, us) =
        handled cm is_adder is_observer client r sampled (get_code (some (broken x))) now in
      some (s, t ++ us)

  -- `monitoredClientStream.RecvMsg`
  unfoldable pub client_recv_msg :
      Option (StreamError E) → Bool → ℕ → Reporter → Option (Reporter × List Update)
  client_recv_msg answer sampled now r = receive_message_timer r >>= after_recv answer sampled now r

  abbrev pub client_call : StreamCall E → Reporter → Option (Reporter × List Update)
  client_call (sends answer) r = client_send_msg answer r
  client_call (receives answer sampled now) r = client_recv_msg answer sampled now r

  -- Calls one after another, with all their updates.
  unfoldable pub client_calls : List (StreamCall E) → Reporter → Option (Reporter × List Update)
  client_calls [] r = some (r, [])
  client_calls (c ∷ cs) r =
      client_call c r >>= λ t. client_calls cs t.0 >>= λ u. some (u.0, t.1 ++ u.1)

  -- `StreamClientFilter`, by the streamer's error, up to the stream that it returns: its reporter, if
  -- there is one, and the updates.
  abbrev pub after_streamer :
      Option (StreamError E) → Bool → ℕ → Reporter × List Update → Option Reporter × List Update
  after_streamer none sampled now (r, us) = (some r, us)
  after_streamer (some eof) sampled now (r, us) =
      (none, us ++ (handled cm is_adder is_observer client r sampled "0" now).1)
  after_streamer (some (broken x)) sampled now (r, us) = (
    none,
    us ++ (handled cm is_adder is_observer client r sampled (get_code (some (broken x))) now).1,
  )

  module _ (clean_service_name clean_rpc_method : String → String) where
    unfoldable pub stream_client_filter :
        StreamMetrics
        → Msg
        → Bool
        → Bool
        → ℕ
        → Option (StreamError E)
        → Bool
        → ℕ
        → Option Reporter × List Update
    stream_client_filter metrics msg client_streams server_streams start err sampled now =
        after_streamer err sampled now (
          stream_reporter clean_service_name clean_rpc_method client (some metrics) msg
            (stream_type client_streams server_streams) start)

  -- `monitoredServerStream`: SendMsg and RecvMsg.
  unfoldable pub server_call : StreamCall E → Reporter → Option (Reporter × List Update)
  server_call (sends none) r = sent_message server r >>= λ u. some (r, u)
  server_call (sends (some e)) r = some (r, [])
  server_call (receives none sampled now) r = received_message server r >>= λ u. some (r, u)
  server_call (receives (some e) sampled now) r = some (r, [])

  unfoldable pub server_calls : List (StreamCall E) → Reporter → Option (Reporter × List Update)
  server_calls [] r = some (r, [])
  server_calls (c ∷ cs) r =
      server_call c r >>= λ t. server_calls cs t.0 >>= λ u. some (u.0, t.1 ++ u.1)

  module _ (clean_service_name clean_rpc_method : String → String) where
    -- `StreamServerFilter`, by the calls that the handler makes on its stream and the error that it
    -- returns. The updates are all of them.
    unfoldable pub stream_server_filter :
        StreamMetrics
        → Msg
        → Bool
        → Bool
        → ℕ
        → List (StreamCall E)
        → Option (StreamError E)
        → Bool
        → ℕ
        → Option (List Update)
    stream_server_filter metrics msg client_streams server_streams start calls err sampled now =
        let (r, us) =
          stream_reporter clean_service_name clean_rpc_method server (some metrics) msg
            (stream_type client_streams server_streams) start in
        server_calls calls r >>= λ t.
        some
          (us ++ t.1 ++ (handled cm is_adder is_observer server t.0 sampled (get_code err) now).1)
