-- ===== src/Rpc/Calls.antt =====
-- oteltrpc/metrics/prometheus/filter.go and the reporters of sdk/metric: what a call through the filter
-- adds to the metrics.
use go_opentelemetry.Prelude.{
  ℕ, ◌-◌, Bool, true, false, Option, none, String, List, [], ◌∷◌, length, ◌≡◌, refl, sym, ap, ◌∙◌,
  Bool-cases, inl, inr,
}
use go_opentelemetry.Codes.{Code}
use go_opentelemetry.Codes.Mapping.{CodeConverter, mapping}
use go_opentelemetry.Rpc.{
  Side, client, server, Reporter, Update, Label, Vec, text, bytes, started_counter, handled_counter,
  handled_histogram, inc, observe, new_reporter,
}
use go_opentelemetry.Rpc.Handled.{
  handled, cost_of, counter_need_use_exemplar, histogram_need_use_exemplar,
}
use go_opentelemetry.Rpc.Labels.{
  declared_labels, started_counter_name, handled_counter_name, handled_histogram_name,
}
use go_opentelemetry.Rpc.Applied.{AreValid, Accepting, accepting, panics, panics-plain, plain}
use go_opentelemetry.Rpc.Flow.{Msg}
use go_opentelemetry.Rpc.Filters.{
  FilterOption, returned, reporter_for, report_outcome, server_filter, client_filter,
  calc_body_size, calc_meta_data_size, server_method,
}

-- The updates of one call, exemplars aside, by who calls whom, the code with its type and description,
-- and the time it takes.
abbrev pub one_call :
    Side → String → String → String → String → String → String → Code → ℕ → List Update
one_call side system caller caller_method callee callee_method code c cost =
    let who : List Label =
      text system ∷ text caller ∷ text caller_method ∷ text callee ∷ text callee_method ∷ [] in
    let which : List Label =
      text system
      ∷ text caller
      ∷ text caller_method
      ∷ text callee
      ∷ text callee_method
      ∷ text code
      ∷ text c.type
      ∷ bytes c.description
      ∷ [] in
    record { vec = started_counter side; labels = who; op = inc }
    ∷ record { vec = handled_counter side; labels = which; op = inc }
    ∷ record { vec = handled_histogram side; labels = which; op = observe cost }
    ∷ []

module _ (clean_service_name clean_rpc_method : String → String) (cm : CodeConverter) where
  -- Those of a call in a message, whose callee's method is given.
  abbrev pub call_of : Side → Msg → String → String → ℕ → List Update
  call_of side msg method code cost =
      one_call side "trpc" (clean_service_name msg.caller_service_name)
        (clean_rpc_method msg.caller_method) (clean_service_name msg.callee_service_name)
        (clean_rpc_method method) code
        (mapping cm code (clean_service_name msg.callee_service_name) (clean_rpc_method method))
        cost

  module _ {Rsp Err : Type 0} (get_code : Rsp → Option Err → String) where
    report_outcome-call :
        (side : Side) (opt : FilterOption) (msg : Msg) (m : String) (start : ℕ) (rsp : Rsp)
        (err : Option Err) (sampled : Bool) (end : ℕ) (sizes : List (ℕ × ℕ))
        → let t = reporter_for clean_service_name clean_rpc_method side opt msg m start in
          let f =
            report_outcome clean_service_name clean_rpc_method cm true true get_code side t
              (returned rsp err)
              sampled
              end
              sizes in
          (f.outcome ≡ returned rsp err)
          × (plain f.updates ≡ call_of side msg m (get_code rsp err) (end - start))
    unfolding reporter_for new_reporter handled
    report_outcome-call side opt msg m start rsp err sampled end sizes =
        let r = (reporter_for clean_service_name clean_rpc_method side opt msg m start).0 in
        let code = get_code rsp err in
        let c = mapping cm code r.callee_service r.callee_method in
        elim (Bool-cases (counter_need_use_exemplar r sampled c.type)) [
          | inl a ↦ elim (Bool-cases (histogram_need_use_exemplar r sampled (cost_of r end))) [
            | inl b ↦ (refl, rw (a, b) refl)
            | inr b ↦ (refl, rw (a, b) refl)
          ]
          | inr a ↦ elim (Bool-cases (histogram_need_use_exemplar r sampled (cost_of r end))) [
            | inl b ↦ (refl, rw (a, b) refl)
            | inr b ↦ (refl, rw (a, b) refl)
          ]
        ]

    call_of-accepted :
        (accepts : Vec → List Label → Bool) (side : Side) (msg : Msg) (m : String) (code : String)
        (cost : ℕ) (us : List Update)
        → Accepting cm accepts
        → plain us ≡ call_of side msg m code cost
        → panics accepts us ≡ false
    unfolding panics
    call_of-accepted accepts side msg m code cost us a e =
        let r : Reporter = record {
          system_name = "trpc";
          caller_service = clean_service_name msg.caller_service_name;
          caller_method = clean_rpc_method msg.caller_method;
          callee_service = clean_service_name msg.callee_service_name;
          callee_method = clean_rpc_method m;
          start_time = 0;
          end_time = none;
          extra_labels = [];
          metrics = none;
          rpc_type = "";
          enable_deferred_sample = false;
          deferred_sample_error = false;
          deferred_sample_slow_duration = 0;
        } in
        sym (panics-plain accepts us)
        ∙ ap (panics accepts) e
        ∙ rw
            (
              a.of_started side "trpc" r.caller_service r.caller_method r.callee_service
                  r.callee_method,
              a.of_handled side r code refl,
              a.of_time side r code refl,
            )
            refl

    -- Where the library's counters and histograms take exemplars, its WithLabelValues takes values that
    -- are valid and as many as the vector has labels, the vectors are declared with 5, 8 and 8 labels, the
    -- converter's descriptions are valid, and the handler returns: neither filter panics, each returns what
    -- the handler has returned, and its updates are, exemplars aside, these three: the call counted as
    -- started, counted as handled, and its time from start to end observed; the first has the system and
    -- the cleaned names of caller and callee, the others also the code that `get_code` finds, and the type
    -- and the description that the converter gives it.
    pub calls_counted :
        (valid : List ℕ → Bool) (option : Side → String → List String)
        (accepts : Vec → List Label → Bool) (opt : FilterOption)
        (sprintf : String → String → String) (msg : Msg) (head : Option (String × String))
        (body : Option ℕ) (meta_data : List ℕ) (start : ℕ) (rsp : Rsp) (err : Option Err)
        (sampled : Bool) (end : ℕ)
        → ((code service method : String)
            → valid (mapping cm code service method).description ≡ true)
        → ((side : Side) → length (option side (started_counter_name side)) ≡ 5)
        → ((side : Side) → length (option side (handled_counter_name side)) ≡ 8)
        → ((side : Side) → length (option side (handled_histogram_name side)) ≡ 8)
        → ((v : Vec) (ls : List Label)
            → length ls ≡ length (declared_labels option v)
            → AreValid valid ls
            → accepts v ls ≡ true)
        → let f =
            server_filter clean_service_name clean_rpc_method cm true true get_code sprintf opt msg
              head start
              (returned rsp err)
              sampled
              end in
          let g =
            client_filter clean_service_name clean_rpc_method cm true true get_code opt msg body
              meta_data start
              (returned rsp err)
              sampled
              end in
          ((f.outcome ≡ returned rsp err)
            × (panics accepts f.updates ≡ false)
            × (plain f.updates
                ≡ call_of server msg
                    (server_method clean_rpc_method sprintf msg head)
                    (get_code rsp err)
                    (end - start)))
          × ((g.outcome ≡ returned rsp err)
              × (panics accepts g.updates ≡ false)
              × (plain g.updates
                  ≡ call_of client msg msg.callee_method (get_code rsp err) (end - start)))
    unfolding server_filter client_filter
    calls_counted valid option accepts opt sprintf msg head body meta_data start rsp err sampled end
          d s c h lib =
        let a = accepting cm valid option accepts d s c h lib in
        let m = server_method clean_rpc_method sprintf msg head in
        let f = report_outcome-call server opt msg m start rsp err sampled end [] in
        let g =
          report_outcome-call client opt msg msg.callee_method start rsp err sampled end
            ((calc_body_size body, calc_meta_data_size meta_data) ∷ []) in
        let code = get_code rsp err in
        (
          (f.0, call_of-accepted accepts server msg m code (end - start) _ a f.1, f.1),
          (
            g.0,
            call_of-accepted accepts client msg msg.callee_method code (end - start) _ a g.1,
            g.1,
          ),
        )
