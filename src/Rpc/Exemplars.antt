-- ===== src/Rpc/Exemplars.antt =====
-- The metric filter inside the trace filter, as oteltrpc/oteltrpc.go chains them with one configuration:
-- the code that each records, and the exemplars of sdk/metric/rpc_client_reporter.go against the spans
-- that sdk/trace/deferred_sample_processor.go keeps.
use go_opentelemetry.Prelude.{
  ℕ, ◌-◌, ◌≤◌, ◌<◌, Bool, true, false, Option, none, some, String, List, [], ◌∷◌, if◌then◌else◌,
  pos, ◌≡◌, refl, arith, Bool-cases, inl, inr, sym, ap, ◌||◌, not, str_eq,
}
use go_opentelemetry.Codes.{code_type_success, code_type_string}
use go_opentelemetry.Codes.Mapping.{CodeConverter, mapping}
use go_opentelemetry.Trace.Deferred.{StatusCode, error, ok, DeferredCounters, deferred_sampler}
use go_opentelemetry.Rpc.{
  Side, client, Reporter, Update, Op, new_reporter, add_with_exemplar, observe_with_exemplar,
}
use go_opentelemetry.Rpc.Handled.{
  handled, cost_of, counter_need_use_exemplar, histogram_need_use_exemplar,
}
use go_opentelemetry.Rpc.Flow.{Msg, Err, Rsp, FlowLog, FilterOptions, trpc_error, other_error}
use go_opentelemetry.Rpc.Filters.{FilterOption, returned, reporter_for, client_filter}
use go_opentelemetry.Rpc.Spans.{
  Ints, default_get_code_func, default_get_string_code_func, get_err_code, handle_error, or_zero,
  end_span, build_flow_log,
}

module _ {Int : Type 0} (ints : Ints Int) where
  -- Where `Atoi` undoes `Itoa`, and `errs.Code` of the call's error is the code that `getErrCode` finds:
  -- the code that the default function gives the metrics is the one that the trace filter sets on the
  -- span, in decimal.
  pub codes_agree :
      (cm : CodeConverter) (rsp : Rsp Int) (err : Option (Err Int)) (flow : FlowLog Int)
      → ((n : Int) → ints.atoi (ints.itoa n) ≡ some n)
      → ((e : Err Int) → err ≡ some e → ints.errs_code e ≡ (get_err_code ints ints.int_zero err).0)
      → let (code, e) = default_get_string_code_func ints rsp err in
        ints.itoa (handle_error ints cm (or_zero ints (ints.atoi code)) e flow).0.code_attribute
        ≡ code
  unfolding default_get_string_code_func default_get_code_func handle_error get_err_code
  codes_agree cm rsp none flow a h = rw a refl
  codes_agree cm rsp (some (trpc_error c m t)) flow a h =
      ap ints.itoa (sym (h (trpc_error c m t) refl))
  codes_agree cm rsp (some (other_error m)) flow a h = ap ints.itoa (sym (h (other_error m) refl))

abbrev pub is_exemplar : Op → Bool
is_exemplar add_with_exemplar = true
is_exemplar (observe_with_exemplar n) = true
is_exemplar _ = false

abbrev pub any_exemplar : List Update → Bool
any_exemplar [] = false
any_exemplar (u ∷ us) = is_exemplar u.op || any_exemplar us

abbrev pub status_for : String → StatusCode
status_for type = if not (str_eq type (code_type_string code_type_success)) then error else ok

handled_exemplar :
    (cm : CodeConverter) (is_adder is_observer : Bool) (side : Side) (r : Reporter) (sampled : Bool)
    (code : String) (now : ℕ)
    → any_exemplar (handled cm is_adder is_observer side r sampled code now).1 ≡ true
    → (counter_need_use_exemplar r sampled (mapping cm code r.callee_service r.callee_method).type
        || histogram_need_use_exemplar r sampled (cost_of r now))
      ≡ true
unfolding handled
handled_exemplar cm is_adder is_observer side r sampled code now h =
    let c =
      counter_need_use_exemplar r sampled (mapping cm code r.callee_service r.callee_method).type in
    let b = histogram_need_use_exemplar r sampled (cost_of r now) in
    elim (Bool-cases c) [
      | inl p ↦ rw p refl
      | inr p ↦ elim (Bool-cases b) [
        | inl q ↦ rw (p, q) refl
        | inr q ↦ absurd (cc (rw (p, q) at h))
      ]
    ]

need_kept :
    (r : Reporter) (sampled : Bool) (type : String) (cost start duration : ℕ)
    (counters : DeferredCounters)
    → 0 < r.deferred_sample_slow_duration
    → cost ≤ duration
    → (counter_need_use_exemplar r sampled type || histogram_need_use_exemplar r sampled cost)
      ≡ true
    → (deferred_sampler
        (record {
          enabled = r.enable_deferred_sample;
          sample_error = r.deferred_sample_error;
          sample_slow_duration = pos r.deferred_sample_slow_duration;
        })
        (record {
          sampled = sampled;
          code = status_for type;
          start_time = start;
          duration = pos duration;
        })
        counters).0
      ≡ true
unfolding deferred_sampler counter_need_use_exemplar histogram_need_use_exemplar
need_kept r sampled type cost start duration counters s d h = ground (arith)

module _ {Int : Type 0} (ints : Ints Int) where
  end_span_status :
      (cm : CodeConverter) (fopt : FilterOptions) (msg : Msg) (kind : Side) (sampled : Bool)
      (code : String) (e : Option (Err Int)) (bodies : String × String) (cost : String)
      → (end_span ints cm fopt msg kind sampled code e bodies cost).0.status_code
        ≡ status_for
            (mapping cm
              (ints.itoa
                (handle_error ints cm
                  (or_zero ints (ints.atoi code))
                  e
                  (build_flow_log ints msg kind)).0.code_attribute)
              msg.callee_service_name
              msg.callee_method).type
  unfolding end_span handle_error build_flow_log
  end_span_status cm fopt msg kind sampled code e bodies cost = refl

  -- Of a client's call whose handler returns, with the default functions for its code, both filters with
  -- one configuration with a slow duration that is not 0, names of the callee that the clean-up leaves as
  -- they are, the ints and `errs.Code` as in `codes_agree`, and a span that lasts at least as long as the
  -- metric filter measures: if an update carries the exemplar, the deferred sampler, whatever its counters,
  -- keeps the span.
  pub exemplars_kept :
      (clean_service_name clean_rpc_method : String → String) (cm : CodeConverter)
      (is_adder is_observer : Bool) (opt : FilterOption) (fopt : FilterOptions) (msg : Msg)
      (body : Option ℕ) (meta_data : List ℕ) (rsp : Rsp Int) (err : Option (Err Int))
      (sampled : Bool) (start end begun duration : ℕ) (bodies : String × String) (cost : String)
      (counters : DeferredCounters)
      → clean_service_name msg.callee_service_name ≡ msg.callee_service_name
      → clean_rpc_method msg.callee_method ≡ msg.callee_method
      → ((n : Int) → ints.atoi (ints.itoa n) ≡ some n)
      → ((e : Err Int) → err ≡ some e → ints.errs_code e ≡ (get_err_code ints ints.int_zero err).0)
      → 0 < opt.deferred_sample_slow_duration
      → end - start ≤ duration
      → any_exemplar
          (client_filter clean_service_name clean_rpc_method cm is_adder is_observer
            (λ r e. (default_get_string_code_func ints r e).0)
            opt
            msg
            body
            meta_data
            start
            (returned rsp err)
            sampled
            end).updates
        ≡ true
      → (deferred_sampler
          (record {
            enabled = opt.enable_deferred_sample;
            sample_error = opt.deferred_sample_error;
            sample_slow_duration = pos opt.deferred_sample_slow_duration;
          })
          (record {
            sampled = sampled;
            code =
                (end_span ints cm fopt msg client sampled
                  (default_get_string_code_func ints rsp err).0
                  (default_get_string_code_func ints rsp err).1
                  bodies
                  cost).0.status_code;
            start_time = begun;
            duration = pos duration;
          })
          counters).0
        ≡ true
  unfolding client_filter reporter_for new_reporter
  exemplars_kept clean_service_name clean_rpc_method cm is_adder is_observer opt fopt msg body
        meta_data rsp err sampled start end begun duration bodies cost counters sn sm a ec slow d
        h =
      let (code, e) = default_get_string_code_func ints rsp err in
      let r =
        (reporter_for clean_service_name clean_rpc_method client opt msg msg.callee_method
          start).0 in
      let q = handled_exemplar cm is_adder is_observer client r sampled code end h in
      let k =
        need_kept r sampled (mapping cm code r.callee_service r.callee_method).type (end - start)
          begun duration counters slow d q in
      rw
        (
          end_span_status cm fopt msg client sampled code e bodies cost,
          codes_agree ints cm rsp err (build_flow_log ints msg client) a ec,
          ← sn,
          ← sm,
        )
        k
