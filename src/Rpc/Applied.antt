-- ===== src/Rpc/Applied.antt =====
-- The Prometheus library's WithLabelValues behind the updates of sdk/metric/rpc_client_reporter.go and
-- rpc_server_reporter.go: it panics on values that it does not accept, and is a parameter.
use go_opentelemetry.Prelude.{
  ℕ, Bool, true, false, String, List, [], ◌∷◌, ◌++◌, ◌≡◌, refl, ap, arith, not, ◌||◌, length,
}
use go_opentelemetry.Codes.Mapping.{CodeConverter, mapping}
use go_opentelemetry.Rpc.{
  Side, Vec, Label, text, bytes, Op, add_with_exemplar, observe_with_exemplar, inc, observe, Update,
  Reporter, started_counter, handled_counter, handled_histogram, stream_msg_received,
  stream_msg_sent, stream_recv_histogram, stream_send_histogram, stream_labels,
}
use go_opentelemetry.Rpc.Handled.{handled_labels}
use go_opentelemetry.Rpc.Labels.{
  declared_labels, started_counter_name, handled_counter_name, handled_histogram_name,
}

-- Whether one of the updates panics, where the ones behind it are not made.
unfoldable pub panics : (Vec → List Label → Bool) → List Update → Bool
panics accepts [] = false
panics accepts (u ∷ us) = not (accepts u.vec u.labels) || panics accepts us

-- The bytes among the labels are valid.
abbrev pub AreValid : (List ℕ → Bool) → List Label → Type 0
AreValid valid [] = Unit {0}
AreValid valid (text s ∷ ls) = AreValid valid ls
AreValid valid (bytes b ∷ ls) = (valid b ≡ true) × AreValid valid ls

-- An update but for its exemplar.
abbrev pub plain_op : Op → Op
plain_op add_with_exemplar = inc
plain_op (observe_with_exemplar n) = observe n
plain_op op = op

abbrev pub plain : List Update → List Update
plain [] = []
plain (u ∷ us) = record u { op = plain_op u.op } ∷ plain us

pub panics-append :
    (accepts : Vec → List Label → Bool) (us vs : List Update)
    → panics accepts us ≡ false
    → panics accepts vs ≡ false
    → panics accepts (us ++ vs) ≡ false
unfolding panics
panics-append accepts [] vs h k = k
panics-append accepts (u ∷ us) vs h k = ground (arith, panics-append accepts us vs (ground arith) k)

-- Exemplars do not matter to it.
pub panics-plain :
    (accepts : Vec → List Label → Bool) (us : List Update)
    → panics accepts (plain us) ≡ panics accepts us
unfolding panics
panics-plain accepts [] = refl
panics-plain accepts (u ∷ us) =
    ap (λ b. not (accepts u.vec u.labels) || b) (panics-plain accepts us)

-- What a reporter without extra labels gives is accepted.
pub record Accepting (cm : CodeConverter) (accepts : Vec → List Label → Bool) : Type 0 where
  pub of_started :
      (side : Side) (a b c d e : String)
      → accepts (started_counter side) (text a ∷ text b ∷ text c ∷ text d ∷ text e ∷ []) ≡ true
  pub of_handled :
      (side : Side) (r : Reporter) (code : String)
      → r.extra_labels ≡ []
      → accepts
          (handled_counter side)
          (handled_labels r code (mapping cm code r.callee_service r.callee_method))
        ≡ true
  pub of_time :
      (side : Side) (r : Reporter) (code : String)
      → r.extra_labels ≡ []
      → accepts
          (handled_histogram side)
          (handled_labels r code (mapping cm code r.callee_service r.callee_method))
        ≡ true
  pub of_received :
      (side : Side) (r : Reporter) → accepts (stream_msg_received side) (stream_labels r) ≡ true
  pub of_sent :
      (side : Side) (r : Reporter) → accepts (stream_msg_sent side) (stream_labels r) ≡ true
  pub of_recv_time : (r : Reporter) → accepts stream_recv_histogram (stream_labels r) ≡ true
  pub of_send_time : (r : Reporter) → accepts stream_send_histogram (stream_labels r) ≡ true

module _ (cm : CodeConverter) (valid : List ℕ → Bool) (option : Side → String → List String)
    (accepts : Vec → List Label → Bool) where
  handled_labels-AreValid :
      (r : Reporter) (code : String)
      → ((code' service method : String)
          → valid (mapping cm code' service method).description ≡ true)
      → r.extra_labels ≡ []
      → AreValid valid (handled_labels r code (mapping cm code r.callee_service r.callee_method))
  handled_labels-AreValid r code d e = rw e (d code r.callee_service r.callee_method, tt)

  length-handled_labels :
      (r : Reporter) (code : String)
      → r.extra_labels ≡ []
      → length (handled_labels r code (mapping cm code r.callee_service r.callee_method)) ≡ 8
  length-handled_labels r code e = rw e refl

  -- A library that takes values that are valid and as many as the vector has labels.
  pub accepting :
      ((code service method : String) → valid (mapping cm code service method).description ≡ true)
      → ((side : Side) → length (option side (started_counter_name side)) ≡ 5)
      → ((side : Side) → length (option side (handled_counter_name side)) ≡ 8)
      → ((side : Side) → length (option side (handled_histogram_name side)) ≡ 8)
      → ((v : Vec) (ls : List Label)
          → length ls ≡ length (declared_labels option v)
          → AreValid valid ls
          → accepts v ls ≡ true)
      → Accepting cm accepts
  unfolding declared_labels
  accepting d s c h lib = record {
    of_started = λ side a b c' d' e. lib (started_counter side) _ (omega (arith, s side)) tt;
    of_handled = λ side r code e.
        lib (handled_counter side) _ (omega (arith, length-handled_labels r code e, c side))
          (handled_labels-AreValid r code d e);
    of_time = λ side r code e.
        lib (handled_histogram side) _ (omega (arith, length-handled_labels r code e, h side))
          (handled_labels-AreValid r code d e);
    of_received = λ side r. lib (stream_msg_received side) _ refl tt;
    of_sent = λ side r. lib (stream_msg_sent side) _ refl tt;
    of_recv_time = λ r. lib stream_recv_histogram _ refl tt;
    of_send_time = λ r. lib stream_send_histogram _ refl tt;
  }
