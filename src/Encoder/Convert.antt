-- ===== src/Encoder/Convert.antt =====
-- otelzap/zap.go: convertFuncs does with the fields of an entry what Fields describes.
use go_opentelemetry.Prelude.{
  ◌≡◌, refl, sym, subst, ap, ◌∙◌, Bool, true, false, ◌&&◌, none, some, List, [], ◌∷◌, ◌++◌,
  append-nil, append_assoc, arith, String, str_eq, eq_iff, if◌then◌else◌, Bool-cases, inl, inr,
  if_both,
}
use go_opentelemetry.Encoder.{
  Encoder, Api, add_string, Content, array_marshaler, object_marshaler, complex128, complex64,
  uintptr, reflect, namespace, stringer, skip, other_type, binary, byte_string, text, time_full,
  error, bool, duration, float64, float32, int64, int32, int16, int8, uint64, uint32, uint16, uint8,
  time, Field, convert_content, convert_field, convert_fields,
}
use go_opentelemetry.Encoder.Fields.{
  value_of, text_of, is_reserved, is_text, attribute_with, attributes_of, is_known, all_known,
  after_fields,
}

-- A text under each of the keys.
convert_sampled :
    (api : Api) (s : String) (e : Encoder)
    → add_string api "sampled" s e
      ≡ after_fields api (record { key = "sampled"; content = text s } ∷ []) e
unfolding add_string
convert_sampled api s e = elim (Bool-cases (str_eq s "true")) [
  | inl h ↦ rw (h, append-nil e.kvs) refl
  | inr h ↦ rw (h, append-nil e.kvs) refl
]

convert_trace_id :
    (api : Api) (s : String) (e : Encoder)
    → add_string api "traceID" s e
      ≡ after_fields api (record { key = "traceID"; content = text s } ∷ []) e
unfolding add_string
convert_trace_id api s e = rw (append-nil e.kvs) refl

convert_span_id :
    (api : Api) (s : String) (e : Encoder)
    → add_string api "spanID" s e
      ≡ after_fields api (record { key = "spanID"; content = text s } ∷ []) e
unfolding add_string
convert_span_id api s e = rw (append-nil e.kvs) refl

convert_text :
    (api : Api) (k s : String) (e : Encoder)
    → add_string api k s e ≡ after_fields api (record { key = k; content = text s } ∷ []) e
unfolding add_string
convert_text api k s e =
    let P : String → Type 0 =
      λ j. add_string api j s e ≡ after_fields api (record { key = j; content = text s } ∷ []) e in
    elim (Bool-cases (str_eq k "sampled")) [
      | inl h ↦ subst P (sym ((eq_iff k "sampled").0 h)) (convert_sampled api s e)
      | inr h ↦ elim (Bool-cases (str_eq k "traceID")) [
        | inl i ↦ subst P (sym ((eq_iff k "traceID").0 i)) (convert_trace_id api s e)
        | inr i ↦ elim (Bool-cases (str_eq k "spanID")) [
          | inl j ↦ subst P (sym ((eq_iff k "spanID").0 j)) (convert_span_id api s e)
          | inr j ↦ rw (h, i, j) refl
        ]
      ]
    ]

-- A field that is not for `AddString`.
other_field :
    (api : Api) (k : String) (c : Content) (e : Encoder)
    → text_of c ≡ none
    → is_text c ≡ false
    → after_fields api (record { key = k; content = c } ∷ []) e
      ≡ record e { kvs = e.kvs ++ attribute_with k (value_of api c) }
other_field api k c e h i =
    let no_text : (b : Bool) → (if b then text_of c else none) ≡ none =
      λ b. if_both (λ o. o ≡ none) b h refl in
    rw
      (
        no_text (str_eq k "sampled"),
        no_text (str_eq k "traceID"),
        no_text (str_eq k "spanID"),
        i,
        append-nil (attribute_with k (value_of api c)),
      )
      refl

passed_over :
    (api : Api) (k : String) (c : Content) (e : Encoder)
    → text_of c ≡ none
    → is_text c ≡ false
    → value_of api c ≡ none
    → e ≡ after_fields api (record { key = k; content = c } ∷ []) e
passed_over api k c e h i j = rw (other_field api k c e h i, j, append-nil e.kvs) refl

convert_content-after_fields :
    (api : Api) (k : String) (c : Content) (e : Encoder)
    → is_known c ≡ true
    → convert_content api k c e ≡ some (after_fields api (record { key = k; content = c } ∷ []) e)
unfolding convert_content
convert_content-after_fields api k other_type e h = absurd (cc)
convert_content-after_fields api k (text s) e h = ap some (convert_text api k s e)
convert_content-after_fields api k (error (some s)) e h = ap some (convert_text api k s e)
convert_content-after_fields api k (error none) e h = absurd (cc)
convert_content-after_fields api k (time (some loc) n) e h =
    ap some (sym (other_field api k (time (some loc) n) e refl refl))
convert_content-after_fields api k (time none n) e h = absurd (cc)
convert_content-after_fields api k (binary (some s)) e h =
    ap some (sym (other_field api k (binary (some s)) e refl refl))
convert_content-after_fields api k (binary none) e h = absurd (cc)
convert_content-after_fields api k (byte_string (some s)) e h =
    ap some (sym (other_field api k (byte_string (some s)) e refl refl))
convert_content-after_fields api k (byte_string none) e h = absurd (cc)
convert_content-after_fields api k (time_full (some s)) e h =
    ap some (sym (other_field api k (time_full (some s)) e refl refl))
convert_content-after_fields api k (time_full none) e h = absurd (cc)
convert_content-after_fields api k (array_marshaler true) e h =
    ap some (passed_over api k (array_marshaler true) e refl refl refl)
convert_content-after_fields api k (array_marshaler false) e h = absurd (cc)
convert_content-after_fields api k (object_marshaler true) e h =
    ap some (passed_over api k (object_marshaler true) e refl refl refl)
convert_content-after_fields api k (object_marshaler false) e h = absurd (cc)
convert_content-after_fields api k (complex128 true) e h =
    ap some (passed_over api k (complex128 true) e refl refl refl)
convert_content-after_fields api k (complex128 false) e h = absurd (cc)
convert_content-after_fields api k (duration n) e h =
    ap some (sym (other_field api k (duration n) e refl refl))
convert_content-after_fields api k (bool n) e h =
    ap some (sym (other_field api k (bool n) e refl refl))
convert_content-after_fields api k (float64 n) e h =
    ap some (sym (other_field api k (float64 n) e refl refl))
convert_content-after_fields api k (float32 n) e h =
    ap some (sym (other_field api k (float32 n) e refl refl))
convert_content-after_fields api k (int64 n) e h =
    ap some (sym (other_field api k (int64 n) e refl refl))
convert_content-after_fields api k (int32 n) e h =
    ap some (sym (other_field api k (int32 n) e refl refl))
convert_content-after_fields api k (int16 n) e h =
    ap some (sym (other_field api k (int16 n) e refl refl))
convert_content-after_fields api k (int8 n) e h =
    ap some (sym (other_field api k (int8 n) e refl refl))
convert_content-after_fields api k (uint64 n) e h =
    ap some (sym (other_field api k (uint64 n) e refl refl))
convert_content-after_fields api k (uint32 n) e h =
    ap some (sym (other_field api k (uint32 n) e refl refl))
convert_content-after_fields api k (uint16 n) e h =
    ap some (sym (other_field api k (uint16 n) e refl refl))
convert_content-after_fields api k (uint8 n) e h =
    ap some (sym (other_field api k (uint8 n) e refl refl))
convert_content-after_fields api k complex64 e h =
    ap some (passed_over api k complex64 e refl refl refl)
convert_content-after_fields api k uintptr e h =
    ap some (passed_over api k uintptr e refl refl refl)
convert_content-after_fields api k reflect e h =
    ap some (passed_over api k reflect e refl refl refl)
convert_content-after_fields api k namespace e h =
    ap some (passed_over api k namespace e refl refl refl)
convert_content-after_fields api k stringer e h =
    ap some (passed_over api k stringer e refl refl refl)
convert_content-after_fields api k skip e h = ap some (passed_over api k skip e refl refl refl)

after_fields_cons :
    (api : Api) (f : Field) (fs : List Field) (e : Encoder)
    → after_fields api fs (after_fields api (f ∷ []) e) ≡ after_fields api (f ∷ fs) e
after_fields_cons api f fs e =
    let xs =
      if is_text f.content && is_reserved f.key
      then []
      else attribute_with f.key (value_of api f.content) in
    ap (λ l. record (after_fields api (f ∷ fs) e) { kvs = l })
      (rw (append-nil xs) (append_assoc e.kvs xs (attributes_of api fs)))

-- The fields of an entry, all of types that `convertFuncs` has and with what they ask for.
pub convert_fields-after_fields :
    (api : Api) (fs : List Field) (e : Encoder)
    → all_known fs ≡ true
    → convert_fields api fs e ≡ some (after_fields api fs e)
unfolding convert_fields convert_field
convert_fields-after_fields api [] e h = rw (append-nil e.kvs) refl
convert_fields-after_fields api (f ∷ fs) e h =
    rw (convert_content-after_fields api f.key f.content e (ground arith)) (
      convert_fields-after_fields api fs (after_fields api (f ∷ []) e) (ground arith)
      ∙ ap some (after_fields_cons api f fs e))

unknown_panics :
    (api : Api) (k : String) (c : Content) (e : Encoder)
    → is_known c ≡ false
    → convert_content api k c e ≡ none
unfolding convert_content
unknown_panics api k other_type e h = refl
unknown_panics api k (array_marshaler b) e h = rw h refl
unknown_panics api k (object_marshaler b) e h = rw h refl
unknown_panics api k (complex128 b) e h = rw h refl
unknown_panics api k (binary none) e h = refl
unknown_panics api k (byte_string none) e h = refl
unknown_panics api k (error none) e h = refl
unknown_panics api k (time_full none) e h = refl
unknown_panics api k (time none n) e h = refl
unknown_panics api k _ e h = absurd (cc)

-- Fields with one that is not.
pub convert_fields-none :
    (api : Api) (fs : List Field) (e : Encoder)
    → all_known fs ≡ false
    → convert_fields api fs e ≡ none
unfolding convert_fields convert_field
convert_fields-none api [] e h = absurd (cc)
convert_fields-none api (f ∷ fs) e h = elim (Bool-cases (is_known f.content)) [
  | inl k ↦
      rw (convert_content-after_fields api f.key f.content e k)
        (convert_fields-none api fs (after_fields api (f ∷ []) e) (ground arith))
  | inr k ↦ rw (unknown_panics api f.key f.content e k) refl
]
