-- ===== src/Encoder/Fields.antt =====
-- otelzap/zap.go: what the fields of an entry make of an encoder.
use go_opentelemetry.Prelude.{
  ℕ, ◌%◌, ◌^◌, Bool, true, false, ◌||◌, ◌&&◌, Option, none, some, List, [], ◌∷◌, ◌++◌, String,
  str_eq, if◌then◌else◌, ◌==◌, ◌>>=◌,
}
use go_opentelemetry.Encoder.{
  Value, string_value, bool_value, int_value, double_value, KeyValue, Encoder, Api, signed,
  unsigned, Content, array_marshaler, object_marshaler, complex128, other_type, binary, byte_string,
  text, time_full, error, bool, duration, float64, float32, int64, int32, int16, int8, uint64,
  uint32, uint16, uint8, time, Field,
}

abbrev pub texts : Option String → Option Value
texts o = o >>= λ s. some (string_value s)

-- The value that a field of a type stands for; none for the types that are passed over.
abbrev pub value_of : Api → Content → Option Value
value_of api (binary o) = texts o
value_of api (byte_string o) = texts o
value_of api (text s) = some (string_value s)
value_of api (error o) = texts o
value_of api (time_full o) = texts o
value_of api (time o n) = o >>= λ loc. some (string_value (api.time_string loc n))
value_of api (duration n) = some (string_value (api.duration_string n))
value_of api (bool n) = some (bool_value (n == 1))
value_of api (float64 n) = some (double_value n)
value_of api (float32 n) = some (double_value (api.widen (n % 2 ^ 32)))
value_of api (int64 n) = some (int_value n)
value_of api (int32 n) = some (int_value (signed 32 n))
value_of api (int16 n) = some (int_value (signed 16 n))
value_of api (int8 n) = some (int_value (signed 8 n))
value_of api (uint64 n) = some (int_value n)
value_of api (uint32 n) = some (int_value (unsigned 32 n))
value_of api (uint16 n) = some (int_value (unsigned 16 n))
value_of api (uint8 n) = some (int_value (unsigned 8 n))
value_of api _ = none

-- The text of a field that `AddString` is called with.
abbrev pub text_of : Content → Option String
text_of (text s) = some s
text_of (error o) = o
text_of _ = none

abbrev pub is_reserved : String → Bool
is_reserved k = str_eq k "sampled" || str_eq k "traceID" || str_eq k "spanID"

-- The text of a field with a key.
abbrev pub text_at : String → Field → Option String
text_at k f = if str_eq f.key k then text_of f.content else none

abbrev pub is_text : Content → Bool
is_text (text s) = true
is_text (error o) = true
is_text _ = false

abbrev pub attribute_with : String → Option Value → List KeyValue
attribute_with k none = []
attribute_with k (some v) = record { key = k; value = v } ∷ []

-- The attributes of fields: of each its key and its value, but for texts under the reserved keys.
abbrev pub attributes_of : Api → List Field → List KeyValue
attributes_of api [] = []
attributes_of api (f ∷ fs) =
    (if is_text f.content && is_reserved f.key
      then []
      else attribute_with f.key (value_of api f.content))
    ++ attributes_of api fs

abbrev pub decoded_or : Api → List ℕ → Option String → List ℕ
decoded_or api d none = d
decoded_or api d (some s) = api.decode_hex s

-- The id of the last text with a key, or else `d`.
abbrev pub id_after : Api → String → List ℕ → List Field → List ℕ
id_after api k d [] = d
id_after api k d (f ∷ fs) = id_after api k (decoded_or api d (text_at k f)) fs

abbrev pub flag_or : ℕ → Option String → ℕ
flag_or d none = d
flag_or d (some s) = if str_eq s "true" then 1 else d

-- 1 if a text `sampled` is `true`, or else `d`.
abbrev pub flags_after : ℕ → List Field → ℕ
flags_after d [] = d
flags_after d (f ∷ fs) = flags_after (flag_or d (text_at "sampled" f)) fs

abbrev pub is_there {ℓ} : {A : Type ℓ} → Option A → Bool
is_there none = false
is_there (some a) = true

abbrev pub is_known : Content → Bool
is_known other_type = false
is_known (array_marshaler b) = b
is_known (object_marshaler b) = b
is_known (complex128 b) = b
is_known (binary o) = is_there o
is_known (byte_string o) = is_there o
is_known (error o) = is_there o
is_known (time_full o) = is_there o
is_known (time o n) = is_there o
is_known _ = true

-- Each field is of a type that `convertFuncs` has, and its `Interface` is what the type asks for.
abbrev pub all_known : List Field → Bool
all_known [] = true
all_known (f ∷ fs) = is_known f.content && all_known fs

-- What the fields make of an encoder.
abbrev pub after_fields : Api → List Field → Encoder → Encoder
after_fields api fs e = record {
  shared = record e.shared {
    record_of = record e.shared.record_of {
      flags = flags_after e.shared.record_of.flags fs;
      trace_id = id_after api "traceID" e.shared.record_of.trace_id fs;
      span_id = id_after api "spanID" e.shared.record_of.span_id fs;
    };
  };
  kvs = e.kvs ++ attributes_of api fs;
}
