-- ===== src/Encoder.antt =====
-- otelzap/zap.go: the encoder of NewCore, the conversion of fields, and EncodeEntry.
pub mod Fields
pub mod Convert
pub mod Entries
mod Tests
use go_opentelemetry.Prelude.{
  ℕ, ◌+◌, ◌-◌, ◌%◌, ◌^◌, Bool, true, false, Option, none, some, List, [], ◌∷◌, ◌++◌, String, str_eq,
  if◌then◌else◌, ltb, ◌==◌, length, ◌>>=◌,
}

-- `AnyValue`: an integer is its 64 bits, a double too.
pub data Value : Type 0 where
  string_value : String → Value
  bool_value : Bool → Value
  int_value : ℕ → Value
  double_value : ℕ → Value

pub record KeyValue : Type 0 where
  pub key : String
  pub value : Value

-- `LogRecord`, as far as the encoder sets it.
pub record LogRecord : Type 0 where
  pub flags : ℕ
  pub trace_id : List ℕ
  pub span_id : List ℕ
  pub severity_text : String
  pub attributes : List KeyValue
  pub body : Option String
  pub time_unix_nano : ℕ

abbrev pub empty_record : LogRecord
empty_record = record {
  flags = 0;
  trace_id = [];
  span_id = [];
  severity_text = "";
  attributes = [];
  body = none;
  time_unix_nano = 0;
}

-- What stands behind the pointers `record` and `buf`, which an encoder and its clones share.
pub record Shared : Type 0 where
  pub record_of : LogRecord
  pub buf : List ℕ

-- `encoder`
pub record Encoder : Type 0 where
  pub shared : Shared
  pub kvs : List KeyValue

-- `NewEncoder`, for a buffer that the pool has emptied
abbrev pub new_encoder : Encoder
new_encoder = record { shared = record { record_of = empty_record; buf = [] }; kvs = [] }

-- `Clone`: a copy of the attributes, and the same pointers.
abbrev pub clone : Encoder → Encoder
clone e = record { shared = e.shared; kvs = [] ++ e.kvs }

-- What Go's libraries are used for: `hex.DecodeString`, whatever its error, `Duration.String`,
-- `time.Unix(0, n)` in a location or none as text, and the float64 of a float32, both as bits.
pub record Api : Type 0 where
  pub decode_hex : String → List ℕ
  pub duration_string : ℕ → String
  pub time_string : Option ℕ → ℕ → String
  pub widen : ℕ → ℕ

abbrev pub add_value : String → Value → Encoder → Encoder
add_value k v e = record e { kvs = e.kvs ++ record { key = k; value = v } ∷ [] }

abbrev pub update_record : (LogRecord → LogRecord) → Encoder → Encoder
update_record f e = record e { shared = record e.shared { record_of = f e.shared.record_of } }

-- `AddString`
unfoldable pub add_string : Api → String → String → Encoder → Encoder
add_string api k v e =
    if str_eq k "sampled"
    then (if str_eq v "true"
        then update_record (λ (r : LogRecord). record r { flags = 1 }) e
        else e)
    else (if str_eq k "traceID"
        then update_record (λ (r : LogRecord). record r { trace_id = api.decode_hex v }) e
        else (if str_eq k "spanID"
            then update_record (λ (r : LogRecord). record r { span_id = api.decode_hex v }) e
            else add_value k (string_value v) e))

-- `int64` of the low `w` bits of an integer, taken as a signed number.
unfoldable pub signed : ℕ → ℕ → ℕ
signed w n = let m = n % 2 ^ w in if ltb m (2 ^ (w - 1)) then m else m + (2 ^ 64 - 2 ^ w)

-- `int64` of the low `w` bits, taken as an unsigned number.
unfoldable pub unsigned : ℕ → ℕ → ℕ
unsigned w n = n % 2 ^ w

-- The methods for the types of values. A text stands for bytes and for a time's `String` too.
abbrev pub add_binary : String → String → Encoder → Encoder
add_binary k s e = add_value k (string_value s) e

abbrev pub add_byte_string : String → String → Encoder → Encoder
add_byte_string k s e = add_value k (string_value s) e

abbrev pub add_bool : String → Bool → Encoder → Encoder
add_bool k b e = add_value k (bool_value b) e

abbrev pub add_duration : Api → String → ℕ → Encoder → Encoder
add_duration api k n e = add_value k (string_value (api.duration_string n)) e

abbrev pub add_float64 : String → ℕ → Encoder → Encoder
add_float64 k n e = add_value k (double_value n) e

abbrev pub add_float32 : Api → String → ℕ → Encoder → Encoder
add_float32 api k n e = add_value k (double_value (api.widen n)) e

abbrev pub add_int64 : String → ℕ → Encoder → Encoder
add_int64 k n e = add_value k (int_value n) e

abbrev pub add_int32 : String → ℕ → Encoder → Encoder
add_int32 k n e = add_value k (int_value (signed 32 n)) e

abbrev pub add_int16 : String → ℕ → Encoder → Encoder
add_int16 k n e = add_value k (int_value (signed 16 n)) e

abbrev pub add_int8 : String → ℕ → Encoder → Encoder
add_int8 k n e = add_value k (int_value (signed 8 n)) e

abbrev pub add_time : String → String → Encoder → Encoder
add_time k s e = add_value k (string_value s) e

abbrev pub add_uint64 : String → ℕ → Encoder → Encoder
add_uint64 k n e = add_value k (int_value n) e

abbrev pub add_uint32 : String → ℕ → Encoder → Encoder
add_uint32 k n e = add_value k (int_value (unsigned 32 n)) e

abbrev pub add_uint16 : String → ℕ → Encoder → Encoder
add_uint16 k n e = add_value k (int_value (unsigned 16 n)) e

abbrev pub add_uint8 : String → ℕ → Encoder → Encoder
add_uint8 k n e = add_value k (int_value (unsigned 8 n)) e

-- A field by its type, with what `convertFuncs` reads of it: the 64 bits of `Integer`, a text, or what
-- stands in `Interface`. Whether that passes the assertion of its type is a Boolean where nothing more is
-- read of it, and else `none` is that it does not, that `Error` panics, or that a location is a nil
-- pointer. A time's `some none` is a nil `Interface`. `other_type` is a type that `convertFuncs` does not
-- have.
pub data Content : Type 0 where
  complex64 uintptr reflect namespace stringer skip : Content
  other_type : Content
  array_marshaler object_marshaler complex128 : Bool → Content
  text : String → Content
  binary byte_string time_full error : Option String → Content
  bool duration float64 float32 int64 int32 int16 int8 uint64 uint32 uint16 uint8 : ℕ → Content
  time : Option (Option ℕ) → ℕ → Content

pub record Field : Type 0 where
  pub key : String
  pub content : Content

-- `convertFuncs`, with the methods that it calls; `none` is a panic.
unfoldable pub convert_content : Api → String → Content → Encoder → Option Encoder
convert_content api k (binary o) e = o >>= λ s. some (add_binary k s e)
convert_content api k (byte_string o) e = o >>= λ s. some (add_byte_string k s e)
convert_content api k (text s) e = some (add_string api k s e)
convert_content api k (error o) e = o >>= λ s. some (add_string api k s e)
convert_content api k (time_full o) e = o >>= λ s. some (add_time k s e)
convert_content api k (time o n) e = o >>= λ loc. some (add_time k (api.time_string loc n) e)
convert_content api k (duration n) e = some (add_duration api k n e)
convert_content api k (bool n) e = some (add_bool k (n == 1) e)
convert_content api k (float64 n) e = some (add_float64 k n e)
convert_content api k (float32 n) e = some (add_float32 api k (n % 2 ^ 32) e)
convert_content api k (int64 n) e = some (add_int64 k n e)
convert_content api k (int32 n) e = some (add_int32 k n e)
convert_content api k (int16 n) e = some (add_int16 k n e)
convert_content api k (int8 n) e = some (add_int8 k n e)
convert_content api k (uint64 n) e = some (add_uint64 k n e)
convert_content api k (uint32 n) e = some (add_uint32 k n e)
convert_content api k (uint16 n) e = some (add_uint16 k n e)
convert_content api k (uint8 n) e = some (add_uint8 k n e)
convert_content api k other_type e = none
convert_content api k (array_marshaler b) e = if b then some e else none
convert_content api k (object_marshaler b) e = if b then some e else none
convert_content api k (complex128 b) e = if b then some e else none
convert_content api k _ e = some e

-- `convertField`
unfoldable pub convert_field : Api → Field → Encoder → Option Encoder
convert_field api f e = convert_content api f.key f.content e

-- The loop of `EncodeEntry`
unfoldable pub convert_fields : Api → List Field → Encoder → Option Encoder
convert_fields api [] e = some e
convert_fields api (f ∷ fs) e = convert_field api f e >>= convert_fields api fs

-- `Entry`: the level as text, the message, and the 64 bits of `Time.UnixNano()`.
pub record Entry : Type 0 where
  pub level : String
  pub message : String
  pub unix_nano : ℕ

abbrev pub set_level : Entry → Encoder → Encoder
set_level entry e = update_record (λ (r : LogRecord). record r { severity_text = entry.level }) e

abbrev pub finish_record : Entry → Encoder → Encoder
finish_record entry e =
    update_record
      (λ (r : LogRecord). record r {
        attributes = r.attributes ++ e.kvs;
        body = some entry.message;
        time_unix_nano = entry.unix_nano;
      })
      e

-- `EncodeEntry` up to `proto.Marshal`: the record that is marshalled is that of the encoder.
unfoldable pub prepare_entry : Api → Entry → List Field → Encoder → Option Encoder
prepare_entry api entry fields e = do
  c ← convert_fields api fields (set_level entry e)
  some (finish_record entry c)

module _ (marshal : LogRecord → Option (List ℕ)) where
  abbrev pub append_data : Option (List ℕ) → Encoder → Option (List ℕ) × Encoder
  append_data none e = (none, e)
  append_data (some bytes) e =
      let buf = e.shared.buf ++ bytes in
      (some buf, record e { shared = record e.shared { buf = buf } })

  -- `EncodeEntry`: what the returned buffer holds, or none for an error of `proto.Marshal`; none for all
  -- is a panic.
  unfoldable pub encode_entry :
      Api → Entry → List Field → Encoder → Option (Option (List ℕ) × Encoder)
  encode_entry api entry fields e = do
    c ← prepare_entry api entry fields e
    some (append_data (marshal c.shared.record_of) c)
