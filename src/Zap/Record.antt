-- ===== src/Zap/Record.antt =====
-- otelzap/writer.go: convertToRecordV2 and isValidRecord. What jsoniter makes of a line is given: the
-- fields of the object in order, and whether the object ends behind them; `J` is the type of its values.
use go_opentelemetry.Prelude.{
  ℕ, Bool, true, false, Option, none, some, List, [], ◌∷◌, ◌++◌, String, str_eq, if◌then◌else◌,
  ◌>>=◌, length, ◌==◌, ◌&&◌, not,
}

abbrev pub field_sampled : String
field_sampled = "sampled"

abbrev pub field_level : String
field_level = "level"

abbrev pub field_trace_id : String
field_trace_id = "traceID"

abbrev pub field_span_id : String
field_span_id = "spanID"

abbrev pub true_string : String
true_string = "true"

-- The cases of the switch on the name of a field.
pub data Field : Type 0 where
  sampled level msg trace_id span_id caller ts other : Field

abbrev pub field_of : String → Field
field_of f =
    if str_eq f field_sampled
    then sampled
    else (if str_eq f field_level
        then level
        else (if str_eq f "msg"
            then msg
            else (if str_eq f field_trace_id
                then trace_id
                else (if str_eq f field_span_id
                    then span_id
                    else (if str_eq f "caller"
                        then caller
                        else (if str_eq f "ts" then ts else other))))))

-- `AnyValue`, as far as the log records use it, and `KeyValue`.
pub data Value : Type 0 where
  bool_value : Bool → Value
  string_value : String → Value

pub record KeyValue : Type 0 where
  pub key : String
  pub value : Value

-- `LogRecord`: the fields that the conversion sets. Ids are bytes.
pub record LogRecord : Type 0 where
  pub attributes : List KeyValue
  pub severity_text : String
  pub body : Option String
  pub trace_id : List ℕ
  pub span_id : List ℕ
  pub time_unix_nano : ℕ

abbrev pub empty_record : LogRecord
empty_record = record {
  attributes = [];
  severity_text = "";
  body = none;
  trace_id = [];
  span_id = [];
  time_unix_nano = 0;
}

-- What an iterator yields of a line.
pub record Line (J : Type 0) : Type 0 where
  pub fields : List (String × J)
  pub ends : Bool

-- jsoniter and encoding/hex: `ReadString` and `uint64(ReadFloat64() * float64(time.Second))`, which fail on
-- a value of another kind, `ReadAny().ToString()`, and the bytes of `hex.DecodeString`, whatever its error.
pub record Reader (J : Type 0) : Type 0 where
  pub read_string : J → Option String
  pub read_nanos : J → Option ℕ
  pub any_string : J → String
  pub decode_hex : String → List ℕ

abbrev pub add_attribute : String → Value → LogRecord → LogRecord
add_attribute k v l = record l { attributes = l.attributes ++ record { key = k; value = v } ∷ [] }

module _ {J : Type 0} (api : Reader J) where
  -- The callback of `convertToRecordV2`; `none` is an error of the iterator.
  unfoldable pub convert_field : Field → String → J → LogRecord → Option LogRecord
  convert_field sampled f j l = do
    s ← api.read_string j
    some (add_attribute field_sampled (bool_value (str_eq s true_string)) l)
  convert_field level f j l = do s ← api.read_string j; some (record l { severity_text = s })
  convert_field msg f j l = do s ← api.read_string j; some (record l { body = some s })
  convert_field trace_id f j l = do
    s ← api.read_string j
    some (record l { trace_id = api.decode_hex s })
  convert_field span_id f j l = do
    s ← api.read_string j
    some (record l { span_id = api.decode_hex s })
  convert_field caller f j l = do
    s ← api.read_string j
    some (add_attribute "line" (string_value s) l)
  convert_field ts f j l = do n ← api.read_nanos j; some (record l { time_unix_nano = n })
  convert_field other f j l = some (add_attribute f (string_value (api.any_string j)) l)

  -- `ReadObjectCB` with it
  unfoldable pub convert_from : List (String × J) → Bool → LogRecord → Option LogRecord
  convert_from [] ends l = if ends then some l else none
  convert_from ((f, j) ∷ fs) ends l = do
    m ← convert_field (field_of f) f j l
    convert_from fs ends m

  -- `convertToRecordV2`
  unfoldable pub convert_to_record : Line J → Option LogRecord
  convert_to_record line = convert_from line.fields line.ends empty_record

-- `isValidRecord`
unfoldable pub is_valid_record : LogRecord → Bool
is_valid_record l =
    if not (length l.trace_id == 16) && not (length l.trace_id == 0)
    then false
    else (if not (length l.span_id == 8) && not (length l.span_id == 0) then false else true)
