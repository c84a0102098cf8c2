-- ===== src/Logger.antt =====
-- sdk/log/logger.go and the levels of api/log: which logs are handed to the batch processor, and as what.
-- The severities are the numbers of OTLP. Floating-point numbers are a parameter, as are times.
pub mod Admission
mod Tests
use go_opentelemetry.Prelude.{
  ℕ, suc, zero, Bool, true, false, Option, none, some, String, List, [], ◌∷◌, ◌++◌, if◌then◌else◌,
  str_eq, leb, ◌||◌, ◌&&◌, not,
}

-- `Level`
abbrev pub trace_level : String
trace_level = "TRACE"

abbrev pub debug_level : String
debug_level = "DEBUG"

abbrev pub info_level : String
info_level = "INFO"

abbrev pub warn_level : String
warn_level = "WARN"

abbrev pub error_level : String
error_level = "ERROR"

abbrev pub fatal_level : String
fatal_level = "FATAL"

abbrev pub severity_number_error : ℕ
severity_number_error = 17

-- `toSeverityNumber`
unfoldable pub to_severity_number : String → ℕ
to_severity_number level =
    if str_eq level trace_level
    then 1
    else (if str_eq level debug_level
        then 5
        else (if str_eq level info_level
            then 9
            else (if str_eq level warn_level
                then 13
                else (if str_eq level error_level
                    then severity_number_error
                    else (if str_eq level fatal_level then 21 else 0)))))

-- `LoggerOptions`, with the resource's attributes kept apart.
pub record LoggerOptions : Type 0 where
  pub level_enabled : String
  pub level_number : ℕ
  pub enable_sampler : Bool
  pub enable_sampler_error : Bool

-- `WithLevelEnable`
abbrev pub with_level_enable : String → LoggerOptions → LoggerOptions
with_level_enable level o = record o {
  level_enabled = level;
  level_number = to_severity_number level;
}

-- `WithEnableSampler`
abbrev pub with_enable_sampler : Bool → LoggerOptions → LoggerOptions
with_enable_sampler b o = record o { enable_sampler = b }

-- `WithEnableSamplerError`
abbrev pub with_enable_sampler_error : Bool → LoggerOptions → LoggerOptions
with_enable_sampler_error b o = record o { enable_sampler_error = b }

-- `NewLogger`
unfoldable pub new_logger : List (LoggerOptions → LoggerOptions) → LoggerOptions → LoggerOptions
new_logger [] options = options
new_logger (o ∷ os) options = new_logger os (o options)

abbrev pub no_options : LoggerOptions
no_options = record {
  level_enabled = "";
  level_number = 0;
  enable_sampler = false;
  enable_sampler_error = false;
}

-- What `Log` reads of the context's span. Ids are bytes, and `none` is an id of zeros.
pub record SpanContext : Type 0 where
  pub is_sampled : Bool
  pub trace_flags : ℕ
  pub trace_id : Option (List ℕ)
  pub span_id : Option (List ℕ)

-- The two conditions of `Log`.
unfoldable pub to_be_logged : LoggerOptions → SpanContext → String → Bool
to_be_logged o sc level =
    let level_number = to_severity_number level in
    let first =
      if o.enable_sampler && leb o.level_number level_number
      then (if sc.is_sampled || o.enable_sampler_error && leb severity_number_error level_number
          then true
          else false)
      else false in
    if not o.enable_sampler && leb o.level_number level_number then true else first

module _ (F : Type 0) where
  -- The values of attributes; an int64 is its 64 bits, and the types of slices are `other`.
  pub data AttributeValue : Type 0 where
    bool : Bool → AttributeValue
    int64 : ℕ → AttributeValue
    float64 : F → AttributeValue
    string : String → AttributeValue
    other : AttributeValue

  -- `AnyValue`, the cases that are used.
  pub data AnyValue : Type 0 where
    bool_value : Bool → AnyValue
    int_value : ℕ → AnyValue
    double_value : F → AnyValue
    string_value : String → AnyValue

  -- `LogRecord`; an attribute of `none` is a nil pointer, ids that are not set are `none`.
  pub record LogRecord : Type 0 where
    pub time_unix_nano : ℕ
    pub severity_text : String
    pub severity_number : ℕ
    pub body : String
    pub flags : ℕ
    pub trace_id : Option (List ℕ)
    pub span_id : Option (List ℕ)
    pub attributes : List (Option (String × AnyValue))

module _ {F : Type 0} where
  -- `toAttribute`
  unfoldable pub to_attribute : String × AttributeValue F → Option (String × AnyValue F)
  to_attribute (k, bool b) = some (k, bool_value b)
  to_attribute (k, int64 n) = some (k, int_value n)
  to_attribute (k, float64 x) = some (k, double_value x)
  to_attribute (k, string s) = some (k, string_value s)
  to_attribute (k, other) = none

  unfoldable pub to_attributes :
      List (String × AttributeValue F) → List (Option (String × AnyValue F))
  to_attributes [] = []
  to_attributes (f ∷ fs) = to_attribute f ∷ to_attributes fs

  -- `log`: the record that is enqueued, if one is. `kvs` are the context's fields.
  unfoldable pub log :
      SpanContext
      → String
      → String
      → List (String × AttributeValue F)
      → List (String × AttributeValue F)
      → ℕ
      → Bool
      → Option (LogRecord F)
  log sc msg level fields kvs now sampled =
      if not sampled
      then none
      else some (record {
        time_unix_nano = now;
        severity_text = level;
        severity_number = to_severity_number level;
        body = msg;
        flags = sc.trace_flags;
        trace_id = if sc.is_sampled then sc.trace_id else none;
        span_id = if sc.is_sampled then sc.span_id else none;
        attributes = to_attributes (fields ++ kvs);
      })

  -- `Log`
  unfoldable pub log_message :
      LoggerOptions
      → SpanContext
      → String
      → String
      → List (String × AttributeValue F)
      → List (String × AttributeValue F)
      → ℕ
      → Option (LogRecord F)
  log_message o sc msg level fields kvs now =
      log sc msg level fields kvs now (to_be_logged o sc level)
