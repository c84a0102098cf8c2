-- ===== src/Logger/Admission.antt =====
-- sdk/log/logger.go against otelzap/writer.go: which logs the two ways to the collector let through.
use go_opentelemetry.Prelude.{
  ℕ, ◌+◌, ◌*◌, Bool, true, false, Option, none, some, String, List, [], ◌∷◌, leb, ◌||◌, ◌&&◌, not,
  ◌≡◌, refl, arith, Bool-cases, inl, inr, ◌∙◌,
}
use go_opentelemetry.Zap.{BatchSyncerOptions}
use go_opentelemetry.Zap.Record.{Line, Reader}
use go_opentelemetry.Zap.Filter.{should_keep, read_sampled_and_level, level_greater_than_error}
use go_opentelemetry.Logger.{
  LoggerOptions, no_options, with_level_enable, with_enable_sampler, with_enable_sampler_error,
  new_logger, SpanContext, AttributeValue, log, log_message, to_be_logged, to_severity_number,
  trace_level, debug_level, info_level, warn_level, error_level, fatal_level,
}

-- The six levels in their order, as the logger writes them and as zap does, which calls trace debug.
pub data Severity : Type 0 where
  trace debug info warn error fatal : Severity

abbrev pub rank : Severity → ℕ
rank trace = 0
rank debug = 1
rank info = 2
rank warn = 3
rank error = 4
rank fatal = 5

abbrev pub text : Severity → String
text trace = trace_level
text debug = debug_level
text info = info_level
text warn = warn_level
text error = error_level
text fatal = fatal_level

abbrev pub zap_text : Severity → String
zap_text trace = "debug"
zap_text debug = "debug"
zap_text info = "info"
zap_text warn = "warn"
zap_text error = "error"
zap_text fatal = "fatal"

abbrev pub is_some {ℓ} : {A : Type ℓ} → Option A → Bool
is_some none = false
is_some (some a) = true

-- What the options mean to let through.
abbrev pub admitted : Severity → Bool → Bool → Bool → Severity → Bool
admitted enabled sampler sampler_error sampled level =
    leb (rank enabled) (rank level)
    && (not sampler || (sampled || sampler_error && leb (rank error) (rank level)))

abbrev pub options_of : Severity → Bool → Bool → LoggerOptions
options_of enabled sampler sampler_error =
    new_logger
      (with_level_enable (text enabled)
        ∷ with_enable_sampler sampler
        ∷ with_enable_sampler_error sampler_error
        ∷ [])
      no_options

to_severity_number-text : (l : Severity) → to_severity_number (text l) ≡ 4 * rank l + 1
unfolding to_severity_number
to_severity_number-text trace = refl
to_severity_number-text debug = refl
to_severity_number-text info = refl
to_severity_number-text warn = refl
to_severity_number-text error = refl
to_severity_number-text fatal = refl

to_be_logged_lem :
    (enabled level : Severity) (sampler sampler_error : Bool) (sc : SpanContext)
    → to_be_logged (options_of enabled sampler sampler_error) sc (text level)
      ≡ admitted enabled sampler sampler_error sc.is_sampled level
unfolding to_be_logged new_logger
to_be_logged_lem enabled level sampler sampler_error sc =
    ground (arith, to_severity_number-text enabled, to_severity_number-text level)

zap_error_lem : (l : Severity) → level_greater_than_error (zap_text l) ≡ leb (rank error) (rank l)
unfolding level_greater_than_error
zap_error_lem trace = refl
zap_error_lem debug = refl
zap_error_lem info = refl
zap_error_lem warn = refl
zap_error_lem error = refl
zap_error_lem fatal = refl

should_keep_lem :
    {J : Type 0} (api : Reader J) (opt : BatchSyncerOptions) (line : Line J) {sampled : Bool}
    {level : String}
    → read_sampled_and_level api line ≡ some (sampled, level)
    → should_keep api opt line
      ≡ some (
          not opt.enable_sampler
          || (sampled || opt.enable_sampler_error && level_greater_than_error level))
unfolding should_keep
should_keep_lem api opt line h = rw h (ground arith)

module _ {F : Type 0} where
  log_message_lem :
      (o : LoggerOptions) (sc : SpanContext) (msg level : String)
      (fields kvs : List (String × AttributeValue F)) (now : ℕ)
      → is_some (log_message o sc msg level fields kvs now) ≡ to_be_logged o sc level
  unfolding log_message log
  log_message_lem o sc msg level fields kvs now = elim (Bool-cases (to_be_logged o sc level)) [
    | inl h ↦ rw h refl
    | inr h ↦ rw h refl
  ]

  -- A logger with an enabled level and the two options of the sampler, a zap writer with the same two, and
  -- a line that the writer reads as one of the log's level and span: the writer keeps or drops the line
  -- without an error, and the logger hands a log of a known level to its processor just where the level
  -- is enabled and the writer keeps the line.
  pub logger_agrees :
      {J : Type 0} (api : Reader J) (opt : BatchSyncerOptions) (line : Line J)
      (enabled level : Severity) (sc : SpanContext) (msg : String)
      (fields kvs : List (String × AttributeValue F)) (now : ℕ)
      → read_sampled_and_level api line ≡ some (sc.is_sampled, zap_text level)
      → (kept : Bool) × (should_keep api opt line ≡ some kept)
        × (is_some (
              log_message
                (options_of enabled opt.enable_sampler opt.enable_sampler_error)
                sc
                msg
                (text level)
                fields
                kvs
                now)
            ≡ leb (rank enabled) (rank level) && kept)
  logger_agrees api opt line enabled level sc msg fields kvs now h = (
    _,
    should_keep_lem api opt line h,
    log_message_lem (options_of enabled opt.enable_sampler opt.enable_sampler_error) sc msg
          (text level) fields kvs now
        ∙ to_be_logged_lem enabled level opt.enable_sampler opt.enable_sampler_error sc
        ∙ rw (zap_error_lem level) refl,
  )
