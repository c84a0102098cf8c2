-- ===== src/Logger/Tests.antt =====
-- An error that is not sampled, by the two ways.
use go_opentelemetry.Prelude.{
  ℕ, Bool, true, false, none, some, String, List, [], ◌∷◌, ◌≡◌, refl, leb, ◌&&◌,
}
use go_opentelemetry.Zap.{BatchSyncerOptions, default_options}
use go_opentelemetry.Zap.Record.{Line, Reader}
use go_opentelemetry.Zap.Filter.{should_keep, read_sampled_and_level, read_from, read_field}
use go_opentelemetry.Logger.{
  SpanContext, AttributeValue, string, other, to_attribute, to_attributes, string_value,
  log_message,
}
use go_opentelemetry.Logger.Admission.{warn, error, text, rank, is_some, options_of, logger_agrees}

abbrev reader : Reader String
reader = record {
  read_string = λ s. some s;
  read_nanos = λ s. none;
  any_string = λ s. s;
  decode_hex = λ s. [];
}

abbrev error_line : Line String
error_line = record { fields = ("level", "error") ∷ ("sampled", "false") ∷ []; ends = true }

abbrev options : BatchSyncerOptions
options = record default_options { enable_sampler = true; enable_sampler_error = true }

abbrev no_span : SpanContext
no_span = record { is_sampled = false; trace_flags = 0; trace_id = none; span_id = none }

abbrev fields : List (String × AttributeValue ℕ)
fields = ("disk", string "sda") ∷ ("sizes", other) ∷ []

-- An attribute of a slice is lost.
attributes_of : to_attributes fields ≡ some ("disk", string_value "sda") ∷ none ∷ []
unfolding to_attributes to_attribute
attributes_of = refl

logger_agrees_example :
    (kept : Bool) × (should_keep reader options error_line ≡ some kept)
    × (is_some
          (log_message (options_of warn true true) no_span "disk full" (text error) fields [] 7)
        ≡ leb (rank warn) (rank error) && kept)
unfolding read_sampled_and_level read_from read_field
logger_agrees_example =
    logger_agrees reader options error_line warn error no_span "disk full" fields [] 7 refl
