-- ===== src/Encoder/Tests.antt =====
-- Entries through the encoder, and its theorems at them.
use go_opentelemetry.Prelude.{ℕ, ◌≡◌, refl, Option, none, some, false, List, [], ◌∷◌, length}
use go_opentelemetry.Encoder.{
  LogRecord, Encoder, Api, Field, Entry, new_encoder, encode_entry, prepare_entry, array_marshaler,
  convert_fields, convert_field, convert_content, add_string, signed, unsigned, text, int8, uint16,
  skip,
}
use go_opentelemetry.Encoder.Entries.{
  recorded, after_entry, growing, encode_all, entries_accumulate,
}

abbrev api : Api
api = record {
  decode_hex = λ s. 1 ∷ 2 ∷ [];
  duration_string = λ n. "1s";
  time_string = λ loc n. "now";
  widen = λ n. n;
}

-- A marshalling that only keeps the number of attributes.
abbrev marshal : LogRecord → Option (List ℕ)
marshal r = some (length r.attributes ∷ [])

abbrev entry : Entry
entry = record { level = "info"; message = "hello"; unix_nano = 7 }

abbrev traced : List Field
traced =
    record { key = "traceID"; content = text "0102" }
    ∷ record { key = "sampled"; content = text "true" }
    ∷ record { key = "port"; content = uint16 80 }
    ∷ record { key = "delta"; content = int8 255 }
    ∷ record { key = "none"; content = skip }
    ∷ []

abbrev plain : List Field
plain = record { key = "user"; content = text "ann" } ∷ []

-- The low 8 bits of 255 are -1.
minus_one : signed 8 255 ≡ 18446744073709551615
unfolding signed
minus_one = refl

-- All that an encoding computes with.
all_encodes : Unit {0}
unfolding encode_entry prepare_entry convert_fields convert_field convert_content add_string signed
    unsigned encode_all
all_encodes = tt

abbrev traced_once : Encoder
traced_once = after_entry api entry traced new_encoder

-- A nil array panics, which no other field does.
nil_panics :
    encode_entry marshal api entry
      (record { key = "xs"; content = array_marshaler false } ∷ plain)
      new_encoder
    ≡ none
unfolding all_encodes
nil_panics = refl

stale_trace_id : (recorded api entry plain traced_once).trace_id ≡ 1 ∷ 2 ∷ []
stale_trace_id = refl

entries_accumulate_example :
    (c : Encoder) × (encode_all marshal api ((entry, traced) ∷ (entry, plain) ∷ []) new_encoder
      ≡ some c)
    × (c.shared.record_of.attributes ≡ growing api [] ((entry, traced) ∷ (entry, plain) ∷ []))
entries_accumulate_example =
    entries_accumulate marshal api ((entry, traced) ∷ (entry, plain) ∷ []) (refl, (refl, tt))

-- Two and one attributes of their own make five.
five_attributes : length (growing api [] ((entry, traced) ∷ (entry, plain) ∷ [])) ≡ 5
unfolding all_encodes
five_attributes = refl
