-- ===== src/Encoder/Entries.antt =====
-- otelzap/zap.go: the record that EncodeEntry marshals, for one entry and for one after another.
use go_opentelemetry.Prelude.{
  ℕ, ◌≡◌, refl, sym, ◌∙◌, Option, none, some, List, [], ◌∷◌, ◌++◌, append-nil, append_assoc, ◌>>=◌,
  Bool-cases, inl, inr, true, if◌then◌else◌,
}
use go_opentelemetry.Encoder.{
  KeyValue, LogRecord, Encoder, Api, Field, Entry, new_encoder, set_level, prepare_entry,
  append_data, encode_entry,
}
use go_opentelemetry.Encoder.Fields.{attributes_of, id_after, flags_after, all_known}
use go_opentelemetry.Encoder.Convert.{convert_fields-after_fields, convert_fields-none}

-- The record of an entry: its level, message and time; the ids and the flag of its fields, or else those
-- of the record before; and as attributes those of the record before, then those that the encoder has
-- collected, then those of its fields.
abbrev pub recorded : Api → Entry → List Field → Encoder → LogRecord
recorded api entry fs e =
    let r = e.shared.record_of in
    record {
      flags = flags_after r.flags fs;
      trace_id = id_after api "traceID" r.trace_id fs;
      span_id = id_after api "spanID" r.span_id fs;
      severity_text = entry.level;
      attributes = r.attributes ++ (e.kvs ++ attributes_of api fs);
      body = some entry.message;
      time_unix_nano = entry.unix_nano;
    }

-- The encoder behind an entry, but for the buffer: it keeps the record, and what it has collected.
abbrev pub after_entry : Api → Entry → List Field → Encoder → Encoder
after_entry api entry fs e = record {
  shared = record e.shared { record_of = recorded api entry fs e };
  kvs = e.kvs ++ attributes_of api fs;
}

-- The attributes of entries, each with those of all entries before it, in one list.
abbrev pub growing : Api → List KeyValue → List (Entry × List Field) → List KeyValue
growing api before [] = []
growing api before ((entry, fs) ∷ es) =
    (before ++ attributes_of api fs) ++ growing api (before ++ attributes_of api fs) es

abbrev pub AllEntriesKnown : List (Entry × List Field) → Type 0
AllEntriesKnown [] = Unit {0}
AllEntriesKnown ((entry, fs) ∷ es) = (all_known fs ≡ true) × AllEntriesKnown es

module _ (marshal : LogRecord → Option (List ℕ)) (api : Api) where
  pub entry_recorded :
      (entry : Entry) (fs : List Field) (e : Encoder)
      → encode_entry marshal api entry fs e ≡ (
          if all_known fs
          then some
              (append_data marshal (marshal (recorded api entry fs e)) (after_entry api entry fs e))
          else none)
  unfolding encode_entry prepare_entry
  entry_recorded entry fs e = elim (Bool-cases (all_known fs)) [
    | inl h ↦ rw (h, convert_fields-after_fields api fs (set_level entry e) h) refl
    | inr h ↦ rw (h, convert_fields-none api fs (set_level entry e) h) refl
  ]

  -- Entries one after another.
  unfoldable pub encode_all : List (Entry × List Field) → Encoder → Option Encoder
  encode_all [] e = some e
  encode_all ((entry, fs) ∷ es) e = do
    (bytes, c) ← encode_entry marshal api entry fs e
    encode_all es c

  -- Whether the marshalling fails or not, the record and what is collected are the same.
  record Keeps (e c : Encoder) : Type 0 where
    attributes : c.shared.record_of.attributes ≡ e.shared.record_of.attributes
    kvs : c.kvs ≡ e.kvs

  append_data-Keeps : (o : Option (List ℕ)) (e : Encoder) → Keeps e (append_data marshal o e).1
  append_data-Keeps none e = record { attributes = refl; kvs = refl }
  append_data-Keeps (some bytes) e = record { attributes = refl; kvs = refl }

  attributes_from :
      (es : List (Entry × List Field)) (e : Encoder)
      → AllEntriesKnown es
      → (c : Encoder) × (encode_all es e ≡ some c)
        × (c.shared.record_of.attributes ≡ e.shared.record_of.attributes ++ growing api e.kvs es)
  unfolding encode_all
  attributes_from [] e h = (e, refl, sym (append-nil e.shared.record_of.attributes))
  attributes_from ((entry, fs) ∷ es) e h =
      let p = after_entry api entry fs e in
      let q = append_data marshal (marshal (recorded api entry fs e)) p in
      let k = append_data-Keeps (marshal (recorded api entry fs e)) p in
      let (c, r, a) = attributes_from es q.1 h.1 in
      (
        c,
        rw (entry_recorded entry fs e, h.0) r,
        a
            ∙ rw (k.attributes, k.kvs)
                (append_assoc e.shared.record_of.attributes (e.kvs ++ attributes_of api fs)
                  (growing api (e.kvs ++ attributes_of api fs) es)),
      )

  -- Entries one after another from a new encoder, all of whose fields are of types that convertFuncs has,
  -- have the `Interface` that the type asserts, and no `Error` that panics: none panics, and the record of
  -- the last has the attributes of the first entry, then those of the first and the second, and so on up
  -- to those of all of them, whether proto.Marshal fails or not.
  pub entries_accumulate :
      (es : List (Entry × List Field))
      → AllEntriesKnown es
      → (c : Encoder) × (encode_all es new_encoder ≡ some c)
        × (c.shared.record_of.attributes ≡ growing api [] es)
  entries_accumulate es h = attributes_from es new_encoder h
