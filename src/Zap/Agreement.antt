-- ===== src/Zap/Agreement.antt =====
-- otelzap/writer.go: readSampledAndLevel reads a line before convertToRecordV2 does, and what it finds
-- agrees with the record.
use go_opentelemetry.Prelude.{
  ℕ, ◌+◌, ◌≤◌, ◌≡◌, refl, ap, ◌∙◌, Bool, true, false, none, some, List, [], ◌∷◌, ◌++◌, String,
  str_eq, if◌then◌else◌, ltb, ◌||◌, ◌&&◌, not, arith, ◌>>=◌, bind_some, yields_some, subst, sym,
}
use go_opentelemetry.Zap.{ScopeLogs, BatchSyncerOptions, BatchWriteSyncer}
use go_opentelemetry.Zap.Worker.{moves, enqueue}
use go_opentelemetry.Zap.Record.{
  Field, sampled, level, msg, trace_id, span_id, caller, ts, other, field_of, field_sampled,
  true_string, LogRecord, Line, Reader, KeyValue, Value, bool_value, string_value, empty_record,
  add_attribute, convert_field, convert_from, convert_to_record, is_valid_record,
}
use go_opentelemetry.Zap.Filter.{
  Seen, level_greater_than_error, read_field, go_on, read_from, read_sampled_and_level, should_keep,
  write, kept, converted,
}

-- What an attribute makes of the sampling that the attributes before it tell.
abbrev pub sampled_by : String → Value → Bool → Bool
sampled_by k (bool_value v) b = if str_eq k field_sampled then v else b
sampled_by k (string_value v) b = b

-- The value of the last attribute `sampled`, or else `b`.
abbrev pub last_sampled : Bool → List KeyValue → Bool
last_sampled b [] = b
last_sampled b (kv ∷ kvs) = last_sampled (sampled_by kv.key kv.value b) kvs

-- What the record of a line must be for the options to let it pass.
abbrev pub qualifies : BatchSyncerOptions → LogRecord → Bool
qualifies opt l =
    not opt.enable_sampler
    || last_sampled false l.attributes
    || opt.enable_sampler_error && level_greater_than_error l.severity_text

abbrev is_counted : Field → ℕ
is_counted sampled = 1
is_counted level = 1
is_counted _ = 0

-- How many fields of a line are `sampled` or `level`.
abbrev pub counted_fields : {J : Type 0} → List (String × J) → ℕ
counted_fields [] = 0
counted_fields ((f, j) ∷ fs) = is_counted (field_of f) + counted_fields fs

last_sampled-append :
    (b : Bool) (kvs : List KeyValue) (k : String) (v : Value)
    → last_sampled b (kvs ++ record { key = k; value = v } ∷ [])
      ≡ sampled_by k v (last_sampled b kvs)
last_sampled-append b [] k v = refl
last_sampled-append b (kv ∷ kvs) k v = last_sampled-append (sampled_by kv.key kv.value b) kvs k v

-- What was read so far is what the record has.
record Agree (s : Seen) (l : LogRecord) : Type 0 where
  sampling : s.sampled ≡ last_sampled false l.attributes
  severity : s.level ≡ l.severity_text

module _ {J : Type 0} (api : Reader J) where
  -- What a field read makes of the reading, beside what the same field makes of the record.
  record Reads (ph : Field) (j : J) (s : Seen) (m : LogRecord) : Type 0 where
    seen : Seen
    reads : read_field api ph j s ≡ some (true, seen)
    agree : Agree seen m
    counts : seen.read_fields ≡ s.read_fields + is_counted ph

  -- The fields that the reading skips.
  skips :
      (ph : Field) (j : J) (s : Seen) (l m : LogRecord)
      → read_field api ph j s ≡ (if ltb 2 s.read_fields then some (false, s) else some (true, s))
      → is_counted ph ≡ 0
      → Agree s l
      → s.read_fields ≤ 2
      → m.severity_text ≡ l.severity_text
      → last_sampled false m.attributes ≡ last_sampled false l.attributes
      → Reads ph j s m
  skips ph j s l m r c a n h k = record {
    seen = s;
    reads = ground (arith, r);
    agree = record { sampling = a.sampling ∙ sym k; severity = a.severity ∙ sym h };
    counts = omega arith;
  }

  read_field-Reads :
      (ph : Field) (f : String) (j : J) (s : Seen) (l m : LogRecord)
      → Agree s l
      → s.read_fields ≤ 2
      → convert_field api ph f j l ≡ some m
      → Reads ph j s m
  unfolding read_field convert_field
  read_field-Reads sampled f j s l m a n h =
      let (v, r, k) = yields_some (api.read_string j) _ h in
      record {
        seen = record s { sampled = str_eq v true_string; read_fields = s.read_fields + 1 };
        reads = rw r refl;
        agree = record {
          sampling = rw (k, last_sampled-append false l.attributes) refl;
          severity = rw k a.severity;
        };
        counts = refl;
      }
  read_field-Reads level f j s l m a n h =
      let (v, r, k) = yields_some (api.read_string j) _ h in
      record {
        seen = record s { level = v; read_fields = s.read_fields + 1 };
        reads = rw r refl;
        agree = record { sampling = rw k a.sampling; severity = rw k refl };
        counts = refl;
      }
  read_field-Reads msg f j s l m a n h =
      let (v, r, k) = yields_some (api.read_string j) _ h in
      skips msg j s l m refl refl a n (rw k refl) (rw k refl)
  read_field-Reads trace_id f j s l m a n h =
      let (v, r, k) = yields_some (api.read_string j) _ h in
      skips trace_id j s l m refl refl a n (rw k refl) (rw k refl)
  read_field-Reads span_id f j s l m a n h =
      let (v, r, k) = yields_some (api.read_string j) _ h in
      skips span_id j s l m refl refl a n (rw k refl) (rw k refl)
  read_field-Reads caller f j s l m a n h =
      let (v, r, k) = yields_some (api.read_string j) _ h in
      skips caller j s l m refl refl a n (rw k refl)
        (rw (k, last_sampled-append false l.attributes) refl)
  read_field-Reads ts f j s l m a n h =
      let (v, r, k) = yields_some (api.read_nanos j) _ h in
      skips ts j s l m refl refl a n (rw k refl) (rw k refl)
  read_field-Reads other f j s l m a n h =
      let k : m ≡ add_attribute f (string_value (api.any_string j)) l = cc in
      skips other j s l m refl refl a n (rw k refl)
        (rw (k, last_sampled-append false l.attributes) refl)

  -- The whole line: where the conversion succeeds, the reading does not stop early and agrees with it.
  read_from-Agree :
      (fs : List (String × J)) (ends : Bool) (s : Seen) (l m : LogRecord)
      → Agree s l
      → s.read_fields + counted_fields fs ≤ 2
      → convert_from api fs ends l ≡ some m
      → (t : Seen) × (read_from api fs ends s ≡ some t) × Agree t m
  unfolding read_from convert_from
  read_from-Agree [] false s l m a n h = absurd (cc)
  read_from-Agree [] true s l m a n h = (s, refl, subst (Agree s) (cc) a)
  read_from-Agree ((f, j) ∷ fs) ends s l m a n h =
      let (l', c, k) = bind_some (convert_field api (field_of f) f j l) _ h in
      let r = read_field-Reads (field_of f) f j s l l' a (omega arith) c in
      let (t, e, b) = read_from-Agree fs ends r.seen l' m r.agree (omega (arith, r.counts)) k in
      (t, ap (λ o. o >>= go_on api (read_from api fs ends)) r.reads ∙ e, b)

  -- The answer of `shouldKeep`, from what the record has.
  decided :
      (opt : BatchSyncerOptions) (s : Seen) (m : LogRecord)
      → Agree s m
      → (if opt.enable_sampler
          then some (
              if s.sampled
              then true
              else (if opt.enable_sampler_error
                  then (if level_greater_than_error s.level then true else false)
                  else false))
          else some true)
        ≡ some (qualifies opt m)
  decided opt s m a = rw (a.sampling, a.severity) (ground arith)

  should_keep-qualifies :
      (opt : BatchSyncerOptions) (line : Line J) (m : LogRecord)
      → convert_to_record api line ≡ some m
      → counted_fields line.fields ≤ 2
      → should_keep api opt line ≡ some (qualifies opt m)
  unfolding should_keep read_sampled_and_level convert_to_record
  should_keep-qualifies opt line m h n =
      let (t, e, a) =
        read_from-Agree line.fields line.ends
          (record { sampled = false; level = ""; read_fields = 0 }) empty_record m
          (record { sampling = refl; severity = refl }) (omega arith) h in
      rw e (decided opt t m a)

  -- What `Write` does behind its question to `shouldKeep`.
  kept_record :
      (scope : LogRecord → ScopeLogs) (line : Line J) (len : ℕ) (p : BatchWriteSyncer)
      (m : LogRecord) (q : Bool)
      → convert_to_record api line ≡ some m
      → kept api scope line len (some q) p ≡ (
          if q && is_valid_record m
          then record {
            n = len;
            failed = false;
            counted = some m.severity_text;
            outcome = enqueue (some (scope m)) 1 p;
          }
          else record { n = 0; failed = false; counted = none; outcome = moves p })
  kept_record scope line len p m false h = refl
  kept_record scope line len p m true h = ap (λ o. converted api scope len o p) h

  -- For a line of which jsoniter makes a record, with the fields `sampled` and `level` at most twice in all:
  -- `Write` hands the record to `Enqueue`, and returns the line's length, where its ids are valid and
  -- either the sampler is off, or its last attribute `sampled` is true, or errors pass and its severity is
  -- one; otherwise it takes nothing and returns 0. In neither case does it fail.
  pub write_filters :
      (scope : LogRecord → ScopeLogs) (line : Line J) (len : ℕ) (p : BatchWriteSyncer)
      (m : LogRecord)
      → convert_to_record api line ≡ some m
      → counted_fields line.fields ≤ 2
      → write api scope line len p ≡ (
          if qualifies p.opt m && is_valid_record m
          then record {
            n = len;
            failed = false;
            counted = some m.severity_text;
            outcome = enqueue (some (scope m)) 1 p;
          }
          else record { n = 0; failed = false; counted = none; outcome = moves p })
  unfolding write
  write_filters scope line len p m h n =
      rw (should_keep-qualifies p.opt line m h n)
        (kept_record scope line len p m (qualifies p.opt m) h)
