-- ===== src/Zap/Filter.antt =====
-- otelzap/writer.go: readSampledAndLevel, levelGreaterThanError, shouldKeep and Write.
use go_opentelemetry.Prelude.{
  ℕ, ◌+◌, Bool, true, false, Option, none, some, List, [], ◌∷◌, String, str_eq, if◌then◌else◌,
  ◌>>=◌, ltb, ◌||◌,
}
use go_opentelemetry.Zap.{ScopeLogs, BatchSyncerOptions, BatchWriteSyncer}
use go_opentelemetry.Zap.Worker.{Outcome, moves, enqueue}
use go_opentelemetry.Zap.Record.{
  Field, sampled, level, field_of, true_string, LogRecord, Line, Reader, convert_to_record,
  is_valid_record,
}

-- `levelGreaterThanError`
unfoldable pub level_greater_than_error : String → Bool
level_greater_than_error l = str_eq l "error" || str_eq l "fatal"

-- What `readSampledAndLevel` keeps while it reads.
pub record Seen : Type 0 where
  pub sampled : Bool
  pub level : String
  pub read_fields : ℕ

-- What `Write` does: its results, the level that `LogsLevelTotal` counts, and what came of `Enqueue`.
pub record Written : Type 0 where
  pub n : ℕ
  pub failed : Bool
  pub counted : Option String
  pub outcome : Outcome

module _ {J : Type 0} (api : Reader J) where
  -- The callback of `readSampledAndLevel`: what it returns to `ReadObjectCB`, and what it has read.
  unfoldable pub read_field : Field → J → Seen → Option (Bool × Seen)
  read_field sampled j s = do
    v ← api.read_string j
    some (true, record s { sampled = str_eq v true_string; read_fields = s.read_fields + 1 })
  read_field level j s = do
    v ← api.read_string j
    some (true, record s { level = v; read_fields = s.read_fields + 1 })
  read_field _ j s = if ltb 2 s.read_fields then some (false, s) else some (true, s)

  -- `ReadObjectCB` with it: `false` ends the reading.
  abbrev pub go_on : (Seen → Option Seen) → Bool × Seen → Option Seen
  go_on rest (true, s) = rest s
  go_on rest (false, s) = some s

  unfoldable pub read_from : List (String × J) → Bool → Seen → Option Seen
  read_from [] ends s = if ends then some s else none
  read_from ((f, j) ∷ fs) ends s = read_field (field_of f) j s >>= go_on (read_from fs ends)

  -- `readSampledAndLevel`; `none` is an error.
  unfoldable pub read_sampled_and_level : Line J → Option (Bool × String)
  read_sampled_and_level line = do
    s ← read_from line.fields line.ends (record { sampled = false; level = ""; read_fields = 0 })
    some (s.sampled, s.level)

  -- `shouldKeep`
  unfoldable pub should_keep : BatchSyncerOptions → Line J → Option Bool
  should_keep opt line =
      if opt.enable_sampler
      then (do
        (s, l) ← read_sampled_and_level line
        some (
            if s
            then true
            else (if opt.enable_sampler_error
                then (if level_greater_than_error l then true else false)
                else false)))
      else some true

  abbrev pub rejected : Bool → BatchWriteSyncer → Written
  rejected failed p = record { n = 0; failed = failed; counted = none; outcome = moves p }

  module _ (scope : LogRecord → ScopeLogs) where
    abbrev pub offered : ℕ → LogRecord → BatchWriteSyncer → Written
    offered len l p =
        if is_valid_record l
        then record {
          n = len;
          failed = false;
          counted = some l.severity_text;
          outcome = enqueue (some (scope l)) 1 p;
        }
        else rejected false p

    abbrev pub converted : ℕ → Option LogRecord → BatchWriteSyncer → Written
    converted len none p = rejected true p
    converted len (some l) p = offered len l p

    abbrev pub kept : Line J → ℕ → Option Bool → BatchWriteSyncer → Written
    kept line len none p = rejected true p
    kept line len (some false) p = rejected false p
    kept line len (some true) p = converted len (convert_to_record api line) p

    -- `Write` of a line of so many bytes. `scope` is the `ScopeLogs` around a record.
    unfoldable pub write : Line J → ℕ → BatchWriteSyncer → Written
    write line len p = kept line len (should_keep p.opt line) p
