-- ===== src/Managed/Response.antt =====
-- boundedBody and parseSourceResponse of
-- backend/cloudflare/proof-gateway-worker/src/managed-source-core.ts. What JSON.parse makes of the body
-- is an argument, as the fields that are read; Date.parse and localeCompare are parameters.
use midnight_buildathons_bac.Prelude.{
  ℕ, ◌+◌, String, Bool, true, false, ◌&&◌, ◌||◌, not, Option, none, some, List, [], ◌∷◌, ◌++◌,
  if◌then◌else◌, leb, ltb, ◌==◌, str_eq, length,
}
use midnight_buildathons_bac.Prelude.Int.{ℤ, ltb_ℤ, leb_ℤ, eqb_ℤ}
use midnight_buildathons_bac.Prelude.Num.{Num, num_eq, is_finite, num_zero}
use midnight_buildathons_bac.Prelude.Results.{Result, ok, throw}
use midnight_buildathons_bac.Prelude.Tables.{find_where}
use midnight_buildathons_bac.Protocol.Identifier.{trim, matches_identifier}
use midnight_buildathons_bac.Protocol.Temperature.{Rounding, encode_temperature}
use midnight_buildathons_bac.Managed.Failure.{
  ManagedSourceError, Fetched, fails, value, ◌>>=◌, ◌>>◌, demand, action_required_error,
  action_required, source_response_too_large, source_invalid_json, source_invalid_schema,
  source_schema_unsupported, source_identity_mismatch, source_metadata_mismatch,
  source_range_mismatch, source_sample_limit_exceeded, source_invalid_sample,
  source_invalid_sample_id, source_timestamp_outside_window, source_invalid_value,
  source_conflicting_duplicate,
}

abbrev pub maximum_samples : ℕ
maximum_samples = 2_000

pub record FixedWindowMeasurement : Type 0 where
  pub id : String
  pub recorded_at : String
  pub value : Num

pub record FixedWindowFetchInput : Type 0 where
  pub endpoint_url : String
  pub source_sensor_id : String
  pub device_id : String
  pub sensor_type : String
  pub unit : String
  pub period_start : String
  pub period_end : String
  pub response_max_bytes : ℕ

-- An element of `measurements`: the fields of an object, `none` where a field has another type.
pub data Sample : Type 0 where
  no_object : Sample
  object : (id recorded_at : Option String) → Option Num → Sample

-- The fields of a body that is an object.
pub record Answer : Type 0 where
  pub schema_version : Option ℕ
  pub source_id : Option String
  pub sensor_type : Option String
  pub unit : Option String
  pub from : Option String
  pub to : Option String
  pub measurements : Option (List Sample)

pub data Json : Type 0 where
  invalid_json no_json_object : Json
  json_object : Answer → Json

abbrev too_large : ℕ → ManagedSourceError
too_large status = record {
  code = source_response_too_large;
  kind = action_required;
  http_status = some status;
  retry_after_seconds = none;
}

-- The loop over the chunks, from the bytes read before.
unfoldable pub read_chunks : ℕ → ℕ → List ℕ → List (List ℕ) → Fetched (List ℕ)
read_chunks status maximum_bytes body [] = value body
read_chunks status maximum_bytes body (chunk ∷ chunks) =
    let rest = read_chunks status maximum_bytes (body ++ chunk) chunks in
    if ltb maximum_bytes (length body + length chunk) then fails (too_large status) else rest

-- `declared` is the header Content-Length when it is a finite number.
unfoldable pub bounded_body : ℕ → Option ℕ → ℕ → List (List ℕ) → Fetched (List ℕ)
bounded_body status none maximum_bytes chunks = read_chunks status maximum_bytes [] chunks
bounded_body status (some declared) maximum_bytes chunks =
    if ltb maximum_bytes declared
    then fails (too_large status)
    else read_chunks status maximum_bytes [] chunks

-- `field === text`
abbrev is_text : Option String → String → Bool
is_text none text = false
is_text (some field) text = str_eq field text

abbrev or_empty : Option String → String
or_empty none = ""
or_empty (some text) = text

abbrev is_one : Option ℕ → Bool
is_one none = false
is_one (some n) = n == 1

abbrev pub is_ok : Result ℕ → Bool
is_ok (ok n) = true
is_ok (throw e) = false

abbrev pub same_id : String → FixedWindowMeasurement → Bool
same_id id m = str_eq m.id id

-- `Number.isFinite(epoch) && start <= epoch && epoch < end`
abbrev pub is_within : ℤ → ℤ → Option ℤ → Bool
is_within start end none = false
is_within start end (some epoch) = leb_ℤ start epoch && ltb_ℤ epoch end

abbrev pub value_or_zero : Option Num → Num
value_or_zero none = num_zero
value_or_zero (some x) = x

-- The measurements kept so far, with a new one at the end.
unfoldable pub keep_unique :
    List FixedWindowMeasurement
    → FixedWindowMeasurement
    → Option FixedWindowMeasurement
    → Fetched (List FixedWindowMeasurement)
keep_unique unique m none = value (unique ++ (m ∷ []))
keep_unique unique m (some previous) =
    if not (str_eq previous.recorded_at m.recorded_at) || not (num_eq previous.value m.value)
    then fails (action_required_error source_conflicting_duplicate)
    else value unique

abbrev pub measurement_of : Option String → Option String → Option Num → FixedWindowMeasurement
measurement_of id recorded_at sample = record {
  id = trim (or_empty id);
  recorded_at = or_empty recorded_at;
  value = value_or_zero sample;
}

-- The comparison of the sort; a difference that is NaN or zero leaves the identifiers.
abbrev pub in_order : Option ℤ → Option ℤ → Bool → Bool
in_order (some a) (some b) by_id = if eqb_ℤ a b then by_id else ltb_ℤ a b
in_order _ _ by_id = by_id

unfoldable pub require_echo : FixedWindowFetchInput → Answer → Fetched (Unit {0})
require_echo input answer = do
  demand (is_one answer.schema_version) source_schema_unsupported
  demand (is_text answer.source_id input.source_sensor_id) source_identity_mismatch
  demand (is_text answer.sensor_type input.sensor_type && is_text answer.unit input.unit)
      source_metadata_mismatch
  demand (is_text answer.from input.period_start && is_text answer.to input.period_end)
      source_range_mismatch

module _ (date_parse : String → Option ℤ) (locale_le : String → String → Bool) (r : Rounding) where
  -- A number that is finite and in the range of the encoding.
  unfoldable pub is_supported : Option Num → Bool
  is_supported none = false
  is_supported (some x) = is_finite x && is_ok (encode_temperature r x)

  unfoldable pub add_sample :
      ℤ → ℤ → List FixedWindowMeasurement → Sample → Fetched (List FixedWindowMeasurement)
  add_sample start end unique no_object = fails (action_required_error source_invalid_sample)
  add_sample start end unique (object id recorded_at sample) =
      let m = measurement_of id recorded_at sample in
      do
        demand (matches_identifier m.id) source_invalid_sample_id
        demand (is_within start end (date_parse m.recorded_at)) source_timestamp_outside_window
        demand (is_supported sample) source_invalid_value
        keep_unique unique m (find_where (same_id m.id) unique)

  unfoldable pub add_samples :
      ℤ → ℤ → List FixedWindowMeasurement → List Sample → Fetched (List FixedWindowMeasurement)
  add_samples start end unique [] = value unique
  add_samples start end unique (s ∷ ss) = do
    unique' ← add_sample start end unique s
    add_samples start end unique' ss

  unfoldable pub insert_measurement :
      FixedWindowMeasurement → List FixedWindowMeasurement → List FixedWindowMeasurement
  insert_measurement m [] = m ∷ []
  insert_measurement m (x ∷ xs) =
      let rest = insert_measurement m xs in
      if in_order (date_parse m.recorded_at) (date_parse x.recorded_at) (locale_le m.id x.id)
      then m ∷ x ∷ xs
      else x ∷ rest

  unfoldable pub sort_measurements : List FixedWindowMeasurement → List FixedWindowMeasurement
  sort_measurements [] = []
  sort_measurements (x ∷ xs) = insert_measurement x (sort_measurements xs)

  unfoldable pub parse_samples :
      ℤ → ℤ → Option (List Sample) → Fetched (List FixedWindowMeasurement)
  parse_samples start end none = fails (action_required_error source_invalid_schema)
  parse_samples start end (some samples) = do
    demand (leb (length samples) maximum_samples) source_sample_limit_exceeded
    unique ← add_samples start end [] samples
    value (sort_measurements unique)

  -- `start` and `end` are the instants of the input's period.
  unfoldable pub parse_source_response :
      FixedWindowFetchInput → ℤ → ℤ → Json → Fetched (List FixedWindowMeasurement)
  parse_source_response input start end invalid_json =
      fails (action_required_error source_invalid_json)
  parse_source_response input start end no_json_object =
      fails (action_required_error source_invalid_schema)
  parse_source_response input start end (json_object answer) = do
    echoed ← require_echo input answer
    parse_samples start end answer.measurements
