-- ===== src/Protocol/Extrema.antt =====
-- The daily extrema of shared/measurement-protocol/src/index.ts: 24 hourly slots made from the
-- records of a day, their encoding for the circuit, and the preparation of an attestation.
-- Instants that the source keeps as texts of `toISOString`, and epochs that it keeps as decimal
-- texts, are integers here, and a byte string is its hexadecimal text.
pub mod Prepare
pub mod Slots
pub mod Evaluate
pub mod Verdict
pub mod Agreement
pub mod Prepared
use Prim.Native.String.{◌++◌ as str_append}
use midnight_buildathons_bac.Prelude.{
  ℕ, zero, suc, ◌+◌, ◌-◌, ◌≡◌, String, Bool, true, false, ◌&&◌, not, Option, none, some, str_eq,
  if◌then◌else◌, List, [], ◌∷◌, map, length, get_elem?, set, ltb, leb, ◌==◌,
}
use midnight_buildathons_bac.Prelude.Int.{
  ℤ, pos, pos_part, ◌+ℤ◌, ◌-ℤ◌, ltb_ℤ, leb_ℤ, div_floor, scale,
}
use midnight_buildathons_bac.Prelude.Num.{Num, num_zero, num_min, num_max, is_finite}
use midnight_buildathons_bac.Prelude.Results.{Result, ok, throw, ◌>>=◌, ◌>>◌, require}
use midnight_buildathons_bac.Protocol.Day.{
  hour_ms, day_ms, Calendar, OperationalDayBoundary, validate_operational_day_boundary,
  utc_day_start_minute, operational_period_start, operational_period_date,
}
use midnight_buildathons_bac.Protocol.Identifier.{require_safe_identifier}
use midnight_buildathons_bac.Protocol.Temperature.{Rounding, encode_temperature}

abbrev pub daily_extrema_schema_version : ℕ
daily_extrema_schema_version = 7

abbrev pub daily_extrema_circuit_version : ℕ
daily_extrema_circuit_version = 5

abbrev pub hours_per_day : ℕ
hours_per_day = 24

-- `timestamp` is `Date.parse(record.timestamp)`, `none` for NaN.
pub record SensorRecord : Type 0 where
  pub device_id : String
  pub timestamp : Option ℤ
  pub temperature : Num
  pub humidity : Num

pub record HourlyExtremaSlot : Type 0 where
  pub hour_index : ℕ
  pub present : Bool
  pub minimum : Num
  pub maximum : Num
  pub sample_count : ℕ

pub record CompactHourlyExtrema : Type 0 where
  pub present : Bool
  pub minimum_centi_offset : ℕ
  pub maximum_centi_offset : ℕ
  pub sample_count : ℕ

pub record CompactDailyExtremaInput : Type 0 where
  pub commitment_domain : String
  pub device_commitment : String
  pub measurement_group_id : String
  pub policy_id : String
  pub assignment_id : String
  pub period_start : ℤ
  pub period_end : ℤ
  pub hours : List CompactHourlyExtrema
  pub schema_version : ℕ
  pub circuit_version : ℕ

pub record PublicDailyExtremaAttestation : Type 0 where
  pub attestation_commitment : String
  pub device_commitment : String
  pub measurement_group_id : String
  pub policy_id : String
  pub policy_key : String
  pub assignment_id : String
  pub assignment_key : String
  pub period_date : String
  pub measurement_day : ℤ
  pub time_zone_offset_minutes : ℤ
  pub local_day_start_hour : ℤ
  pub utc_day_start_minute : ℤ
  pub period_start : ℤ
  pub period_end : ℤ
  pub period_start_epoch : ℤ
  pub period_end_epoch : ℤ
  pub hour_presence : List Bool
  pub observed_hour_count : ℕ
  pub stopped_hour_count : ℕ
  pub sample_count : ℕ
  pub schema_version : ℕ
  pub circuit_version : ℕ

pub record PrivateDailyExtremaAttestation : Type 0 where
  pub attestation_commitment : String
  pub device_id : String
  pub device_commitment : String
  pub measurement_group_id : String
  pub policy_key : String
  pub assignment_key : String
  pub period_start_epoch : ℤ
  pub period_end_epoch : ℤ
  pub hours : List HourlyExtremaSlot
  pub nonce_hex : String
  pub schema_version : ℕ
  pub circuit_version : ℕ

pub record PreparedDailyExtremaAttestation : Type 0 where
  pub public_data : PublicDailyExtremaAttestation
  pub private_data : PrivateDailyExtremaAttestation

pub record PrepareDailyExtremaOptions : Type 0 where
  pub device_id : Option String
  pub period_date : Option String
  pub measurement_group_id : Option String
  pub time_zone_offset_minutes : Option ℤ
  pub local_day_start_hour : Option ℤ
  pub policy_id : Option String
  pub assignment_id : Option String
  pub nonce_seed : Option String

-- What the code calls of the runtime: the digest, the commitment scheme, and one random nonce.
pub record Crypto : Type 0 where
  pub sha256 : String → String
  pub persistent_commit : CompactDailyExtremaInput → String → String
  pub random_values : String

-- `value ?? other`
abbrev pub or_else {ℓ} : {A : Type ℓ} → Option A → A → A
or_else none other = other
or_else (some a) other = a

abbrev pub empty_slot : ℕ → HourlyExtremaSlot
empty_slot hour_index = record {
  hour_index = hour_index;
  present = false;
  minimum = num_zero;
  maximum = num_zero;
  sample_count = 0;
}

-- `Array.from({ length: n }, …)` from the index `i` on.
unfoldable pub empty_slots : ℕ → ℕ → List HourlyExtremaSlot
empty_slots zero i = []
empty_slots (suc n) i = empty_slot i ∷ empty_slots n (suc i)

unfoldable pub add_to_slot : HourlyExtremaSlot → Num → HourlyExtremaSlot
add_to_slot hour temperature =
    let widened =
      if not hour.present
      then record hour { present = true; minimum = temperature; maximum = temperature }
      else record hour {
        minimum = num_min hour.minimum temperature;
        maximum = num_max hour.maximum temperature;
      } in
    record widened { sample_count = hour.sample_count + 1 }

module _ (r : Rounding) where
  -- One round of the loop over the records, for a record's timestamp and temperature.
  unfoldable pub add_reading :
      ℤ → List HourlyExtremaSlot → Option ℤ → Num → Result (List HourlyExtremaSlot)
  add_reading period_start hours none temperature = throw "Invalid timestamp"
  add_reading period_start hours (some timestamp) temperature = do
    require (leb_ℤ period_start timestamp && ltb_ℤ timestamp (period_start +ℤ pos day_ms))
        "Record timestamp is outside the day at the configured offset"
    require (is_finite temperature) "Temperature must be finite"
    encoded ← encode_temperature r temperature
    let hour_index = pos_part (div_floor (timestamp -ℤ period_start) hour_ms)
    elim (get_elem? hours hour_index) [
      | none ↦ throw "Calculated hour index is outside the daily range"
      | some hour ↦ ok (set hours hour_index (add_to_slot hour temperature))
    ]

  unfoldable pub add_records :
      ℤ → List HourlyExtremaSlot → List SensorRecord → Result (List HourlyExtremaSlot)
  add_records period_start hours [] = ok hours
  add_records period_start hours (x ∷ xs) = do
    hours' ← add_reading period_start hours x.timestamp x.temperature
    add_records period_start hours' xs

  -- The map of `toCompactDailyExtremaInput` over the hours, from the index `i` on.
  unfoldable pub to_compact_hours : ℕ → List HourlyExtremaSlot → Result (List CompactHourlyExtrema)
  to_compact_hours i [] = ok []
  to_compact_hours i (hour ∷ hours) = do
    require (hour.hour_index == i) "Daily extrema hour order is invalid"
    low ← if hour.present then encode_temperature r hour.minimum else ok 0
    high ← if hour.present then encode_temperature r hour.maximum else ok 0
    rest ← to_compact_hours (suc i) hours
    let this : CompactHourlyExtrema = record {
      present = hour.present;
      minimum_centi_offset = low;
      maximum_centi_offset = high;
      sample_count = hour.sample_count;
    }
    ok (this ∷ rest)

  -- `commitment_domain` is the domain's text; its padding to 32 bytes is left out.
  unfoldable pub to_compact_daily_extrema_input :
      PrivateDailyExtremaAttestation → Result CompactDailyExtremaInput
  unfolding to_compact_hours
  to_compact_daily_extrema_input value = do
    require (length value.hours == hours_per_day) "Daily extrema must contain exactly 24 hours"
    hours ← to_compact_hours 0 value.hours
    ok (record {
      commitment_domain = "vsp:daily-extrema:v1";
      device_commitment = value.device_commitment;
      measurement_group_id = value.measurement_group_id;
      policy_id = value.policy_key;
      assignment_id = value.assignment_key;
      period_start = value.period_start_epoch;
      period_end = value.period_end_epoch;
      hours = hours;
      schema_version = value.schema_version;
      circuit_version = value.circuit_version;
    })
