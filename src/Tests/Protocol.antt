-- ===== src/Tests/Protocol.antt =====
-- Inputs of the measurement protocol: a calendar that knows one day, a rounding that keeps every
-- number, digests that are constant, and two readings of one device.
use midnight_buildathons_bac.Prelude.{
  All, ◌≡◌, ◌↔◌, ◌<◌, ◌^◌, refl, String, Bool, true, none, some, List, [], ◌∷◌, arith, set,
  tabulate, length,
}
use midnight_buildathons_bac.Prelude.Int.{
  ℤ, pos, negsuc, eqb_ℤ, ◌+ℤ◌, ◌≤ℤ◌, ◌<ℤ◌, ◌-ℤ◌, scale, div_floor, rem,
}
use midnight_buildathons_bac.Prelude.Num.{fin}
use midnight_buildathons_bac.Prelude.Results.{ok}
use midnight_buildathons_bac.Protocol.Day.{
  Calendar, OperationalDayBoundary, validate_operational_day_boundary, modulo, utc_day_start_minute,
  operational_period_start, operational_period_date, day_ms,
}
use midnight_buildathons_bac.Protocol.Day.Laws.{
  IsValidBoundary, operational_period_date-start, operational_period_start-date,
  utc_day_start_minute_lem,
}
use midnight_buildathons_bac.Protocol.Identifier.{require_safe_identifier}
use midnight_buildathons_bac.Protocol.Temperature.{
  Rounding, encode_temperature, encode_temperature_lem,
}
use midnight_buildathons_bac.Protocol.Policy.{ThresholdPolicyDescriptor, closed_range}
use midnight_buildathons_bac.Protocol.Extrema.{
  SensorRecord, HourlyExtremaSlot, PrepareDailyExtremaOptions, PreparedDailyExtremaAttestation,
  Crypto, add_records, empty_slots, add_reading, to_compact_hours, to_compact_daily_extrema_input,
  empty_slot, add_to_slot,
}
use midnight_buildathons_bac.Protocol.Extrema.Prepare.{
  all_of_device, count_present, plan_period, plan_day, domain_key, create_nonce, derive_keys,
  bind_attestation, DayPlan, DayKeys, prepare_daily_extrema_attestation, public_part, private_part,
}
use midnight_buildathons_bac.Protocol.Extrema.Evaluate.{evaluate_prepared_hours, evaluate_hour}
use midnight_buildathons_bac.Protocol.Extrema.Verdict.{
  IsEncodable, hour_verdict, evaluate_hour-verdict,
}
use midnight_buildathons_bac.Protocol.Extrema.Slots.{add_temperatures}
use midnight_buildathons_bac.Protocol.Extrema.Agreement.{add_records_lem, slot_of, total_samples}
use midnight_buildathons_bac.Protocol.Extrema.Prepared.{evaluate-prepare, verdicts}

abbrev first_day_only : ℤ → Bool
first_day_only d = eqb_ℤ d (pos 0)

first_day_read : (d : ℤ) → first_day_only d ≡ true → some (pos 0) ≡ some d
first_day_read d h = ground arith

abbrev epoch_calendar : Calendar
epoch_calendar = record {
  date_text = λ d. "1970-01-01";
  utc_day = λ text. some (pos 0);
  is_plain = first_day_only;
  utc_day-date_text = first_day_read;
}

abbrev exact_rounding : Rounding
exact_rounding = record { centi = λ a. a; centi_mono = λ a b h. h }

abbrev constant_crypto : Crypto
constant_crypto = record {
  sha256 = λ text. "key";
  persistent_commit = λ input nonce. "commitment";
  random_values = "nonce";
}

-- The day of Tokyo from 6 o'clock on.
abbrev tokyo : OperationalDayBoundary
tokyo = record { time_zone_offset_minutes = pos 540; local_day_start_hour = pos 6 }

tokyo-IsValidBoundary : IsValidBoundary tokyo
tokyo-IsValidBoundary = record {
  offset_low = omega arith;
  offset_high = omega arith;
  hour_low = omega arith;
  hour_high = omega arith;
}

operational_period_date-start_example :
    (text : String) × (s : ℤ) × (operational_period_date epoch_calendar (pos 1000) tokyo ≡ ok text)
    × (operational_period_start epoch_calendar text tokyo ≡ ok s)
    × (s ≤ℤ pos 1000)
    × (pos 1000 <ℤ s +ℤ pos day_ms)
unfolding ◌+ℤ◌ ◌-ℤ◌ scale div_floor
operational_period_date-start_example =
    operational_period_date-start epoch_calendar tokyo (pos 1000) tokyo-IsValidBoundary refl

tokyo_start : operational_period_start epoch_calendar "1970-01-01" tokyo ≡ ok (negsuc 10799999)
unfolding operational_period_start validate_operational_day_boundary ◌+ℤ◌ ◌-ℤ◌ scale div_floor
tokyo_start = refl

operational_period_start-date_example :
    operational_period_date epoch_calendar (pos 1000) tokyo ≡ ok "1970-01-01"
unfolding ◌+ℤ◌
operational_period_start-date_example =
    operational_period_start-date epoch_calendar "1970-01-01" tokyo (negsuc 10799999) (pos 1000)
      tokyo_start (omega arith) (omega arith)

utc_day_start_minute_lem_example : (utc_day_start_minute tokyo ≡ ok (pos 1260)) ↔ (
    IsValidBoundary tokyo
    × (pos 0 ≤ℤ pos 1260)
    × (pos 1260 <ℤ pos 1440)
    × ((k : ℤ) × (scale 60 tokyo.local_day_start_hour -ℤ tokyo.time_zone_offset_minutes
          ≡ pos 1260 +ℤ scale 1440 k)))
utc_day_start_minute_lem_example = utc_day_start_minute_lem tokyo (pos 1260)

encode_2000 : encode_temperature exact_rounding (fin (pos 2000)) ≡ ok 12000
unfolding encode_temperature ◌+ℤ◌
encode_2000 = refl

encode_2500 : encode_temperature exact_rounding (fin (pos 2500)) ≡ ok 12500
unfolding encode_temperature ◌+ℤ◌
encode_2500 = refl

encode_temperature_lem_example : (encode_temperature exact_rounding (fin (pos 2500)) ≡ ok 12500) ↔ (
    (x : ℤ) × (fin (pos 2500) ≡ fin x)
    × (exact_rounding.centi x +ℤ pos 10000 ≡ pos 12500)
    × (12500 < 2 ^ 32))
encode_temperature_lem_example = encode_temperature_lem exact_rounding (fin (pos 2500)) 12500

abbrev room : ThresholdPolicyDescriptor
room = record {
  policy_id = "temperature-v1";
  mode = closed_range;
  minimum = fin (pos 1800);
  maximum = fin (pos 2200);
  value_scale = 2;
  sensor_type_code = 1;
  unit_code = 1;
  version = 1;
}

-- Two records in the first hour of the day, one in the second.
abbrev readings : List SensorRecord
readings =
    record {
      device_id = "dev";
      timestamp = some (pos 1000);
      temperature = fin (pos 2000);
      humidity = fin (pos 50);
    }
    ∷ record {
      device_id = "dev";
      timestamp = some (pos 2000);
      temperature = fin (pos 2100);
      humidity = fin (pos 50);
    }
    ∷ record {
      device_id = "dev";
      timestamp = some (pos 3600000);
      temperature = fin (pos 2500);
      humidity = fin (pos 50);
    }
    ∷ []

abbrev slots : List HourlyExtremaSlot
slots =
    set
      (set (empty_slots 24 0) 0 (record {
        hour_index = 0;
        present = true;
        minimum = fin (pos 2000);
        maximum = fin (pos 2100);
        sample_count = 2;
      }))
      1
      (record {
        hour_index = 1;
        present = true;
        minimum = fin (pos 2500);
        maximum = fin (pos 2500);
        sample_count = 1;
      })

add_readings : add_records exact_rounding (pos 0) (empty_slots 24 0) readings ≡ ok slots
unfolding add_records add_reading add_to_slot encode_temperature empty_slots ◌+ℤ◌ ◌-ℤ◌ div_floor
add_readings = refl

two_readings_IsEncodable : All (IsEncodable exact_rounding) (fin (pos 2000) ∷ fin (pos 2500) ∷ [])
two_readings_IsEncodable = (
  record { value = pos 2000; finite = refl; code = 12000; encoded = encode_2000 },
  (record { value = pos 2500; finite = refl; code = 12500; encoded = encode_2500 }, tt),
)

evaluate_hour-verdict_example :
    evaluate_hour exact_rounding room
      (add_temperatures (empty_slot 3) (fin (pos 2000) ∷ fin (pos 2500) ∷ []))
    ≡ ok (hour_verdict room (fin (pos 2000) ∷ fin (pos 2500) ∷ []))
evaluate_hour-verdict_example =
    evaluate_hour-verdict exact_rounding room 3 (fin (pos 2000) ∷ fin (pos 2500) ∷ [])
      two_readings_IsEncodable

add_records_lem_example :
    (slots ≡ tabulate (slot_of (pos 0) readings) 24 0) × (total_samples slots ≡ length readings)
add_records_lem_example = add_records_lem exact_rounding (pos 0) 24 readings slots add_readings

abbrev plain_options : PrepareDailyExtremaOptions
plain_options = record {
  device_id = some "dev";
  period_date = some "1970-01-01";
  measurement_group_id = none;
  time_zone_offset_minutes = none;
  local_day_start_hour = none;
  policy_id = none;
  assignment_id = some "a1";
  nonce_seed = none;
}

abbrev plan : DayPlan
plan = record {
  boundary = record { time_zone_offset_minutes = pos 0; local_day_start_hour = pos 0 };
  device_id = "dev";
  period_date = "1970-01-01";
  period_start = pos 0;
  start_minute_utc = pos 0;
  policy_id = "temperature-v1";
  assignment_id = "a1";
}

abbrev keys : DayKeys
keys = record {
  policy_key = "key";
  assignment_key = "key";
  device_commitment = "key";
  measurement_group_id = "key";
}

abbrev attestation : PreparedDailyExtremaAttestation
attestation = record {
  public_data = public_part plan keys slots 3 "commitment";
  private_data = private_part plan keys slots "nonce" "commitment";
}

prepare_readings :
    prepare_daily_extrema_attestation constant_crypto exact_rounding epoch_calendar readings
      plain_options
    ≡ ok attestation
unfolding prepare_daily_extrema_attestation plan_day plan_period operational_period_date
    validate_operational_day_boundary require_safe_identifier all_of_device operational_period_start
    utc_day_start_minute modulo rem ◌+ℤ◌ ◌-ℤ◌ scale div_floor add_records add_reading add_to_slot
    encode_temperature empty_slots derive_keys domain_key bind_attestation
    to_compact_daily_extrema_input to_compact_hours create_nonce count_present
prepare_readings = refl

evaluate-prepare_example :
    evaluate_prepared_hours constant_crypto exact_rounding epoch_calendar attestation room
    ≡ ok (verdicts room (pos 0) readings)
evaluate-prepare_example =
    evaluate-prepare constant_crypto exact_rounding epoch_calendar readings plain_options
      attestation room prepare_readings refl
