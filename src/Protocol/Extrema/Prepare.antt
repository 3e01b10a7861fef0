-- ===== src/Protocol/Extrema/Prepare.antt =====
-- prepareDailyExtremaAttestation and the keys that it derives, of
-- shared/measurement-protocol/src/index.ts.
use Prim.Native.String.{◌++◌ as str_append}
use midnight_buildathons_bac.Prelude.{
  ℕ, suc, ◌-◌, String, Bool, true, false, ◌&&◌, Option, none, some, str_eq, List, [], ◌∷◌, map,
  length,
}
use midnight_buildathons_bac.Prelude.Int.{ℤ, pos, ◌+ℤ◌, div_floor}
use midnight_buildathons_bac.Prelude.Results.{Result, ok, ◌>>=◌, ◌>>◌, require}
use midnight_buildathons_bac.Protocol.Day.{
  day_ms, Calendar, OperationalDayBoundary, validate_operational_day_boundary, utc_day_start_minute,
  operational_period_start, operational_period_date,
}
use midnight_buildathons_bac.Protocol.Identifier.{require_safe_identifier}
use midnight_buildathons_bac.Protocol.Temperature.{Rounding}
use midnight_buildathons_bac.Protocol.Extrema.{
  daily_extrema_schema_version, daily_extrema_circuit_version, hours_per_day, SensorRecord,
  HourlyExtremaSlot, PrivateDailyExtremaAttestation, PreparedDailyExtremaAttestation,
  PublicDailyExtremaAttestation, PrepareDailyExtremaOptions, Crypto, or_else, empty_slots,
  add_records, to_compact_daily_extrema_input,
}

-- `records.every((record) => record.deviceId === deviceId)`
unfoldable pub all_of_device : String → List SensorRecord → Bool
all_of_device device_id [] = true
all_of_device device_id (x ∷ xs) = str_eq x.device_id device_id && all_of_device device_id xs

-- `hourPresence.filter(Boolean).length`
unfoldable pub count_present : List Bool → ℕ
count_present [] = 0
count_present (true ∷ xs) = suc (count_present xs)
count_present (false ∷ xs) = count_present xs

abbrev pub first_timestamp : List SensorRecord → Option ℤ
first_timestamp [] = none
first_timestamp (x ∷ xs) = x.timestamp

abbrev pub first_device : List SensorRecord → String
first_device [] = ""
first_device (x ∷ xs) = x.device_id

-- What is known before the records are read.
pub record DayPlan : Type 0 where
  pub boundary : OperationalDayBoundary
  pub device_id : String
  pub period_date : String
  pub period_start : ℤ
  pub start_minute_utc : ℤ
  pub policy_id : String
  pub assignment_id : String

pub record DayKeys : Type 0 where
  pub policy_key : String
  pub assignment_key : String
  pub device_commitment : String
  pub measurement_group_id : String

-- The period and the two other identifiers.
unfoldable pub plan_period :
    Calendar
    → PrepareDailyExtremaOptions
    → OperationalDayBoundary
    → String
    → String
    → Result DayPlan
plan_period calendar options boundary device_id period_date = do
  period_start ← operational_period_start calendar period_date boundary
  start_minute_utc ← utc_day_start_minute boundary
  policy_id ← require_safe_identifier (or_else options.policy_id "temperature-v1")
  assignment_id ← require_safe_identifier (
      or_else options.assignment_id
        (str_append device_id (str_append "-" (str_append policy_id "-wave1"))))
  ok (record {
    boundary = boundary;
    device_id = device_id;
    period_date = period_date;
    period_start = period_start;
    start_minute_utc = start_minute_utc;
    policy_id = policy_id;
    assignment_id = assignment_id;
  })

abbrev pub boundary_of : PrepareDailyExtremaOptions → OperationalDayBoundary
boundary_of options = record {
  time_zone_offset_minutes = or_else options.time_zone_offset_minutes (pos 0);
  local_day_start_hour = or_else options.local_day_start_hour (pos 0);
}

-- The date of the first record, where it has a timestamp.
abbrev pub date_of_records : Calendar → List SensorRecord → OperationalDayBoundary → Result String
date_of_records calendar records boundary = elim (first_timestamp records) [
  | none ↦ ok ""
  | some t ↦ operational_period_date calendar t boundary
]

-- prepareDailyExtremaAttestation up to the loop over the records.
unfoldable pub plan_day : Calendar → List SensorRecord → PrepareDailyExtremaOptions → Result DayPlan
plan_day calendar records options = do
  boundary ← validate_operational_day_boundary (boundary_of options)
  device_id ← require_safe_identifier (or_else options.device_id (first_device records))
  require (all_of_device device_id records) "All records must belong to the configured device"
  derived_date ← date_of_records calendar records boundary
  plan_period calendar options boundary device_id (or_else options.period_date derived_date)

-- The private part, with the commitment that it is bound by.
abbrev pub private_part :
    DayPlan → DayKeys → List HourlyExtremaSlot → String → String → PrivateDailyExtremaAttestation
private_part plan keys hours nonce commitment = record {
  attestation_commitment = commitment;
  device_id = plan.device_id;
  device_commitment = keys.device_commitment;
  measurement_group_id = keys.measurement_group_id;
  policy_key = keys.policy_key;
  assignment_key = keys.assignment_key;
  period_start_epoch = div_floor plan.period_start 1000;
  period_end_epoch = div_floor (plan.period_start +ℤ pos day_ms) 1000;
  hours = hours;
  nonce_hex = nonce;
  schema_version = daily_extrema_schema_version;
  circuit_version = daily_extrema_circuit_version;
}

abbrev pub presence_of : List HourlyExtremaSlot → List Bool
presence_of hours = map (λ (h : HourlyExtremaSlot). h.present) hours

abbrev pub public_part :
    DayPlan → DayKeys → List HourlyExtremaSlot → ℕ → String → PublicDailyExtremaAttestation
public_part plan keys hours sample_count commitment = record {
  attestation_commitment = commitment;
  device_commitment = keys.device_commitment;
  measurement_group_id = keys.measurement_group_id;
  policy_id = plan.policy_id;
  policy_key = keys.policy_key;
  assignment_id = plan.assignment_id;
  assignment_key = keys.assignment_key;
  period_date = plan.period_date;
  measurement_day = div_floor plan.period_start day_ms;
  time_zone_offset_minutes = plan.boundary.time_zone_offset_minutes;
  local_day_start_hour = plan.boundary.local_day_start_hour;
  utc_day_start_minute = plan.start_minute_utc;
  period_start = plan.period_start;
  period_end = plan.period_start +ℤ pos day_ms;
  period_start_epoch = div_floor plan.period_start 1000;
  period_end_epoch = div_floor (plan.period_start +ℤ pos day_ms) 1000;
  hour_presence = presence_of hours;
  observed_hour_count = count_present (presence_of hours);
  stopped_hour_count = hours_per_day - count_present (presence_of hours);
  sample_count = sample_count;
  schema_version = daily_extrema_schema_version;
  circuit_version = daily_extrema_circuit_version;
}

module _ (crypto : Crypto) where
  open crypto use {sha256, persistent_commit, random_values}

  -- thresholdPolicyKey, policyAssignmentKey, sensorDeviceCommitment, measurementGroupKey: the
  -- digest of an identifier under the text of its domain.
  unfoldable pub domain_key : String → String → Result String
  domain_key domain identifier = do
    safe ← require_safe_identifier identifier
    ok (sha256 (str_append domain safe))

  -- createNonce with the index 24
  unfoldable pub create_nonce : Option String → String
  create_nonce none = random_values
  create_nonce (some seed) = sha256 (str_append seed ":24")

  unfoldable pub derive_keys : DayPlan → Option String → Result DayKeys
  unfolding domain_key
  derive_keys plan measurement_group_id = do
    policy_key ← domain_key "vsp:threshold-policy:v1\n" plan.policy_id
    assignment_key ← domain_key "vsp:policy-assignment:v1\n" plan.assignment_id
    device_commitment ← domain_key "vsp:sensor-device:v1\n" plan.device_id
    group ←
        domain_key "vsp:measurement-group:v1\n"
          (or_else measurement_group_id (str_append "daily:" plan.period_date))
    ok (record {
      policy_key = policy_key;
      assignment_key = assignment_key;
      device_commitment = device_commitment;
      measurement_group_id = group;
    })

  module _ (r : Rounding) where
    -- The commitment, and the two parts that carry it.
    unfoldable pub bind_attestation :
        DayPlan
        → DayKeys
        → List HourlyExtremaSlot
        → ℕ
        → String
        → Result PreparedDailyExtremaAttestation
    bind_attestation plan keys hours sample_count nonce = do
      compact ← to_compact_daily_extrema_input r (private_part plan keys hours nonce "")
      let commitment = persistent_commit compact nonce
      ok (record {
        public_data = public_part plan keys hours sample_count commitment;
        private_data = private_part plan keys hours nonce commitment;
      })

    unfoldable pub prepare_daily_extrema_attestation :
        Calendar
        → List SensorRecord
        → PrepareDailyExtremaOptions
        → Result PreparedDailyExtremaAttestation
    unfolding plan_day plan_period derive_keys bind_attestation create_nonce
    prepare_daily_extrema_attestation calendar records options = do
      plan ← plan_day calendar records options
      hours ← add_records r plan.period_start (empty_slots hours_per_day 0) records
      keys ← derive_keys plan options.measurement_group_id
      bind_attestation plan keys hours (length records) (create_nonce options.nonce_seed)
