-- ===== src/Protocol/Extrema/Evaluate.antt =====
-- evaluatePreparedDailyExtremaHoursLocally, evaluatePreparedDailyExtremaLocally and
-- verifyPreparedDailyExtremaLocally of shared/measurement-protocol/src/index.ts.
use midnight_buildathons_bac.Prelude.{
  ℕ, suc, ◌+◌, ◌-◌, Bool, true, false, ◌&&◌, not, str_eq, if◌then◌else◌, List, [], ◌∷◌, length, leb,
  ◌==◌,
}
use midnight_buildathons_bac.Prelude.Int.{ℤ, pos, ◌+ℤ◌, div_floor, scale, eqb_ℤ}
use midnight_buildathons_bac.Prelude.Num.{num_zero, num_eq, num_lt, is_finite}
use midnight_buildathons_bac.Prelude.Results.{Result, ok, throw, ◌>>=◌, ◌>>◌, require}
use midnight_buildathons_bac.Protocol.Day.{
  day_ms, Calendar, validate_operational_day_boundary, utc_day_start_minute,
  operational_period_start,
}
use midnight_buildathons_bac.Protocol.Temperature.{Rounding, encode_temperature}
use midnight_buildathons_bac.Protocol.Policy.{
  HourThresholdResult, no_data, within_threshold, outside_threshold, ThresholdPolicyDescriptor,
  policy_allows,
}
use midnight_buildathons_bac.Protocol.Extrema.{
  hours_per_day, HourlyExtremaSlot, PrivateDailyExtremaAttestation, PublicDailyExtremaAttestation,
  PreparedDailyExtremaAttestation, Crypto, to_compact_daily_extrema_input,
}

abbrev pub bool_eq : Bool → Bool → Bool
bool_eq true b = b
bool_eq false b = not b

-- What the loop over the hours has when it ends.
pub record Tally : Type 0 where
  pub sample_count : ℕ
  pub observed_hour_count : ℕ
  pub hour_results : List HourThresholdResult

abbrev pub tally_add : ℕ → ℕ → HourThresholdResult → Tally → Tally
tally_add samples observed result t = record {
  sample_count = samples + t.sample_count;
  observed_hour_count = observed + t.observed_hour_count;
  hour_results = result ∷ t.hour_results;
}

module _ (r : Rounding) (policy : ThresholdPolicyDescriptor) where
  -- One hour: its result, and what it adds to the count of observed hours.
  unfoldable pub evaluate_hour : HourlyExtremaSlot → Result HourThresholdResult
  evaluate_hour hour =
      let stopped = do
        require
            (hour.sample_count == 0 && num_eq hour.minimum num_zero && num_eq hour.maximum num_zero)
            "Stopped hour is not canonical"
        ok no_data
      in let observed = do
        require
            (leb 1 hour.sample_count
              && is_finite hour.minimum
              && is_finite hour.maximum
              && not (num_lt hour.maximum hour.minimum))
            "Observed hourly extrema are invalid"
        low ← encode_temperature r hour.minimum
        high ← encode_temperature r hour.maximum
        ok (
            if policy_allows policy hour.minimum hour.maximum
            then within_threshold
            else outside_threshold)
        in if hour.present then observed else stopped

  -- The loop over the hours from the index `i` on, with the public presence bits from there on.
  unfoldable pub evaluate_hours_from : ℕ → List HourlyExtremaSlot → List Bool → Result Tally
  unfolding evaluate_hour
  evaluate_hours_from i [] presence =
      ok (record { sample_count = 0; observed_hour_count = 0; hour_results = [] })
  evaluate_hours_from i (hour ∷ hours) [] = throw "Hourly presence mismatch"
  evaluate_hours_from i (hour ∷ hours) (bit ∷ presence) = do
    require (hour.hour_index == i && bool_eq hour.present bit) "Hourly presence mismatch"
    result ← evaluate_hour hour
    rest ← evaluate_hours_from (suc i) hours presence
    ok (tally_add hour.sample_count (if hour.present then 1 else 0) result rest)

abbrev pub same_metadata : PrivateDailyExtremaAttestation → PublicDailyExtremaAttestation → Bool
same_metadata a b =
    str_eq a.device_commitment b.device_commitment
    && str_eq a.measurement_group_id b.measurement_group_id
    && str_eq a.policy_key b.policy_key
    && str_eq a.assignment_key b.assignment_key
    && eqb_ℤ a.period_start_epoch b.period_start_epoch
    && eqb_ℤ a.period_end_epoch b.period_end_epoch
    && a.schema_version == b.schema_version
    && a.circuit_version == b.circuit_version

-- The public day is the one that the date and the boundary give. An epoch text equals
-- `String(instant / 1000)` when 1000 times its number is the instant.
abbrev pub same_day : PublicDailyExtremaAttestation → ℤ → ℤ → Bool
same_day p start minute =
    eqb_ℤ p.utc_day_start_minute minute
    && eqb_ℤ p.measurement_day (div_floor start day_ms)
    && eqb_ℤ p.period_start start
    && eqb_ℤ p.period_end (start +ℤ pos day_ms)
    && eqb_ℤ (scale 1000 p.period_start_epoch) start
    && eqb_ℤ (scale 1000 p.period_end_epoch) (start +ℤ pos day_ms)

module _ (crypto : Crypto) (r : Rounding) (calendar : Calendar) where
  open crypto use {persistent_commit}

  unfoldable pub evaluate_prepared_hours :
      PreparedDailyExtremaAttestation
      → ThresholdPolicyDescriptor
      → Result (List HourThresholdResult)
  evaluate_prepared_hours attestation policy = do
    let public = attestation.public_data
    let private' = attestation.private_data
    require (str_eq policy.policy_id public.policy_id) "Threshold policy mismatch"
    boundary ← validate_operational_day_boundary (record {
      time_zone_offset_minutes = public.time_zone_offset_minutes;
      local_day_start_hour = public.local_day_start_hour;
    })
    expected_start ← operational_period_start calendar public.period_date boundary
    minute ← utc_day_start_minute boundary
    require (same_day public expected_start minute) "Operational day boundary mismatch"
    require (str_eq private'.attestation_commitment public.attestation_commitment)
        "Private attestation commitment mismatch"
    compact ← to_compact_daily_extrema_input r private'
    require (str_eq (persistent_commit compact private'.nonce_hex) public.attestation_commitment)
        "Daily extrema commitment mismatch"
    require (same_metadata private' public) "Private daily extrema metadata mismatch"
    require (length private'.hours == hours_per_day && length public.hour_presence == hours_per_day)
        "Daily extrema must contain exactly 24 hours"
    tally ← evaluate_hours_from r policy 0 private'.hours public.hour_presence
    require
        (tally.sample_count == public.sample_count
          && tally.observed_hour_count == public.observed_hour_count
          && hours_per_day - tally.observed_hour_count == public.stopped_hour_count)
        "Daily aggregate counts mismatch"
    ok tally.hour_results

-- `results.some((result) => result === 'outside-threshold')`
unfoldable pub has_outside : List HourThresholdResult → Bool
has_outside [] = false
has_outside (outside_threshold ∷ xs) = true
has_outside (no_data ∷ xs) = has_outside xs
has_outside (within_threshold ∷ xs) = has_outside xs

module _ (crypto : Crypto) (r : Rounding) (calendar : Calendar) where
  unfoldable pub evaluate_prepared :
      PreparedDailyExtremaAttestation → ThresholdPolicyDescriptor → Result HourThresholdResult
  unfolding has_outside
  evaluate_prepared attestation policy = do
    results ← evaluate_prepared_hours crypto r calendar attestation policy
    ok (if has_outside results then outside_threshold else within_threshold)

  unfoldable pub verify_prepared :
      PreparedDailyExtremaAttestation → ThresholdPolicyDescriptor → Bool
  unfolding evaluate_prepared
  verify_prepared attestation policy = elim (evaluate_prepared attestation policy) [
    | ok within_threshold ↦ true
    | ok _ ↦ false
    | throw e ↦ false
  ]
