-- ===== src/Protocol/Extrema/Prepared.antt =====
-- prepareDailyExtremaAttestation and evaluatePreparedDailyExtremaHoursLocally, one after the other
-- (shared/measurement-protocol/src/index.ts).
use Prim.Native.String.{◌++◌ as str_append}
use text.Mathlib.TextPositions.{eq_refl}
use midnight_buildathons_bac.Prelude.{
  ℕ, ◌≡◌, refl, sym, ap, ◌∙◌, subst, true, List, length, tabulate, length-tabulate, length-map,
  arith, Bool-cases, inl, inr, String, eq_iff,
}
use midnight_buildathons_bac.Prelude.Int.{
  ℤ, pos, ◌+ℤ◌, scale, div_floor, div_floor_bounds, eqb_ℤ, int_laws, parts_of_eq,
}
use midnight_buildathons_bac.Prelude.Results.{ok, Result-cases, ok-injective}
use midnight_buildathons_bac.Protocol.Day.{
  day_ms, Calendar, OperationalDayBoundary, validate_operational_day_boundary, utc_day_start_minute,
  operational_period_start,
}
use midnight_buildathons_bac.Protocol.Day.Laws.{
  start_inversion, first_instant, validate-IsValidBoundary,
}
use midnight_buildathons_bac.Protocol.Temperature.{Rounding}
use midnight_buildathons_bac.Protocol.Policy.{HourThresholdResult, ThresholdPolicyDescriptor}
use midnight_buildathons_bac.Protocol.Identifier.{require_safe_identifier}
use midnight_buildathons_bac.Protocol.Extrema.{
  hours_per_day, SensorRecord, HourlyExtremaSlot, empty_slots, add_records, Crypto,
  to_compact_daily_extrema_input, PreparedDailyExtremaAttestation, PrepareDailyExtremaOptions,
  or_else, CompactDailyExtremaInput,
}
use midnight_buildathons_bac.Protocol.Extrema.Slots.{hour_temperatures}
use midnight_buildathons_bac.Protocol.Extrema.Prepare.{
  DayPlan, DayKeys, plan_day, derive_keys, private_part, public_part, presence_of, bind_attestation,
  count_present, create_nonce, prepare_daily_extrema_attestation, first_device, boundary_of,
  date_of_records, plan_period, all_of_device,
}
use midnight_buildathons_bac.Protocol.Extrema.Evaluate.{
  evaluate_hours_from, evaluate_prepared_hours, same_day, same_metadata,
}
use midnight_buildathons_bac.Protocol.Extrema.Verdict.{hour_verdict}
use midnight_buildathons_bac.Protocol.Extrema.Agreement.{
  slot_of, evaluate_slots, add_records_lem, hour_temperatures-IsEncodable,
}

-- What the plan of a day says of its boundary.
record IsPlanned (calendar : Calendar) (plan : DayPlan) : Type 0 where
  valid : validate_operational_day_boundary plan.boundary ≡ ok plan.boundary
  started : operational_period_start calendar plan.period_date plan.boundary ≡ ok plan.period_start
  minute : utc_day_start_minute plan.boundary ≡ ok plan.start_minute_utc

eqb_refl : (a : ℤ) → eqb_ℤ a a ≡ true
eqb_refl a = ground arith

eqb_of_eq : (a b : ℤ) → a ≡ b → eqb_ℤ a b ≡ true
eqb_of_eq a b e = rw e (eqb_refl b)

epoch_exact :
    (b : OperationalDayBoundary) (d s : ℤ)
    → s ≡ first_instant b d
    → (scale 1000 (div_floor s 1000) ≡ s)
      × (scale 1000 (div_floor (s +ℤ pos day_ms) 1000) ≡ s +ℤ pos day_ms)
epoch_exact b d s e =
    let p = parts_of_eq _ _ e in
    (
      omega (int_laws, p, div_floor_bounds s 1000 (omega arith)),
      omega (int_laws, p, div_floor_bounds (s +ℤ pos day_ms) 1000 (omega arith)),
    )

module _ (calendar : Calendar) where
  plan_period-IsPlanned :
      (options : PrepareDailyExtremaOptions) (b : OperationalDayBoundary) (device date : String)
      (plan : DayPlan)
      → validate_operational_day_boundary b ≡ ok b
      → plan_period calendar options b device date ≡ ok plan
      → IsPlanned calendar plan
  unfolding plan_period
  plan_period-IsPlanned options b device date plan valid e =
      elim (Result-cases (operational_period_start calendar date b)) [
        | inr (m, bad) ↦ cc (rw bad at e)
        | inl (start, started) ↦ elim (Result-cases (utc_day_start_minute b)) [
          | inr (m, bad) ↦ cc (rw (started, bad) at e)
          | inl (minute, at_minute) ↦
              elim (Result-cases
                (require_safe_identifier (or_else options.policy_id "temperature-v1"))) [
                  | inr (m, bad) ↦ cc (rw (started, at_minute, bad) at e)
                  | inl (policy, safe) ↦
                      elim (Result-cases (
                        require_safe_identifier (
                          or_else options.assignment_id
                            (str_append device (str_append "-" (str_append policy "-wave1")))))) [
                              | inr (m, bad) ↦ cc (rw (started, at_minute, safe, bad) at e)
                              | inl (assignment, safe') ↦
                                  let done =
                                    ok-injective _ _ (rw (started, at_minute, safe, safe') at e) in
                                  rw (← done) (record {
                                    valid = valid;
                                    started = started;
                                    minute = at_minute;
                                  })
                            ]
                ]
        ]
      ]

  plan_day-IsPlanned :
      (records : List SensorRecord) (options : PrepareDailyExtremaOptions) (plan : DayPlan)
      → plan_day calendar records options ≡ ok plan
      → IsPlanned calendar plan
  unfolding plan_day
  plan_day-IsPlanned records options plan e =
      let b = boundary_of options in
      let device = or_else options.device_id (first_device records) in
      elim (Result-cases (validate_operational_day_boundary b)) [
        | inr (m, bad) ↦ cc (rw bad at e)
        | inl (v, valid) ↦
            let same = (validate-IsValidBoundary b v valid).0 in
            let valid' : validate_operational_day_boundary b ≡ ok b = rw same at valid in
            elim (Result-cases (require_safe_identifier device)) [
              | inr (m, bad) ↦ cc (rw (valid', bad) at e)
              | inl (safe, device_ok) ↦ elim (Bool-cases (all_of_device safe records)) [
                | inr mixed ↦ cc (rw (valid', device_ok, mixed) at e)
                | inl alike ↦ elim (Result-cases (date_of_records calendar records b)) [
                  | inr (m, bad) ↦ cc (rw (valid', device_ok, alike, bad) at e)
                  | inl (date, dated) ↦
                      plan_period-IsPlanned options b safe (or_else options.period_date date) plan
                        valid' (rw (valid', device_ok, alike, dated) at e)
                ]
              ]
            ]
      ]

  same_day-planned :
      (plan : DayPlan) (keys : DayKeys) (hours : List HourlyExtremaSlot) (n : ℕ)
      (commitment : String)
      → IsPlanned calendar plan
      → same_day (public_part plan keys hours n commitment) plan.period_start plan.start_minute_utc
        ≡ true
  same_day-planned plan keys hours n commitment v =
      let (d, valid, start, text) =
        start_inversion calendar plan.period_date plan.boundary plan.period_start v.started in
      let (a, b) = epoch_exact plan.boundary d plan.period_start start in
      rw (
        a,
        b,
        eqb_refl plan.start_minute_utc,
        eqb_refl (div_floor plan.period_start day_ms),
        eqb_refl plan.period_start,
        eqb_refl (plan.period_start +ℤ pos day_ms),
      )

same_metadata-parts :
    (plan : DayPlan) (keys : DayKeys) (hours : List HourlyExtremaSlot) (n : ℕ)
    (nonce commitment : String)
    → same_metadata
        (private_part plan keys hours nonce commitment)
        (public_part plan keys hours n commitment)
      ≡ true
same_metadata-parts plan keys hours n nonce commitment = rw (
  eq_refl keys.device_commitment,
  eq_refl keys.measurement_group_id,
  eq_refl keys.policy_key,
  eq_refl keys.assignment_key,
  eqb_refl (div_floor plan.period_start 1000),
  eqb_refl (div_floor (plan.period_start +ℤ pos day_ms) 1000),
)

-- What a successful binding returns.
bind_inversion :
    (crypto : Crypto) (r : Rounding) (plan : DayPlan) (keys : DayKeys)
    (hours : List HourlyExtremaSlot) (n : ℕ) (nonce : String) (p : PreparedDailyExtremaAttestation)
    → bind_attestation crypto r plan keys hours n nonce ≡ ok p
    → (compact : CompactDailyExtremaInput) × (to_compact_daily_extrema_input r
          (private_part plan keys hours nonce "")
        ≡ ok compact)
      × (record {
        public_data = public_part plan keys hours n (crypto.persistent_commit compact nonce);
        private_data = private_part plan keys hours nonce (crypto.persistent_commit compact nonce);
      }
          ≡ p)
unfolding bind_attestation
bind_inversion crypto r plan keys hours n nonce p e =
    elim (Result-cases (to_compact_daily_extrema_input r (private_part plan keys hours nonce ""))) [
      | inr (m, bad) ↦ cc (rw bad at e)
      | inl (compact, good) ↦ (compact, good, ok-injective _ _ (rw good at e))
    ]

-- The commitment does not depend on the field that carries it.
to_compact_unbound :
    (r : Rounding) (plan : DayPlan) (keys : DayKeys) (hours : List HourlyExtremaSlot)
    (nonce a b : String)
    → to_compact_daily_extrema_input r (private_part plan keys hours nonce a)
      ≡ to_compact_daily_extrema_input r (private_part plan keys hours nonce b)
unfolding to_compact_daily_extrema_input
to_compact_unbound r plan keys hours nonce a b = refl

-- The verdict on each of the 24 hours, from all the temperatures that were recorded in it.
abbrev pub verdicts : ThresholdPolicyDescriptor → ℤ → List SensorRecord → List HourThresholdResult
verdicts policy start records =
    tabulate (λ i. hour_verdict policy (hour_temperatures start i records)) 24 0

-- The loop over `n` hours, as the loop over the records left them.
evaluate_recorded :
    (r : Rounding) (policy : ThresholdPolicyDescriptor) (start : ℤ) (records : List SensorRecord)
    (hours : List HourlyExtremaSlot) (n : ℕ)
    → add_records r start (empty_slots n 0) records ≡ ok hours
    → evaluate_hours_from r policy 0 hours (presence_of hours)
      ≡ ok (record {
        sample_count = length records;
        observed_hour_count = count_present (presence_of hours);
        hour_results = tabulate (λ i. hour_verdict policy (hour_temperatures start i records)) n 0;
      })
evaluate_recorded r policy start records hours n added =
    let (slots, total) = add_records_lem r start n records hours added in
    let encodable =
      λ (j : ℕ). hour_temperatures-IsEncodable r start j records (empty_slots n 0) hours added in
    rw (← total, slots) (evaluate_slots r policy start records n 0 encodable)

length-recorded :
    (r : Rounding) (start : ℤ) (records : List SensorRecord) (hours : List HourlyExtremaSlot)
    (n : ℕ)
    → add_records r start (empty_slots n 0) records ≡ ok hours
    → (length hours ≡ n) × (length (presence_of hours) ≡ n)
length-recorded r start records hours n added =
    let (slots, total) = add_records_lem r start n records hours added in
    let size = ap length slots ∙ length-tabulate (slot_of start records) n 0 in
    (size, length-map hours (λ h. h.present) ∙ size)

module _ (crypto : Crypto) (r : Rounding) (calendar : Calendar) where
  evaluate_parts :
      (plan : DayPlan) (keys : DayKeys) (records : List SensorRecord)
      (hours : List HourlyExtremaSlot) (nonce : String) (compact : CompactDailyExtremaInput)
      (policy : ThresholdPolicyDescriptor)
      → IsPlanned calendar plan
      → add_records r plan.period_start (empty_slots hours_per_day 0) records ≡ ok hours
      → to_compact_daily_extrema_input r (private_part plan keys hours nonce "") ≡ ok compact
      → policy.policy_id ≡ plan.policy_id
      → evaluate_prepared_hours crypto r calendar
          (record {
            public_data =
                public_part plan keys hours
                  (length records)
                  (crypto.persistent_commit compact nonce);
            private_data =
                private_part plan keys hours nonce (crypto.persistent_commit compact nonce);
          })
          policy
        ≡ ok (verdicts policy plan.period_start records)
  unfolding evaluate_prepared_hours
  evaluate_parts plan keys records hours nonce compact policy v added made named =
      let commitment = crypto.persistent_commit compact nonce in
      let made' = to_compact_unbound r plan keys hours nonce commitment "" ∙ made in
      let (size, size') = length-recorded r plan.period_start records hours hours_per_day added in
      rw
        (
          (eq_iff policy.policy_id plan.policy_id).1 named,
          v.valid,
          v.started,
          v.minute,
          same_day-planned calendar plan keys hours (length records) commitment v,
          eq_refl commitment,
          made',
          eq_refl commitment,
          same_metadata-parts plan keys hours (length records) nonce commitment,
          size,
          size',
          evaluate_recorded r policy plan.period_start records hours hours_per_day added,
        )
        (ground arith)

  -- Preparing an attestation and evaluating it under the policy that it names never fails: every
  -- attestation that `prepareDailyExtremaAttestation` returns passes all checks of the local
  -- evaluation, which returns for each of the 24 hours from the period's start NO DATA if no record
  -- lies in the hour, WITHIN if the policy allows each temperature recorded in it, and OUTSIDE
  -- otherwise.
  pub evaluate-prepare :
      (records : List SensorRecord) (options : PrepareDailyExtremaOptions)
      (p : PreparedDailyExtremaAttestation) (policy : ThresholdPolicyDescriptor)
      → prepare_daily_extrema_attestation crypto r calendar records options ≡ ok p
      → policy.policy_id ≡ p.public_data.policy_id
      → evaluate_prepared_hours crypto r calendar p policy
        ≡ ok (verdicts policy p.public_data.period_start records)
  unfolding prepare_daily_extrema_attestation
  evaluate-prepare records options p policy e named =
      elim (Result-cases (plan_day calendar records options)) [
        | inr (m, bad) ↦ cc (rw bad at e)
        | inl (plan, planned) ↦
            elim (Result-cases
              (add_records r plan.period_start (empty_slots hours_per_day 0) records)) [
                | inr (m, bad) ↦ cc (rw (planned, bad) at e)
                | inl (hours, added) ↦
                    elim (Result-cases (derive_keys crypto plan options.measurement_group_id)) [
                      | inr (m, bad) ↦ cc (rw (planned, added, bad) at e)
                      | inl (keys, derived) ↦
                          let nonce = create_nonce crypto options.nonce_seed in
                          let (compact, made, same) =
                            bind_inversion crypto r plan keys hours (length records) nonce p
                              (rw (planned, added, derived) at e) in
                          let named' = named ∙ sym (ap (λ q. q.public_data.policy_id) same) in
                          subst
                            (λ q.
                              evaluate_prepared_hours crypto r calendar q policy
                              ≡ ok (verdicts policy q.public_data.period_start records))
                            same
                            (evaluate_parts plan keys records hours nonce compact policy
                              (plan_day-IsPlanned calendar records options plan planned) added made
                              named')
                    ]
              ]
      ]
