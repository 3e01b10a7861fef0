-- ===== src/Protocol/Extrema/Agreement.antt =====
-- The whole loop over the records, and the loop over the hours that reads its slots
-- (shared/measurement-protocol/src/index.ts).
use midnight_buildathons_bac.Prelude.{
  ℕ, zero, suc, ◌+◌, ◌≡◌, refl, ap, ◌∙◌, some, List, [], ◌∷◌, length, All, tabulate, eq-tabulate,
  get_elem?-tabulate, length-tabulate, arith, Bool-cases, inl, inr, get_elem?, set, ==_iff,
}
use midnight_buildathons_bac.Prelude.Int.{ℤ}
use midnight_buildathons_bac.Prelude.Num.{Num, fin}
use midnight_buildathons_bac.Prelude.Results.{ok, Result-cases, ok-injective}
use midnight_buildathons_bac.Protocol.Temperature.{Rounding}
use midnight_buildathons_bac.Protocol.Policy.{ThresholdPolicyDescriptor}
use midnight_buildathons_bac.Protocol.Extrema.{
  SensorRecord, HourlyExtremaSlot, empty_slot, empty_slots, add_to_slot, add_reading, add_records,
}
use midnight_buildathons_bac.Protocol.Extrema.Slots.{
  hour_temperatures, in_hour, add_temperatures, add_reading-IsAdded, add_records_slot,
  add_records-length,
}
use midnight_buildathons_bac.Protocol.Extrema.Prepare.{count_present, presence_of}
use midnight_buildathons_bac.Protocol.Extrema.Evaluate.{evaluate_hours_from}
use midnight_buildathons_bac.Protocol.Extrema.Verdict.{
  IsEncodable, hour_verdict, evaluate_hour-verdict,
}

pub total_samples : List HourlyExtremaSlot → ℕ
total_samples [] = 0
total_samples (s ∷ xs) = s.sample_count + total_samples xs

empty_slots-eq-tabulate : (n i : ℕ) → empty_slots n i ≡ tabulate empty_slot n i
unfolding empty_slots
empty_slots-eq-tabulate zero i = refl
empty_slots-eq-tabulate (suc n) i = ap (◌∷◌ (empty_slot i)) (empty_slots-eq-tabulate n (suc i))

total_samples-set :
    (xs : List HourlyExtremaSlot) (i : ℕ) (s : HourlyExtremaSlot) (v : Num)
    → get_elem? xs i ≡ some s
    → total_samples (set xs i (add_to_slot s v)) ≡ total_samples xs + 1
unfolding total_samples
total_samples-set [] i s v h = cc
total_samples-set (x ∷ xs) zero s v h =
    let same : x ≡ s = ground arith in rw same (unfold add_to_slot in omega arith)
total_samples-set (x ∷ xs) (suc i) s v h = omega (arith, total_samples-set xs i s v h)

total_samples-tabulate_empty : (n i : ℕ) → total_samples (tabulate empty_slot n i) ≡ 0
unfolding total_samples
total_samples-tabulate_empty zero i = refl
total_samples-tabulate_empty (suc n) i = omega (arith, total_samples-tabulate_empty n (suc i))

-- The slot of the hour `i`, from the records.
abbrev pub slot_of : ℤ → List SensorRecord → ℕ → HourlyExtremaSlot
slot_of start records i = add_temperatures (empty_slot i) (hour_temperatures start i records)

module _ (r : Rounding) (start : ℤ) where
  add_records-total :
      (records : List SensorRecord) (hours hours' : List HourlyExtremaSlot)
      → add_records r start hours records ≡ ok hours'
      → total_samples hours' ≡ total_samples hours + length records
  unfolding add_records
  add_records-total [] hours hours' e =
      let same : hours ≡ hours' = ok-injective _ _ e in rw same (omega arith)
  add_records-total (x ∷ xs) hours hours' e =
      elim (Result-cases (add_reading r start hours x.timestamp x.temperature)) [
        | inr (m, bad) ↦ cc (rw bad at e)
        | inl (next, good) ↦
            let a = add_reading-IsAdded r start hours next x.timestamp x.temperature good in
            omega (
              arith,
              add_records-total xs next hours' (rw good at e),
              ap total_samples a.written ∙ total_samples-set hours _ a.slot (fin a.value) a.found,
            )
      ]

  pub hour_temperatures-IsEncodable :
      (i : ℕ) (records : List SensorRecord) (hours hours' : List HourlyExtremaSlot)
      → add_records r start hours records ≡ ok hours'
      → All (IsEncodable r) (hour_temperatures start i records)
  unfolding add_records hour_temperatures
  hour_temperatures-IsEncodable i [] hours hours' e = tt
  hour_temperatures-IsEncodable i (x ∷ xs) hours hours' e =
      elim (Result-cases (add_reading r start hours x.timestamp x.temperature)) [
        | inr (m, bad) ↦ cc (rw bad at e)
        | inl (next, good) ↦
            let a = add_reading-IsAdded r start hours next x.timestamp x.temperature good in
            let this : IsEncodable r x.temperature = record {
              value = a.value;
              finite = a.finite;
              code = a.code;
              encoded = a.encoded;
            } in
            let rest = hour_temperatures-IsEncodable i xs next hours' (rw good at e) in
            elim (Bool-cases (in_hour start i x.timestamp)) [
              | inl inside ↦ rw inside (this, rest)
              | inr outside ↦ rw outside rest
            ]
      ]

  slot_at :
      (records : List SensorRecord) (hours hours' : List HourlyExtremaSlot) (j : ℕ)
      → add_records r start hours records ≡ ok hours'
      → get_elem? hours j ≡ some (empty_slot (0 + j))
      → get_elem? hours' j ≡ some (slot_of start records (0 + j))
  slot_at records hours hours' j e g =
      let k : 0 + j ≡ j = omega arith in
      rw k (add_records_slot r start records hours hours' j (empty_slot j) e (rw k at g))

  -- Where the loop over the records returns, from any number of empty slots, the slot of each hour
  -- holds the temperatures that were recorded in that hour, added in the records' order, and the
  -- sample counts of the slots add up to the number of the records.
  pub add_records_lem :
      (n : ℕ) (records : List SensorRecord) (hours : List HourlyExtremaSlot)
      → add_records r start (empty_slots n 0) records ≡ ok hours
      → (hours ≡ tabulate (slot_of start records) n 0) × (total_samples hours ≡ length records)
  add_records_lem n records hours e =
      let e' : add_records r start (tabulate empty_slot n 0) records ≡ ok hours =
        rw (← empty_slots-eq-tabulate n 0) e in
      let size : length hours ≡ n =
        add_records-length r start records _ hours e' ∙ length-tabulate empty_slot n 0 in
      let slots : hours ≡ tabulate (slot_of start records) (length hours) 0 =
        eq-tabulate hours (slot_of start records) 0 (λ j p.
          slot_at records (tabulate empty_slot n 0) hours j e'
            (get_elem?-tabulate empty_slot n 0 j (omega arith))) in
      (
        slots ∙ ap (λ k. tabulate (slot_of start records) k 0) size,
        omega (arith, add_records-total records _ hours e', total_samples-tabulate_empty n 0),
      )

add_to_slot-hour_index :
    (s : HourlyExtremaSlot) (v : Num) → (add_to_slot s v).hour_index ≡ s.hour_index
unfolding add_to_slot
add_to_slot-hour_index s v = ground arith

add_temperatures-hour_index :
    (s : HourlyExtremaSlot) (vs : List Num) → (add_temperatures s vs).hour_index ≡ s.hour_index
unfolding add_temperatures
add_temperatures-hour_index s [] = refl
add_temperatures-hour_index s (v ∷ vs) =
    add_temperatures-hour_index (add_to_slot s v) vs ∙ add_to_slot-hour_index s v

one_more : (n : ℕ) → 1 + n ≡ suc n
one_more n = omega arith

none_more : (n : ℕ) → 0 + n ≡ n
none_more n = omega arith

-- The evaluation of the slots of all hours returns the verdict on each, and counts them.
pub evaluate_slots :
    (r : Rounding) (policy : ThresholdPolicyDescriptor) (start : ℤ) (records : List SensorRecord)
    (n i : ℕ)
    → ((j : ℕ) → All (IsEncodable r) (hour_temperatures start j records))
    → evaluate_hours_from r policy i
        (tabulate (slot_of start records) n i)
        (presence_of (tabulate (slot_of start records) n i))
      ≡ ok (record {
        sample_count = total_samples (tabulate (slot_of start records) n i);
        observed_hour_count = count_present (presence_of (tabulate (slot_of start records) n i));
        hour_results = tabulate (λ j. hour_verdict policy (hour_temperatures start j records)) n i;
      })
unfolding evaluate_hours_from total_samples count_present
evaluate_slots r policy start records zero i h = refl
evaluate_slots r policy start records (suc n) i h =
    let vs = hour_temperatures start i records in
    let here = evaluate_hour-verdict r policy i vs (h i) in
    let index = add_temperatures-hour_index (empty_slot i) vs in
    let rest = evaluate_slots r policy start records n (suc i) h in
    elim (Bool-cases (slot_of start records i).present) [
      | inl seen ↦ rw (index, (==_iff i i).1 refl, here, seen, rest) (rw one_more)
      | inr unseen ↦ rw (index, (==_iff i i).1 refl, here, unseen, rest) (rw none_more)
    ]
