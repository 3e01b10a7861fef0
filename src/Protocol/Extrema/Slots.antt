-- ===== src/Protocol/Extrema/Slots.antt =====
-- What the loop over the records leaves in each hourly slot.
use midnight_buildathons_bac.Prelude.{
  ℕ, suc, ◌≡◌, ◌≢◌, refl, sym, ap, ◌∙◌, Bool, true, false, ◌&&◌, Option, none, some, if◌then◌else◌,
  List, [], ◌∷◌, length, get_elem?, set, get_elem?-set_self, get_elem?-set_ne, length-set,
  lt-length_of_get_elem?, arith, Option-cases, Bool-cases, ◌==◌, ==_iff, inl, inr,
}
use midnight_buildathons_bac.Prelude.Int.{
  ℤ, pos, pos_part, ◌+ℤ◌, ◌-ℤ◌, ltb_ℤ, leb_ℤ, div_floor, scale, ◌≤ℤ◌, ◌<ℤ◌, int_laws,
  div_floor_bounds, parts_cases,
}
use midnight_buildathons_bac.Prelude.Num.{Num, fin, nan, neg_inf, pos_inf}
use midnight_buildathons_bac.Prelude.Results.{ok, Result-cases, ok-injective}
use midnight_buildathons_bac.Protocol.Day.{hour_ms, day_ms}
use midnight_buildathons_bac.Protocol.Temperature.{Rounding, encode_temperature}
use midnight_buildathons_bac.Protocol.Extrema.{
  SensorRecord, HourlyExtremaSlot, add_to_slot, add_reading, add_records,
}

-- The instant lies in the hour `i` of the day from `start`.
abbrev pub instant_in_hour : ℤ → ℕ → ℤ → Bool
instant_in_hour start i t =
    leb_ℤ (start +ℤ scale hour_ms (pos i)) t && ltb_ℤ t (start +ℤ scale hour_ms (pos (suc i)))

abbrev pub in_hour : ℤ → ℕ → Option ℤ → Bool
in_hour start i none = false
in_hour start i (some t) = instant_in_hour start i t

-- The temperatures that were recorded in the hour `i`, in the records' order.
unfoldable pub hour_temperatures : ℤ → ℕ → List SensorRecord → List Num
hour_temperatures start i [] = []
hour_temperatures start i (x ∷ xs) =
    let rest = hour_temperatures start i xs in
    if in_hour start i x.timestamp then x.temperature ∷ rest else rest

unfoldable pub add_temperatures : HourlyExtremaSlot → List Num → HourlyExtremaSlot
add_temperatures s [] = s
add_temperatures s (v ∷ vs) = add_temperatures (add_to_slot s v) vs

hour_index_of :
    (start t : ℤ) (i : ℕ)
    → start ≤ℤ t
    → pos_part (div_floor (t -ℤ start) hour_ms) ≡ i
    → instant_in_hour start i t ≡ true
hour_index_of start t i h e =
    let a = t -ℤ start in
    let q = div_floor a hour_ms in
    let b = div_floor_bounds a hour_ms (omega arith) in
    let low : start +ℤ scale hour_ms (pos i) ≤ℤ t = omega (int_laws, b, parts_cases q) in
    let high : t <ℤ start +ℤ scale hour_ms (pos (suc i)) = omega (int_laws, b, parts_cases q) in
    ground arith

not_hour_index_of :
    (start t : ℤ) (i : ℕ)
    → start ≤ℤ t
    → pos_part (div_floor (t -ℤ start) hour_ms) ≢ i
    → instant_in_hour start i t ≡ false
not_hour_index_of start t i h e = elim (Bool-cases (instant_in_hour start i t)) [
  | inr outside ↦ outside
  | inl inside ↦
      let a = t -ℤ start in
      let q = div_floor a hour_ms in
      let b = div_floor_bounds a hour_ms (omega arith) in
      let low : start +ℤ scale hour_ms (pos i) ≤ℤ t = ground arith in
      let high : t <ℤ start +ℤ scale hour_ms (pos (suc i)) = ground arith in
      absurd (e (omega (int_laws, b, parts_cases q)))
]

-- What a round of the loop says when it does not throw.
pub record IsAdded (r : Rounding) (start : ℤ) (hours hours' : List HourlyExtremaSlot)
    (timestamp : Option ℤ) (temperature : Num) : Type 0 where
  pub instant : ℤ
  pub timed : timestamp ≡ some instant
  pub from_start : start ≤ℤ instant
  pub before_end : instant <ℤ start +ℤ pos day_ms
  pub value : ℤ
  pub finite : temperature ≡ fin value
  pub code : ℕ
  pub encoded : encode_temperature r (fin value) ≡ ok code
  pub slot : HourlyExtremaSlot
  pub found : get_elem? hours (pos_part (div_floor (instant -ℤ start) hour_ms)) ≡ some slot
  pub written :
      hours'
      ≡ set hours (pos_part (div_floor (instant -ℤ start) hour_ms)) (add_to_slot slot (fin value))

module _ (r : Rounding) (start : ℤ) where
  pub add_reading-IsAdded :
      (hours hours' : List HourlyExtremaSlot) (timestamp : Option ℤ) (temperature : Num)
      → add_reading r start hours timestamp temperature ≡ ok hours'
      → IsAdded r start hours hours' timestamp temperature
  unfolding add_reading
  add_reading-IsAdded hours hours' none v e = cc
  add_reading-IsAdded hours hours' (some t) nan e = absurd (ground arith)
  add_reading-IsAdded hours hours' (some t) neg_inf e = absurd (ground arith)
  add_reading-IsAdded hours hours' (some t) pos_inf e = absurd (ground arith)
  add_reading-IsAdded hours hours' (some t) (fin v) e =
      elim (Bool-cases (leb_ℤ start t && ltb_ℤ t (start +ℤ pos day_ms))) [
        | inr outside ↦ cc (rw outside at e)
        | inl inside ↦ elim (Result-cases (encode_temperature r (fin v))) [
          | inr (m, bad) ↦ cc (rw (inside, bad) at e)
          | inl (code, good) ↦
              elim (Option-cases (get_elem? hours (pos_part (div_floor (t -ℤ start) hour_ms)))) [
                | inl missing ↦ cc (rw (inside, good, missing) at e)
                | inr (h, found) ↦ record {
                  instant = t;
                  timed = refl;
                  from_start = ground arith;
                  before_end = ground arith;
                  value = v;
                  finite = refl;
                  code = code;
                  encoded = good;
                  slot = h;
                  found = found;
                  written = sym (ok-injective _ _ (rw (inside, good, found) at e));
                }
              ]
        ]
      ]

  -- A round changes the slot of the record's hour and no other.
  pub add_reading_slot :
      (hours hours' : List HourlyExtremaSlot) (timestamp : Option ℤ) (temperature : Num) (i : ℕ)
      (s : HourlyExtremaSlot)
      → add_reading r start hours timestamp temperature ≡ ok hours'
      → get_elem? hours i ≡ some s
      → get_elem? hours' i
        ≡ some (if in_hour start i timestamp then add_to_slot s temperature else s)
  add_reading_slot hours hours' timestamp temperature i s e g =
      let a = add_reading-IsAdded hours hours' timestamp temperature e in
      let k = pos_part (div_floor (a.instant -ℤ start) hour_ms) in
      elim (Bool-cases (k == i)) [
        | inl same ↦
            let e1 : k ≡ i = (==_iff k i).0 same in
            let same_slot : s ≡ a.slot = cc (a.found, g, ap (get_elem? hours) e1) in
            rw
              (
                a.timed,
                hour_index_of start a.instant i a.from_start e1,
                a.finite,
                a.written,
                e1,
                same_slot,
              )
              (get_elem?-set_self hours i _ (lt-length_of_get_elem? hours i s g))
        | inr other ↦
            let e1 : k ≢ i = λ p. cc (other, (==_iff k i).1 p) in
            rw (a.timed, not_hour_index_of start a.instant i a.from_start e1, a.written)
              (get_elem?-set_ne hours _ e1 ∙ g)
      ]

  -- After the loop each slot holds the temperatures of its hour, added in the records' order.
  pub add_records_slot :
      (records : List SensorRecord) (hours hours' : List HourlyExtremaSlot) (i : ℕ)
      (s : HourlyExtremaSlot)
      → add_records r start hours records ≡ ok hours'
      → get_elem? hours i ≡ some s
      → get_elem? hours' i ≡ some (add_temperatures s (hour_temperatures start i records))
  unfolding add_records add_temperatures hour_temperatures
  add_records_slot [] hours hours' i s e g = ground arith
  add_records_slot (x ∷ xs) hours hours' i s e g =
      elim (Result-cases (add_reading r start hours x.timestamp x.temperature)) [
        | inr (m, bad) ↦ cc (rw bad at e)
        | inl (next, good) ↦
            let g' = add_reading_slot hours next x.timestamp x.temperature i s good g in
            let rest = add_records_slot xs next hours' i _ (rw good at e) g' in
            elim (Bool-cases (in_hour start i x.timestamp)) [
              | inl inside ↦ rw inside (rw inside at rest)
              | inr outside ↦ rw outside (rw outside at rest)
            ]
      ]

  pub add_records-length :
      (records : List SensorRecord) (hours hours' : List HourlyExtremaSlot)
      → add_records r start hours records ≡ ok hours'
      → length hours' ≡ length hours
  unfolding add_records
  add_records-length [] hours hours' e = ground arith
  add_records-length (x ∷ xs) hours hours' e =
      elim (Result-cases (add_reading r start hours x.timestamp x.temperature)) [
        | inr (m, bad) ↦ cc (rw bad at e)
        | inl (next, good) ↦
            let a = add_reading-IsAdded hours next x.timestamp x.temperature good in
            add_records-length xs next hours' (rw good at e)
            ∙ (ap length a.written ∙ length-set hours _ _)
      ]
