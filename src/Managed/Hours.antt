-- ===== src/Managed/Hours.antt =====
-- The accumulators of backend/cloudflare/proof-gateway-worker/src/managed-source-core.ts beside the
-- hourly slots of shared/measurement-protocol, measurement by measurement.
use midnight_buildathons_bac.Prelude.{
  ℕ, zero, suc, ◌+◌, ◌/◌, ◌≤◌, ◌<◌, ◌≡◌, ◌⊎◌, refl, ◌∙◌, String, true, false, ◌&&◌, Option, some,
  List, [], ◌∷◌, inl, inr, Option-cases, All, length, length-set, get_elem?, set, replicate, arith,
}
use midnight_buildathons_bac.Prelude.Int.{
  ℤ, pos, ◌+ℤ◌, ◌-ℤ◌, ltb_ℤ, leb_ℤ, eqb_ℤ, ◌≤ℤ◌, ◌<ℤ◌, div_floor, pos_part, neg_part, int_laws,
  parts_cases,
}
use midnight_buildathons_bac.Prelude.Num.{Num, fin, nan, pos_inf, neg_inf, is_finite}
use midnight_buildathons_bac.Prelude.Results.{ok, Result-cases}
use midnight_buildathons_bac.Protocol.Day.{hour_ms, day_ms}
use midnight_buildathons_bac.Protocol.Temperature.{Rounding, encode_temperature}
use midnight_buildathons_bac.Protocol.Extrema.{
  HourlyExtremaSlot, empty_slots, add_to_slot, add_reading, add_records,
}
use midnight_buildathons_bac.Managed.Failure.{value}
use midnight_buildathons_bac.Managed.Response.{FixedWindowMeasurement, is_supported, is_ok}
use midnight_buildathons_bac.Managed.Summary.{
  Accumulator, empty_accumulator, Sums, add_to_accumulator, accumulate_at, accumulate,
}
use midnight_buildathons_bac.Managed.Fetch.{Runtime, records_of}
use midnight_buildathons_bac.Managed.Accepted.{IsAccepted}

-- An accumulator and a slot that hold the same measurements.
abbrev pub Same : Accumulator → HourlyExtremaSlot → Type 0
Same a h =
    (h.sample_count ≡ a.count)
    × (((a.count ≡ 0) × (h.present ≡ false) × (a.minimum ≡ pos_inf) × (a.maximum ≡ neg_inf))
        ⊎ ((1 ≤ a.count) × (h.present ≡ true) × (h.minimum ≡ a.minimum) × (h.maximum ≡ a.maximum)))

abbrev pub AllSame : List Accumulator → List HourlyExtremaSlot → Type 0
AllSame [] [] = Unit
AllSame [] (h ∷ hs) = ⊥
AllSame (a ∷ xs) [] = ⊥
AllSame (a ∷ xs) (h ∷ hs) = Same a h × AllSame xs hs

module _ (s : Sums) (date_parse : String → Option ℤ) where
  Same-add :
      (a : Accumulator) (h : HourlyExtremaSlot) (x : Num)
      → Same a h
      → Same (add_to_accumulator date_parse s a x) (add_to_slot h x)
  unfolding add_to_slot
  Same-add a h x same = elim same.1 [
    | inl first ↦
        rw (first.1, first.2, first.3) (rw same.0 refl, inr (omega arith, refl, refl, refl))
    | inr more ↦ rw more.1 (rw same.0 refl, inr (omega arith, refl, rw more.2 refl, rw more.3 refl))
  ]

get_elem?-Same :
    (xs : List Accumulator) (hs : List HourlyExtremaSlot) (i : ℕ)
    → AllSame xs hs
    → i < length hs
    → (a : Accumulator) × (h : HourlyExtremaSlot) × (get_elem? xs i ≡ some a)
      × (get_elem? hs i ≡ some h)
      × Same a h
get_elem?-Same [] [] i same small = absurd (omega (arith, small))
get_elem?-Same [] (h ∷ hs) i same small = absurd same
get_elem?-Same (a ∷ xs) [] i same small = absurd same
get_elem?-Same (a ∷ xs) (h ∷ hs) zero same small = (a, h, refl, refl, same.0)
get_elem?-Same (a ∷ xs) (h ∷ hs) (suc i) same small =
    get_elem?-Same xs hs i same.1 (omega (arith, small))

set-Same :
    (xs : List Accumulator) (hs : List HourlyExtremaSlot) (i : ℕ) (a : Accumulator)
    (h : HourlyExtremaSlot)
    → AllSame xs hs
    → Same a h
    → AllSame (set xs i a) (set hs i h)
set-Same [] [] i a h same this = tt
set-Same [] (x ∷ hs) i a h same this = absurd same
set-Same (x ∷ xs) [] i a h same this = absurd same
set-Same (x ∷ xs) (y ∷ hs) zero a h same this = (this, same.1)
set-Same (x ∷ xs) (y ∷ hs) (suc i) a h same this = (same.0, set-Same xs hs i a h same.1 this)

-- The instant as milliseconds since the start of the day.
time_of_day :
    (start end t : ℤ)
    → eqb_ℤ (end -ℤ start) (pos day_ms) ≡ true
    → (leb_ℤ start t && ltb_ℤ t end) ≡ true
    → (t -ℤ start ≡ pos (pos_part (t -ℤ start))) × (pos_part (t -ℤ start) < day_ms)
time_of_day start end t day inside =
    let low : start ≤ℤ t = ground arith in
    let high : t <ℤ end = ground arith in
    let length_of_day : pos_part (end -ℤ start) + 0 ≡ day_ms + neg_part (end -ℤ start) =
      ground arith in
    let none_before : neg_part (t -ℤ start) ≡ 0 = omega (int_laws, parts_cases (t -ℤ start), low) in
    (omega (int_laws, none_before), omega (int_laws, none_before, low, high, length_of_day))

-- The hour of an instant of the day.
hour_of_day :
    (start end t : ℤ)
    → eqb_ℤ (end -ℤ start) (pos day_ms) ≡ true
    → (leb_ℤ start t && ltb_ℤ t end) ≡ true
    → (i : ℕ) × (i < 24)
      × (div_floor (t -ℤ start) hour_ms ≡ pos i)
      × ((leb_ℤ start t && ltb_ℤ t (start +ℤ pos day_ms)) ≡ true)
unfolding div_floor
hour_of_day start end t day inside =
    let time = time_of_day start end t day inside in
    let low : start ≤ℤ t = ground arith in
    let high : t <ℤ start +ℤ pos day_ms = omega (int_laws, low, time.1) in
    (
      pos_part (t -ℤ start) / hour_ms,
      omega (arith, time.1),
      rw time.0 refl,
      ground (arith, low, high),
    )

add_reading-ok :
    (r : Rounding) (start t : ℤ) (hs : List HourlyExtremaSlot) (x : Num) (i : ℕ)
    (h : HourlyExtremaSlot)
    → (leb_ℤ start t && ltb_ℤ t (start +ℤ pos day_ms)) ≡ true
    → div_floor (t -ℤ start) hour_ms ≡ pos i
    → get_elem? hs i ≡ some h
    → (is_finite x && is_ok (encode_temperature r x)) ≡ true
    → add_reading r start hs (some t) x ≡ ok (set hs i (add_to_slot h x))
unfolding add_reading
add_reading-ok r start t hs nan i h inside hour found supported = cc
add_reading-ok r start t hs neg_inf i h inside hour found supported = cc
add_reading-ok r start t hs pos_inf i h inside hour found supported = cc
add_reading-ok r start t hs (fin v) i h inside hour found supported =
    elim (Result-cases (encode_temperature r (fin v))) [
      | inl encoded ↦ rw (inside, encoded.1, hour, found, hour) refl
      | inr thrown ↦ let impossible = rw thrown.1 at supported in cc
    ]

module _ (runtime : Runtime) (device_id : String) (start end : ℤ) where
  open runtime use {date_parse, locale_le, rounding as r, sums as s}

  step :
      (xs : List Accumulator) (hs : List HourlyExtremaSlot) (m : FixedWindowMeasurement)
      → eqb_ℤ (end -ℤ start) (pos day_ms) ≡ true
      → AllSame xs hs
      → length hs ≡ 24
      → IsAccepted date_parse locale_le r start end m
      → (xs' : List Accumulator) × (hs' : List HourlyExtremaSlot) × (accumulate_at date_parse s
            start xs
            (date_parse m.recorded_at)
            m.value
          ≡ value xs')
        × (add_reading r start hs (date_parse m.recorded_at) m.value ≡ ok hs')
        × AllSame xs' hs'
        × (length hs' ≡ 24)
  unfolding accumulate_at add_reading is_supported
  step xs hs m day same size accepted = elim (Option-cases (date_parse m.recorded_at)) [
    | inl no_date ↦ let impossible = rw no_date at accepted.0 in cc
    | inr dated ↦
        let hour = hour_of_day start end dated.0 day (rw dated.1 at accepted.0) in
        let found = get_elem?-Same xs hs hour.0 same (omega (arith, hour.1, size)) in
        let a = found.0 in
        let h = found.1 in
        (
          set xs hour.0 (add_to_accumulator date_parse s a m.value),
          set hs hour.0 (add_to_slot h m.value),
          rw (dated.1, hour.2, found.2) refl,
          rw dated.1
              (add_reading-ok r start dated.0 hs m.value hour.0 h hour.3 hour.2 found.3 accepted.1),
          set-Same xs hs hour.0 _ _ same (Same-add s date_parse a h m.value found.4),
          length-set hs hour.0 _ ∙ size,
        )
  ]

  pub accumulate-AllSame :
      (ms : List FixedWindowMeasurement) (xs : List Accumulator) (hs : List HourlyExtremaSlot)
      → eqb_ℤ (end -ℤ start) (pos day_ms) ≡ true
      → AllSame xs hs
      → length hs ≡ 24
      → All (IsAccepted date_parse locale_le r start end) ms
      → (xs' : List Accumulator) × (hs' : List HourlyExtremaSlot) × (accumulate date_parse s start
            xs ms
          ≡ value xs')
        × (add_records r start hs (records_of runtime device_id ms) ≡ ok hs')
        × AllSame xs' hs'
  unfolding accumulate add_records records_of
  accumulate-AllSame [] xs hs day same size accepted = (xs, hs, refl, refl, same)
  accumulate-AllSame (m ∷ ms) xs hs day same size accepted =
      let first = step xs hs m day same size accepted.0 in
      let rest = accumulate-AllSame ms first.0 first.1 day first.4 first.5 accepted.1 in
      (rest.0, rest.1, rw first.2 rest.2, rw first.3 rest.3, rest.4)

pub empty_slots-AllSame : (n i : ℕ) → AllSame (replicate n empty_accumulator) (empty_slots n i)
unfolding empty_slots
empty_slots-AllSame zero i = tt
empty_slots-AllSame (suc n) i =
    ((refl, inl (refl, refl, refl, refl)), empty_slots-AllSame n (suc i))
