-- ===== src/Managed/Accepted.antt =====
-- What parseSourceResponse of backend/cloudflare/proof-gateway-worker/src/managed-source-core.ts checks of
-- each measurement that it returns.
use midnight_buildathons_bac.Prelude.{
  ◌≡◌, refl, String, Bool, true, not, Option, none, some, List, [], ◌∷◌, ◌++◌, inl, inr, subst,
  ◌||◌, Bool-cases, All, length, leb, str_eq,
}
use midnight_buildathons_bac.Prelude.Int.{ℤ}
use midnight_buildathons_bac.Prelude.Num.{Num, num_eq}
use midnight_buildathons_bac.Prelude.Tables.{find_where}
use midnight_buildathons_bac.Protocol.Identifier.{matches_identifier}
use midnight_buildathons_bac.Protocol.Temperature.{Rounding}
use midnight_buildathons_bac.Managed.Failure.{Fetched, fails, error, value, ◌>>=◌}
use midnight_buildathons_bac.Managed.Response.{
  FixedWindowMeasurement, FixedWindowFetchInput, Sample, no_object, object, Json, invalid_json,
  no_json_object, json_object, measurement_of, value_or_zero, require_echo, maximum_samples,
  same_id, is_within, is_supported, keep_unique, add_sample, add_samples, in_order,
  insert_measurement, sort_measurements, parse_samples, parse_source_response,
}

pub bind-value {κ μ} :
    {A : Type κ} {B : Type μ} (first : Fetched A) (next : A → Fetched B) {y : B}
    → (first >>= next) ≡ value y
    → (x : A) × (first ≡ value x) × (next x ≡ value y)
bind-value (fails e) next h = cc
bind-value (error e) next h = cc
bind-value (value x) next h = (x, refl, h)

pub value-injective {κ} : {A : Type κ} (x y : A) → value x ≡ value y → x ≡ y
value-injective x y same = cc

module _ (date_parse : String → Option ℤ) (locale_le : String → String → Bool) (r : Rounding)
    (start end : ℤ) where
  abbrev pub IsAccepted : FixedWindowMeasurement → Type 0
  IsAccepted m =
      (is_within start end (date_parse m.recorded_at) ≡ true)
      × (is_supported date_parse locale_le r (some m.value) ≡ true)

  All-append :
      (ms : List FixedWindowMeasurement) (m : FixedWindowMeasurement)
      → All IsAccepted ms
      → IsAccepted m
      → All IsAccepted (ms ++ (m ∷ []))
  All-append [] m all this = (this, tt)
  All-append (x ∷ xs) m all this = (all.0, All-append xs m all.1 this)

  keep_unique-All :
      (unique : List FixedWindowMeasurement) (m : FixedWindowMeasurement)
      (found : Option FixedWindowMeasurement) {unique' : List FixedWindowMeasurement}
      → keep_unique unique m found ≡ value unique'
      → All IsAccepted unique
      → IsAccepted m
      → All IsAccepted unique'
  unfolding keep_unique
  keep_unique-All unique m none e all this =
      subst (All IsAccepted) (value-injective _ _ e) (All-append unique m all this)
  keep_unique-All unique m (some p) e all this =
      elim (Bool-cases (not (str_eq p.recorded_at m.recorded_at) || not (num_eq p.value m.value))) [
        | inl differs ↦ let impossible = rw differs at e in cc
        | inr same ↦ subst (All IsAccepted) (value-injective _ _ (rw same at e)) all
      ]

  supported_value :
      (sample : Option Num)
      → is_supported date_parse locale_le r sample ≡ true
      → is_supported date_parse locale_le r (some (value_or_zero sample)) ≡ true
  unfolding is_supported
  supported_value none h = cc
  supported_value (some x) h = h

  add_sample-All :
      (unique : List FixedWindowMeasurement) (s : Sample) {unique' : List FixedWindowMeasurement}
      → add_sample date_parse locale_le r start end unique s ≡ value unique'
      → All IsAccepted unique
      → All IsAccepted unique'
  unfolding add_sample
  add_sample-All unique no_object e all = cc
  add_sample-All unique (object id at sample) e all =
      let m = measurement_of id at sample in
      elim (Bool-cases (matches_identifier m.id)) [
        | inr unsafe ↦ let impossible = rw unsafe at e in cc
        | inl safe ↦
            let e1 = rw safe at e in
            elim (Bool-cases (is_within start end (date_parse m.recorded_at))) [
              | inr outside ↦ let impossible = rw outside at e1 in cc
              | inl inside ↦
                  let e2 = rw inside at e1 in
                  elim (Bool-cases (is_supported date_parse locale_le r sample)) [
                    | inr unsupported ↦ let impossible = rw unsupported at e2 in cc
                    | inl supported ↦
                        keep_unique-All unique m (find_where (same_id m.id) unique)
                          (rw supported at e2) all (inside, supported_value sample supported)
                  ]
            ]
      ]

  add_samples-All :
      (ss : List Sample) (unique : List FixedWindowMeasurement)
      {unique' : List FixedWindowMeasurement}
      → add_samples date_parse locale_le r start end unique ss ≡ value unique'
      → All IsAccepted unique
      → All IsAccepted unique'
  unfolding add_samples
  add_samples-All [] unique e all = subst (All IsAccepted) (value-injective _ _ e) all
  add_samples-All (s ∷ ss) unique e all =
      let next = bind-value (add_sample date_parse locale_le r start end unique s) _ e in
      add_samples-All ss next.0 next.2 (add_sample-All unique s next.1 all)

  insert-All :
      (m : FixedWindowMeasurement) (xs : List FixedWindowMeasurement)
      → IsAccepted m
      → All IsAccepted xs
      → All IsAccepted (insert_measurement date_parse locale_le r m xs)
  unfolding insert_measurement
  insert-All m [] this all = (this, tt)
  insert-All m (x ∷ xs) this all =
      elim (Bool-cases
        (in_order (date_parse m.recorded_at) (date_parse x.recorded_at) (locale_le m.id x.id))) [
          | inl first ↦ rw first (this, all)
          | inr later ↦ rw later (all.0, insert-All m xs this all.1)
        ]

  sort-All :
      (xs : List FixedWindowMeasurement)
      → All IsAccepted xs
      → All IsAccepted (sort_measurements date_parse locale_le r xs)
  unfolding sort_measurements
  sort-All [] all = tt
  sort-All (x ∷ xs) all =
      insert-All x (sort_measurements date_parse locale_le r xs) all.0 (sort-All xs all.1)

  parse_samples-All :
      (samples : Option (List Sample)) {ms : List FixedWindowMeasurement}
      → parse_samples date_parse locale_le r start end samples ≡ value ms
      → All IsAccepted ms
  unfolding parse_samples
  parse_samples-All none e = cc
  parse_samples-All (some ss) e = elim (Bool-cases (leb (length ss) maximum_samples)) [
    | inr many ↦ let impossible = rw many at e in cc
    | inl few ↦
        let b = bind-value (add_samples date_parse locale_le r start end [] ss) _ (rw few at e) in
        subst (All IsAccepted) (value-injective _ _ b.2)
          (sort-All b.0 (add_samples-All ss [] b.1 tt))
  ]

  pub parse_source_response-All :
      (input : FixedWindowFetchInput) (json : Json) {ms : List FixedWindowMeasurement}
      → parse_source_response date_parse locale_le r input start end json ≡ value ms
      → All IsAccepted ms
  unfolding parse_source_response
  parse_source_response-All input invalid_json e = cc
  parse_source_response-All input no_json_object e = cc
  parse_source_response-All input (json_object answer) e =
      let rest = bind-value (require_echo input answer) _ e in
      parse_samples-All answer.measurements rest.2
