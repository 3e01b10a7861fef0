-- ===== src/Protocol/Extrema/Verdict.antt =====
-- What the slot of an hour says of the temperatures that were recorded in that hour.
use midnight_buildathons_bac.Prelude.{
  ℕ, ◌≡◌, refl, ap, ◌∙◌, Bool, true, ◌&&◌, not, if◌then◌else◌, List, [], ◌∷◌, All, arith, ◌≤◌,
}
use midnight_buildathons_bac.Prelude.Int.{ℤ, leb_ℤ, ltb_ℤ}
use midnight_buildathons_bac.Prelude.Num.{Num, fin}
use midnight_buildathons_bac.Prelude.Results.{ok}
use midnight_buildathons_bac.Protocol.Temperature.{Rounding, encode_temperature}
use midnight_buildathons_bac.Protocol.Policy.{
  HourThresholdResult, no_data, within_threshold, outside_threshold, ThresholdPolicyDescriptor,
  policy_allows, policy_allows-widen, policy_allows-ordered, below, above, low_of, high_of,
}
use midnight_buildathons_bac.Protocol.Extrema.{HourlyExtremaSlot, empty_slot, add_to_slot}
use midnight_buildathons_bac.Protocol.Extrema.Slots.{add_temperatures}
use midnight_buildathons_bac.Protocol.Extrema.Evaluate.{evaluate_hour}

-- The policy allows a temperature that lies on the right side of each bound that its mode has.
abbrev pub temperature_allowed : ThresholdPolicyDescriptor → Num → Bool
temperature_allowed policy v = not (below policy v) && not (above policy v)

abbrev pub all_allowed : ThresholdPolicyDescriptor → List Num → Bool
all_allowed policy [] = true
all_allowed policy (v ∷ vs) = temperature_allowed policy v && all_allowed policy vs

-- The verdict on an hour, from all its temperatures.
abbrev pub hour_verdict : ThresholdPolicyDescriptor → List Num → HourThresholdResult
hour_verdict policy [] = no_data
hour_verdict policy (v ∷ vs) =
    if all_allowed policy (v ∷ vs) then within_threshold else outside_threshold

and_assoc : (a b c : Bool) → ((a && b) && c) ≡ (a && (b && c))
and_assoc a b c = ground arith

module _ (r : Rounding) where
  pub record IsEncodable (v : Num) : Type 0 where
    pub value : ℤ
    pub finite : v ≡ fin value
    pub code : ℕ
    pub encoded : encode_temperature r (fin value) ≡ ok code

  -- A slot that holds at least one temperature.
  pub record IsObserved (i : ℕ) (s : HourlyExtremaSlot) : Type 0 where
    pub indexed : s.hour_index ≡ i
    pub present : s.present ≡ true
    pub counted : 1 ≤ s.sample_count
    pub low : ℤ
    pub high : ℤ
    pub minimum : s.minimum ≡ fin low
    pub maximum : s.maximum ≡ fin high
    pub ordered : leb_ℤ low high ≡ true
    pub low_code : ℕ
    pub high_code : ℕ
    pub low_encoded : encode_temperature r (fin low) ≡ ok low_code
    pub high_encoded : encode_temperature r (fin high) ≡ ok high_code

  first-IsObserved : (i : ℕ) (v : Num) → IsEncodable v → IsObserved i (add_to_slot (empty_slot i) v)
  unfolding add_to_slot
  first-IsObserved i v e = record {
    indexed = refl;
    present = refl;
    counted = omega arith;
    low = e.value;
    high = e.value;
    minimum = e.finite;
    maximum = e.finite;
    ordered = ground arith;
    low_code = e.code;
    high_code = e.code;
    low_encoded = e.encoded;
    high_encoded = e.encoded;
  }

  next-IsObserved :
      (i : ℕ) (s : HourlyExtremaSlot) (v : Num)
      → IsObserved i s
      → IsEncodable v
      → IsObserved i (add_to_slot s v)
  unfolding add_to_slot
  next-IsObserved i s v o e = record {
    indexed = rw o.present o.indexed;
    present = rw o.present;
    counted = omega arith;
    low = low_of o.low e.value;
    high = high_of o.high e.value;
    minimum = rw (o.present, o.minimum, e.finite) (ground arith);
    maximum = rw (o.present, o.maximum, e.finite) (ground arith);
    ordered = ground (arith, o.ordered);
    low_code = if ltb_ℤ e.value o.low then e.code else o.low_code;
    high_code = if ltb_ℤ o.high e.value then e.code else o.high_code;
    low_encoded = ground (arith, o.low_encoded, e.encoded);
    high_encoded = ground (arith, o.high_encoded, e.encoded);
  }

  first_allows :
      (policy : ThresholdPolicyDescriptor) (i : ℕ) (v : Num)
      → IsEncodable v
      → policy_allows policy
          (add_to_slot (empty_slot i) v).minimum
          (add_to_slot (empty_slot i) v).maximum
        ≡ temperature_allowed policy v
  unfolding add_to_slot
  first_allows policy i v e =
      rw e.finite (policy_allows-ordered policy e.value e.value (ground arith))

  next_allows :
      (policy : ThresholdPolicyDescriptor) (i : ℕ) (s : HourlyExtremaSlot) (v : Num)
      → IsObserved i s
      → IsEncodable v
      → policy_allows policy (add_to_slot s v).minimum (add_to_slot s v).maximum
        ≡ (policy_allows policy s.minimum s.maximum && temperature_allowed policy v)
  unfolding next-IsObserved
  next_allows policy i s v o e =
      let o' = next-IsObserved i s v o e in
      rw (o'.minimum, o'.maximum, o.minimum, o.maximum, e.finite)
        (policy_allows-widen policy o.low o.high e.value o.ordered
          ∙ ap (λ b. policy_allows policy (fin o.low) (fin o.high) && b)
              (policy_allows-ordered policy e.value e.value (ground arith)))

  pub add_temperatures-IsObserved :
      (i : ℕ) (s : HourlyExtremaSlot) (vs : List Num)
      → IsObserved i s
      → All IsEncodable vs
      → IsObserved i (add_temperatures s vs)
  unfolding add_temperatures
  add_temperatures-IsObserved i s [] o h = o
  add_temperatures-IsObserved i s (v ∷ vs) o (e, h) =
      add_temperatures-IsObserved i (add_to_slot s v) vs (next-IsObserved i s v o e) h

  pub add_temperatures_allows :
      (policy : ThresholdPolicyDescriptor) (i : ℕ) (s : HourlyExtremaSlot) (vs : List Num)
      → IsObserved i s
      → All IsEncodable vs
      → policy_allows policy (add_temperatures s vs).minimum (add_temperatures s vs).maximum
        ≡ (policy_allows policy s.minimum s.maximum && all_allowed policy vs)
  unfolding add_temperatures
  add_temperatures_allows policy i s [] o h = ground arith
  add_temperatures_allows policy i s (v ∷ vs) o (e, h) =
      add_temperatures_allows policy i (add_to_slot s v) vs (next-IsObserved i s v o e) h
      ∙ (ap (λ b. b && all_allowed policy vs) (next_allows policy i s v o e)
          ∙ and_assoc (policy_allows policy s.minimum s.maximum) (temperature_allowed policy v)
              (all_allowed policy vs))

  evaluate_observed :
      (policy : ThresholdPolicyDescriptor) (i : ℕ) (s : HourlyExtremaSlot)
      → IsObserved i s
      → evaluate_hour r policy s
        ≡ ok (
            if policy_allows policy s.minimum s.maximum
            then within_threshold
            else outside_threshold)
  unfolding evaluate_hour
  evaluate_observed policy i s o =
      rw (o.present, o.minimum, o.maximum, o.low_encoded, o.high_encoded)
        (ground (arith, o.counted, o.ordered))

  -- The evaluation of the slot made of temperatures that can be encoded never throws, and returns
  -- NO DATA if there are none, WITHIN if the policy allows each of them, and OUTSIDE otherwise.
  pub evaluate_hour-verdict :
      (policy : ThresholdPolicyDescriptor) (i : ℕ) (vs : List Num)
      → All IsEncodable vs
      → evaluate_hour r policy (add_temperatures (empty_slot i) vs) ≡ ok (hour_verdict policy vs)
  unfolding add_temperatures
  evaluate_hour-verdict policy i [] h = unfold evaluate_hour in refl
  evaluate_hour-verdict policy i (v ∷ vs) (e, h) =
      let s = add_to_slot (empty_slot i) v in
      let o = first-IsObserved i v e in
      evaluate_observed policy i (add_temperatures s vs) (add_temperatures-IsObserved i s vs o h)
      ∙ rw (add_temperatures_allows policy i s vs o h, first_allows policy i v e)
