-- ===== src/Protocol/Policy.antt =====
-- The threshold policy of shared/measurement-protocol/src/index.ts.
use midnight_buildathons_bac.Prelude.{
  ℕ, ◌≡◌, String, Bool, true, false, ◌&&◌, ◌||◌, not, arith, if◌then◌else◌,
}
use midnight_buildathons_bac.Prelude.Int.{ℤ, ltb_ℤ, leb_ℤ}
use midnight_buildathons_bac.Prelude.Num.{Num, fin, nan, neg_inf, pos_inf, num_lt}

pub data ThresholdPolicyMode : Type 0 where
  closed_range upper_bound lower_bound : ThresholdPolicyMode

-- DailyThresholdResult is the last two.
pub data HourThresholdResult : Type 0 where
  no_data within_threshold outside_threshold : HourThresholdResult

pub record ThresholdPolicyDescriptor : Type 0 where
  pub policy_id : String
  pub mode : ThresholdPolicyMode
  pub minimum : Num
  pub maximum : Num
  pub value_scale : ℕ
  pub sensor_type_code : ℕ
  pub unit_code : ℕ
  pub version : ℕ

abbrev pub is_upper_bound : ThresholdPolicyMode → Bool
is_upper_bound upper_bound = true
is_upper_bound _ = false

abbrev pub is_lower_bound : ThresholdPolicyMode → Bool
is_lower_bound lower_bound = true
is_lower_bound _ = false

unfoldable pub policy_allows : ThresholdPolicyDescriptor → Num → Num → Bool
policy_allows policy minimum maximum =
    if num_lt maximum minimum
    then false
    else if not (is_upper_bound policy.mode) && num_lt minimum policy.minimum
    then false
    else if not (is_lower_bound policy.mode) && num_lt policy.maximum maximum
    then false
    else true

-- The two sides that `policyAllows` tests.
abbrev pub below : ThresholdPolicyDescriptor → Num → Bool
below policy v = not (is_upper_bound policy.mode) && num_lt v policy.minimum

abbrev pub above : ThresholdPolicyDescriptor → Num → Bool
above policy v = not (is_lower_bound policy.mode) && num_lt policy.maximum v

pub policy_allows-ordered :
    (policy : ThresholdPolicyDescriptor) (low high : ℤ)
    → leb_ℤ low high ≡ true
    → policy_allows policy (fin low) (fin high)
      ≡ (not (below policy (fin low)) && not (above policy (fin high)))
unfolding policy_allows
policy_allows-ordered policy low high h = ground arith

abbrev pub low_of : ℤ → ℤ → ℤ
low_of x v = if ltb_ℤ v x then v else x

abbrev pub high_of : ℤ → ℤ → ℤ
high_of x v = if ltb_ℤ x v then v else x

lt-low_of :
    (b : Num) (x v : ℤ) → num_lt (fin (low_of x v)) b ≡ (num_lt (fin x) b || num_lt (fin v) b)
lt-low_of nan x v = ground arith
lt-low_of neg_inf x v = ground arith
lt-low_of pos_inf x v = ground arith
lt-low_of (fin b) x v = ground arith

high_of-lt :
    (b : Num) (x v : ℤ) → num_lt b (fin (high_of x v)) ≡ (num_lt b (fin x) || num_lt b (fin v))
high_of-lt nan x v = ground arith
high_of-lt neg_inf x v = ground arith
high_of-lt pos_inf x v = ground arith
high_of-lt (fin b) x v = ground arith

and-or : (a b c : Bool) → (a && (b || c)) ≡ ((a && b) || (a && c))
and-or a b c = ground arith

neither : (a b c d : Bool) → (not (a || c) && not (b || d)) ≡ ((not a && not b) && (not c && not d))
neither a b c d = ground arith

-- Widening a pair of ordered extrema by a temperature asks the policy about the pair and about that
-- temperature: both must be allowed.
pub policy_allows-widen :
    (policy : ThresholdPolicyDescriptor) (low high v : ℤ)
    → leb_ℤ low high ≡ true
    → policy_allows policy (fin (low_of low v)) (fin (high_of high v))
      ≡ (policy_allows policy (fin low) (fin high) && policy_allows policy (fin v) (fin v))
policy_allows-widen policy low high v h =
    rw
      (
        policy_allows-ordered policy (low_of low v) (high_of high v) (ground arith),
        policy_allows-ordered policy low high h,
        policy_allows-ordered policy v v (ground arith),
      )
      (rw (lt-low_of policy.minimum low v, high_of-lt policy.maximum high v)
        (rw
          (
            and-or (not (is_upper_bound policy.mode)) (num_lt (fin low) policy.minimum)
                (num_lt (fin v) policy.minimum),
            and-or (not (is_lower_bound policy.mode)) (num_lt policy.maximum (fin high))
                (num_lt policy.maximum (fin v)),
          )
          (neither _ _ _ _)))
