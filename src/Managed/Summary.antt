-- ===== src/Managed/Summary.antt =====
-- summarize of backend/cloudflare/proof-gateway-worker/src/managed-source-core.ts: the measurements of
-- each hour of the day. Sums and quotients of doubles are parameters.
use midnight_buildathons_bac.Prelude.{
  ℕ, suc, ◌+◌, String, Option, none, some, List, [], ◌∷◌, if◌then◌else◌, ◌==◌, get_elem?, set,
  replicate, ◌*◌,
}
use midnight_buildathons_bac.Prelude.Int.{ℤ, pos, negsuc, ◌+ℤ◌, ◌-ℤ◌, div_floor}
use midnight_buildathons_bac.Prelude.Num.{Num, pos_inf, neg_inf, num_min, num_max, num_zero}
use midnight_buildathons_bac.Protocol.Day.{hour_ms}
use midnight_buildathons_bac.Managed.Failure.{Fetched, error, value, ◌>>=◌}
use midnight_buildathons_bac.Managed.Response.{FixedWindowMeasurement}

pub record Accumulator : Type 0 where
  pub count : ℕ
  pub minimum : Num
  pub maximum : Num
  pub sum : Num

pub record HourlyMeasurementSummary : Type 0 where
  pub hour_index : ℕ
  pub period_start : ℤ
  pub period_end : ℤ
  pub sample_count : ℕ
  pub minimum : Option Num
  pub maximum : Option Num
  pub average : Option Num

-- `x + y` and `x / n` of doubles.
pub record Sums : Type 0 where
  pub add : Num → Num → Num
  pub divide : Num → ℕ → Num

abbrev pub empty_accumulator : Accumulator
empty_accumulator = record { count = 0; minimum = pos_inf; maximum = neg_inf; sum = num_zero }

-- `accumulators[hour]`
abbrev pub at_hour : List Accumulator → ℤ → Option Accumulator
at_hour xs (pos i) = get_elem? xs i
at_hour xs (negsuc i) = none

abbrev pub set_hour : List Accumulator → ℤ → Accumulator → List Accumulator
set_hour xs (pos i) a = set xs i a
set_hour xs (negsuc i) a = xs

module _ (date_parse : String → Option ℤ) (s : Sums) where
  open s use {add, divide}

  abbrev pub add_to_accumulator : Accumulator → Num → Accumulator
  add_to_accumulator a x = record {
    count = a.count + 1;
    minimum = num_min a.minimum x;
    maximum = num_max a.maximum x;
    sum = add a.sum x;
  }

  abbrev pub accumulate_found :
      List Accumulator → ℤ → Num → Option Accumulator → Fetched (List Accumulator)
  accumulate_found xs hour x none = error "Measurement hour is outside the fixed daily window"
  accumulate_found xs hour x (some a) = value (set_hour xs hour (add_to_accumulator a x))

  -- The hour of an instant that is no date is NaN, which is no index.
  unfoldable pub accumulate_at : ℤ → List Accumulator → Option ℤ → Num → Fetched (List Accumulator)
  accumulate_at start xs none x = error "Measurement hour is outside the fixed daily window"
  accumulate_at start xs (some epoch) x =
      let hour = div_floor (epoch -ℤ start) hour_ms in accumulate_found xs hour x (at_hour xs hour)

  unfoldable pub accumulate :
      ℤ → List Accumulator → List FixedWindowMeasurement → Fetched (List Accumulator)
  accumulate start xs [] = value xs
  accumulate start xs (m ∷ ms) = do
    xs' ← accumulate_at start xs (date_parse m.recorded_at) m.value
    accumulate start xs' ms

  abbrev if_any : ℕ → Num → Option Num
  if_any n x = if n == 0 then none else some x

  abbrev pub summary_of : ℤ → ℕ → Accumulator → HourlyMeasurementSummary
  summary_of start hour_index a = record {
    hour_index = hour_index;
    period_start = start +ℤ pos (hour_index * hour_ms);
    period_end = start +ℤ pos ((hour_index + 1) * hour_ms);
    sample_count = a.count;
    minimum = if_any a.count a.minimum;
    maximum = if_any a.count a.maximum;
    average = if_any a.count (divide a.sum a.count);
  }

  -- `accumulators.map(…)` from the index `i` on.
  unfoldable pub summaries_from : ℤ → ℕ → List Accumulator → List HourlyMeasurementSummary
  summaries_from start i [] = []
  summaries_from start i (a ∷ xs) = summary_of start i a ∷ summaries_from start (suc i) xs

  unfoldable pub summarize :
      List FixedWindowMeasurement → ℤ → Fetched (List HourlyMeasurementSummary)
  summarize measurements start = do
    xs ← accumulate start (replicate 24 empty_accumulator) measurements
    value (summaries_from start 0 xs)
