-- ===== src/Collector/Window.antt =====
-- The measurement window of edge-device/sensor-collector/src/aggregation.ts. Instants that the
-- source keeps as texts of `toISOString` are integers: the texts of the years 0 to 9999 are in the
-- same order.
pub mod Hours
pub mod Laws
use midnight_buildathons_bac.Prelude.{ℕ, ◌+◌, String, Bool, ◌&&◌, ◌||◌, not, if◌then◌else◌, leb}
use midnight_buildathons_bac.Prelude.Int.{ℤ, pos, ◌+ℤ◌, ◌-ℤ◌, scale, leb_ℤ, ltb_ℤ, div_floor}
use midnight_buildathons_bac.Prelude.Num.{Num, pos_inf, neg_inf, num_zero, num_min, num_max}
use midnight_buildathons_bac.Prelude.Results.{Result, ok, throw, ◌>>=◌, ◌>>◌, require}
use midnight_buildathons_bac.Protocol.Day.{minute_ms, hour_ms}

-- What rounds, and the digest that links each measurement to the one before.
pub record Arithmetic : Type 0 where
  pub add : Num → Num → Num
  pub sub : Num → Num → Num
  pub average : Num → ℕ → Num
  -- `Number(value.toFixed(3))`
  pub rounded : Num → Num
  -- SHA-256 of the previous link, the instant and the value, in base64url.
  pub next_hash : String → ℤ → Num → String

pub record MeasurementWindowState : Type 0 where
  pub period_start : ℤ
  pub period_end : ℤ
  pub count : ℕ
  pub minimum : Num
  pub maximum : Num
  pub sum : Num
  pub hash_chain : String

-- The parts of `batchId` behind its prefix, `window-${deviceId}-${epoch}`.
pub record BatchId : Type 0 where
  pub device_id : String
  pub epoch : ℤ

-- `sensorType` and `unit` are constants.
pub record MeasurementWindow : Type 0 where
  pub batch_id : BatchId
  pub project_id : String
  pub device_id : String
  pub period_start : ℤ
  pub period_end : ℤ
  pub count : ℕ
  pub minimum : Num
  pub maximum : Num
  pub average : Num
  pub commitment : String
  pub threshold_policy_version : String

-- 32 zero bytes
abbrev pub empty_hash : String
empty_hash = "AAAAAAAAAAAAAAAAAAAAAAAAAAAAAAAAAAAAAAAAAAA"

pub record HourBounds : Type 0 where
  pub start : ℤ
  pub end : ℤ

unfoldable pub hour_bounds : ℤ → ℤ → Result HourBounds
hour_bounds measured_at utc_day_start_minute = do
  require (leb_ℤ (pos 0) utc_day_start_minute && leb_ℤ utc_day_start_minute (pos 1439))
      "utcDayStartMinute must be an integer from 0 through 1439"
  let anchor = scale minute_ms utc_day_start_minute
  let start = scale hour_ms (div_floor (measured_at -ℤ anchor) hour_ms) +ℤ anchor
  ok (record { start = start; end = start +ℤ pos hour_ms })

unfoldable pub create_measurement_window : ℤ → ℤ → Result MeasurementWindowState
create_measurement_window measured_at utc_day_start_minute = do
  bounds ← hour_bounds measured_at utc_day_start_minute
  ok (record {
    period_start = bounds.start;
    period_end = bounds.end;
    count = 0;
    minimum = pos_inf;
    maximum = neg_inf;
    sum = num_zero;
    hash_chain = empty_hash;
  })

module _ (a : Arithmetic) where
  unfoldable pub add_measurement : MeasurementWindowState → Num → ℤ → Result MeasurementWindowState
  add_measurement state value measured_at = do
    require (not (ltb_ℤ measured_at state.period_start || leb_ℤ state.period_end measured_at))
        "Measurement does not belong to the active one-hour window"
    ok (record state {
      count = state.count + 1;
      minimum = num_min state.minimum value;
      maximum = num_max state.maximum value;
      sum = a.add state.sum value;
      hash_chain = a.next_hash state.hash_chain measured_at value;
    })

  unfoldable pub finalize_measurement_window :
      MeasurementWindowState → String → String → String → Result MeasurementWindow
  finalize_measurement_window state project_id device_id threshold_policy_version = do
    require (leb 1 state.count) "Cannot finalize an empty measurement window"
    ok (record {
      batch_id = record { device_id = device_id; epoch = state.period_start };
      project_id = project_id;
      device_id = device_id;
      period_start = state.period_start;
      period_end = state.period_end;
      count = state.count;
      minimum = a.rounded state.minimum;
      maximum = a.rounded state.maximum;
      average = a.rounded (a.average state.sum state.count);
      commitment = state.hash_chain;
      threshold_policy_version = threshold_policy_version;
    })
