-- ===== src/Collector/State.antt =====
-- What the collector keeps between runs, and the checks of what it reads back
-- (edge-device/sensor-collector/src/collector.ts). The state file is what
-- JSON.parse and the tests of types make of its text.
pub mod Laws
use midnight_buildathons_bac.Prelude.{
  ℕ, String, Bool, true, ◌&&◌, Option, none, some, if◌then◌else◌, ltb, not, str_eq,
}
use midnight_buildathons_bac.Prelude.Int.{ℤ, pos, ltb_ℤ, leb_ℤ}
use midnight_buildathons_bac.Prelude.Num.{is_finite, num_le}
use midnight_buildathons_bac.Collector.Window.{MeasurementWindowState}
use midnight_buildathons_bac.Collector.Anomaly.{AnomalyState, initial_anomaly_state}

pub record Configuration : Type 0 where
  pub project_id : String
  pub device_id : String
  pub threshold_policy_version : String
  pub utc_day_start_minute : ℤ

pub record PersistentCollectorState : Type 0 where
  pub configuration : Configuration
  pub window : Option MeasurementWindowState
  pub anomaly : AnomalyState
  pub synthetic_tick : ℕ

abbrev pub initial_collector_state : Configuration → PersistentCollectorState
initial_collector_state configuration = record {
  configuration = configuration;
  window = none;
  anomaly = initial_anomaly_state;
  synthetic_tick = 0;
}

-- The 43 characters of a digest in base64url.
module _ (is_digest : String → Bool) where
  -- The fields have their types: `periodStart` and `periodEnd` are dates, `count` is a safe integer.
  unfoldable pub valid_window : MeasurementWindowState → Bool
  valid_window w =
      ltb_ℤ w.period_start w.period_end
      && ltb 0 w.count
      && is_finite w.minimum
      && is_finite w.maximum
      && num_le w.minimum w.maximum
      && is_finite w.sum
      && is_digest w.hash_chain

  unfoldable pub valid_window_or_null : Option MeasurementWindowState → Bool
  valid_window_or_null none = true
  valid_window_or_null (some w) = valid_window w

  unfoldable pub valid_collector_state : PersistentCollectorState → Bool
  valid_collector_state s =
      not (str_eq s.configuration.project_id "")
      && not (str_eq s.configuration.device_id "")
      && not (str_eq s.configuration.threshold_policy_version "")
      && leb_ℤ (pos 0) s.configuration.utc_day_start_minute
      && leb_ℤ s.configuration.utc_day_start_minute (pos 1439)
      && valid_window_or_null s.window

-- What the state file can hold: no JSON, an object of the older schema, an object whose fields
-- have not their types, or a state.
pub data StateFile : Type 0 where
  not_json : StateFile
  schema_1 : StateFile
  ill_typed : StateFile
  schema_2 : PersistentCollectorState → StateFile

pub data QuarantineReason : Type 0 where
  corrupt superseded : QuarantineReason

abbrev pub same_configuration : Configuration → Configuration → Bool
same_configuration a b =
    str_eq a.project_id b.project_id
    && str_eq a.device_id b.device_id
    && str_eq a.threshold_policy_version b.threshold_policy_version
    && leb_ℤ a.utc_day_start_minute b.utc_day_start_minute
    && leb_ℤ b.utc_day_start_minute a.utc_day_start_minute

-- The state to go on from, and why the file was moved away, when it was.
module _ (is_digest : String → Bool) (configuration : Configuration) where
  unfoldable pub load_collector_state :
      Option StateFile → PersistentCollectorState × Option QuarantineReason
  load_collector_state none = (initial_collector_state configuration, none)
  load_collector_state (some not_json) = (initial_collector_state configuration, some corrupt)
  load_collector_state (some schema_1) = (initial_collector_state configuration, some superseded)
  load_collector_state (some ill_typed) = (initial_collector_state configuration, some corrupt)
  load_collector_state (some (schema_2 s)) =
      if valid_collector_state is_digest s
      then if same_configuration s.configuration configuration
        then (s, none)
        else (initial_collector_state configuration, some superseded)
      else (initial_collector_state configuration, some corrupt)
