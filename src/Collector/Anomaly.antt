-- ===== src/Collector/Anomaly.antt =====
-- evaluateAnomaly of edge-device/sensor-collector/src/aggregation.ts: a two-state detector with
-- hysteresis, a debounce count and a cooldown.
pub mod Laws
use midnight_buildathons_bac.Prelude.{
  ℕ, ◌+◌, ◌*◌, String, Bool, true, false, ◌&&◌, ◌||◌, Option, none, some, if◌then◌else◌, ltb,
}
use midnight_buildathons_bac.Prelude.Int.{ℤ, pos, ◌-ℤ◌, ltb_ℤ}
use midnight_buildathons_bac.Prelude.Num.{Num, num_lt, num_le}
use midnight_buildathons_bac.Collector.Window.{Arithmetic}

pub data AnomalyPhase : Type 0 where
  normal anomaly_open : AnomalyPhase

pub data AnomalyTransition : Type 0 where
  opened recovered : AnomalyTransition

-- `lastEventAt` is an instant.
pub record AnomalyState : Type 0 where
  pub state : AnomalyPhase
  pub pending_transition : Option AnomalyTransition
  pub pending_count : ℕ
  pub last_event_at : Option ℤ

-- `eventId` is made from the device, the instant and the transition.
pub record AnomalyEvent : Type 0 where
  pub project_id : String
  pub device_id : String
  pub transition : AnomalyTransition
  pub occurred_at : ℤ
  pub threshold_policy_version : String

pub record AnomalyConfig : Type 0 where
  pub project_id : String
  pub device_id : String
  pub normal_minimum : Num
  pub normal_maximum : Num
  pub hysteresis : Num
  pub debounce_samples : ℕ
  pub cooldown_seconds : ℕ
  pub threshold_policy_version : String

abbrev pub initial_anomaly_state : AnomalyState
initial_anomaly_state = record {
  state = normal;
  pending_transition = none;
  pending_count = 0;
  last_event_at = none;
}

abbrev pub same_transition : Option AnomalyTransition → AnomalyTransition → Bool
same_transition (some opened) opened = true
same_transition (some recovered) recovered = true
same_transition _ _ = false

abbrev pub instant_or_zero : Option ℤ → ℤ
instant_or_zero none = pos 0
instant_or_zero (some t) = t

abbrev pub phase_after : AnomalyTransition → AnomalyPhase
phase_after opened = anomaly_open
phase_after recovered = normal

module _ (a : Arithmetic) (c : AnomalyConfig) where
  unfoldable pub is_outside : Num → Bool
  is_outside value = num_lt value c.normal_minimum || num_lt c.normal_maximum value

  unfoldable pub is_recovered : Num → Bool
  is_recovered value =
      num_le (a.add c.normal_minimum c.hysteresis) value
      && num_le value (a.sub c.normal_maximum c.hysteresis)

  unfoldable pub candidate_of : AnomalyPhase → Num → Option AnomalyTransition
  candidate_of normal value = if is_outside value then some opened else none
  candidate_of anomaly_open value = if is_recovered value then some recovered else none

  unfoldable pub evaluate_candidate :
      AnomalyState → Option AnomalyTransition → ℤ → AnomalyState × Option AnomalyEvent
  evaluate_candidate s none measured_at =
      (record s { pending_transition = none; pending_count = 0 }, none)
  evaluate_candidate s (some candidate) measured_at =
      let pending_count =
        if same_transition s.pending_transition candidate then s.pending_count + 1 else 1 in
      let waiting = record s {
        pending_transition = some candidate;
        pending_count = pending_count;
      } in
      let event : AnomalyEvent = record {
        project_id = c.project_id;
        device_id = c.device_id;
        transition = candidate;
        occurred_at = measured_at;
        threshold_policy_version = c.threshold_policy_version;
      } in
      let fired : AnomalyState = record {
        state = phase_after candidate;
        pending_transition = none;
        pending_count = 0;
        last_event_at = some measured_at;
      } in
      if ltb pending_count c.debounce_samples
      then (waiting, none)
      else if ltb_ℤ (measured_at -ℤ instant_or_zero s.last_event_at)
          (pos (c.cooldown_seconds * 1000))
      then (waiting, none)
      else (fired, some event)

  unfoldable pub evaluate_anomaly : AnomalyState → Num → ℤ → AnomalyState × Option AnomalyEvent
  unfolding evaluate_candidate
  evaluate_anomaly s value measured_at =
      evaluate_candidate s (candidate_of s.state value) measured_at
