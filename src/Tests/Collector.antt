-- ===== src/Tests/Collector.antt =====
-- Inputs of the collector: sums of whole numbers, names of windows told apart by their epochs, and
-- four turns of the loop, of which one fails to upload and one to read the sensor.
use midnight_buildathons_bac.Prelude.{
  ◌⊎◌, some, ◌+◌, ◌*◌, ◌≡◌, refl, String, Bool, true, false, none, List, [], ◌∷◌, arith,
}
use midnight_buildathons_bac.Prelude.Int.{ℤ, pos, ◌+ℤ◌, ◌-ℤ◌, ◌≤ℤ◌, ◌<ℤ◌, eqb_ℤ}
use midnight_buildathons_bac.Prelude.Num.{Num, fin, nan}
use midnight_buildathons_bac.Prelude.Results.{Result, ok, throw}
use midnight_buildathons_bac.Protocol.Day.{hour_ms}
use midnight_buildathons_bac.Collector.Window.{
  Arithmetic, HourBounds, MeasurementWindowState, hour_bounds, add_measurement,
}
use midnight_buildathons_bac.Collector.Window.Hours.{hour_bounds-partition}
use midnight_buildathons_bac.Collector.Window.Laws.{
  IsSummary, fresh_window, add_measurement-IsSummary, with_measurement,
}
use midnight_buildathons_bac.Collector.Anomaly.{opened, AnomalyConfig, initial_anomaly_state}
use midnight_buildathons_bac.Collector.Anomaly.Laws.{
  Alternates, Spaced, run_anomaly, run_anomaly-Alternates,
}
use midnight_buildathons_bac.Collector.State.Laws.{IsUsable, load_collector_state-IsUsable}
use midnight_buildathons_bac.Collector.State.{
  load_collector_state, schema_2, Configuration, PersistentCollectorState, initial_collector_state,
}
use midnight_buildathons_bac.Collector.Loop.{
  StableId, window_id, event_id, Names, OutboxEnvelope, World,
}
use midnight_buildathons_bac.Collector.Loop.Outbox.{IsNaming, total_count, active_count}
use midnight_buildathons_bac.Collector.Loop.Conservation.{
  run_collector, empty_world, run_collector-conserves,
}

abbrev whole_sum : Num → Num → Num
whole_sum (fin a) (fin b) = fin (a +ℤ b)
whole_sum _ _ = nan

abbrev whole_difference : Num → Num → Num
whole_difference (fin a) (fin b) = fin (a -ℤ b)
whole_difference _ _ = nan

abbrev whole_arithmetic : Arithmetic
whole_arithmetic = record {
  add = whole_sum;
  sub = whole_difference;
  average = λ sum count. sum;
  rounded = λ x. x;
  next_hash = λ previous t x. "link";
}

abbrev same_id : StableId → StableId → Bool
same_id (window_id b) (window_id c) = eqb_ℤ b.epoch c.epoch
same_id (event_id d t k) (event_id e u l) = eqb_ℤ t u
same_id _ _ = false

abbrev epoch_names : Names
epoch_names = record { same = same_id; before = λ i j. true }

same_epoch :
    (d : String) (x y : ℤ)
    → same_id
        (window_id (record { device_id = d; epoch = x }))
        (window_id (record { device_id = d; epoch = y }))
      ≡ true
    → x ≡ y
same_epoch d x y h = ground arith

epoch_names-IsNaming : IsNaming epoch_names
epoch_names-IsNaming = record { window_epoch = same_epoch; kinds_differ = λ b d t k. refl }

abbrev settings : AnomalyConfig
settings = record {
  project_id = "project";
  device_id = "dev";
  normal_minimum = fin (pos 18);
  normal_maximum = fin (pos 22);
  hysteresis = fin (pos 1);
  debounce_samples = 2;
  cooldown_seconds = 60;
  threshold_policy_version = "v1";
}

abbrev configuration : Configuration
configuration = record {
  project_id = "project";
  device_id = "dev";
  threshold_policy_version = "v1";
  utc_day_start_minute = pos 0;
}

abbrev turns : List ((OutboxEnvelope → Result (Unit {0})) × ℤ × Result Num)
turns =
    ((λ e. ok tt), pos 1000, ok (fin (pos 20)))
    ∷ ((λ e. ok tt), pos 61000, ok (fin (pos 30)))
    ∷ ((λ e. throw "offline"), pos 3600000, ok (fin (pos 30)))
    ∷ ((λ e. ok tt), pos 3601000, throw "sensor")
    ∷ []

abbrev after_turns : World × PersistentCollectorState
after_turns =
    run_collector epoch_names whole_arithmetic settings (pos 0) empty_world
      (initial_collector_state configuration) turns

run_collector-conserves_example :
    total_count after_turns.0.outbox
      + total_count after_turns.0.delivered
      + active_count after_turns.1.window
    ≡ after_turns.1.synthetic_tick
run_collector-conserves_example =
    run_collector-conserves epoch_names whole_arithmetic settings (pos 0) turns configuration
      epoch_names-IsNaming (omega arith) (omega arith)

abbrev samples : List (Num × ℤ)
samples =
    (fin (pos 30), pos 60000)
    ∷ (fin (pos 30), pos 61000)
    ∷ (fin (pos 20), pos 62000)
    ∷ (fin (pos 20), pos 121000)
    ∷ []

run_anomaly-Alternates_example :
    Alternates opened (run_anomaly whole_arithmetic settings initial_anomaly_state samples).1
    × Spaced
        (60 * 1000)
        none
        (run_anomaly whole_arithmetic settings initial_anomaly_state samples).1
run_anomaly-Alternates_example =
    run_anomaly-Alternates whole_arithmetic settings initial_anomaly_state samples

hour_bounds-partition_example :
    (b : HourBounds) × (hour_bounds (pos 5000000) (pos 30) ≡ ok b)
    × (b.start ≤ℤ pos 5000000)
    × (pos 5000000 <ℤ b.end)
    × (b.end ≡ b.start +ℤ pos hour_ms)
    × ((pos 1800000 <ℤ b.start)
        ⊎ ((b.end ≤ℤ pos 1800000) ⊎ (hour_bounds (pos 1800000) (pos 30) ≡ ok b)))
hour_bounds-partition_example =
    hour_bounds-partition (pos 5000000) (pos 1800000) (pos 30) (omega arith) (omega arith)

abbrev new_window : MeasurementWindowState
new_window = fresh_window (record { start = pos 1800000; end = pos 5400000 })

one_hour : pos 5400000 ≡ pos 1800000 +ℤ pos hour_ms
unfolding ◌+ℤ◌
one_hour = refl

new_window-IsSummary : IsSummary new_window []
new_window-IsSummary = record {
  counted = refl;
  low_real = refl;
  high_real = refl;
  low = tt;
  high = tt;
  hour = one_hour;
}

add_20 :
    add_measurement whole_arithmetic new_window (fin (pos 20)) (pos 2000000)
    ≡ ok (with_measurement whole_arithmetic new_window (fin (pos 20)) (pos 2000000))
unfolding add_measurement
add_20 = refl

add_measurement-IsSummary_example :
    IsSummary
      (with_measurement whole_arithmetic new_window (fin (pos 20)) (pos 2000000))
      (fin (pos 20) ∷ [])
add_measurement-IsSummary_example =
    add_measurement-IsSummary whole_arithmetic new_window
      (with_measurement whole_arithmetic new_window (fin (pos 20)) (pos 2000000)) (fin (pos 20))
      (pos 2000000) [] refl new_window-IsSummary add_20

abbrev odd_window : PersistentCollectorState
odd_window = record (initial_collector_state configuration) { window = some new_window }

load_collector_state-IsUsable_example :
    IsUsable
      (λ text. true)
      configuration
      (load_collector_state (λ text. true) configuration (some (schema_2 odd_window))).0
load_collector_state-IsUsable_example =
    load_collector_state-IsUsable (λ text. true) configuration (some (schema_2 odd_window))
