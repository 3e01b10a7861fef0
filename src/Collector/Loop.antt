-- ===== src/Collector/Loop.antt =====
-- One turn of the collector's loop (edge-device/sensor-collector/src/collector.ts): the measurement,
-- the outbox and its upload. The outbox is a directory with one file for each stable name, read in
-- the order of the names; the order is a parameter. What was delivered is kept beside it.
pub mod Outbox
pub mod Conservation
use midnight_buildathons_bac.Prelude.{
  ℕ, ◌+◌, String, Bool, true, false, ◌&&◌, ◌||◌, Option, none, some, List, [], ◌∷◌, ◌++◌,
  if◌then◌else◌, ltb, leb,
}
use midnight_buildathons_bac.Prelude.Int.{ℤ, leb_ℤ}
use midnight_buildathons_bac.Prelude.Num.{Num}
use midnight_buildathons_bac.Prelude.Results.{Result, ok, throw, ◌>>=◌}
use midnight_buildathons_bac.Collector.Window.{
  Arithmetic, MeasurementWindowState, MeasurementWindow, BatchId, create_measurement_window,
  add_measurement, finalize_measurement_window,
}
use midnight_buildathons_bac.Collector.Anomaly.{
  AnomalyEvent, AnomalyTransition, AnomalyConfig, evaluate_anomaly,
}
use midnight_buildathons_bac.Collector.State.{PersistentCollectorState}

-- `batchId` or `eventId`
pub data StableId : Type 0 where
  window_id : BatchId → StableId
  event_id : String → ℤ → AnomalyTransition → StableId

pub data Payload : Type 0 where
  measurement_window : MeasurementWindow → Payload
  anomaly_event : AnomalyEvent → Payload

pub record OutboxEnvelope : Type 0 where
  pub created_at : ℤ
  pub payload : Payload

pub record OutboxFile : Type 0 where
  pub stable_id : StableId
  pub envelope : OutboxEnvelope

-- What the collector writes: the raw measurements, the outbox, what the service has taken and the
-- state file.
pub record World : Type 0 where
  pub raw : List (ℤ × Num)
  pub outbox : List OutboxFile
  pub delivered : List OutboxFile
  pub saved : Option PersistentCollectorState

-- The names of files: whether two are one, and their order.
pub record Names : Type 0 where
  pub same : StableId → StableId → Bool
  pub before : StableId → StableId → Bool

module _ (n : Names) where
  unfoldable pub exists_file : List OutboxFile → StableId → Bool
  exists_file [] i = false
  exists_file (f ∷ fs) i = n.same f.stable_id i || exists_file fs i

  unfoldable pub insert_file : OutboxFile → List OutboxFile → List OutboxFile
  insert_file f [] = f ∷ []
  insert_file f (g ∷ fs) =
      if n.before f.stable_id g.stable_id then f ∷ g ∷ fs else g ∷ insert_file f fs

  unfoldable pub queue_outbox : List OutboxFile → OutboxEnvelope → StableId → List OutboxFile
  queue_outbox files envelope stable_id =
      if exists_file files stable_id
      then files
      else insert_file (record { stable_id = stable_id; envelope = envelope }) files

  unfoldable pub queue_event : List OutboxFile → Option AnomalyEvent → ℤ → List OutboxFile
  queue_event outbox none measured_at = outbox
  queue_event outbox (some event) measured_at =
      queue_outbox outbox (record { created_at = measured_at; payload = anomaly_event event })
        (event_id event.device_id event.occurred_at event.transition)

-- The upload of each file in turn, up to the first that fails.
unfoldable pub drain_files :
    (OutboxEnvelope → Result (Unit {0}))
    → List OutboxFile
    → List OutboxFile
    → List OutboxFile × List OutboxFile × Result (Unit {0})
drain_files post [] delivered = ([], delivered, ok tt)
drain_files post (f ∷ fs) delivered =
    let rest = drain_files post fs (delivered ++ (f ∷ [])) in
    elim (post f.envelope) [ throw e ↦ (f ∷ fs, delivered, throw e) | ok u ↦ rest ]

unfoldable pub drain_outbox :
    (OutboxEnvelope → Result (Unit {0})) → World → World × Result (Unit {0})
unfolding drain_files
drain_outbox post w =
    let (outbox, delivered, r) = drain_files post w.outbox w.delivered in
    (record w { outbox = outbox; delivered = delivered }, r)

module _ (n : Names) (a : Arithmetic) (c : AnomalyConfig) (utc_day_start_minute : ℤ) where
  -- The window that is over, if the active one is, goes to the outbox.
  unfoldable pub close_window :
      List OutboxFile
      → Option MeasurementWindowState
      → ℤ
      → List OutboxFile × Result (Option MeasurementWindowState)
  close_window outbox none measured_at = (outbox, ok none)
  close_window outbox (some w) measured_at =
      if leb_ℤ w.period_end measured_at
      then if ltb 0 w.count
        then elim (finalize_measurement_window a w c.project_id c.device_id
            c.threshold_policy_version) [
              | throw e ↦ (outbox, throw e)
              | ok finalized ↦ (
                queue_outbox n outbox
                    (record { created_at = measured_at; payload = measurement_window finalized })
                    (window_id finalized.batch_id),
                ok none,
              )
            ]
        else (outbox, ok none)
      else (outbox, ok (some w))

  unfoldable pub active_window : Option MeasurementWindowState → ℤ → Result MeasurementWindowState
  active_window (some w) measured_at = ok w
  active_window none measured_at = create_measurement_window measured_at utc_day_start_minute

  unfoldable pub record_measurement :
      World
      → PersistentCollectorState
      → ℤ
      → Num
      → Result MeasurementWindowState
      → World × Result PersistentCollectorState
  record_measurement written persistent measured_at temperature (throw e) = (written, throw e)
  record_measurement written persistent measured_at temperature (ok window) =
      let (anomaly, event) = evaluate_anomaly a c persistent.anomaly temperature measured_at in
      (
        record written { outbox = queue_event n written.outbox event measured_at },
        ok (record {
          configuration = persistent.configuration;
          window = some window;
          anomaly = anomaly;
          synthetic_tick = persistent.synthetic_tick + 1;
        }),
      )

  unfoldable pub extend_window :
      Result (Option MeasurementWindowState) → ℤ → Num → Result MeasurementWindowState
  extend_window closed measured_at temperature = do
    kept ← closed
    window ← active_window kept measured_at
    add_measurement a window temperature measured_at

  -- The temperature is what the sensor, or the synthetic series, gave.
  unfoldable pub collect_one :
      World → PersistentCollectorState → ℤ → Result Num → World × Result PersistentCollectorState
  collect_one world persistent measured_at (throw e) = (world, throw e)
  collect_one world persistent measured_at (ok temperature) =
      let (outbox, closed) = close_window world.outbox persistent.window measured_at in
      let written = record world {
        raw = world.raw ++ ((measured_at, temperature) ∷ []);
        outbox = outbox;
      } in
      record_measurement written persistent measured_at temperature
        (extend_window closed measured_at temperature)

  -- What was collected is saved before the upload; a failure leaves the state as it was.
  unfoldable pub finish_turn :
      (OutboxEnvelope → Result (Unit {0}))
      → PersistentCollectorState
      → World × Result PersistentCollectorState
      → World × PersistentCollectorState × Result (Unit {0})
  finish_turn post persistent (world, throw e) = (world, persistent, throw e)
  finish_turn post persistent (world, ok next) =
      let (drained, result) = drain_outbox post (record world { saved = some next }) in
      (drained, next, result)

  -- One turn of the loop: what is on the disk, the state, and whether the turn failed.
  unfoldable pub collector_turn :
      (OutboxEnvelope → Result (Unit {0}))
      → World
      → PersistentCollectorState
      → ℤ
      → Result Num
      → World × PersistentCollectorState × Result (Unit {0})
  collector_turn post world persistent measured_at reading =
      finish_turn post persistent (collect_one world persistent measured_at reading)
