-- ===== src/Collector/Loop/Conservation.antt =====
-- The measurements in the active window, the outbox and the delivered files, over the turns of the loop.
use midnight_buildathons_bac.Prelude.{
  ◌+◌, ◌≡◌, ◌≢◌, refl, sym, ap, ◌∙◌, subst, String, Option, none, some, List, [], ◌∷◌, ◌++◌, All,
  arith, ltb, Bool-cases, inl, inr, ◌⊎◌,
}
use midnight_buildathons_bac.Prelude.Int.{ℤ, pos, ◌+ℤ◌, ◌≤ℤ◌, ◌<ℤ◌, leb_ℤ, int_laws, parts_of_eq}
use midnight_buildathons_bac.Prelude.Results.{Result, ok, throw, Result-cases}
use midnight_buildathons_bac.Prelude.Num.{Num}
use midnight_buildathons_bac.Protocol.Day.{hour_ms}
use midnight_buildathons_bac.Collector.Window.{
  Arithmetic, MeasurementWindowState, BatchId, add_measurement,
}
use midnight_buildathons_bac.Collector.Window.Hours.{hour_of, hour_start, hour_start-contains}
use midnight_buildathons_bac.Collector.Window.Laws.{
  fresh_window, create_measurement_window-eq-ok, add_measurement-inversion,
  finalize_measurement_window-full, add_measurement-eq-ok, with_measurement,
}
use midnight_buildathons_bac.Collector.Anomaly.{AnomalyConfig, evaluate_anomaly}
use midnight_buildathons_bac.Collector.State.{
  PersistentCollectorState, initial_collector_state, Configuration,
}
use midnight_buildathons_bac.Collector.Loop.{
  window_id, measurement_window, OutboxEnvelope, OutboxFile, World, Names, drain_files,
  drain_outbox, close_window, active_window, extend_window, record_measurement, collect_one,
  finish_turn, collector_turn,
}
use midnight_buildathons_bac.Collector.Loop.Outbox.{
  total_count, active_count, IsNaming, BeganBefore, IsBehind, drain_files-IsSplit, All-append_right,
  insert_file-total, insert_file-All, queue_outbox-window, queue_event-total, queue_event-All,
  total_count-append,
}

began_lem : (w s t : ℤ) → w +ℤ pos hour_ms ≤ℤ t → t <ℤ s +ℤ pos hour_ms → w <ℤ s
began_lem w s t old lt = omega (int_laws, old, lt)

new_began :
    (d : String) (x s : ℤ) (e : OutboxEnvelope)
    → x <ℤ s
    → BeganBefore d s
        (record { stable_id = window_id (record { device_id = d; epoch = x }); envelope = e })
new_began d x s e lt b same =
    let named : record { device_id = d; epoch = x } ≡ b = cc in
    (ap (λ i. i.device_id) (sym named), subst (λ i. i.epoch <ℤ s) named lt)

abbrev pub empty_world : World
empty_world = record { raw = []; outbox = []; delivered = []; saved = none }

module _ (n : Names) (a : Arithmetic) (c : AnomalyConfig) (d : ℤ) where
  -- What is left once the window that is over is closed: all counts are kept, and either no window
  -- is active and those of the outbox are an hour old, or nothing was closed.
  abbrev pub IsClosed :
      List OutboxFile
      → Option MeasurementWindowState
      → ℤ
      → List OutboxFile × Result (Option MeasurementWindowState)
      → Type 0
  IsClosed fs o t r =
      ((r.1 ≡ ok none)
        × (total_count r.0 ≡ total_count fs + active_count o)
        × ((s : ℤ) → t <ℤ s +ℤ pos hour_ms → All (BeganBefore c.device_id s) r.0))
      ⊎ ((w : MeasurementWindowState) × (o ≡ some w)
          × (r ≡ (fs, ok (some w)))
          × (t <ℤ w.period_end))

  weaken_files :
      (s s' : ℤ) (fs : List OutboxFile)
      → s ≤ℤ s'
      → All (BeganBefore c.device_id s) fs
      → All (BeganBefore c.device_id s') fs
  weaken_files s s' [] le h = tt
  weaken_files s s' (f ∷ fs) le h =
      (λ b e. let (device, earlier) = h.0 b e in (device, omega arith), weaken_files s s' fs le h.1)

  none_began :
      (s : ℤ) (fs : List OutboxFile)
      → All (λ f. (b : BatchId) → f.stable_id ≢ window_id b) fs
      → All (BeganBefore c.device_id s) fs
  none_began s [] h = tt
  none_began s (f ∷ fs) h = (λ b e. absurd (h.0 b e), none_began s fs h.1)

  close_window-IsClosed :
      (fs : List OutboxFile) (o : Option MeasurementWindowState) (t : ℤ)
      → IsNaming n
      → IsBehind c.device_id o fs
      → IsClosed fs o t (close_window n a c d fs o t)
  unfolding close_window
  close_window-IsClosed fs none t names h = inl (refl, omega arith, λ s lt. none_began s fs h)
  close_window-IsClosed fs (some w) t names (hour, behind) =
      elim (Bool-cases (leb_ℤ w.period_end t)) [
        | inr going ↦ rw going (inr (w, refl, refl, ground arith))
        | inl over ↦
            let not_later : w.period_end ≤ℤ t = ground arith in
            let old : w.period_start +ℤ pos hour_ms ≤ℤ t =
              omega (arith, not_later, parts_of_eq _ _ hour) in
            let before : (s : ℤ) → t <ℤ s +ℤ pos hour_ms → All (BeganBefore c.device_id s) fs =
              λ s lt.
                let began = began_lem w.period_start s t old lt in
                weaken_files w.period_start s fs (omega (arith, began)) behind in
            elim (Bool-cases (ltb 0 w.count)) [
              | inr empty ↦
                  let nothing : w.count ≡ 0 = ground arith in
                  rw (over, empty) (inl (refl, omega (arith, nothing), before))
              | inl full ↦
                  let (m, made, counted, named) =
                    finalize_measurement_window-full a w c.project_id c.device_id
                      c.threshold_policy_version full in
                  let e : OutboxEnvelope = record {
                    created_at = t;
                    payload = measurement_window m;
                  } in
                  let queued = queue_outbox-window n c.device_id w.period_start fs e names behind in
                  rw (over, full, made, named, queued)
                    (inl (
                      refl,
                      insert_file-total n _ fs ∙ omega (arith, counted),
                      λ s lt.
                          insert_file-All n (BeganBefore c.device_id s) _ fs
                            (new_began c.device_id w.period_start s e
                              (began_lem w.period_start s t old lt))
                            (before s lt),
                    ))
            ]
      ]

  -- The measurements in the outbox, at the service and in the active window are those collected.
  abbrev pub IsRecorded : World → PersistentCollectorState → Type 0
  IsRecorded world s =
      (total_count world.outbox + total_count world.delivered + active_count s.window
        ≡ s.synthetic_tick)
      × IsBehind c.device_id s.window world.outbox

  unfoldable pub KeepsRecord :
      PersistentCollectorState → World × Result PersistentCollectorState → Type 0
  KeepsRecord s (world, ok s') = IsRecorded world s' × (s'.synthetic_tick ≡ s.synthetic_tick + 1)
  KeepsRecord s (world, throw e) = IsRecorded world s

  extend_window-closed :
      (t : ℤ) (v : Num)
      → pos 0 ≤ℤ d
      → d ≤ℤ pos 1439
      → extend_window n a c d (ok none) t v
        ≡ ok (with_measurement a (fresh_window (hour_of t d)) v t)
  unfolding extend_window active_window
  extend_window-closed t v low high =
      let hour = hour_start-contains t d in
      rw (create_measurement_window-eq-ok t d low high)
        (add_measurement-eq-ok a (fresh_window (hour_of t d)) v t hour.0 hour.1)

  extend_window-open :
      (w : MeasurementWindowState) (v : Num) (t : ℤ)
      → extend_window n a c d (ok (some w)) t v ≡ add_measurement a w v t
  unfolding extend_window active_window
  extend_window-open w v t = refl

  record_measurement-KeepsRecord :
      (written : World) (s : PersistentCollectorState) (t : ℤ) (v : Num)
      (w : MeasurementWindowState)
      → total_count written.outbox + total_count written.delivered + w.count ≡ s.synthetic_tick + 1
      → IsBehind c.device_id (some w) written.outbox
      → KeepsRecord s (record_measurement n a c d written s t v (ok w))
  unfolding record_measurement KeepsRecord
  record_measurement-KeepsRecord written s t v w total (hour, behind) =
      let event = (evaluate_anomaly a c s.anomaly v t).1 in
      let same = queue_event-total n written.outbox event t in
      (
        (
          omega (arith, total, same),
          (hour, queue_event-All n c.device_id w.period_start written.outbox event t behind),
        ),
        refl,
      )

  collect_one-KeepsRecord :
      (world : World) (s : PersistentCollectorState) (t : ℤ) (reading : Result Num)
      → IsNaming n
      → pos 0 ≤ℤ d
      → d ≤ℤ pos 1439
      → IsRecorded world s
      → KeepsRecord s (collect_one n a c d world s t reading)
  unfolding collect_one
  collect_one-KeepsRecord world s t (throw e) names low high h = unfold KeepsRecord in h
  collect_one-KeepsRecord world s t (ok v) names low high (total, behind) =
      let hour = hour_start-contains t d in
      elim (close_window-IsClosed world.outbox s.window t names behind) [
        | inl (closed, kept, before) ↦
            let extended = extend_window-closed t v low high in
            rw (closed, extended)
              (record_measurement-KeepsRecord _ s t v _ (omega (arith, kept, total))
                (refl, before (hour_start t d) hour.1))
        | inr (w, active, going, early) ↦
            let behind_w = subst (λ o. IsBehind c.device_id o world.outbox) active behind in
            let count : active_count s.window ≡ w.count = ap active_count active in
            elim (Result-cases (add_measurement a w v t)) [
              | inr (m, bad) ↦
                  rw (going, extend_window-open w v t, bad)
                    (unfold record_measurement KeepsRecord in (total, behind))
              | inl (w', good) ↦
                  let made = (add_measurement-inversion a w w' v t good).2 in
                  let counted : w.count + 1 ≡ w'.count = ap (λ x. x.count) made in
                  rw (going, extend_window-open w v t, good)
                    (record_measurement-KeepsRecord _ s t v w'
                      (omega (arith, total, count, counted))
                      (subst (λ x. IsBehind c.device_id (some x) world.outbox) made behind_w))
            ]
      ]

  IsBehind-rest :
      (o : Option MeasurementWindowState) (xs ys : List OutboxFile)
      → IsBehind c.device_id o (xs ++ ys)
      → IsBehind c.device_id o ys
  IsBehind-rest none xs ys h = All-append_right _ xs ys h
  IsBehind-rest (some w) xs ys (hour, h) = (hour, All-append_right _ xs ys h)

  drain_outbox-IsRecorded :
      (post : OutboxEnvelope → Result (Unit {0})) (world : World) (s : PersistentCollectorState)
      → IsRecorded world s
      → IsRecorded (drain_outbox post world).0 s
  unfolding drain_outbox
  drain_outbox-IsRecorded post world s (total, behind) =
      let (sent, split, joined) = drain_files-IsSplit post world.outbox world.delivered in
      let rest = (drain_files post world.outbox world.delivered).0 in
      let left = ap total_count split ∙ total_count-append sent rest in
      let taken = ap total_count joined ∙ total_count-append world.delivered sent in
      (
        omega (arith, total, left, taken),
        IsBehind-rest s.window sent rest (subst (IsBehind c.device_id s.window) split behind),
      )

  -- The turns of the loop, each with what the service answers, the instant and the reading.
  unfoldable pub run_collector :
      World
      → PersistentCollectorState
      → List ((OutboxEnvelope → Result (Unit {0})) × ℤ × Result Num)
      → World × PersistentCollectorState
  run_collector world s [] = (world, s)
  run_collector world s ((post, t, reading) ∷ turns) =
      let (world', s', r) = collector_turn n a c d post world s t reading in
      run_collector world' s' turns

  finish_turn-IsRecorded :
      (post : OutboxEnvelope → Result (Unit {0})) (s : PersistentCollectorState)
      (r : World × Result PersistentCollectorState)
      → KeepsRecord s r
      → IsRecorded (finish_turn n a c d post s r).0 (finish_turn n a c d post s r).1
  unfolding finish_turn KeepsRecord
  finish_turn-IsRecorded post s (world, throw e) h = h
  finish_turn-IsRecorded post s (world, ok next) h =
      drain_outbox-IsRecorded post (record world { saved = some next }) next h.0

  run_collector-IsRecorded :
      (world : World) (s : PersistentCollectorState)
      (turns : List ((OutboxEnvelope → Result (Unit {0})) × ℤ × Result Num))
      → IsNaming n
      → pos 0 ≤ℤ d
      → d ≤ℤ pos 1439
      → IsRecorded world s
      → IsRecorded (run_collector world s turns).0 (run_collector world s turns).1
  unfolding run_collector collector_turn
  run_collector-IsRecorded world s [] names low high h = h
  run_collector-IsRecorded world s ((post, t, reading) ∷ turns) names low high h =
      run_collector-IsRecorded (collector_turn n a c d post world s t reading).0
        (collector_turn n a c d post world s t reading).1 turns names low high
        (finish_turn-IsRecorded post s (collect_one n a c d world s t reading)
          (collect_one-KeepsRecord world s t reading names low high h))

  -- From an empty outbox and the initial state, whatever the instants, the readings and the answers
  -- of the service, after any number of turns the measurements counted in the windows of the outbox,
  -- in the delivered ones and in the active one are together as many as the state's tick, which a
  -- turn that collects a measurement raises by one. The day starts at a minute from 0 to 1439, and
  -- a file's name tells the epoch of a window and a window from an event.
  pub run_collector-conserves :
      (turns : List ((OutboxEnvelope → Result (Unit {0})) × ℤ × Result Num))
      (configuration : Configuration)
      → IsNaming n
      → pos 0 ≤ℤ d
      → d ≤ℤ pos 1439
      → let after = run_collector empty_world (initial_collector_state configuration) turns in
        total_count after.0.outbox + total_count after.0.delivered + active_count after.1.window
        ≡ after.1.synthetic_tick
  run_collector-conserves turns configuration names low high =
      (run_collector-IsRecorded empty_world (initial_collector_state configuration) turns names low
        high (omega arith, tt)).0
