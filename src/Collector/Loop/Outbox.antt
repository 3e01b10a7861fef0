-- ===== src/Collector/Loop/Outbox.antt =====
-- The outbox: what an upload delivers, and which files a turn adds.
use midnight_buildathons_bac.Prelude.{
  ◌≢◌, ℕ, ◌+◌, ◌≡◌, refl, sym, ap, ◌∙◌, subst, String, true, false, Option, none, some, List, [],
  ◌∷◌, ◌++◌, All, arith, Bool-cases, inl, inr,
}
use midnight_buildathons_bac.Prelude.Int.{ℤ, pos, ◌+ℤ◌, ◌<ℤ◌, parts_of_eq}
use midnight_buildathons_bac.Prelude.Results.{Result, ok, throw, Result-cases}
use midnight_buildathons_bac.Protocol.Day.{hour_ms}
use midnight_buildathons_bac.Collector.Window.{MeasurementWindowState, BatchId}
use midnight_buildathons_bac.Collector.Anomaly.{AnomalyEvent}
use midnight_buildathons_bac.Collector.Loop.{
  StableId, window_id, event_id, Payload, measurement_window, anomaly_event, OutboxEnvelope,
  OutboxFile, Names, exists_file, insert_file, queue_outbox, drain_files, queue_event,
}

-- The measurements of a file, of some files and of the active window.
abbrev pub payload_count : Payload → ℕ
payload_count (measurement_window w) = w.count
payload_count (anomaly_event e) = 0

abbrev pub total_count : List OutboxFile → ℕ
total_count [] = 0
total_count (f ∷ fs) = payload_count f.envelope.payload + total_count fs

abbrev pub active_count : Option MeasurementWindowState → ℕ
active_count none = 0
active_count (some w) = w.count

-- What is true of the names: the epoch is a part of a window's, and the two kinds differ.
pub record IsNaming (n : Names) : Type 0 where
  pub window_epoch :
      (d : String) (x y : ℤ)
      → n.same
          (window_id (record { device_id = d; epoch = x }))
          (window_id (record { device_id = d; epoch = y }))
        ≡ true
      → x ≡ y
  pub kinds_differ :
      (b : BatchId) (d : String) (t : ℤ) (k : _) → n.same (event_id d t k) (window_id b) ≡ false

-- A file of a window is of this device, and the window began before an instant.
abbrev pub BeganBefore : String → ℤ → OutboxFile → Type 0
BeganBefore d t f = (b : BatchId) → f.stable_id ≡ window_id b → (b.device_id ≡ d) × (b.epoch <ℤ t)

-- No window is in the outbox before the first active one; later ones began before the active one,
-- which is one hour long.
abbrev pub IsBehind : String → Option MeasurementWindowState → List OutboxFile → Type 0
IsBehind d none fs = All (λ f. (b : BatchId) → f.stable_id ≢ window_id b) fs
IsBehind d (some w) fs =
    (w.period_end ≡ w.period_start +ℤ pos hour_ms) × All (BeganBefore d w.period_start) fs

pub total_count-append :
    (xs ys : List OutboxFile) → total_count (xs ++ ys) ≡ total_count xs + total_count ys
total_count-append [] ys = omega arith
total_count-append (x ∷ xs) ys = omega (arith, total_count-append xs ys)

pub append_nil : (xs : List OutboxFile) → xs ++ [] ≡ xs
append_nil [] = refl
append_nil (x ∷ xs) = ap (◌∷◌ x) (append_nil xs)

append_assoc : (xs ys zs : List OutboxFile) → (xs ++ ys) ++ zs ≡ xs ++ (ys ++ zs)
append_assoc [] ys zs = refl
append_assoc (x ∷ xs) ys zs = ap (◌∷◌ x) (append_assoc xs ys zs)

-- The files that were there are a first part, delivered in their order behind what was delivered
-- before, and the rest, which stays.
abbrev pub IsSplit :
    List OutboxFile
    → List OutboxFile
    → List OutboxFile × List OutboxFile × Result (Unit {0})
    → Type 0
IsSplit fs ds r = (sent : List OutboxFile) × (fs ≡ sent ++ r.0) × (r.1 ≡ ds ++ sent)

pub drain_files-IsSplit :
    (post : OutboxEnvelope → Result (Unit {0})) (fs ds : List OutboxFile)
    → IsSplit fs ds (drain_files post fs ds)
unfolding drain_files
drain_files-IsSplit post [] ds = ([], refl, sym (append_nil ds))
drain_files-IsSplit post (f ∷ fs) ds =
    let (sent, split, joined) = drain_files-IsSplit post fs (ds ++ (f ∷ [])) in
    elim (Result-cases (post f.envelope)) [
      | inr (e, bad) ↦
          subst
            (λ p. IsSplit (f ∷ fs) ds (elim p [
              | throw e ↦ (f ∷ fs, ds, throw e)
              | ok u ↦ drain_files post fs (ds ++ (f ∷ []))
            ]))
            (sym bad) ([], refl, sym (append_nil ds))
      | inl (u, good) ↦
          subst
            (λ p. IsSplit (f ∷ fs) ds (elim p [
              | throw e ↦ (f ∷ fs, ds, throw e)
              | ok u ↦ drain_files post fs (ds ++ (f ∷ []))
            ]))
            (sym good) (f ∷ sent, ap (◌∷◌ f) split, joined ∙ append_assoc ds (f ∷ []) sent)
    ]

pub All-append_right {ℓ} :
    (P : OutboxFile → Type ℓ) (xs ys : List OutboxFile) → All P (xs ++ ys) → All P ys
All-append_right P [] ys h = h
All-append_right P (x ∷ xs) ys h = All-append_right P xs ys h.1

module _ (n : Names) where
  pub insert_file-total :
      (f : OutboxFile) (fs : List OutboxFile)
      → total_count (insert_file n f fs) ≡ payload_count f.envelope.payload + total_count fs
  unfolding insert_file
  insert_file-total f [] = refl
  insert_file-total f (g ∷ fs) = ground (arith, insert_file-total f fs)

  pub insert_file-All {ℓ} :
      (P : OutboxFile → Type ℓ) (f : OutboxFile) (fs : List OutboxFile)
      → P f
      → All P fs
      → All P (insert_file n f fs)
  unfolding insert_file
  insert_file-All P f [] p h = (p, tt)
  insert_file-All P f (g ∷ fs) p h = elim (Bool-cases (n.before f.stable_id g.stable_id)) [
    | inl b ↦ rw b (p, h)
    | inr b ↦ rw b (h.0, insert_file-All P f fs p h.1)
  ]

  same-began :
      (d : String) (t : ℤ) (i : StableId)
      → IsNaming n
      → ((b : BatchId) → i ≡ window_id b → (b.device_id ≡ d) × (b.epoch <ℤ t))
      → n.same i (window_id (record { device_id = d; epoch = t })) ≡ false
  same-began d t (event_id e u k) names h = names.kinds_differ _ e u k
  same-began d t (window_id b) names h =
      let (device, earlier) = h b refl in
      elim (Bool-cases (n.same (window_id b) (window_id (record { device_id = d; epoch = t })))) [
        | inr other ↦ other
        | inl equal ↦
            let at_d =
              subst
                (λ x.
                  n.same (window_id (record { device_id = x; epoch = b.epoch }))
                    (window_id (record { device_id = d; epoch = t }))
                  ≡ true)
                device equal in
            absurd (omega (arith, earlier, parts_of_eq _ _ (names.window_epoch d b.epoch t at_d)))
      ]

  exists_file-began :
      (d : String) (t : ℤ) (fs : List OutboxFile)
      → IsNaming n
      → All (BeganBefore d t) fs
      → exists_file n fs (window_id (record { device_id = d; epoch = t })) ≡ false
  unfolding exists_file
  exists_file-began d t [] names h = refl
  exists_file-began d t (f ∷ fs) names h =
      rw (same-began d t f.stable_id names h.0, exists_file-began d t fs names h.1)

  -- The window that ends is added to the outbox.
  pub queue_outbox-window :
      (d : String) (t : ℤ) (fs : List OutboxFile) (e : OutboxEnvelope)
      → IsNaming n
      → All (BeganBefore d t) fs
      → queue_outbox n fs e (window_id (record { device_id = d; epoch = t }))
        ≡ insert_file n
            (record { stable_id = window_id (record { device_id = d; epoch = t }); envelope = e })
            fs
  unfolding queue_outbox
  queue_outbox-window d t fs e names h = rw (exists_file-began d t fs names h)

  -- An event leaves the count, and what holds of the windows of the outbox.
  pub queue_event-total :
      (fs : List OutboxFile) (o : Option AnomalyEvent) (t : ℤ)
      → total_count (queue_event n fs o t) ≡ total_count fs
  unfolding queue_event queue_outbox
  queue_event-total fs none t = refl
  queue_event-total fs (some e) t =
      elim (Bool-cases (exists_file n fs (event_id e.device_id e.occurred_at e.transition))) [
        | inl there ↦ rw there
        | inr new ↦ rw new (insert_file-total _ fs ∙ omega arith)
      ]

  pub queue_event-All :
      (d : String) (s : ℤ) (fs : List OutboxFile) (o : Option AnomalyEvent) (t : ℤ)
      → All (BeganBefore d s) fs
      → All (BeganBefore d s) (queue_event n fs o t)
  unfolding queue_event queue_outbox
  queue_event-All d s fs none t h = h
  queue_event-All d s fs (some e) t h =
      elim (Bool-cases (exists_file n fs (event_id e.device_id e.occurred_at e.transition))) [
        | inl there ↦ rw there h
        | inr new ↦ rw new (insert_file-All (BeganBefore d s) _ fs (λ b p. absurd (cc (p))) h)
      ]
