-- ===== src/Collector/Anomaly/Laws.antt =====
-- The events of the detector over a run of measurements.
use midnight_buildathons_bac.Prelude.{
  ℕ, ◌+◌, ◌*◌, ◌≡◌, refl, subst, ltb, if◌then◌else◌, false, Option, none, some, List, [], ◌⊎◌, inl,
  inr, Bool-cases, ◌∷◌, arith,
}
use midnight_buildathons_bac.Prelude.Int.{ℤ, pos, ◌+ℤ◌, ◌-ℤ◌, ◌≤ℤ◌, ltb_ℤ, int_laws}
use midnight_buildathons_bac.Prelude.Num.{Num}
use midnight_buildathons_bac.Collector.Window.{Arithmetic}
use midnight_buildathons_bac.Collector.Anomaly.{
  AnomalyPhase, normal, anomaly_open, AnomalyTransition, opened, recovered, AnomalyState,
  AnomalyEvent, AnomalyConfig, candidate_of, evaluate_candidate, evaluate_anomaly, phase_after,
  same_transition, instant_or_zero,
}

-- What a phase waits for.
abbrev pub next_transition : AnomalyPhase → AnomalyTransition
next_transition normal = opened
next_transition anomaly_open = recovered

-- The events that the measurements give, the first one first.
abbrev pub cons_event : Option AnomalyEvent → List AnomalyEvent → List AnomalyEvent
cons_event none events = events
cons_event (some e) events = e ∷ events

-- The events open and recover in turn, the first one being of the given kind.
abbrev pub Alternates : AnomalyTransition → List AnomalyEvent → Type 0
Alternates k [] = Unit
Alternates opened (e ∷ es) = (e.transition ≡ opened) × Alternates recovered es
Alternates recovered (e ∷ es) = (e.transition ≡ recovered) × Alternates opened es

Alternates-cons :
    (p : AnomalyPhase) (e : AnomalyEvent) (es : List AnomalyEvent)
    → e.transition ≡ next_transition p
    → Alternates (next_transition (phase_after (next_transition p))) es
    → Alternates (next_transition p) (e ∷ es)
Alternates-cons normal e es same rest = (same, rest)
Alternates-cons anomaly_open e es same rest = (same, rest)

waited : (s t : ℤ) (ms : ℕ) → ltb_ℤ (t -ℤ s) (pos ms) ≡ false → s +ℤ pos ms ≤ℤ t
waited s t ms h = let ge : pos ms ≤ℤ t -ℤ s = ground arith in omega (int_laws, ge)

-- Each event comes at least so many milliseconds after the one before.
abbrev pub Spaced : ℕ → Option ℤ → List AnomalyEvent → Type 0
Spaced ms last [] = Unit
Spaced ms none (e ∷ es) = Spaced ms (some e.occurred_at) es
Spaced ms (some t) (e ∷ es) = (t +ℤ pos ms ≤ℤ e.occurred_at) × Spaced ms (some e.occurred_at) es

Spaced-cons :
    (ms : ℕ) (last : Option ℤ) (e : AnomalyEvent) (es : List AnomalyEvent)
    → instant_or_zero last +ℤ pos ms ≤ℤ e.occurred_at
    → Spaced ms (some e.occurred_at) es
    → Spaced ms last (e ∷ es)
Spaced-cons ms none e es h rest = rest
Spaced-cons ms (some t) e es h rest = (h, rest)

module _ (a : Arithmetic) (c : AnomalyConfig) where
  -- The states and events of a run of measurements.
  unfoldable pub run_anomaly : AnomalyState → List (Num × ℤ) → AnomalyState × List AnomalyEvent
  run_anomaly s [] = (s, [])
  run_anomaly s ((v, t) ∷ ms) =
      let (s', event) = evaluate_anomaly a c s v t in
      let (s'', events) = run_anomaly s' ms in (s'', cons_event event events)

  abbrev pub event_of : AnomalyTransition → ℤ → AnomalyEvent
  event_of k t = record {
    project_id = c.project_id;
    device_id = c.device_id;
    transition = k;
    occurred_at = t;
    threshold_policy_version = c.threshold_policy_version;
  }

  abbrev pub state_after : AnomalyTransition → ℤ → AnomalyState
  state_after k t = record {
    state = phase_after k;
    pending_transition = none;
    pending_count = 0;
    last_event_at = some t;
  }

  candidate_of-cases :
      (p : AnomalyPhase) (v : Num)
      → (candidate_of a c p v ≡ none) ⊎ (candidate_of a c p v ≡ some (next_transition p))
  unfolding candidate_of
  candidate_of-cases p v = ground arith

  abbrev pub IsQuiet : AnomalyState → AnomalyState × Option AnomalyEvent → Type 0
  IsQuiet s r = (r.1 ≡ none) × (r.0.state ≡ s.state) × (r.0.last_event_at ≡ s.last_event_at)

  abbrev pub IsFired :
      AnomalyState → AnomalyTransition → ℤ → AnomalyState × Option AnomalyEvent → Type 0
  IsFired s k t r =
      (r ≡ (state_after k t, some (event_of k t)))
      × (instant_or_zero s.last_event_at +ℤ pos (c.cooldown_seconds * 1000) ≤ℤ t)

  evaluate_candidate-cases :
      (s : AnomalyState) (k : AnomalyTransition) (t : ℤ)
      → IsQuiet s (evaluate_candidate a c s (some k) t)
        ⊎ IsFired s k t (evaluate_candidate a c s (some k) t)
  unfolding evaluate_candidate
  evaluate_candidate-cases s k t =
      let count = if same_transition s.pending_transition k then s.pending_count + 1 else 1 in
      elim (Bool-cases (ltb count c.debounce_samples)) [
        | inl few ↦ inl (rw few (refl, refl, refl))
        | inr enough ↦
            elim (Bool-cases
              (ltb_ℤ (t -ℤ instant_or_zero s.last_event_at) (pos (c.cooldown_seconds * 1000)))) [
                | inl soon ↦ inl (rw (enough, soon) (refl, refl, refl))
                | inr late ↦ inr (rw (enough, late), waited _ t _ late)
              ]
      ]

  evaluate_anomaly-cases :
      (s : AnomalyState) (v : Num) (t : ℤ)
      → IsQuiet s (evaluate_anomaly a c s v t)
        ⊎ IsFired s (next_transition s.state) t (evaluate_anomaly a c s v t)
  unfolding evaluate_anomaly
  evaluate_anomaly-cases s v t = elim (candidate_of-cases s.state v) [
    | inl none_of ↦ inl (rw none_of (refl, refl, refl))
    | inr some_of ↦ rw some_of (evaluate_candidate-cases s (next_transition s.state) t)
  ]

  -- From any state, the events of a run of measurements are by turns that an anomaly opened and that
  -- it recovered, the first being that it opened in the normal phase and that it recovered in the open
  -- one; and each occurs at least the cooldown after the one before it and after the state's last
  -- event.
  pub run_anomaly-Alternates :
      (s : AnomalyState) (ms : List (Num × ℤ))
      → Alternates (next_transition s.state) (run_anomaly s ms).1
        × Spaced (c.cooldown_seconds * 1000) s.last_event_at (run_anomaly s ms).1
  unfolding run_anomaly
  run_anomaly-Alternates s [] = (tt, tt)
  run_anomaly-Alternates s ((v, t) ∷ ms) =
      let rest = run_anomaly-Alternates (evaluate_anomaly a c s v t).0 ms in
      elim (evaluate_anomaly-cases s v t) [
        | inl (no_event, same_phase, same_last) ↦ rw no_event (
          subst
              (λ p.
                Alternates (next_transition p) (run_anomaly (evaluate_anomaly a c s v t).0 ms).1)
              same_phase rest.0,
          subst
              (λ l.
                Spaced (c.cooldown_seconds * 1000) l
                  (run_anomaly (evaluate_anomaly a c s v t).0 ms).1)
              same_last rest.1,
        )
        | inr (fired, cooled) ↦
            let after =
              subst
                (λ r.
                  Alternates (next_transition r.0.state) (run_anomaly r.0 ms).1
                  × Spaced (c.cooldown_seconds * 1000) r.0.last_event_at (run_anomaly r.0 ms).1)
                fired rest in
            rw fired (
              Alternates-cons s.state (event_of (next_transition s.state) t) _ refl after.0,
              Spaced-cons _ s.last_event_at (event_of (next_transition s.state) t) _ cooled after.1,
            )
      ]
