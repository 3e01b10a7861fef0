-- ===== src/Collector/State/Laws.antt =====
-- What the collector goes on from, whatever the state file holds.
use text.Mathlib.TextPositions.{eq_refl}
use midnight_buildathons_bac.Prelude.{
  ◌≡◌, refl, String, Bool, true, Option, none, some, Bool-cases, inl, inr, arith,
}
use midnight_buildathons_bac.Prelude.Int.{ℤ, leb_ℤ}
use midnight_buildathons_bac.Collector.State.{
  Configuration, PersistentCollectorState, StateFile, not_json, schema_1, ill_typed, schema_2,
  same_configuration, initial_collector_state, valid_window_or_null, valid_collector_state,
  load_collector_state,
}

leb_ℤ_refl : (a : ℤ) → leb_ℤ a a ≡ true
leb_ℤ_refl a = ground arith

same_configuration_refl : (c : Configuration) → same_configuration c c ≡ true
same_configuration_refl c =
    rw
      (
        eq_refl c.project_id,
        eq_refl c.device_id,
        eq_refl c.threshold_policy_version,
        leb_ℤ_refl c.utc_day_start_minute,
      )
      refl

-- A state that a run can go on from: of the configuration, with no window or a valid one.
abbrev pub IsUsable : (String → Bool) → Configuration → PersistentCollectorState → Type 0
IsUsable is_digest c s =
    (same_configuration s.configuration c ≡ true) × (valid_window_or_null is_digest s.window ≡ true)

initial-IsUsable :
    (is_digest : String → Bool) (c : Configuration)
    → IsUsable is_digest c (initial_collector_state c)
unfolding valid_window_or_null
initial-IsUsable is_digest c = (same_configuration_refl c, refl)

valid-window :
    (is_digest : String → Bool) (s : PersistentCollectorState)
    → valid_collector_state is_digest s ≡ true
    → valid_window_or_null is_digest s.window ≡ true
unfolding valid_collector_state
valid-window is_digest s h = ground arith

-- Whatever the state file holds, the loaded state is of the configuration and has no window or one that
-- `validWindow` accepts.
pub load_collector_state-IsUsable :
    (is_digest : String → Bool) (c : Configuration) (file : Option StateFile)
    → IsUsable is_digest c (load_collector_state is_digest c file).0
unfolding load_collector_state
load_collector_state-IsUsable is_digest c none = initial-IsUsable is_digest c
load_collector_state-IsUsable is_digest c (some not_json) = initial-IsUsable is_digest c
load_collector_state-IsUsable is_digest c (some schema_1) = initial-IsUsable is_digest c
load_collector_state-IsUsable is_digest c (some ill_typed) = initial-IsUsable is_digest c
load_collector_state-IsUsable is_digest c (some (schema_2 s)) =
    elim (Bool-cases (valid_collector_state is_digest s)) [
      | inr invalid ↦ rw invalid (initial-IsUsable is_digest c)
      | inl valid ↦ elim (Bool-cases (same_configuration s.configuration c)) [
        | inr other ↦ rw (valid, other) (initial-IsUsable is_digest c)
        | inl same ↦ rw (valid, same) (same, valid-window is_digest s valid)
      ]
    ]
