-- ===== src/Container/Health.antt =====
-- supervisor-health.ts of backend/cloudflare/sponsor-wallet-container/src: what the supervisor knows
-- of the wallet's process from its probes. Of the wallet's own report the phase is kept.
use midnight_buildathons_bac.Prelude.{
  ℕ, ◌+◌, ◌≡◌, String, Bool, true, false, ◌&&◌, Option, none, some, List, [], ◌∷◌, if◌then◌else◌,
  ◌==◌, ◌↔◌, arith,
}
use midnight_buildathons_bac.Prelude.Int.{ℤ, pos, ◌-ℤ◌, ◌≤ℤ◌, leb_ℤ, ltb_ℤ}

pub data WalletPhase : Type 0 where
  starting syncing waiting_for_funding registering_dust ready error_phase : WalletPhase

-- The other fields are passed on as they are.
pub record CachedWalletHealth : Type 0 where
  pub phase : WalletPhase

pub data HealthStatus : Type 0 where
  healthy degraded unavailable : HealthStatus

pub record SupervisorHealth : Type 0 where
  pub status : HealthStatus
  pub wallet_process_alive : Bool
  pub wallet_process_id : Option ℕ
  pub wallet_status_fresh : Bool
  pub last_successful_probe_at : Option ℤ
  pub last_probe_error_at : Option ℤ
  pub last_probe_error : Option String
  pub status_age_ms : Option ℤ
  pub consecutive_probe_failures : ℕ

abbrev pub initial_wallet_health : CachedWalletHealth
initial_wallet_health = record { phase = starting }

pub record SupervisorHealthState : Type 0 where
  pub wallet_health : CachedWalletHealth
  pub last_successful_probe_ms : Option ℤ
  pub last_probe_error_ms : Option ℤ
  pub last_probe_error : Option String
  pub consecutive_probe_failures : ℕ

abbrev pub initial_supervisor_state : SupervisorHealthState
initial_supervisor_state = record {
  wallet_health = initial_wallet_health;
  last_successful_probe_ms = none;
  last_probe_error_ms = none;
  last_probe_error = none;
  consecutive_probe_failures = 0;
}

unfoldable pub record_success :
    SupervisorHealthState → CachedWalletHealth → ℤ → SupervisorHealthState
record_success s wallet_health now = record s {
  wallet_health = wallet_health;
  last_successful_probe_ms = some now;
  last_probe_error = none;
  consecutive_probe_failures = 0;
}

-- The message is cut to 500 characters before it comes here.
unfoldable pub record_failure : SupervisorHealthState → String → ℤ → SupervisorHealthState
record_failure s message now = record s {
  last_probe_error_ms = some now;
  last_probe_error = some message;
  consecutive_probe_failures = s.consecutive_probe_failures + 1;
}

-- `Math.max(0, now - then)`
abbrev pub age_of : Option ℤ → ℤ → Option ℤ
age_of none now = none
age_of (some t) now = some (if ltb_ℤ (now -ℤ t) (pos 0) then pos 0 else now -ℤ t)

abbrev pub is_fresh : Option ℤ → ℕ → Bool
is_fresh none fresh_for = false
is_fresh (some age) fresh_for = leb_ℤ age (pos fresh_for)

unfoldable pub status_of : Bool → Bool → ℕ → HealthStatus
status_of false fresh failures = unavailable
status_of true fresh failures = if fresh && failures == 0 then healthy else degraded

unfoldable pub snapshot :
    ℕ → SupervisorHealthState → Option ℕ → Bool → ℤ → CachedWalletHealth × SupervisorHealth
unfolding status_of
snapshot fresh_for s wallet_process_id wallet_process_alive now =
    let age = age_of s.last_successful_probe_ms now in
    let fresh = is_fresh age fresh_for in
    (
      s.wallet_health,
      record {
        status = status_of wallet_process_alive fresh s.consecutive_probe_failures;
        wallet_process_alive = wallet_process_alive;
        wallet_process_id = wallet_process_id;
        wallet_status_fresh = fresh;
        last_successful_probe_at = s.last_successful_probe_ms;
        last_probe_error_at = s.last_probe_error_ms;
        last_probe_error = s.last_probe_error;
        status_age_ms = age;
        consecutive_probe_failures = s.consecutive_probe_failures;
      },
    )

-- The probes, the last one first.
pub data Probe : Type 0 where
  succeeded : CachedWalletHealth → ℤ → Probe
  failed : String → ℤ → Probe

unfoldable pub after_probes : List Probe → SupervisorHealthState
after_probes [] = initial_supervisor_state
after_probes (succeeded h t ∷ ps) = record_success (after_probes ps) h t
after_probes (failed m t ∷ ps) = record_failure (after_probes ps) m t

-- The last probe was a success, not longer ago than a number of milliseconds.
abbrev pub EndsFresh : ℕ → ℤ → List Probe → Type 0
EndsFresh fresh_for now [] = false ≡ true
EndsFresh fresh_for now (succeeded h t ∷ ps) = now -ℤ t ≤ℤ pos fresh_for
EndsFresh fresh_for now (failed m t ∷ ps) = false ≡ true

-- After any probes the snapshot says healthy exactly when the process is alive and the last probe
-- succeeded, not longer ago than the freshness allows.
pub snapshot-healthy :
    (fresh_for : ℕ) (probes : List Probe) (id : Option ℕ) (alive : Bool) (now : ℤ)
    → ((snapshot fresh_for (after_probes probes) id alive now).1.status ≡ healthy)
      ↔ ((alive ≡ true) × EndsFresh fresh_for now probes)
unfolding snapshot after_probes record_success record_failure status_of
snapshot-healthy fresh_for [] id alive now = ground arith
snapshot-healthy fresh_for (succeeded h t ∷ ps) id alive now = ground arith
snapshot-healthy fresh_for (failed m t ∷ ps) id alive now = ground arith
