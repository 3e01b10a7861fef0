-- ===== src/Sponsor/Policy.antt =====
-- sponsor-policy.ts of backend/cloudflare/proof-gateway-worker/src: which requests of a device are
-- taken, and when a job may proceed.
pub mod Laws
use midnight_buildathons_bac.Prelude.{
  ℕ, ◌+◌, String, Bool, true, false, ◌&&◌, ◌||◌, not, Option, none, some, if◌then◌else◌, leb,
  str_eq, ◌==◌, is_some,
}
use midnight_buildathons_bac.Prelude.Int.{ℤ, pos, ◌-ℤ◌, leb_ℤ}
use midnight_buildathons_bac.Gateway.Job.{
  JobStatus, submitted, confirmed, awaiting_sponsor, sponsor_retryable, sponsoring, sponsored,
  proof_ready, reproof_required, ProofJobRow,
}

pub data DeviceTransactionAcceptance : Type 0 where
  accept_new idempotent_pending idempotent_complete conflict ineligible :
      DeviceTransactionAcceptance

abbrev pub same_hash : Option String → String → Bool
same_hash none incoming = false
same_hash (some existing) incoming = str_eq existing incoming

abbrev pub if_same :
    Option String → String → DeviceTransactionAcceptance → DeviceTransactionAcceptance
if_same existing incoming answer = if same_hash existing incoming then answer else conflict

abbrev pub if_new : Option String → DeviceTransactionAcceptance
if_new none = accept_new
if_new (some existing) = ineligible

abbrev pub acceptance_of_status : JobStatus → Option String → String → DeviceTransactionAcceptance
acceptance_of_status submitted existing incoming = if_same existing incoming idempotent_complete
acceptance_of_status confirmed existing incoming = if_same existing incoming idempotent_complete
acceptance_of_status awaiting_sponsor existing incoming =
    if_same existing incoming idempotent_pending
acceptance_of_status sponsor_retryable existing incoming =
    if_same existing incoming idempotent_pending
acceptance_of_status sponsoring existing incoming = if_same existing incoming idempotent_pending
acceptance_of_status sponsored existing incoming = if_same existing incoming idempotent_pending
acceptance_of_status proof_ready existing incoming = if_new existing
acceptance_of_status reproof_required existing incoming = if_new existing
acceptance_of_status _ existing incoming = ineligible

unfoldable pub device_transaction_acceptance :
    JobStatus → Option String → String → DeviceTransactionAcceptance
device_transaction_acceptance status existing incoming =
    if is_some existing && not (same_hash existing incoming)
    then conflict
    else acceptance_of_status status existing incoming

pub data WalletPhase : Type 0 where
  ready syncing error_phase other_phase : WalletPhase

pub record Supervisor : Type 0 where
  pub healthy : Bool
  pub wallet_process_alive : Bool
  pub wallet_status_fresh : Bool

pub record ProgressDetails : Type 0 where
  pub unshielded_connected : Bool
  pub unshielded_complete : Bool
  pub dust_connected : Bool

-- `spendableDustCoins` is a count; an absent field is `none`.
pub record SponsorWalletReadiness : Type 0 where
  pub phase : WalletPhase
  pub spendable_dust_coins : Option ℕ
  pub progress_details : Option ProgressDetails
  pub supervisor : Option Supervisor

abbrev pub is_ready : WalletPhase → Bool
is_ready ready = true
is_ready _ = false

abbrev pub is_syncing : WalletPhase → Bool
is_syncing syncing = true
is_syncing _ = false

abbrev pub is_sponsored : JobStatus → Bool
is_sponsored sponsored = true
is_sponsored _ = false

abbrev pub is_alive : Supervisor → Bool
is_alive s = s.healthy && s.wallet_process_alive && s.wallet_status_fresh

abbrev pub alive_or_absent : Option Supervisor → Bool
alive_or_absent none = true
alive_or_absent (some s) = is_alive s

abbrev pub alive_and_present : Option Supervisor → Bool
alive_and_present none = false
alive_and_present (some s) = is_alive s

abbrev pub connected : Option ProgressDetails → Bool
connected none = false
connected (some p) = p.unshielded_connected && p.unshielded_complete && p.dust_connected

abbrev pub has_dust : Option ℕ → Bool
has_dust none = true
has_dust (some n) = not (leb n 0)

unfoldable pub sponsor_wallet_is_synchronized : SponsorWalletReadiness → Bool
sponsor_wallet_is_synchronized health = is_ready health.phase && alive_or_absent health.supervisor

unfoldable pub sponsor_wallet_can_submit : SponsorWalletReadiness → Bool
unfolding sponsor_wallet_is_synchronized
sponsor_wallet_can_submit health =
    sponsor_wallet_is_synchronized health && has_dust health.spendable_dust_coins

unfoldable pub sponsor_job_can_proceed : JobStatus → SponsorWalletReadiness → Bool
sponsor_job_can_proceed status health =
    is_sponsored status
      && is_syncing health.phase
      && alive_and_present health.supervisor
      && connected health.progress_details
    || sponsor_wallet_is_synchronized health
      && (is_sponsored status || sponsor_wallet_can_submit health)

pub record NightCoins : Type 0 where
  pub total : ℕ
  pub registered : ℕ
  pub unregistered : ℕ

-- `initialization?.status === 'succeeded'`, and the dust part of `progressDetails`.
pub record SponsorDustReplayState : Type 0 where
  pub phase : WalletPhase
  pub total_dust_coins : Option ℕ
  pub pending_dust_coins : Option ℕ
  pub night_coins : Option NightCoins
  pub dust_connected : Bool
  pub dust_complete : Bool
  pub initialized : Bool
  pub shutting_down : Bool

abbrev pub is_zero : Option ℕ → Bool
is_zero none = false
is_zero (some n) = n == 0

abbrev pub all_registered : Option NightCoins → Bool
all_registered none = false
all_registered (some c) = not (leb c.total 0) && c.registered == c.total && c.unregistered == 0

abbrev pub is_syncing_or_error : WalletPhase → Bool
is_syncing_or_error syncing = true
is_syncing_or_error error_phase = true
is_syncing_or_error _ = false

unfoldable pub should_replay_sponsor_dust_state : SponsorDustReplayState → ℕ → Bool
should_replay_sponsor_dust_state health active_reservations =
    active_reservations == 0
    && health.initialized
    && not health.shutting_down
    && is_syncing_or_error health.phase
    && health.dust_connected
    && health.dust_complete
    && all_registered health.night_coins
    && is_zero health.total_dust_coins
    && is_zero health.pending_dust_coins

abbrev pub is_sponsoring : JobStatus → Bool
is_sponsoring sponsoring = true
is_sponsoring _ = false

abbrev pub not_later_than : Option ℤ → ℤ → Bool
not_later_than none t = false
not_later_than (some u) t = leb_ℤ u t

unfoldable pub can_recover_stale_sponsoring_request : ProofJobRow → ℤ → Bool
can_recover_stale_sponsoring_request job now =
    is_sponsoring job.status
    && not_later_than job.updated_at (now -ℤ pos 960000)
    && is_some job.device_transaction_hash
    && is_some job.device_transaction_bytes
    && not (is_some job.sponsor_transaction_object_key)
    && not (is_some job.sponsor_serialized_sha256)
    && not (is_some job.sponsor_transaction_id)
    && not (is_some job.sponsor_fee_specks)
    && not (is_some job.sponsor_transaction_bytes)
    && not (is_some job.sponsorship_completed_at)
    && not (is_some job.attest_tx_id)
    && not (is_some job.attest_tx_hash)
    && not (is_some job.block_height)

unfoldable pub sponsor_transaction_needs_refresh : Option ℤ → ℤ → Bool
sponsor_transaction_needs_refresh uploaded_at now = not_later_than uploaded_at (now -ℤ pos 1500000)
