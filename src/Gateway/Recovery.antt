-- ===== src/Gateway/Recovery.antt =====
-- recoverReleasedProofJob of backend/cloudflare/proof-gateway-worker/src/reproof-recovery.ts: a job whose
-- contract state changed is queued again, and the attempt is recorded. The fresh identifier of the
-- attempt is an argument; a job's identifier is the table's primary key.
pub mod Laws
pub mod Outcome
use midnight_buildathons_bac.Prelude.{
  ℕ, ◌+◌, String, Bool, true, false, ◌&&◌, not, Option, none, some, List, ◌∷◌, if◌then◌else◌, ltb,
  is_some, str_eq, ◌==◌,
}
use midnight_buildathons_bac.Prelude.Int.{ℤ, pos, ◌-ℤ◌, leb_ℤ, ltb_ℤ}
use midnight_buildathons_bac.Prelude.Tables.{update_where, count_where, find_where}
use midnight_buildathons_bac.Gateway.Job.{
  ProofJobRow, JobStatus, reproof_required, pending, Origin, device, managed_api,
}
use midnight_buildathons_bac.Gateway.Statements.{Jobs, has_id}

-- A row of proof_recovery_attempts.
pub record RecoveryAttempt : Type 0 where
  pub recovery_id : String
  pub proof_job_id : String
  pub recovery_number : ℕ
  pub requested_at : ℤ
  pub previous_updated_at : Option ℤ
  pub previous_error_code : Option String
  pub previous_attempt_count : ℕ

abbrev pub Attempts : Type 0
Attempts = List RecoveryAttempt

abbrev pub of_job : String → RecoveryAttempt → Bool
of_job job_id a = str_eq a.proof_job_id job_id

abbrev pub with_id : String → RecoveryAttempt → Bool
with_id recovery_id a = str_eq a.recovery_id recovery_id

-- `proof_job_id = ?2 AND requested_at > ?4`
abbrev pub recent : String → ℤ → RecoveryAttempt → Bool
recent job_id cutoff a = of_job job_id a && ltb_ℤ cutoff a.requested_at

abbrev pub is_reproof_required : JobStatus → Bool
is_reproof_required reproof_required = true
is_reproof_required _ = false

abbrev pub from_device : Origin → Bool
from_device device = true
from_device managed_api = false

abbrev pub contract_state_changed : Option String → Bool
contract_state_changed none = false
contract_state_changed (some code) = str_eq code "contract_state_changed_reproof_required"

-- `lease IS NULL OR lease <= ?3`
abbrev pub null_or_over : Option ℤ → ℤ → Bool
null_or_over none now = true
null_or_over (some e) now = leb_ℤ e now

abbrev pub has_no_transaction : ProofJobRow → Bool
has_no_transaction r =
    not (is_some r.device_transaction_object_key)
    && not (is_some r.device_transaction_hash)
    && not (is_some r.sponsor_transaction_object_key)
    && not (is_some r.sponsor_serialized_sha256)
    && not (is_some r.sponsor_transaction_id)
    && not (is_some r.sponsorship_completed_at)
    && not (is_some r.attest_tx_id)
    && not (is_some r.attest_tx_hash)
    && not (is_some r.block_height)

unfoldable pub can_recover : String → ℤ → ProofJobRow → Bool
can_recover job_id now r =
    has_id job_id r
    && from_device r.origin
    && is_reproof_required r.status
    && contract_state_changed r.last_error_code
    && has_no_transaction r
    && null_or_over r.lease_expires_at now
    && null_or_over r.sponsor_lease_expires_at now

abbrev pub recovery_gap : ℤ
recovery_gap = pos 300_000

-- The conditions on the attempts made before.
unfoldable pub may_attempt : String → ℤ → Attempts → Bool
may_attempt job_id now attempts =
    ltb (count_where (of_job job_id) attempts) 3
    && count_where (recent job_id (now -ℤ recovery_gap)) attempts == 0

abbrev pub new_attempt : String → String → ℤ → ℕ → ProofJobRow → RecoveryAttempt
new_attempt recovery_id job_id now number r = record {
  recovery_id = recovery_id;
  proof_job_id = job_id;
  recovery_number = number;
  requested_at = now;
  previous_updated_at = r.updated_at;
  previous_error_code = r.last_error_code;
  previous_attempt_count = r.attempt_count;
}

-- `INSERT … SELECT`: a row for the job that the selection finds.
unfoldable pub insert_selected : String → String → ℤ → Option ProofJobRow → Attempts → Attempts
insert_selected recovery_id job_id now none attempts = attempts
insert_selected recovery_id job_id now (some r) attempts =
    if may_attempt job_id now attempts
    then new_attempt recovery_id job_id now (count_where (of_job job_id) attempts + 1) r ∷ attempts
    else attempts

unfoldable pub insert_attempt : String → String → ℤ → Jobs → Attempts → Attempts
insert_attempt recovery_id job_id now jobs =
    insert_selected recovery_id job_id now (find_where (can_recover job_id now) jobs)

unfoldable pub requeue_job : String → ℤ → Jobs → Jobs
requeue_job job_id now =
    update_where (λ r. has_id job_id r && is_reproof_required r.status)
      (λ r. record r {
        status = pending;
        available_after = now;
        lease_expires_at = none;
        proof_artifact_key = none;
        proof_generated_at = none;
        sponsor_available_after = now;
        sponsor_lease_expires_at = none;
        sponsor_stage = some "reproof_queued";
        sponsor_reason_code = some "contract_state_changed_reproof_required";
        sponsor_stage_updated_at = some now;
        updated_at = some now;
      })

-- The batch of the two statements, and whether the attempt is found afterwards.
unfoldable pub recover_released_proof_job :
    String → String → ℤ → Jobs × Attempts → Jobs × Attempts × Bool
recover_released_proof_job recovery_id job_id now (jobs, attempts) =
    let attempts' = insert_attempt recovery_id job_id now jobs attempts in
    let recorded = ltb 0 (count_where (with_id recovery_id) attempts') in
    (if recorded then requeue_job job_id now jobs else jobs, attempts', recorded)
