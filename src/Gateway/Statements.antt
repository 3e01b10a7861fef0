-- ===== src/Gateway/Statements.antt =====
-- The statements of jobs.ts of backend/cloudflare/proof-gateway-worker/src that change or count rows of
-- the table daily_proof_jobs: each is a function of the table and of the instants it is given.
use midnight_buildathons_bac.Prelude.{
  ℕ, ◌+◌, ◌*◌, String, Bool, true, false, ◌&&◌, Option, none, some, List, str_eq,
}
use midnight_buildathons_bac.Prelude.Int.{ℤ, pos, ◌+ℤ◌, ltb_ℤ, div_floor}
use midnight_buildathons_bac.Prelude.Tables.{update_where, count_where}
use midnight_buildathons_bac.Gateway.Job.{
  JobStatus, ProofJobRow, pending, dispatched, ready_for_input, proving, proof_ready,
  retryable_failed, dead_lettered, is_admitted, is_waiting, is_dispatched_or_failed, is_dispatched,
  is_proving, is_ready,
}

abbrev pub Jobs : Type 0
Jobs = List ProofJobRow

-- A row of operator_proof_leases; its end is in seconds.
pub record OperatorProofLease : Type 0 where
  pub active : Bool
  pub expires_at : ℤ

abbrev pub has_id : String → ProofJobRow → Bool
has_id id r = str_eq r.id id

abbrev pub of_device : String → String → String → ProofJobRow → Bool
of_device id device_id project_id r =
    has_id id r && str_eq r.device_id device_id && str_eq r.project_id project_id

-- NULL compares as unknown, which no row satisfies.
abbrev pub ends_before : Option ℤ → ℤ → Bool
ends_before none now = false
ends_before (some e) now = ltb_ℤ e now

abbrev pub ends_after : Option ℤ → ℤ → Bool
ends_after none now = false
ends_after (some e) now = ltb_ℤ now e

-- `status IN ('ready_for_input', 'proving', 'proof_ready') AND lease_expires_at > ?1`
unfoldable pub is_active : ℤ → ProofJobRow → Bool
is_active now r = is_admitted r.status && ends_after r.lease_expires_at now

abbrev pub is_active_lease : ℤ → OperatorProofLease → Bool
is_active_lease now_seconds l = l.active && ltb_ℤ now_seconds l.expires_at

unfoldable pub active_count : ℤ → Jobs → List OperatorProofLease → ℕ
active_count now jobs leases =
    count_where (is_active now) jobs + count_where (is_active_lease (div_floor now 1000)) leases

unfoldable pub expire_leases : ℤ → Jobs → Jobs
expire_leases now =
    update_where (λ r. is_admitted r.status && ends_before r.lease_expires_at now)
      (λ r. record r {
        status = retryable_failed;
        lease_expires_at = none;
        available_after = now;
        updated_at = some now;
        last_error_code = some "proof_input_lease_expired";
      })

unfoldable pub claim_job : ℤ → String → Jobs → Jobs
claim_job now id =
    update_where (λ r. has_id id r && is_waiting r.status)
      (λ r. record r { status = dispatched; updated_at = some now })

unfoldable pub requeue_unsent : ℤ → String → Jobs → Jobs
requeue_unsent now id =
    update_where (λ r. has_id id r && is_dispatched r.status)
      (λ r. record r {
        status = retryable_failed;
        updated_at = some now;
        last_error_code = some "proof_queue_send_failed";
      })

unfoldable pub defer_ineligible : ℤ → String → Jobs → Jobs
defer_ineligible now id =
    update_where (λ r. has_id id r && is_dispatched_or_failed r.status)
      (λ r. record r { status = pending; updated_at = some now })

unfoldable pub defer_at_capacity : ℤ → String → Jobs → Jobs
defer_at_capacity now id =
    update_where (λ r. has_id id r && is_dispatched r.status)
      (λ r. record r {
        status = pending;
        available_after = now +ℤ pos 300_000;
        updated_at = some now;
      })

abbrev pub proof_lease_seconds : ℕ
proof_lease_seconds = 7_200

abbrev pub lease_end : ℤ → ℤ
lease_end now = now +ℤ pos (proof_lease_seconds * 1000)

-- What an admission sets.
abbrev pub admitted_row : ℤ → ProofJobRow → ProofJobRow
admitted_row now r = record r {
  status = ready_for_input;
  attempt_count = r.attempt_count + 1;
  lease_expires_at = some (lease_end now);
  last_error_code = none;
  updated_at = some now;
}

unfoldable pub admit_job : ℤ → String → Jobs → Jobs
admit_job now id =
    update_where (λ r. has_id id r && is_dispatched_or_failed r.status) (admitted_row now)

unfoldable pub admit_for_device : ℤ → String → String → String → Jobs → Jobs
admit_for_device now id device_id project_id =
    update_where (λ r. of_device id device_id project_id r && is_waiting r.status)
      (admitted_row now)

abbrev pub failed_status : Bool → JobStatus
failed_status true = dead_lettered
failed_status false = retryable_failed

unfoldable pub admission_failed : ℤ → Bool → String → String → Jobs → Jobs
admission_failed failed_at terminal error_code id =
    update_where (λ r. has_id id r && is_dispatched_or_failed r.status)
      (λ r. record r {
        status = failed_status terminal;
        attempt_count = r.attempt_count + 1;
        available_after = failed_at +ℤ pos 300_000;
        last_error_code = some error_code;
        updated_at = some failed_at;
      })

unfoldable pub start_proving_job : ℤ → String → Jobs → Jobs
start_proving_job now id =
    update_where (λ r. has_id id r && is_ready r.status)
      (λ r. record r { status = proving; updated_at = some now })

-- `COALESCE(proof_generated_at, ?1)`
abbrev pub or_now : Option ℤ → ℤ → Option ℤ
or_now none now = some now
or_now (some t) now = some t

unfoldable pub mark_proof_ready : ℤ → String → Jobs → Jobs
mark_proof_ready completed_at id =
    update_where (λ r. has_id id r && is_proving r.status)
      (λ r. record r {
        status = proof_ready;
        proof_generated_at = or_now r.proof_generated_at completed_at;
        updated_at = some completed_at;
      })
