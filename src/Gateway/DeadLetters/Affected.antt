-- ===== src/Gateway/DeadLetters/Affected.antt =====
-- affectedStateStatements of backend/cloudflare/proof-gateway-worker/src/queue-dead-letters.ts, and the
-- tables that a dead letter changes.

use midnight_buildathons_bac.Prelude.{
  ℕ, String, Bool, ◌&&◌, ◌||◌, not, Option, none, some, List, if◌then◌else◌, str_eq,
}
use midnight_buildathons_bac.Prelude.Int.{ℤ}
use midnight_buildathons_bac.Prelude.Tables.{update_where, find_where}
use midnight_buildathons_bac.Gateway.Job.{ProofJobRow, dead_lettered, is_final}
use midnight_buildathons_bac.Gateway.Statements.{Jobs, has_id}
use midnight_buildathons_bac.Gateway.DeadLetters.Identity.{DeadLetterIdentity}

-- A row of queue_dead_letters.
pub record DeadLetter : Type 0 where
  pub id : String
  pub queue_name : String
  pub message_id : String
  pub identity : DeadLetterIdentity
  pub delivery_attempts : ℕ
  pub observation_count : ℕ
  pub first_observed_at : ℤ
  pub last_observed_at : ℤ

-- A row of operations_alert_state, which is open.
pub record Alert : Type 0 where
  pub alert_key : String
  pub summary : String
  pub first_observed_at : ℤ
  pub last_observed_at : ℤ
  pub occurrence_count : ℕ

-- A row of operations_notification_outbox, which is pending.
pub record Notification : Type 0 where
  pub id : String
  pub dedupe_key : String
  pub alert_key : String
  pub identity : DeadLetterIdentity
  pub created_at : ℤ

-- A row of operational_events.
pub record Event : Type 0 where
  pub id : String
  pub occurred_at : ℤ
  pub actor_identifier : String
  pub identity : DeadLetterIdentity
  pub correlation_id : String

-- A row of browser_provisioning_operations or of browser_policy_operations.
pub record Operation : Type 0 where
  pub id : String
  pub status : String
  pub stage : String
  pub error_message : Option String
  pub updated_at : ℤ

pub record ManagedSource : Type 0 where
  pub id : String
  pub status : String
  pub stage : String
  pub last_error_code : Option String
  pub last_error_summary : Option String
  pub updated_at : ℤ

pub record ManagedSourceRun : Type 0 where
  pub id : String
  pub proof_job_id : Option String
  pub status : String
  pub stage : String
  pub lease_expires_at : Option ℤ
  pub last_error_code : Option String
  pub last_error_summary : Option String
  pub updated_at : ℤ

pub record Database : Type 0 where
  pub dead_letters : List DeadLetter
  pub jobs : Jobs
  pub provisioning : List Operation
  pub policies : List Operation
  pub sources : List ManagedSource
  pub runs : List ManagedSourceRun
  pub alerts : List Alert
  pub outbox : List Notification
  pub events : List Event

abbrev pub job_not_final : String → ProofJobRow → Bool
job_not_final id r = has_id id r && not (is_final r.status)

unfoldable pub dead_letter_job : ℤ → String → Jobs → Jobs
dead_letter_job now id = update_where (job_not_final id) (λ r. record r {
  status = dead_lettered;
  lease_expires_at = none;
  sponsor_lease_expires_at = none;
  last_error_code = some "cloudflare_queue_dead_letter";
  updated_at = some now;
})

abbrev pub operation_not_final : String → Operation → Bool
operation_not_final id r =
    str_eq r.id id && not (str_eq r.status "registered" || str_eq r.status "failed")

unfoldable pub fail_operation : ℤ → String → List Operation → List Operation
fail_operation now id = update_where (operation_not_final id) (λ r. record r {
  status = "failed";
  stage = "failed";
  error_message = some "Cloudflare Queue delivery exhausted retries";
  updated_at = now;
})

unfoldable pub fail_source : ℤ → String → List ManagedSource → List ManagedSource
fail_source now id =
    update_where (λ r. str_eq r.id id && not (str_eq r.status "active"))
      (λ r. record r {
        status = "action_required";
        stage = "queue_dead_letter";
        last_error_code = some "cloudflare_queue_dead_letter";
        last_error_summary = some "Managed Source delivery exhausted Cloudflare Queue retries";
        updated_at = now;
      })

abbrev pub run_not_final : String → ManagedSourceRun → Bool
run_not_final id r =
    str_eq r.id id
    && not (
        str_eq r.status "confirmed"
        || str_eq r.status "action_required"
        || str_eq r.status "dead_lettered")

unfoldable pub fail_run : ℤ → String → List ManagedSourceRun → List ManagedSourceRun
fail_run now id = update_where (run_not_final id) (λ r. record r {
  status = "dead_lettered";
  stage = "queue_dead_letter";
  lease_expires_at = none;
  last_error_code = some "cloudflare_queue_dead_letter";
  last_error_summary = some "Managed Source Run exhausted Cloudflare Queue retries";
  updated_at = now;
})

abbrev pub job_of : Option ManagedSourceRun → Option String
job_of none = none
job_of (some r) = r.proof_job_id

abbrev pub run_with_id : String → ManagedSourceRun → Bool
run_with_id id r = str_eq r.id id

unfoldable pub dead_letter_if : ℤ → Option String → Jobs → Jobs
dead_letter_if now none jobs = jobs
dead_letter_if now (some id) jobs = dead_letter_job now id jobs

-- The statements of a resource type, for its identifier.
unfoldable pub apply_to_resource : String → ℤ → String → Database → Database
apply_to_resource resource_type now id d =
    if str_eq resource_type "proof-job"
    then record d { jobs = dead_letter_job now id d.jobs }
    else (if str_eq resource_type "device-registration"
        then record d { provisioning = fail_operation now id d.provisioning }
        else (if str_eq resource_type "policy-registration"
            then record d { policies = fail_operation now id d.policies }
            else (if str_eq resource_type "managed-source"
                then record d { sources = fail_source now id d.sources }
                else (if str_eq resource_type "managed-source-run"
                    then record d {
                      runs = fail_run now id d.runs;
                      jobs =
                          dead_letter_if now
                            (job_of (find_where (run_with_id id) (fail_run now id d.runs))) d.jobs;
                    }
                    else d))))

unfoldable pub affected_state_of : Option String → Option String → ℤ → Database → Database
affected_state_of resource_type none now d = d
affected_state_of none (some id) now d = d
affected_state_of (some resource_type) (some id) now d = apply_to_resource resource_type now id d

unfoldable pub affected_state_statements : DeadLetterIdentity → ℤ → Database → Database
affected_state_statements identity = affected_state_of identity.resource_type identity.resource_id
