-- ===== src/Gateway/Admission.antt =====
-- jobs.ts of backend/cloudflare/proof-gateway-worker/src: a job is admitted to the one proof server,
-- by its message in the queue or by its device, and its device starts and ends the proof.
use midnight_buildathons_bac.Prelude.{
  ℕ, String, Bool, true, false, ◌&&◌, not, Option, none, some, List, [], ◌∷◌, if◌then◌else◌, leb,
  ◌==◌, str_eq, ltb,
}
use midnight_buildathons_bac.Prelude.Int.{ℤ}
use midnight_buildathons_bac.Prelude.Tables.{count_where, find_where}
use midnight_buildathons_bac.Protocol.Identifier.{matches_identifier, trim}
use midnight_buildathons_bac.Sponsor.Window.{
  SponsorWalletOperatingWindow, instant, sponsor_work_is_eligible,
}
use midnight_buildathons_bac.Gateway.Job.{
  ProofJobRow, JobStatus, ready_for_input, proving, proof_ready, device_bound, sponsoring,
  sponsored, submitted, confirmed, dead_lettered, is_admitted, is_waiting, is_proving, is_ready,
}
use midnight_buildathons_bac.Gateway.Statements.{
  Jobs, OperatorProofLease, has_id, of_device, active_count, ends_after, defer_ineligible,
  defer_at_capacity, admit_job, admit_for_device, admission_failed, start_proving_job, lease_end,
}

abbrev pub proof_admission_capacity : ℕ
proof_admission_capacity = 1

-- A message of the queue, with the fields of its body.
pub record Message : Type 0 where
  pub kind : String
  pub proof_job_id : String
  pub attempts : ℕ

pub data Delivery : Type 0 where
  ack retry : Delivery

-- What the readiness request to the proof server came to.
pub data Readiness : Type 0 where
  ok_response timed_out unavailable : Readiness

-- The clock when the active jobs are counted, and when the job is changed.
pub record Clock : Type 0 where
  pub checked_at : ℤ
  pub changed_at : ℤ

unfoldable pub is_proof_queue_message : Message → Bool
unfolding matches_identifier
is_proof_queue_message message =
    str_eq message.kind "admit-proof" && matches_identifier message.proof_job_id

abbrev pub is_past_admission : JobStatus → Bool
is_past_admission proof_ready = true
is_past_admission device_bound = true
is_past_admission sponsoring = true
is_past_admission sponsored = true
is_past_admission submitted = true
is_past_admission confirmed = true
is_past_admission dead_lettered = true
is_past_admission _ = false

-- The proof server answered, or the request threw.
unfoldable pub admit_when_ready : String → ℕ → Clock → Readiness → Jobs → Jobs × Delivery
admit_when_ready id attempts clock ok_response jobs = (admit_job clock.changed_at id jobs, ack)
admit_when_ready id attempts clock timed_out jobs =
    (admission_failed clock.changed_at (leb 4 attempts) "proof_container_timeout" id jobs, retry)
admit_when_ready id attempts clock unavailable jobs = (
  admission_failed clock.changed_at (leb 4 attempts) "proof_container_unavailable" id jobs,
  retry,
)

module _ (schedule : SponsorWalletOperatingWindow) (leases : List OperatorProofLease) where
  unfoldable pub admit_found :
      Message → Clock → Readiness → Option ProofJobRow → Jobs → Jobs × Delivery
  admit_found message clock readiness none jobs = (jobs, ack)
  admit_found message clock readiness (some job) jobs =
      if is_past_admission job.status
      then (jobs, ack)
      else (if not (sponsor_work_is_eligible schedule (instant job.created_at))
          then (defer_ineligible clock.changed_at job.id jobs, ack)
          else (if leb proof_admission_capacity (active_count clock.checked_at jobs leases)
              then (defer_at_capacity clock.changed_at job.id jobs, ack)
              else admit_when_ready job.id message.attempts clock readiness jobs))

  unfoldable pub admit_proof_job : Message → Clock → Readiness → Jobs → Jobs × Delivery
  admit_proof_job message clock readiness jobs =
      if not (is_proof_queue_message message)
      then (jobs, ack)
      else admit_found message clock readiness (find_where (has_id message.proof_job_id) jobs) jobs

pub record DevicePrincipal : Type 0 where
  pub device_id : String
  pub project_id : String

-- The answer's status, and the job it names.
pub data ProofJobAuthorization : Type 0 where
  authorized : ProofJobRow → ProofJobAuthorization
  refused : ℕ → String → ProofJobAuthorization

abbrev pub current_or_changed : Option ProofJobRow → ProofJobAuthorization
current_or_changed none = refused 409 "Proof Job state changed"
current_or_changed (some current) =
    if is_proving current.status then authorized current else refused 409 "Proof Job state changed"

unfoldable pub begin_proving : ℤ → ProofJobRow → Jobs → Jobs × ProofJobAuthorization
begin_proving now job jobs =
    let changes = count_where (λ r. has_id job.id r && is_ready r.status) jobs in
    let jobs' = start_proving_job now job.id jobs in
    if ltb 0 changes
    then (jobs', authorized (record job { status = proving; updated_at = some now }))
    else (jobs', current_or_changed (find_where (has_id job.id) jobs'))

unfoldable pub authorize_found : ℤ → Bool → Option ProofJobRow → Jobs → Jobs × ProofJobAuthorization
authorize_found now start_proving none jobs = (jobs, refused 404 "Proof Job not found")
authorize_found now start_proving (some job) jobs =
    if not (is_admitted job.status)
    then (jobs, refused 409 "Proof Job has not been admitted")
    else (if not (ends_after job.lease_expires_at now)
        then (jobs, refused 409 "Proof Job input lease has expired")
        else (if start_proving && not (is_proving job.status)
            then begin_proving now job jobs
            else (jobs, authorized job)))

-- The value of the header X-Proof-Job-Id.
abbrev pub header_text : Option String → String
header_text none = ""
header_text (some value) = trim value

unfoldable pub authorize_proof_job :
    ℤ → Option String → DevicePrincipal → Bool → Jobs → Jobs × ProofJobAuthorization
authorize_proof_job now header principal start_proving jobs =
    let proof_job_id = header_text header in
    if not (matches_identifier proof_job_id)
    then (jobs, refused 400 "X-Proof-Job-Id is required")
    else authorize_found now start_proving
        (find_where (of_device proof_job_id principal.device_id principal.project_id) jobs) jobs

-- The answer to a device that asks for admission: `status` and `lease_expires_at` of an accepted one.
pub data Admission : Type 0 where
  admitted : JobStatus → Option ℤ → Admission
  not_admitted : ℕ → String → Admission

abbrev pub if_changed : Bool → Jobs → ℤ → Jobs × Admission
if_changed true jobs now = (jobs, admitted ready_for_input (some (lease_end now)))
if_changed false jobs now = (jobs, not_admitted 409 "Proof Job state changed")

-- The job was read for its device; `now` is the one reading of the clock.
unfoldable pub admit_found_for_device :
    List OperatorProofLease
    → ℤ
    → String
    → DevicePrincipal
    → Option ProofJobRow
    → Jobs
    → Jobs × Admission
admit_found_for_device leases now id principal none jobs =
    (jobs, not_admitted 404 "Proof Job not found")
admit_found_for_device leases now id principal (some job) jobs =
    let changed =
      count_where
        (λ r. of_device id principal.device_id principal.project_id r && is_waiting r.status)
        jobs in
    if is_admitted job.status
    then (jobs, admitted job.status none)
    else (if not (is_waiting job.status)
        then (jobs, not_admitted 409 "Proof Job cannot be admitted from status")
        else (if leb proof_admission_capacity (active_count now jobs leases)
            then (jobs, not_admitted 409 "Proof capacity is already leased; retry shortly")
            else if_changed (changed == 1)
                (admit_for_device now id principal.device_id principal.project_id jobs) now))

-- What the authorization of the request came to.
pub data DeviceAuthorization : Type 0 where
  allowed : DevicePrincipal → DeviceAuthorization
  denied : Admission → DeviceAuthorization

unfoldable pub admit_proof_job_for_browser_device :
    List OperatorProofLease → ℤ → DeviceAuthorization → Bool → String → Jobs → Jobs × Admission
admit_proof_job_for_browser_device leases now (denied answer) within_rate id jobs = (jobs, answer)
admit_proof_job_for_browser_device leases now (allowed principal) within_rate id jobs =
    if not within_rate
    then (jobs, not_admitted 429 "Immediate Proof admission rate limit exceeded")
    else admit_found_for_device leases now id principal
        (find_where (of_device id principal.device_id principal.project_id) jobs) jobs

-- A message with the clock and the readiness of the proof server while it is handled.
pub record Handled : Type 0 where
  pub message : Message
  pub schedule : SponsorWalletOperatingWindow
  pub leases : List OperatorProofLease
  pub clock : Clock
  pub readiness : Readiness

unfoldable pub admit_each : List Handled → Jobs → Jobs × List Delivery
admit_each [] jobs = (jobs, [])
admit_each (h ∷ more) jobs =
    let done = admit_proof_job h.schedule h.leases h.message h.clock h.readiness jobs in
    let rest = admit_each more done.0 in (rest.0, done.1 ∷ rest.1)

abbrev retry_each : List Handled → List Delivery
retry_each [] = []
retry_each (h ∷ more) = retry ∷ retry_each more

unfoldable pub handle_job_queue : String → List Handled → Jobs → Jobs × List Delivery
handle_job_queue queue_name batch jobs =
    if not (str_eq queue_name "midnight-proof-jobs")
    then (jobs, retry_each batch)
    else admit_each batch jobs
