-- ===== src/Tests/Gateway.antt =====
-- Inputs of the gateway's modules: a table of three jobs, one of which is confirmed, calls that follow
-- each other, and a message of a dead letter queue.
use midnight_buildathons_bac.Prelude.{
  ℕ, ◌+◌, ◌≤◌, ◌≡◌, ◌⊎◌, refl, String, true, false, not, none, some, List, [], ◌∷◌, arith, length,
  subst, str_eq, eq_iff, Bool-cases, inl, inr,
}
use midnight_buildathons_bac.Prelude.Int.{ℤ, pos}
use midnight_buildathons_bac.Prelude.Tables.{count_where, filter_where, find_where}
use midnight_buildathons_bac.Sponsor.Window.{
  SponsorWalletOperatingWindow, always_on, default_sponsor_wallet_schedule, unscheduled_window, d1,
}
use midnight_buildathons_bac.Gateway.Job.{
  ProofJobRow, JobStatus, pending, reproof_required, confirmed, device,
}
use midnight_buildathons_bac.Gateway.Statements.{Jobs, is_active, has_id}
use midnight_buildathons_bac.Gateway.Admission.{ok_response, DevicePrincipal, allowed}
use midnight_buildathons_bac.Gateway.Calls.{
  Call, dispatch, admit, authorize, mark_ready, admit_browser, run_calls,
}
use midnight_buildathons_bac.Gateway.Capacity.{IsKeyed, run_calls-capacity}
use midnight_buildathons_bac.Gateway.Untouched.{beyond_queue, run_calls-beyond_queue}
use midnight_buildathons_bac.Gateway.Recovery.{of_job, recover_released_proof_job, RecoveryAttempt}
use midnight_buildathons_bac.Gateway.Recovery.Laws.{
  Request, IsSpaced, attempts_after, attempts_after-IsSpaced,
}
use midnight_buildathons_bac.Gateway.Recovery.Outcome.{
  IsRefused, IsReleased, IsQueuedAgain, IsRecordOf, recover_released_proof_job-cases,
}
use midnight_buildathons_bac.Gateway.DeadLetters.Identity
use midnight_buildathons_bac.Gateway.DeadLetters.Affected.{Database, DeadLetter}
use midnight_buildathons_bac.Gateway.DeadLetters.Persist.{
  persist_dead_letter, handle_dead_letter_queue, Attempt,
}
use midnight_buildathons_bac.Gateway.DeadLetters.Again.{persist_dead_letter-again}
use midnight_buildathons_bac.Gateway.DeadLetters.Recorded.{
  recorded, handle_dead_letter_queue-recorded,
}
use midnight_buildathons_bac.Gateway.DeadLetters.Observations.{
  letter_of, deliver, deliver-observation_count,
}

abbrev job : String → JobStatus → ProofJobRow
job id status = record {
  id = id;
  project_id = "project";
  device_id = "device";
  origin = device;
  status = status;
  attempt_count = 0;
  available_after = pos 0;
  lease_expires_at = none;
  proof_artifact_key = none;
  proof_generated_at = none;
  device_transaction_object_key = none;
  device_transaction_hash = none;
  device_transaction_bytes = none;
  sponsor_transaction_object_key = none;
  sponsor_serialized_sha256 = none;
  sponsor_transaction_id = none;
  sponsor_fee_specks = none;
  sponsor_transaction_bytes = none;
  sponsor_available_after = pos 0;
  sponsor_lease_expires_at = none;
  sponsor_stage = none;
  sponsor_reason_code = none;
  sponsor_stage_updated_at = none;
  sponsorship_completed_at = none;
  attest_tx_id = none;
  attest_tx_hash = none;
  block_height = none;
  last_error_code = some "contract_state_changed_reproof_required";
  created_at = pos 0;
  updated_at = none;
}

abbrev jobs : Jobs
jobs = job "a" pending ∷ job "b" pending ∷ job "c" confirmed ∷ job "d" reproof_required ∷ []

abbrev window : SponsorWalletOperatingWindow
window = unscheduled_window (record default_sponsor_wallet_schedule { mode = always_on }) (pos 0) d1

abbrev admission : String → Call
admission id =
    admit window [] (record { kind = "admit-proof"; proof_job_id = id; attempts = 1 })
      (record { checked_at = pos 2000; changed_at = pos 2100 }) ok_response

abbrev principal : DevicePrincipal
principal = record { device_id = "device"; project_id = "project" }

-- Two jobs are dispatched; the first is admitted, the second is not, also when its device asks.
abbrev calls : List Call
calls =
    dispatch window (λ id. true) (λ id. pos 1500) (pos 1000)
    ∷ admission "a"
    ∷ admission "b"
    ∷ authorize (pos 2500) (some "a") principal true
    ∷ mark_ready (pos 2600) "a"
    ∷ admit_browser [] (pos 2700) (allowed principal) true "b"
    ∷ []

one :
    (key id : String)
    → str_eq key id ≡ true
    → count_where (has_id key) jobs ≤ 1
    → count_where (has_id id) jobs ≤ 1
one key id same h = subst (λ i. count_where (has_id i) jobs ≤ 1) ((eq_iff key id).0 same) h

jobs-IsKeyed : IsKeyed jobs
jobs-IsKeyed id = elim (Bool-cases (str_eq "a" id)) [
  | inl this ↦ one "a" id this (omega arith)
  | inr not_a ↦ elim (Bool-cases (str_eq "b" id)) [
    | inl this ↦ one "b" id this (omega arith)
    | inr not_b ↦ elim (Bool-cases (str_eq "c" id)) [
      | inl this ↦ one "c" id this (omega arith)
      | inr not_c ↦ elim (Bool-cases (str_eq "d" id)) [
        | inl this ↦ one "d" id this (omega arith)
        | inr not_d ↦ rw (not_a, not_b, not_c, not_d) (omega arith)
      ]
    ]
  ]
]

none_active : count_where (is_active (pos 3000)) jobs ≤ 1
unfolding is_active
none_active = omega arith

run_calls-capacity_example : count_where (is_active (pos 3000)) (run_calls jobs calls) ≤ 1
run_calls-capacity_example =
    run_calls-capacity (pos 3000) jobs calls jobs-IsKeyed none_active
      (tt, (omega arith, (omega arith, (tt, (tt, (omega arith, tt))))))

run_calls-beyond_queue_example :
    filter_where beyond_queue (run_calls jobs calls) ≡ filter_where beyond_queue jobs
run_calls-beyond_queue_example = run_calls-beyond_queue jobs calls

abbrev request : String → ℤ → Request
request id now = record {
  jobs = job "d" reproof_required ∷ [];
  recovery_id = id;
  job_id = "d";
  now = now;
}

-- The second request comes too early.
abbrev requests : List Request
requests = request "r1" (pos 1000000) ∷ request "r2" (pos 1200000) ∷ request "r3" (pos 1300000) ∷ []

attempts_after-IsSpaced_example :
    (count_where (of_job "d") (attempts_after [] requests) ≤ 3)
    × IsSpaced (attempts_after [] requests)
attempts_after-IsSpaced_example = attempts_after-IsSpaced requests "d"

one_d : count_where (has_id "d") jobs ≤ 1
one_d = omega arith

recover_released_proof_job-cases_example :
    let done = recover_released_proof_job "r1" "d" (pos 1000000) (jobs, []) in
    ((done ≡ (jobs, [], false)) × IsRefused "d" (pos 1000000) jobs [])
    ⊎ ((r r' : ProofJobRow) × (a : RecoveryAttempt) × (done.2 ≡ true)
        × (find_where (has_id "d") jobs ≡ some r)
        × IsReleased r
        × (find_where (has_id "d") done.0 ≡ some r')
        × IsQueuedAgain (pos 1000000) r r'
        × (filter_where (λ x. not (has_id "d" x)) done.0
            ≡ filter_where (λ x. not (has_id "d" x)) jobs)
        × (done.1 ≡ a ∷ [])
        × IsRecordOf "r1" (pos 1000000) r [] a)
recover_released_proof_job-cases_example =
    recover_released_proof_job-cases "r1" "d" (pos 1000000) jobs [] refl one_d

abbrev dead : Identity.Message
dead = record {
  id = "m1";
  body = some (record {
    kind = some "admit-proof";
    proof_job_id = some "a";
    operation_id = none;
    source_id = none;
    run_id = none;
  });
  attempts = 5;
}

abbrev database : Database
database = record {
  dead_letters = [];
  jobs = jobs;
  provisioning = [];
  policies = [];
  sources = [];
  runs = [];
  alerts = [];
  outbox = [];
  events = [];
}

abbrev queue : String
queue = "midnight-proof-jobs-dlq"

persist_dead_letter-again_example :
    let once = persist_dead_letter queue dead (pos 1) "n1" database in
    let twice = persist_dead_letter queue (record dead { attempts = 6 }) (pos 2) "n2" once in
    (twice.jobs ≡ once.jobs)
    × (twice.provisioning ≡ once.provisioning)
    × (twice.policies ≡ once.policies)
    × (twice.runs ≡ once.runs)
    × (twice.outbox ≡ once.outbox)
    × (twice.events ≡ once.events)
persist_dead_letter-again_example =
    persist_dead_letter-again queue dead 6 (pos 1) (pos 2) "n1" "n2" database

abbrev batch : List Attempt
batch =
    record { message = dead; now = pos 1; notification_id = "n1"; persists = true }
    ∷ record { message = dead; now = pos 2; notification_id = "n2"; persists = false }
    ∷ []

handle_dead_letter_queue-recorded_example :
    filter_where recorded (handle_dead_letter_queue queue batch database).0.jobs
    ≡ filter_where recorded jobs
handle_dead_letter_queue-recorded_example = handle_dead_letter_queue-recorded queue batch database

deliver-observation_count_example :
    (r : DeadLetter) × (letter_of queue dead
        (deliver queue dead ((pos 1, 5, "n1") ∷ (pos 2, 6, "n2") ∷ []) database)
      ≡ some r)
    × (r.observation_count ≡ length {A = ℤ × ℕ × String} ((pos 2, 6, "n2") ∷ []) + 1)
    × (r.first_observed_at ≡ pos 1)
deliver-observation_count_example =
    deliver-observation_count queue dead (pos 1) 5 "n1" ((pos 2, 6, "n2") ∷ []) database refl
