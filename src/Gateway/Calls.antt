-- ===== src/Gateway/Calls.antt =====
-- Runs of the operations of jobs.ts of backend/cloudflare/proof-gateway-worker/src, one after the other,
-- and induction over the statements they are made of.
pub mod Device
pub mod Induction
use midnight_buildathons_bac.Prelude.{
  ℕ, ◌+◌, ◌≤◌, ◌≡◌, refl, sym, String, Bool, true, false, ◌&&◌, Option, none, some, List, [], ◌∷◌,
  arith, inl, inr, Bool-cases, ltb, leb,
}
use midnight_buildathons_bac.Prelude.Int.{ℤ, ◌≤ℤ◌}
use midnight_buildathons_bac.Prelude.Tables.{count_where, update_where, find_where}
use midnight_buildathons_bac.Sponsor.Window.{
  SponsorWalletOperatingWindow, instant, sponsor_work_is_eligible,
}
use midnight_buildathons_bac.Gateway.Job.{
  ProofJobRow, is_waiting, is_admitted, is_proving, is_ready,
}
use midnight_buildathons_bac.Gateway.Statements.{
  Jobs, OperatorProofLease, has_id, expire_leases, claim_job, requeue_unsent, defer_ineligible,
  defer_at_capacity, admit_job, admit_for_device, admission_failed, start_proving_job,
  mark_proof_ready, active_count,
}
use midnight_buildathons_bac.Gateway.Dispatch.{
  dispatch_proof_jobs, dispatch_through, dispatch_all, dispatch_job, jobs_to_dispatch,
  accepted_through,
}
use midnight_buildathons_bac.Gateway.Admission.{
  Message, Clock, Readiness, DevicePrincipal, DeviceAuthorization, admit_proof_job, admit_found,
  admit_when_ready, is_past_admission, is_proof_queue_message, ok_response, timed_out, unavailable,
  authorize_proof_job, authorize_found, begin_proving, admit_found_for_device, allowed, denied,
  admit_proof_job_for_browser_device,
}

-- A whole call, with what it reads from outside the table.
pub data Call : Type 0 where
  dispatch : SponsorWalletOperatingWindow → (String → Bool) → (String → ℤ) → ℤ → Call
  admit :
      SponsorWalletOperatingWindow → List OperatorProofLease → Message → Clock → Readiness → Call
  authorize : ℤ → Option String → DevicePrincipal → Bool → Call
  mark_ready : ℤ → String → Call
  admit_browser : List OperatorProofLease → ℤ → DeviceAuthorization → Bool → String → Call

unfoldable pub run_call : Call → Jobs → Jobs
run_call (dispatch schedule sent clock now) jobs = dispatch_proof_jobs schedule sent clock now jobs
run_call (admit schedule leases message clock readiness) jobs =
    (admit_proof_job schedule leases message clock readiness jobs).0
run_call (authorize now header principal start_proving) jobs =
    (authorize_proof_job now header principal start_proving jobs).0
run_call (mark_ready now id) jobs = mark_proof_ready now id jobs
run_call (admit_browser leases now authorization within_rate id) jobs =
    (admit_proof_job_for_browser_device leases now authorization within_rate id jobs).0

unfoldable pub run_calls : Jobs → List Call → Jobs
run_calls jobs [] = jobs
run_calls jobs (c ∷ cs) = run_calls (run_call c jobs) cs

-- The instant at which the call counts the active jobs is timely.
abbrev pub ChecksAt : (ℤ → Type 0) → Call → Type 0
ChecksAt timely (admit schedule leases message clock readiness) = timely clock.checked_at
ChecksAt timely (admit_browser leases now authorization within_rate id) = timely now
ChecksAt timely _ = Unit

abbrev pub AllCheckAt : (ℤ → Type 0) → List Call → Type 0
AllCheckAt timely [] = Unit
AllCheckAt timely (c ∷ cs) = ChecksAt timely c × AllCheckAt timely cs

-- A predicate that every statement keeps, an admission when no job was active at its check.
pub record Kept (timely : ℤ → Type 0) (P : Jobs → Type 0) : Type 0 where
  pub on_expire : (now : ℤ) (jobs : Jobs) → P jobs → P (expire_leases now jobs)
  pub on_claim : (now : ℤ) (id : String) (jobs : Jobs) → P jobs → P (claim_job now id jobs)
  pub on_requeue : (now : ℤ) (id : String) (jobs : Jobs) → P jobs → P (requeue_unsent now id jobs)
  pub on_defer : (now : ℤ) (id : String) (jobs : Jobs) → P jobs → P (defer_ineligible now id jobs)
  pub on_capacity :
      (now : ℤ) (id : String) (jobs : Jobs) → P jobs → P (defer_at_capacity now id jobs)
  pub on_failure :
      (now : ℤ) (terminal : Bool) (code id : String) (jobs : Jobs)
      → P jobs
      → P (admission_failed now terminal code id jobs)
  pub on_start : (now : ℤ) (id : String) (jobs : Jobs) → P jobs → P (start_proving_job now id jobs)
  pub on_ready : (now : ℤ) (id : String) (jobs : Jobs) → P jobs → P (mark_proof_ready now id jobs)
  pub on_admit :
      (checked now : ℤ) (id : String) (leases : List OperatorProofLease) (jobs : Jobs)
      → timely checked
      → active_count checked jobs leases ≡ 0
      → P jobs
      → P (admit_job now id jobs)
  pub on_admit_device :
      (checked now : ℤ) (id device_id project_id : String) (leases : List OperatorProofLease)
      (jobs : Jobs)
      → timely checked
      → active_count checked jobs leases ≡ 0
      → P jobs
      → P (admit_for_device now id device_id project_id jobs)
