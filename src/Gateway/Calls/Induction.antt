-- ===== src/Gateway/Calls/Induction.antt =====
-- Induction over the calls of jobs.ts of backend/cloudflare/proof-gateway-worker/src: what each statement
-- keeps, each call keeps.
use midnight_buildathons_bac.Prelude.{
  ℕ, ◌≡◌, String, Bool, ◌&&◌, Option, none, some, List, [], ◌∷◌, inl, inr, Bool-cases, ltb, leb,
}
use midnight_buildathons_bac.Prelude.Int.{ℤ}
use midnight_buildathons_bac.Prelude.Tables.{count_where, find_where}
use midnight_buildathons_bac.Sponsor.Window.{
  SponsorWalletOperatingWindow, instant, sponsor_work_is_eligible,
}
use midnight_buildathons_bac.Gateway.Job.{ProofJobRow, is_waiting}
use midnight_buildathons_bac.Gateway.Statements.{
  Jobs, OperatorProofLease, has_id, expire_leases, claim_job, active_count,
}
use midnight_buildathons_bac.Gateway.Dispatch.{
  dispatch_proof_jobs, dispatch_through, dispatch_all, dispatch_job, jobs_to_dispatch,
  accepted_through,
}
use midnight_buildathons_bac.Gateway.Admission.{
  Message, Clock, Readiness, admit_proof_job, admit_found, admit_when_ready, is_past_admission,
  is_proof_queue_message, ok_response, timed_out, unavailable,
}
use midnight_buildathons_bac.Gateway.Calls.{
  Call, dispatch, admit, authorize, mark_ready, admit_browser, run_call, run_calls, ChecksAt,
  AllCheckAt, Kept,
}
use midnight_buildathons_bac.Gateway.Calls.Device.{not_one, authorize-Kept, admit_browser-Kept}

module _ {Timely : ℤ → Type 0} {P : Jobs → Type 0} (k : Kept Timely P) where
  dispatch_job-Kept :
      (sent : Bool) (now : ℤ) (id : String) (jobs : Jobs)
      → P jobs
      → P (dispatch_job sent now id jobs)
  unfolding dispatch_job
  dispatch_job-Kept sent now id jobs p =
      elim (Bool-cases (ltb (count_where (λ r. has_id id r && is_waiting r.status) jobs) 1)) [
        | inl gone ↦ rw gone p
        | inr here ↦ elim (Bool-cases sent) [
          | inl taken ↦ rw (here, taken) (k.on_claim now id jobs p)
          | inr refused ↦
              rw (here, refused)
                (k.on_requeue now id (claim_job now id jobs) (k.on_claim now id jobs p))
        ]
      ]

  dispatch_all-Kept :
      (sent : String → Bool) (clock : String → ℤ) (rs jobs : Jobs)
      → P jobs
      → P (dispatch_all sent clock rs jobs)
  unfolding dispatch_all
  dispatch_all-Kept sent clock [] jobs p = p
  dispatch_all-Kept sent clock (r ∷ rs) jobs p =
      dispatch_all-Kept sent clock rs (dispatch_job (sent r.id) (clock r.id) r.id jobs)
        (dispatch_job-Kept (sent r.id) (clock r.id) r.id jobs p)

  dispatch_through-Kept :
      (sent : String → Bool) (clock : String → ℤ) (now : ℤ) (through : Option (Option ℤ))
      (jobs : Jobs)
      → P jobs
      → P (dispatch_through sent clock now through jobs)
  unfolding dispatch_through
  dispatch_through-Kept sent clock now none jobs p = p
  dispatch_through-Kept sent clock now (some through) jobs p =
      dispatch_all-Kept sent clock (jobs_to_dispatch now through jobs) jobs p

  dispatch-Kept :
      (schedule : SponsorWalletOperatingWindow) (sent : String → Bool) (clock : String → ℤ)
      (now : ℤ) (jobs : Jobs)
      → P jobs
      → P (dispatch_proof_jobs schedule sent clock now jobs)
  unfolding dispatch_proof_jobs
  dispatch-Kept schedule sent clock now jobs p =
      let swept = k.on_expire now jobs p in
      elim (Bool-cases schedule.execution_allowed) [
        | inr closed ↦ rw closed swept
        | inl opened ↦ rw opened (
            dispatch_through-Kept sent clock now
              (accepted_through schedule.mode schedule.eligible_through) (expire_leases now jobs)
              swept)
      ]

  admit_when_ready-Kept :
      (id : String) (attempts : ℕ) (clock : Clock) (readiness : Readiness)
      (leases : List OperatorProofLease) (jobs : Jobs)
      → Timely clock.checked_at
      → active_count clock.checked_at jobs leases ≡ 0
      → P jobs
      → P (admit_when_ready id attempts clock readiness jobs).0
  unfolding admit_when_ready
  admit_when_ready-Kept id attempts clock ok_response leases jobs timely free p =
      k.on_admit clock.checked_at clock.changed_at id leases jobs timely free p
  admit_when_ready-Kept id attempts clock timed_out leases jobs timely free p =
      k.on_failure clock.changed_at (leb 4 attempts) "proof_container_timeout" id jobs p
  admit_when_ready-Kept id attempts clock unavailable leases jobs timely free p =
      k.on_failure clock.changed_at (leb 4 attempts) "proof_container_unavailable" id jobs p

  admit_found-Kept :
      (schedule : SponsorWalletOperatingWindow) (leases : List OperatorProofLease)
      (message : Message) (clock : Clock) (readiness : Readiness) (job : Option ProofJobRow)
      (jobs : Jobs)
      → Timely clock.checked_at
      → P jobs
      → P (admit_found schedule leases message clock readiness job jobs).0
  unfolding admit_found
  admit_found-Kept schedule leases message clock readiness none jobs timely p = p
  admit_found-Kept schedule leases message clock readiness (some job) jobs timely p =
      elim (Bool-cases (is_past_admission job.status)) [
        | inl past ↦ rw past p
        | inr early ↦
            elim (Bool-cases (sponsor_work_is_eligible schedule (instant job.created_at))) [
              | inr not_yet ↦ rw (early, not_yet) (k.on_defer clock.changed_at job.id jobs p)
              | inl eligible ↦
                  elim (Bool-cases (leb 1 (active_count clock.checked_at jobs leases))) [
                    | inl full ↦
                        rw (early, eligible, full) (k.on_capacity clock.changed_at job.id jobs p)
                    | inr free ↦
                        rw (early, eligible, free)
                          (admit_when_ready-Kept job.id message.attempts clock readiness leases jobs
                            timely (not_one (active_count clock.checked_at jobs leases) free) p)
                  ]
            ]
      ]

  admit-Kept :
      (schedule : SponsorWalletOperatingWindow) (leases : List OperatorProofLease)
      (message : Message) (clock : Clock) (readiness : Readiness) (jobs : Jobs)
      → Timely clock.checked_at
      → P jobs
      → P (admit_proof_job schedule leases message clock readiness jobs).0
  unfolding admit_proof_job
  admit-Kept schedule leases message clock readiness jobs timely p =
      elim (Bool-cases (is_proof_queue_message message)) [
        | inr other ↦ rw other p
        | inl proof ↦ rw proof (
            admit_found-Kept schedule leases message clock readiness
              (find_where (has_id message.proof_job_id) jobs) jobs timely p)
      ]

  run_call-Kept : (c : Call) (jobs : Jobs) → ChecksAt Timely c → P jobs → P (run_call c jobs)
  unfolding run_call
  run_call-Kept (dispatch schedule sent clock now) jobs timely p =
      dispatch-Kept schedule sent clock now jobs p
  run_call-Kept (admit schedule leases message clock readiness) jobs timely p =
      admit-Kept schedule leases message clock readiness jobs timely p
  run_call-Kept (authorize now header principal start) jobs timely p =
      authorize-Kept k now header principal start jobs p
  run_call-Kept (mark_ready now id) jobs timely p = k.on_ready now id jobs p
  run_call-Kept (admit_browser leases now authorization within_rate id) jobs timely p =
      admit_browser-Kept k leases now authorization within_rate id jobs timely p

  pub run_calls-Kept :
      (cs : List Call) (jobs : Jobs) → AllCheckAt Timely cs → P jobs → P (run_calls jobs cs)
  unfolding run_calls
  run_calls-Kept [] jobs timely p = p
  run_calls-Kept (c ∷ cs) jobs timely p =
      run_calls-Kept cs (run_call c jobs) timely.1 (run_call-Kept c jobs timely.0 p)

pub AllCheckAt-Unit : (cs : List Call) → AllCheckAt (λ t. Unit) cs
AllCheckAt-Unit [] = tt
AllCheckAt-Unit (dispatch schedule sent clock now ∷ cs) = (tt, AllCheckAt-Unit cs)
AllCheckAt-Unit (admit schedule leases message clock readiness ∷ cs) = (tt, AllCheckAt-Unit cs)
AllCheckAt-Unit (authorize now header principal start ∷ cs) = (tt, AllCheckAt-Unit cs)
AllCheckAt-Unit (mark_ready now id ∷ cs) = (tt, AllCheckAt-Unit cs)
AllCheckAt-Unit (admit_browser leases now authorization within_rate id ∷ cs) =
    (tt, AllCheckAt-Unit cs)
