-- ===== src/Gateway/Untouched.antt =====
-- The jobs of jobs.ts of backend/cloudflare/proof-gateway-worker/src that the queue has no part in any
-- more: their device's transaction is bound, or they wait for a new proof.
use midnight_buildathons_bac.Prelude.{
  ◌≡◌, refl, ◌∙◌, Bool, true, false, ◌&&◌, none, some, List, arith,
}
use midnight_buildathons_bac.Prelude.Int.{ℤ}
use midnight_buildathons_bac.Prelude.Tables.{filter_where, filter-update, update_where}
use midnight_buildathons_bac.Gateway.Job.{
  JobStatus, retryable_failed, ProofJobRow, is_beyond_queue, is_admitted, is_waiting, is_dispatched,
  is_dispatched_or_failed, is_ready, is_proving,
}
use midnight_buildathons_bac.Gateway.Statements.{
  Jobs, has_id, of_device, expire_leases, claim_job, requeue_unsent, defer_ineligible,
  defer_at_capacity, admit_job, admit_for_device, admission_failed, failed_status, ends_before,
  start_proving_job, mark_proof_ready,
}
use midnight_buildathons_bac.Gateway.Calls.{Call, run_calls, Kept}
use midnight_buildathons_bac.Gateway.Calls.Induction.{run_calls-Kept, AllCheckAt-Unit}

abbrev pub beyond_queue : ProofJobRow → Bool
beyond_queue r = is_beyond_queue r.status

is_admitted-Queue : (s : JobStatus) → is_admitted s ≡ true → is_beyond_queue s ≡ false
is_admitted-Queue s h = ground arith

is_waiting-Queue : (s : JobStatus) → is_waiting s ≡ true → is_beyond_queue s ≡ false
is_waiting-Queue s h = ground arith

is_dispatched-Queue : (s : JobStatus) → is_dispatched s ≡ true → is_beyond_queue s ≡ false
is_dispatched-Queue s h = ground arith

is_dispatched_or_failed-Queue :
    (s : JobStatus) → is_dispatched_or_failed s ≡ true → is_beyond_queue s ≡ false
is_dispatched_or_failed-Queue s h = ground arith

is_ready-Queue : (s : JobStatus) → is_ready s ≡ true → is_beyond_queue s ≡ false
is_ready-Queue s h = ground arith

is_proving-Queue : (s : JobStatus) → is_proving s ≡ true → is_beyond_queue s ≡ false
is_proving-Queue s h = ground arith

and-right : (a b : Bool) → (a && b) ≡ true → b ≡ true
and-right a b h = ground arith

and-left : (a b : Bool) → (a && b) ≡ true → a ≡ true
and-left a b h = ground arith

-- A statement that selects by status, of jobs of the queue, and sets a status of the queue.
stays :
    (has : ProofJobRow → Bool) (by_status : JobStatus → Bool) (f : ProofJobRow → ProofJobRow)
    → ((s : JobStatus) → by_status s ≡ true → is_beyond_queue s ≡ false)
    → ((r : ProofJobRow) → beyond_queue (f r) ≡ false)
    → (jobs : Jobs)
    → filter_where beyond_queue (update_where (λ r. has r && by_status r.status) f jobs)
      ≡ filter_where beyond_queue jobs
stays has by_status f in_queue sets jobs =
    filter-update beyond_queue (λ r. has r && by_status r.status) f jobs
      (λ r h. (in_queue r.status (and-right (has r) (by_status r.status) h), sets r))

stays-expire :
    (now : ℤ) (jobs : Jobs)
    → filter_where beyond_queue (expire_leases now jobs) ≡ filter_where beyond_queue jobs
unfolding expire_leases
stays-expire now jobs =
    filter-update beyond_queue (λ r. is_admitted r.status && ends_before r.lease_expires_at now)
      (λ r. record r {
        status = retryable_failed;
        lease_expires_at = none;
        available_after = now;
        updated_at = some now;
        last_error_code = some "proof_input_lease_expired";
      })
      jobs
      (λ r h. (
        is_admitted-Queue r.status
            (and-left (is_admitted r.status) (ends_before r.lease_expires_at now) h),
        refl,
      ))

failed-Queue : (terminal : Bool) → is_beyond_queue (failed_status terminal) ≡ false
failed-Queue true = refl
failed-Queue false = refl

abbrev SameBeyond : Jobs → Jobs → Type 0
SameBeyond start jobs = filter_where beyond_queue jobs ≡ filter_where beyond_queue start

module _ (start : Jobs) where
  stays-Kept : Kept (λ t. Unit) (SameBeyond start)
  unfolding claim_job requeue_unsent defer_ineligible defer_at_capacity admission_failed
      start_proving_job mark_proof_ready admit_job admit_for_device
  stays-Kept = record {
    on_expire = λ now jobs same. stays-expire now jobs ∙ same;
    on_claim =
        λ now id jobs same. stays (has_id id) is_waiting _ is_waiting-Queue (λ r. refl) jobs ∙ same;
    on_requeue = λ now id jobs same.
        stays (has_id id) is_dispatched _ is_dispatched-Queue (λ r. refl) jobs ∙ same;
    on_defer = λ now id jobs same.
        stays (has_id id) is_dispatched_or_failed _ is_dispatched_or_failed-Queue (λ r. refl) jobs
        ∙ same;
    on_capacity = λ now id jobs same.
        stays (has_id id) is_dispatched _ is_dispatched-Queue (λ r. refl) jobs ∙ same;
    on_failure = λ now terminal code id jobs same.
        stays (has_id id) is_dispatched_or_failed _ is_dispatched_or_failed-Queue
          (λ r. failed-Queue terminal) jobs
        ∙ same;
    on_start =
        λ now id jobs same. stays (has_id id) is_ready _ is_ready-Queue (λ r. refl) jobs ∙ same;
    on_ready =
        λ now id jobs same. stays (has_id id) is_proving _ is_proving-Queue (λ r. refl) jobs ∙ same;
    on_admit = λ checked now id leases jobs timely free same.
        stays (has_id id) is_dispatched_or_failed _ is_dispatched_or_failed-Queue (λ r. refl) jobs
        ∙ same;
    on_admit_device = λ checked now id device_id project_id leases jobs timely free same.
        stays (of_device id device_id project_id) is_waiting _ is_waiting-Queue (λ r. refl) jobs
        ∙ same;
  }

-- Whatever calls are made, and with whatever answers and readings of the clock, the jobs whose device
-- transaction is bound, which are being sponsored, submitted or confirmed, or which need a new proof, are
-- the same rows in the same order as before.
pub run_calls-beyond_queue :
    (jobs : Jobs) (cs : List Call)
    → filter_where beyond_queue (run_calls jobs cs) ≡ filter_where beyond_queue jobs
run_calls-beyond_queue jobs cs = run_calls-Kept (stays-Kept jobs) cs jobs (AllCheckAt-Unit cs) refl
