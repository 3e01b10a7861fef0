-- ===== src/Gateway/Recovery/Outcome.antt =====
-- What one call of backend/cloudflare/proof-gateway-worker/src/reproof-recovery.ts does to the two tables.
use midnight_buildathons_bac.Prelude.{
  ◌+◌, ◌≤◌, ◌<◌, ◌≡◌, ◌⊎◌, inl, inr, refl, sym, ap, String, true, false, not, ◌&&◌, none, some, ◌∷◌,
  arith, Bool-cases, Option-cases, eq_iff,
}
use midnight_buildathons_bac.Prelude.Int.{ℤ, ◌-ℤ◌}
use midnight_buildathons_bac.Prelude.Tables.{
  count_where, find_where, filter_where, filter-update, find-update_key, find_holds, find_unique,
}
use midnight_buildathons_bac.Gateway.Job.{ProofJobRow, reproof_required, pending, device}
use midnight_buildathons_bac.Gateway.Statements.{Jobs, has_id}
use midnight_buildathons_bac.Gateway.Recovery.{
  Attempts, of_job, recent, with_id, recovery_gap, may_attempt, can_recover, insert_selected,
  insert_attempt, requeue_job, is_reproof_required, RecoveryAttempt, recover_released_proof_job,
  new_attempt,
}
use text.Mathlib.TextPositions.{eq_refl}
use midnight_buildathons_bac.Gateway.Recovery.Laws.{may_attempt-parts}

-- No job with the identifier can be recovered, or three attempts were made of it, or one was made in the
-- last five minutes.
abbrev pub IsRefused : String → ℤ → Jobs → Attempts → Type 0
IsRefused job_id now jobs attempts =
    (find_where (can_recover job_id now) jobs ≡ none)
    ⊎ ((3 ≤ count_where (of_job job_id) attempts)
        ⊎ (1 ≤ count_where (recent job_id (now -ℤ recovery_gap)) attempts))

may_attempt-not :
    (job_id : String) (now : ℤ) (attempts : Attempts)
    → may_attempt job_id now attempts ≡ false
    → (3 ≤ count_where (of_job job_id) attempts)
      ⊎ (1 ≤ count_where (recent job_id (now -ℤ recovery_gap)) attempts)
unfolding may_attempt
may_attempt-not job_id now attempts h = ground arith

-- A job of a device that is to be proved again, of which no transaction was made.
pub record IsReleased (r : ProofJobRow) : Type 0 where
  pub from_device : r.origin ≡ device
  pub waits : r.status ≡ reproof_required
  pub no_device_transaction : r.device_transaction_hash ≡ none
  pub no_sponsor_transaction : r.sponsor_transaction_id ≡ none
  pub no_attestation : r.attest_tx_id ≡ none

-- The job `r'` is the job `r` in the queue again from the time on, without a proof and without leases.
pub record IsQueuedAgain (now : ℤ) (r r' : ProofJobRow) : Type 0 where
  pub queued : r'.status ≡ pending
  pub available : r'.available_after ≡ now
  pub no_lease : r'.lease_expires_at ≡ none
  pub no_artifact : r'.proof_artifact_key ≡ none
  pub no_proof_time : r'.proof_generated_at ≡ none
  pub sponsor_available : r'.sponsor_available_after ≡ now
  pub no_sponsor_lease : r'.sponsor_lease_expires_at ≡ none
  pub same_id : r'.id ≡ r.id
  pub same_project : r'.project_id ≡ r.project_id
  pub same_device : r'.device_id ≡ r.device_id
  pub same_attempts : r'.attempt_count ≡ r.attempt_count
  pub same_creation : r'.created_at ≡ r.created_at
  pub dated : r'.updated_at ≡ some now

-- The attempt of a recovery of the job `r`, as the next one of that job.
pub record IsRecordOf (recovery_id : String) (now : ℤ) (r : ProofJobRow) (before : Attempts)
    (a : RecoveryAttempt) : Type 0 where
  pub named : a.recovery_id ≡ recovery_id
  pub for_job : a.proof_job_id ≡ r.id
  pub at_time : a.requested_at ≡ now
  pub numbered : a.recovery_number ≡ count_where (of_job r.id) before + 1
  pub few : a.recovery_number ≤ 3
  pub kept_error : a.previous_error_code ≡ r.last_error_code
  pub kept_attempts : a.previous_attempt_count ≡ r.attempt_count

can_recover-IsReleased :
    (job_id : String) (now : ℤ) (r : ProofJobRow) → can_recover job_id now r ≡ true → IsReleased r
unfolding can_recover
can_recover-IsReleased job_id now r h = record {
  from_device = ground arith;
  waits = ground arith;
  no_device_transaction = ground arith;
  no_sponsor_transaction = ground arith;
  no_attestation = ground arith;
}

can_recover-has_id :
    (job_id : String) (now : ℤ) (r : ProofJobRow)
    → can_recover job_id now r ≡ true
    → has_id job_id r ≡ true
unfolding can_recover
can_recover-has_id job_id now r h = ground arith

can_recover-status :
    (job_id : String) (now : ℤ) (r : ProofJobRow)
    → can_recover job_id now r ≡ true
    → (has_id job_id r && is_reproof_required r.status) ≡ true
unfolding can_recover
can_recover-status job_id now r h = ground arith

requeue_job-IsQueuedAgain :
    (job_id : String) (now : ℤ) (jobs : Jobs) {r : ProofJobRow}
    → find_where (has_id job_id) jobs ≡ some r
    → can_recover job_id now r ≡ true
    → (r' : ProofJobRow) × (find_where (has_id job_id) (requeue_job job_id now jobs) ≡ some r')
      × IsQueuedAgain now r r'
unfolding requeue_job
requeue_job-IsQueuedAgain job_id now jobs {r} found can = (
  _,
  find-update_key (has_id job_id) (λ x. has_id job_id x && is_reproof_required x.status) _ jobs
      (λ x. refl) found (can_recover-status job_id now r can),
  record {
    queued = refl;
    available = refl;
    no_lease = refl;
    no_artifact = refl;
    no_proof_time = refl;
    sponsor_available = refl;
    no_sponsor_lease = refl;
    same_id = refl;
    same_project = refl;
    same_device = refl;
    same_attempts = refl;
    same_creation = refl;
    dated = refl;
  },
)

requeue_job-others :
    (job_id : String) (now : ℤ) (jobs : Jobs)
    → filter_where (λ x. not (has_id job_id x)) (requeue_job job_id now jobs)
      ≡ filter_where (λ x. not (has_id job_id x)) jobs
unfolding requeue_job
requeue_job-others job_id now jobs =
    filter-update (λ x. not (has_id job_id x)) _ _ jobs
      (λ x h. let this : has_id job_id x ≡ true = ground arith in (rw this refl, rw this refl))

new_attempt-IsRecordOf :
    (recovery_id job_id : String) (now : ℤ) (r : ProofJobRow) (attempts : Attempts)
    → r.id ≡ job_id
    → count_where (of_job job_id) attempts < 3
    → IsRecordOf recovery_id now r attempts
        (new_attempt recovery_id job_id now (count_where (of_job job_id) attempts + 1) r)
new_attempt-IsRecordOf recovery_id job_id now r attempts same few = record {
  named = refl;
  for_job = sym same;
  at_time = refl;
  numbered = ap (λ j. count_where (of_job j) attempts + 1) (sym same);
  few = omega (arith, few);
  kept_error = refl;
  kept_attempts = refl;
}

-- For an identifier that no attempt has, and a job's identifier that at most one job has: either the
-- answer is no, neither table changes, and no job with the identifier can be recovered or three attempts
-- were made of it or one in the last five minutes; or the answer is yes, the job is one of a device that is to be
-- proved again and of which no transaction was made, it is queued again from the time of the request on
-- without a proof and without leases, with its identifiers, its count of attempts and its time of creation
-- kept, no other job changes, and one attempt is recorded of the job and the time, with the next number,
-- which is at most three, and with the error and the count that the job had.
pub recover_released_proof_job-cases :
    (recovery_id job_id : String) (now : ℤ) (jobs : Jobs) (attempts : Attempts)
    → count_where (with_id recovery_id) attempts ≡ 0
    → count_where (has_id job_id) jobs ≤ 1
    → let done = recover_released_proof_job recovery_id job_id now (jobs, attempts) in
      ((done ≡ (jobs, attempts, false)) × IsRefused job_id now jobs attempts)
      ⊎ ((r r' : ProofJobRow) × (a : RecoveryAttempt) × (done.2 ≡ true)
          × (find_where (has_id job_id) jobs ≡ some r)
          × IsReleased r
          × (find_where (has_id job_id) done.0 ≡ some r')
          × IsQueuedAgain now r r'
          × (filter_where (λ x. not (has_id job_id x)) done.0
              ≡ filter_where (λ x. not (has_id job_id x)) jobs)
          × (done.1 ≡ a ∷ attempts)
          × IsRecordOf recovery_id now r attempts a)
unfolding recover_released_proof_job insert_attempt insert_selected
recover_released_proof_job-cases recovery_id job_id now jobs attempts fresh one =
    elim (Option-cases (find_where (can_recover job_id now) jobs)) [
      | inl none_found ↦ inl (rw (none_found, fresh) refl, inl none_found)
      | inr (r, found) ↦ elim (Bool-cases (may_attempt job_id now attempts)) [
        | inr may_not ↦
            inl (rw (found, may_not, fresh) refl, inr (may_attempt-not job_id now attempts may_not))
        | inl may ↦
            let can = find_holds (can_recover job_id now) jobs found in
            let here =
              find_unique (can_recover job_id now) (has_id job_id) jobs
                (can_recover-has_id job_id now) one found in
            let (r', stands, queued) = requeue_job-IsQueuedAgain job_id now jobs here can in
            let same : r.id ≡ job_id =
              (eq_iff r.id job_id).0 (can_recover-has_id job_id now r can) in
            rw (found, may, eq_refl recovery_id, fresh)
              (inr (
                r,
                r',
                new_attempt recovery_id job_id now (count_where (of_job job_id) attempts + 1) r,
                refl,
                here,
                can_recover-IsReleased job_id now r can,
                stands,
                queued,
                requeue_job-others job_id now jobs,
                refl,
                new_attempt-IsRecordOf recovery_id job_id now r attempts same
                    (may_attempt-parts job_id now attempts may).0,
              ))
      ]
    ]
