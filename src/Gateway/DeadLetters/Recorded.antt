-- ===== src/Gateway/DeadLetters/Recorded.antt =====
-- The jobs that a batch of dead letters has no part in
-- (backend/cloudflare/proof-gateway-worker/src/queue-dead-letters.ts).
use midnight_buildathons_bac.Prelude.{
  ◌≡◌, refl, ◌∙◌, String, Bool, true, false, Option, none, some, List, [], ◌∷◌, arith, inl, inr,
  Bool-cases, str_eq,
}
use midnight_buildathons_bac.Prelude.Int.{ℤ}
use midnight_buildathons_bac.Prelude.Tables.{filter_where, find_where, filter-update}
use midnight_buildathons_bac.Gateway.Job.{ProofJobRow, JobStatus, submitted, confirmed}
use midnight_buildathons_bac.Gateway.Statements.{Jobs}
use midnight_buildathons_bac.Gateway.DeadLetters.Identity.{dead_letter_identity}
use midnight_buildathons_bac.Gateway.DeadLetters.Affected.{
  Database, job_not_final, dead_letter_job, fail_run, dead_letter_if, job_of, run_with_id,
  apply_to_resource, affected_state_of, affected_state_statements,
}
use midnight_buildathons_bac.Gateway.DeadLetters.Persist.{
  Attempt, handle_all, handle_dead_letter_queue, is_dead_letter_queue, persist_dead_letter,
}

-- The jobs that a dead letter never changes.
abbrev pub is_recorded : JobStatus → Bool
is_recorded submitted = true
is_recorded confirmed = true
is_recorded _ = false

abbrev pub recorded : ProofJobRow → Bool
recorded r = is_recorded r.status

dead_letter_job-recorded :
    (now : ℤ) (id : String) (jobs : Jobs)
    → filter_where recorded (dead_letter_job now id jobs) ≡ filter_where recorded jobs
unfolding dead_letter_job
dead_letter_job-recorded now id jobs =
    filter-update recorded (job_not_final id) _ jobs (λ r h. (ground arith, refl))

dead_letter_if-recorded :
    (now : ℤ) (job : Option String) (jobs : Jobs)
    → filter_where recorded (dead_letter_if now job jobs) ≡ filter_where recorded jobs
unfolding dead_letter_if
dead_letter_if-recorded now none jobs = refl
dead_letter_if-recorded now (some id) jobs = dead_letter_job-recorded now id jobs

apply_to_resource-recorded :
    (resource_type : String) (now : ℤ) (id : String) (d : Database)
    → filter_where recorded (apply_to_resource resource_type now id d).jobs
      ≡ filter_where recorded d.jobs
unfolding apply_to_resource
apply_to_resource-recorded rt now id d = elim (Bool-cases (str_eq rt "proof-job")) [
  | inl job ↦ rw job (dead_letter_job-recorded now id d.jobs)
  | inr a ↦ elim (Bool-cases (str_eq rt "device-registration")) [
    | inl device ↦ rw (a, device) refl
    | inr b ↦ elim (Bool-cases (str_eq rt "policy-registration")) [
      | inl policy ↦ rw (a, b, policy) refl
      | inr c ↦ elim (Bool-cases (str_eq rt "managed-source")) [
        | inl source ↦ rw (a, b, c, source) refl
        | inr e ↦ elim (Bool-cases (str_eq rt "managed-source-run")) [
          | inl run ↦
              rw (a, b, c, e, run)
                (dead_letter_if-recorded now
                  (job_of (find_where (run_with_id id) (fail_run now id d.runs))) d.jobs)
          | inr other ↦ rw (a, b, c, e, other) refl
        ]
      ]
    ]
  ]
]

affected_state_of-recorded :
    (resource_type resource_id : Option String) (now : ℤ) (d : Database)
    → filter_where recorded (affected_state_of resource_type resource_id now d).jobs
      ≡ filter_where recorded d.jobs
unfolding affected_state_of
affected_state_of-recorded resource_type none now d = refl
affected_state_of-recorded none (some id) now d = refl
affected_state_of-recorded (some rt) (some id) now d = apply_to_resource-recorded rt now id d

handle_all-recorded :
    (queue_name : String) (batch : List Attempt) (d : Database)
    → filter_where recorded (handle_all queue_name batch d).0.jobs ≡ filter_where recorded d.jobs
unfolding handle_all persist_dead_letter affected_state_statements
handle_all-recorded queue_name [] d = refl
handle_all-recorded queue_name (a ∷ more) d = elim (Bool-cases a.persists) [
  | inr fails ↦ rw fails (handle_all-recorded queue_name more d)
  | inl runs ↦
      let identity = dead_letter_identity a.message.body in
      let d' = persist_dead_letter queue_name a.message a.now a.notification_id d in
      rw runs (
        handle_all-recorded queue_name more d'
        ∙ affected_state_of-recorded identity.resource_type identity.resource_id a.now d)
]

-- Whatever the messages of a batch are and whether each is persisted, the jobs that are submitted or
-- confirmed are the same rows in the same order as before the batch.
pub handle_dead_letter_queue-recorded :
    (queue_name : String) (batch : List Attempt) (d : Database)
    → filter_where recorded (handle_dead_letter_queue queue_name batch d).0.jobs
      ≡ filter_where recorded d.jobs
unfolding handle_dead_letter_queue
handle_dead_letter_queue-recorded queue_name batch d =
    elim (Bool-cases (is_dead_letter_queue queue_name)) [
      | inr other ↦ rw other refl
      | inl known ↦ rw known (handle_all-recorded queue_name batch d)
    ]
