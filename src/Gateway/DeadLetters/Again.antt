-- ===== src/Gateway/DeadLetters/Again.antt =====
-- Repeated deliveries of one message of a dead letter queue, and the rows they are about
-- (backend/cloudflare/proof-gateway-worker/src/queue-dead-letters.ts).
use midnight_buildathons_bac.Prelude.{
  ℕ, ◌≡◌, refl, String, Option, none, some, List, arith, inl, inr, Bool-cases, str_eq,
}
use midnight_buildathons_bac.Prelude.Int.{ℤ}
use midnight_buildathons_bac.Prelude.Tables.{find_where, update-update, insert_or_ignore-again}
use midnight_buildathons_bac.Gateway.Statements.{Jobs}
use midnight_buildathons_bac.Gateway.DeadLetters.Identity.{Message, dead_letter_identity}
use midnight_buildathons_bac.Gateway.DeadLetters.Affected.{
  Database, DeadLetter, Alert, Notification, Event, Operation, ManagedSourceRun, job_not_final,
  operation_not_final, run_not_final, dead_letter_job, fail_operation, fail_run, dead_letter_if,
  job_of, run_with_id, apply_to_resource, affected_state_of, affected_state_statements,
}
use midnight_buildathons_bac.Gateway.DeadLetters.Persist.{
  persist_dead_letter, record_id, message_id, alert_key, record_alert, record_dead_letter, notify,
  log_event,
}
use text.Mathlib.TextPositions.{eq_refl}

dead_letter_job-again :
    (now again : ℤ) (id : String) (jobs : Jobs)
    → dead_letter_job again id (dead_letter_job now id jobs) ≡ dead_letter_job now id jobs
unfolding dead_letter_job
dead_letter_job-again now again id jobs =
    update-update (job_not_final id) _ _ jobs (λ r. ground arith)

fail_operation-again :
    (now again : ℤ) (id : String) (rs : List Operation)
    → fail_operation again id (fail_operation now id rs) ≡ fail_operation now id rs
unfolding fail_operation
fail_operation-again now again id rs =
    update-update (operation_not_final id) _ _ rs (λ r. ground arith)

fail_run-again :
    (now again : ℤ) (id : String) (rs : List ManagedSourceRun)
    → fail_run again id (fail_run now id rs) ≡ fail_run now id rs
unfolding fail_run
fail_run-again now again id rs = update-update (run_not_final id) _ _ rs (λ r. ground arith)

dead_letter_if-again :
    (now again : ℤ) (job : Option String) (jobs : Jobs)
    → dead_letter_if again job (dead_letter_if now job jobs) ≡ dead_letter_if now job jobs
unfolding dead_letter_if
dead_letter_if-again now again none jobs = refl
dead_letter_if-again now again (some id) jobs = dead_letter_job-again now again id jobs

-- What the affected state has in common with the state before it.
abbrev SameState : Database → Database → Type 0
SameState d e =
    (e.jobs ≡ d.jobs)
    × (e.provisioning ≡ d.provisioning)
    × (e.policies ≡ d.policies)
    × (e.runs ≡ d.runs)

module _ (letters : List DeadLetter) (alerts : List Alert) (outbox : List Notification)
    (events : List Event) where
  abbrev with_logs : Database → Database
  with_logs d = record d {
    dead_letters = letters;
    alerts = alerts;
    outbox = outbox;
    events = events;
  }

  apply_to_resource-again :
      (resource_type : String) (now again : ℤ) (id : String) (d : Database)
      → SameState (apply_to_resource resource_type now id d) (
          apply_to_resource resource_type again id
            (with_logs (apply_to_resource resource_type now id d)))
  unfolding apply_to_resource
  apply_to_resource-again rt now again id d = elim (Bool-cases (str_eq rt "proof-job")) [
    | inl job ↦ rw job (dead_letter_job-again now again id d.jobs, refl, refl, refl)
    | inr a ↦ elim (Bool-cases (str_eq rt "device-registration")) [
      | inl device ↦
          rw (a, device) (refl, fail_operation-again now again id d.provisioning, refl, refl)
      | inr b ↦ elim (Bool-cases (str_eq rt "policy-registration")) [
        | inl policy ↦
            rw (a, b, policy) (refl, refl, fail_operation-again now again id d.policies, refl)
        | inr c ↦ elim (Bool-cases (str_eq rt "managed-source")) [
          | inl source ↦ rw (a, b, c, source) (refl, refl, refl, refl)
          | inr e ↦ elim (Bool-cases (str_eq rt "managed-source-run")) [
            | inl run ↦
                let same = fail_run-again now again id d.runs in
                rw (a, b, c, e, run)
                  (
                    rw same (
                        dead_letter_if-again now again
                          (job_of (find_where (run_with_id id) (fail_run now id d.runs))) d.jobs),
                    refl,
                    refl,
                    same,
                  )
            | inr other ↦ rw (a, b, c, e, other) (refl, refl, refl, refl)
          ]
        ]
      ]
    ]
  ]

  affected_state_of-again :
      (resource_type resource_id : Option String) (now again : ℤ) (d : Database)
      → SameState (affected_state_of resource_type resource_id now d) (
          affected_state_of resource_type resource_id again
            (with_logs (affected_state_of resource_type resource_id now d)))
  unfolding affected_state_of
  affected_state_of-again resource_type none now again d = (refl, refl, refl, refl)
  affected_state_of-again none (some id) now again d = (refl, refl, refl, refl)
  affected_state_of-again (some rt) (some id) now again d =
      apply_to_resource-again rt now again id d

-- A second delivery of a message (the same queue, identifier and body), at any time and with any number
-- of attempts, changes no row of the jobs, the browser operations and the runs that the first one
-- left, and writes neither a second notification nor a second event.
pub persist_dead_letter-again :
    (queue_name : String) (m : Message) (attempts : ℕ) (now again : ℤ) (id id' : String)
    (d : Database)
    → let once = persist_dead_letter queue_name m now id d in
      let twice =
        persist_dead_letter queue_name (record m { attempts = attempts }) again id' once in
      (twice.jobs ≡ once.jobs)
      × (twice.provisioning ≡ once.provisioning)
      × (twice.policies ≡ once.policies)
      × (twice.runs ≡ once.runs)
      × (twice.outbox ≡ once.outbox)
      × (twice.events ≡ once.events)
unfolding persist_dead_letter affected_state_statements notify log_event record_id message_id
    alert_key
persist_dead_letter-again queue_name m attempts now again id id' d =
    let same =
      affected_state_of-again (record_dead_letter queue_name m now d.dead_letters)
        (record_alert queue_name m now d.alerts) (notify queue_name m now id d.outbox)
        (log_event queue_name m now d.events) (dead_letter_identity m.body).resource_type
        (dead_letter_identity m.body).resource_id now again d in
    (
      same.0,
      same.1,
      same.2,
      same.3,
      insert_or_ignore-again _ _ _ d.outbox (eq_refl _),
      insert_or_ignore-again _ _ _ d.events (eq_refl _),
    )
