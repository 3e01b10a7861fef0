-- ===== src/Gateway/Capacity.antt =====
-- How many jobs of jobs.ts of backend/cloudflare/proof-gateway-worker/src hold a lease of the one proof
-- server.
use midnight_buildathons_bac.Prelude.{◌≤◌, ◌≡◌, refl, String, Bool, true, List, arith}
use midnight_buildathons_bac.Prelude.Int.{ℤ, ◌≤ℤ◌}
use midnight_buildathons_bac.Prelude.Tables.{
  count_where, update_where, count-update_le, count-update_add, count_mono, count-update_eq,
}
use midnight_buildathons_bac.Gateway.Job.{ProofJobRow}
use midnight_buildathons_bac.Gateway.Statements.{
  Jobs, OperatorProofLease, has_id, is_active, active_count, expire_leases, claim_job,
  requeue_unsent, defer_ineligible, defer_at_capacity, admit_job, admit_for_device,
  admission_failed, start_proving_job, mark_proof_ready,
}
use midnight_buildathons_bac.Gateway.Calls.{Call, run_calls, AllCheckAt, Kept}
use midnight_buildathons_bac.Gateway.Calls.Induction.{run_calls-Kept}

-- The table's primary key.
abbrev pub IsKeyed : Jobs → Type 0
IsKeyed jobs = (id : String) → count_where (has_id id) jobs ≤ 1

abbrev Within : ℤ → Jobs → Type 0
Within t jobs = IsKeyed jobs × (count_where (is_active t) jobs ≤ 1)

module _ (t : ℤ) where
  -- A statement that keeps the keys and makes no job active.
  lowers :
      (p : ProofJobRow → Bool) (f : ProofJobRow → ProofJobRow)
      → ((id : String) (r : ProofJobRow) → has_id id (f r) ≡ has_id id r)
      → ((r : ProofJobRow) → p r ≡ true → is_active t (f r) ≡ true → is_active t r ≡ true)
      → (jobs : Jobs) → Within t jobs
      → Within t (update_where p f jobs)
  lowers p f keeps no_more jobs within = (
    λ id. rw (count-update_eq (has_id id) p f jobs (keeps id)) (within.0 id),
    omega (arith, count-update_le (is_active t) p f jobs no_more, within.1),
  )

  active-earlier :
      (checked : ℤ) (r : ProofJobRow)
      → checked ≤ℤ t
      → is_active t r ≡ true
      → is_active checked r ≡ true
  unfolding is_active
  active-earlier checked r timely active = ground arith

  -- A statement on one key, when no job was active at an earlier check.
  admits :
      (p : ProofJobRow → Bool) (f : ProofJobRow → ProofJobRow)
      → ((id : String) (r : ProofJobRow) → has_id id (f r) ≡ has_id id r)
      → (key : String) → ((r : ProofJobRow) → p r ≡ true → has_id key r ≡ true)
      → (checked : ℤ) (leases : List OperatorProofLease) (jobs : Jobs) → checked ≤ℤ t
      → active_count checked jobs leases ≡ 0
      → Within t jobs
      → Within t (update_where p f jobs)
  unfolding active_count
  admits p f keeps key keyed checked leases jobs timely free within = (
    λ id. rw (count-update_eq (has_id id) p f jobs (keeps id)) (within.0 id),
    omega (
      arith,
      free,
      count-update_add (is_active t) p f jobs,
      count_mono (is_active t) (is_active checked) jobs (λ r. active-earlier checked r timely),
      count_mono p (has_id key) jobs keyed,
      within.0 key,
    ),
  )

  Within-Kept : Kept (λ checked. checked ≤ℤ t) (Within t)
  unfolding claim_job requeue_unsent defer_ineligible defer_at_capacity admission_failed
      start_proving_job mark_proof_ready admit_job admit_for_device expire_leases is_active
  Within-Kept = record {
    on_expire = λ now jobs. lowers _ _ (λ id r. refl) (λ r p q. ground arith) jobs;
    on_claim = λ now id jobs. lowers _ _ (λ i r. refl) (λ r p q. ground arith) jobs;
    on_requeue = λ now id jobs. lowers _ _ (λ i r. refl) (λ r p q. ground arith) jobs;
    on_defer = λ now id jobs. lowers _ _ (λ i r. refl) (λ r p q. ground arith) jobs;
    on_capacity = λ now id jobs. lowers _ _ (λ i r. refl) (λ r p q. ground arith) jobs;
    on_failure = λ now terminal code id jobs. lowers _ _ (λ i r. refl) (λ r p q. ground arith) jobs;
    on_start = λ now id jobs. lowers _ _ (λ i r. refl) (λ r p q. ground arith) jobs;
    on_ready = λ now id jobs. lowers _ _ (λ i r. refl) (λ r p q. ground arith) jobs;
    on_admit = λ checked now id leases jobs.
        admits _ _ (λ i r. refl) id (λ r p. ground arith) checked leases jobs;
    on_admit_device = λ checked now id device_id project_id leases jobs.
        admits _ _ (λ i r. refl) id (λ r p. ground arith) checked leases jobs;
  }

  -- When the identifiers of the table are unique and at most one job holds a lease that outlasts `t`,
  -- then after calls that each run as a whole, with every count of the active jobs made at `t` or
  -- before, still at most one job is admitted with a lease that outlasts `t`.
  pub run_calls-capacity :
      (jobs : Jobs) (cs : List Call)
      → IsKeyed jobs
      → count_where (is_active t) jobs ≤ 1
      → AllCheckAt (λ checked. checked ≤ℤ t) cs
      → count_where (is_active t) (run_calls jobs cs) ≤ 1
  run_calls-capacity jobs cs keyed one timely =
      (run_calls-Kept Within-Kept cs jobs timely (keyed, one)).1
