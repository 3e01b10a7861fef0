-- ===== src/Gateway/Recovery/Laws.antt =====
-- How often backend/cloudflare/proof-gateway-worker/src/reproof-recovery.ts queues one job again.
use midnight_buildathons_bac.Prelude.{
  ℕ, ◌+◌, ◌≤◌, ◌<◌, ◌≡◌, ◌⊎◌, inl, inr, refl, subst, String, true, Option, none, some, List, [],
  ◌∷◌, arith, Bool-cases, str_eq, eq_iff,
}
use midnight_buildathons_bac.Prelude.Int.{ℤ, ◌-ℤ◌}
use midnight_buildathons_bac.Prelude.Tables.{count_where, find_where}
use midnight_buildathons_bac.Gateway.Job.{ProofJobRow}
use midnight_buildathons_bac.Gateway.Statements.{Jobs}
use midnight_buildathons_bac.Gateway.Recovery.{
  Attempts, of_job, recent, recovery_gap, may_attempt, can_recover, insert_selected, insert_attempt,
  recover_released_proof_job, new_attempt,
}

-- One request: the table of jobs as it then is, the attempt's identifier, the job and the time.
pub record Request : Type 0 where
  pub jobs : Jobs
  pub recovery_id : String
  pub job_id : String
  pub now : ℤ

unfoldable pub attempts_after : Attempts → List Request → Attempts
attempts_after attempts [] = attempts
attempts_after attempts (q ∷ qs) =
    attempts_after (recover_released_proof_job q.recovery_id q.job_id q.now (q.jobs, attempts)).1 qs

-- Of each job, an attempt has the number of the attempts up to it, and no attempt before it lies within
-- the last five minutes. The newest stands first.
abbrev pub IsSpaced : Attempts → Type 0
IsSpaced [] = Unit
IsSpaced (a ∷ before) =
    (a.recovery_number ≡ count_where (of_job a.proof_job_id) before + 1)
    × (count_where (recent a.proof_job_id (a.requested_at -ℤ recovery_gap)) before ≡ 0)
    × IsSpaced before

abbrev AtMostThree : Attempts → Type 0
AtMostThree attempts = (job : String) → count_where (of_job job) attempts ≤ 3

pub may_attempt-parts :
    (job_id : String) (now : ℤ) (attempts : Attempts)
    → may_attempt job_id now attempts ≡ true
    → (count_where (of_job job_id) attempts < 3)
      × (count_where (recent job_id (now -ℤ recovery_gap)) attempts ≡ 0)
unfolding may_attempt
may_attempt-parts job_id now attempts h = (ground arith, ground arith)

one_more :
    (recovery_id job_id : String) (now : ℤ) (n : ℕ) (r : ProofJobRow) (attempts : Attempts)
    → count_where (of_job job_id) attempts < 3
    → AtMostThree attempts
    → AtMostThree (new_attempt recovery_id job_id now n r ∷ attempts)
one_more recovery_id job_id now n r attempts few all job = elim (Bool-cases (str_eq job_id job)) [
  | inr other ↦ rw other (omega (arith, all job))
  | inl same ↦ rw same (
      let this =
        subst (λ j. count_where (of_job j) attempts < 3) ((eq_iff job_id job).0 same) few in
      omega (arith, this))
]

insert-cases :
    (recovery_id job_id : String) (now : ℤ) (found : Option ProofJobRow) (attempts : Attempts)
    → (insert_selected recovery_id job_id now found attempts ≡ attempts)
      ⊎ ((r : ProofJobRow) × (may_attempt job_id now attempts ≡ true)
          × (insert_selected recovery_id job_id now found attempts
              ≡ new_attempt recovery_id job_id now (count_where (of_job job_id) attempts + 1) r
                ∷ attempts))
unfolding insert_selected
insert-cases recovery_id job_id now none attempts = inl refl
insert-cases recovery_id job_id now (some r) attempts =
    elim (Bool-cases (may_attempt job_id now attempts)) [
      | inr may_not ↦ inl (rw may_not refl)
      | inl may ↦ inr (r, may, rw may refl)
    ]

insert_selected-Kept :
    (recovery_id job_id : String) (now : ℤ) (found : Option ProofJobRow) (attempts : Attempts)
    → AtMostThree attempts
    → IsSpaced attempts
    → AtMostThree (insert_selected recovery_id job_id now found attempts)
      × IsSpaced (insert_selected recovery_id job_id now found attempts)
insert_selected-Kept recovery_id job_id now found attempts few spaced =
    elim (insert-cases recovery_id job_id now found attempts) [
      | inl same ↦ rw same (few, spaced)
      | inr made ↦
          let parts = may_attempt-parts job_id now attempts made.1 in
          rw made.2 (
            one_more recovery_id job_id now (count_where (of_job job_id) attempts + 1) made.0
                attempts parts.0 few,
            (refl, parts.1, spaced),
          )
    ]

runs-Kept :
    (qs : List Request) (attempts : Attempts)
    → AtMostThree attempts
    → IsSpaced attempts
    → AtMostThree (attempts_after attempts qs) × IsSpaced (attempts_after attempts qs)
unfolding attempts_after recover_released_proof_job insert_attempt
runs-Kept [] attempts few spaced = (few, spaced)
runs-Kept (q ∷ qs) attempts few spaced =
    let found = find_where (can_recover q.job_id q.now) q.jobs in
    let next = insert_selected-Kept q.recovery_id q.job_id q.now found attempts few spaced in
    runs-Kept qs (insert_selected q.recovery_id q.job_id q.now found attempts) next.0 next.1

-- From no attempts, whatever the jobs are at each request: a job is recovered at most three times, its
-- attempts are numbered from one in the order they are made, and none is made within five minutes after
-- the time of an earlier one, as far as the clock tells.
pub attempts_after-IsSpaced :
    (qs : List Request) (job : String)
    → (count_where (of_job job) (attempts_after [] qs) ≤ 3) × IsSpaced (attempts_after [] qs)
attempts_after-IsSpaced qs job =
    let kept = runs-Kept qs [] (λ j. omega arith) tt in (kept.0 job, kept.1)
