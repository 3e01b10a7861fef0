-- ===== src/Sponsor/Policy/Laws.antt =====
-- The answers to a device's transaction, and the conditions on a job.
use midnight_buildathons_bac.Prelude.{
  ℕ, ◌<◌, ◌≡◌, ◌≢◌, refl, ap, String, Option, none, some, arith, inl, inr, ◌⊎◌, ◌↔◌, true, eq_iff,
  str_eq, Bool-cases,
}
use midnight_buildathons_bac.Gateway.Job.{JobStatus, proof_ready, reproof_required, sponsored}
use midnight_buildathons_bac.Sponsor.Policy.{
  ready, syncing, Supervisor, alive_or_absent, alive_and_present, has_dust, is_sponsored,
  accept_new, conflict, device_transaction_acceptance, SponsorWalletReadiness,
  sponsor_wallet_can_submit, sponsor_wallet_is_synchronized, sponsor_job_can_proceed,
}

-- A new transaction is accepted exactly for a job that has no hash and whose status is `proof_ready` or
-- `reproof_required`; and whatever the status is, the job has no hash, or it has the hash of the incoming
-- transaction, or the answer is a conflict.
pub device_transaction_acceptance-new :
    (status : JobStatus) (existing : Option String) (incoming : String)
    → ((device_transaction_acceptance status existing incoming ≡ accept_new)
        ↔ (((status ≡ proof_ready) ⊎ (status ≡ reproof_required)) × (existing ≡ none)))
      × ((existing ≡ none)
          ⊎ ((existing ≡ some incoming)
              ⊎ (device_transaction_acceptance status existing incoming ≡ conflict)))
unfolding device_transaction_acceptance
device_transaction_acceptance-new status none incoming = (ground arith, inl refl)
device_transaction_acceptance-new status (some h) incoming = (
  ground arith,
  elim (Bool-cases (str_eq h incoming)) [
    | inl same ↦ inr (inl (ap some ((eq_iff h incoming).0 same)))
    | inr other ↦ inr (inr (rw other refl))
  ],
)

-- A job that is not prepared proceeds exactly when the wallet may submit.
pub sponsor_job_can_proceed-submit :
    (status : JobStatus) (health : SponsorWalletReadiness)
    → status ≢ sponsored
    → sponsor_job_can_proceed status health ≡ sponsor_wallet_can_submit health
unfolding sponsor_job_can_proceed sponsor_wallet_can_submit
sponsor_job_can_proceed-submit status health unprepared = ground arith

alive_or_absent-IsAlive :
    (supervisor : Option Supervisor)
    → alive_or_absent supervisor ≡ true
    → (supervisor ≡ none)
      ⊎ ((s : Supervisor) × (supervisor ≡ some s)
          × (s.healthy ≡ true)
          × (s.wallet_process_alive ≡ true)
          × (s.wallet_status_fresh ≡ true))
alive_or_absent-IsAlive none h = inl refl
alive_or_absent-IsAlive (some s) h = inr (s, refl, ground arith, ground arith, ground arith)

alive_and_present-or_absent :
    (supervisor : Option Supervisor)
    → alive_and_present supervisor ≡ true
    → alive_or_absent supervisor ≡ true
alive_and_present-or_absent none h = refl
alive_and_present-or_absent (some s) h = h

has_dust-cases :
    (coins : Option ℕ)
    → has_dust coins ≡ true
    → (coins ≡ none) ⊎ ((n : ℕ) × (coins ≡ some n) × (0 < n))
has_dust-cases none h = inl refl
has_dust-cases (some n) h = inr (n, refl, ground arith)

-- A job proceeds only when there is no supervisor or it is healthy with a wallet process that is alive and
-- a fresh status, and only in the phase `ready`, or in the phase `syncing` for a prepared (`sponsored`)
-- job; a job that is not prepared only when the count of spendable coins is absent or not zero. A prepared
-- job proceeds whenever any job does.
pub sponsor_job_can_proceed-alive :
    (status : JobStatus) (health : SponsorWalletReadiness)
    → sponsor_job_can_proceed status health ≡ true
    → ((health.supervisor ≡ none)
        ⊎ ((s : Supervisor) × (health.supervisor ≡ some s)
            × (s.healthy ≡ true)
            × (s.wallet_process_alive ≡ true)
            × (s.wallet_status_fresh ≡ true)))
      × ((health.phase ≡ ready) ⊎ ((status ≡ sponsored) × (health.phase ≡ syncing)))
      × ((status ≡ sponsored)
          ⊎ ((health.spendable_dust_coins ≡ none)
              ⊎ ((n : ℕ) × (health.spendable_dust_coins ≡ some n) × (0 < n))))
      × (sponsor_job_can_proceed sponsored health ≡ true)
unfolding sponsor_job_can_proceed sponsor_wallet_is_synchronized sponsor_wallet_can_submit
sponsor_job_can_proceed-alive status health h = (
  alive_or_absent-IsAlive health.supervisor
      (ground (arith, alive_and_present-or_absent health.supervisor)),
  ground arith,
  elim (Bool-cases (is_sponsored status)) [
    | inl prepared ↦ inl (ground arith)
    | inr other ↦ inr (has_dust-cases health.spendable_dust_coins (ground arith))
  ],
  ground arith,
)
