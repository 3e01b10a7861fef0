-- ===== src/Gateway/Job.antt =====
-- A row of the table daily_proof_jobs (jobs.ts of backend/cloudflare/proof-gateway-worker/src) with the
-- columns that the modelled operations read or write. An instant that a column keeps as a text is a
-- whole number, and `none` stands for NULL, or for a text of `updated_at` that is no date.
use midnight_buildathons_bac.Prelude.{ℕ, String, Bool, true, false, Option}
use midnight_buildathons_bac.Prelude.Int.{ℤ}

pub data JobStatus : Type 0 where
  pending dispatched ready_for_input proving proof_ready : JobStatus
  device_bound awaiting_sponsor sponsor_retryable sponsoring sponsored : JobStatus
  submitted confirmed reproof_required retryable_failed dead_lettered : JobStatus

pub data Origin : Type 0 where
  device managed_api : Origin

pub record ProofJobRow : Type 0 where
  pub id : String
  pub project_id : String
  pub device_id : String
  pub origin : Origin
  pub status : JobStatus
  pub attempt_count : ℕ
  pub available_after : ℤ
  pub lease_expires_at : Option ℤ
  pub proof_artifact_key : Option String
  pub proof_generated_at : Option ℤ
  pub device_transaction_object_key : Option String
  pub device_transaction_hash : Option String
  pub device_transaction_bytes : Option ℕ
  pub sponsor_transaction_object_key : Option String
  pub sponsor_serialized_sha256 : Option String
  pub sponsor_transaction_id : Option String
  pub sponsor_fee_specks : Option String
  pub sponsor_transaction_bytes : Option ℕ
  pub sponsor_available_after : ℤ
  pub sponsor_lease_expires_at : Option ℤ
  pub sponsor_stage : Option String
  pub sponsor_reason_code : Option String
  pub sponsor_stage_updated_at : Option ℤ
  pub sponsorship_completed_at : Option String
  pub attest_tx_id : Option String
  pub attest_tx_hash : Option String
  pub block_height : Option ℕ
  pub last_error_code : Option String
  pub created_at : ℤ
  pub updated_at : Option ℤ

-- `status IN ('ready_for_input', 'proving', 'proof_ready')`
abbrev pub is_admitted : JobStatus → Bool
is_admitted ready_for_input = true
is_admitted proving = true
is_admitted proof_ready = true
is_admitted _ = false

-- `status IN ('pending', 'retryable_failed')`
abbrev pub is_waiting : JobStatus → Bool
is_waiting pending = true
is_waiting retryable_failed = true
is_waiting _ = false

-- `status IN ('dispatched', 'retryable_failed')`
abbrev pub is_dispatched_or_failed : JobStatus → Bool
is_dispatched_or_failed dispatched = true
is_dispatched_or_failed retryable_failed = true
is_dispatched_or_failed _ = false

abbrev pub is_dispatched : JobStatus → Bool
is_dispatched dispatched = true
is_dispatched _ = false

abbrev pub is_proving : JobStatus → Bool
is_proving proving = true
is_proving _ = false

-- `status IN ('ready_for_input', 'proof_ready')`
abbrev pub is_ready : JobStatus → Bool
is_ready ready_for_input = true
is_ready proof_ready = true
is_ready _ = false

-- `status IN ('submitted', 'confirmed', 'dead_lettered')`
abbrev pub is_final : JobStatus → Bool
is_final submitted = true
is_final confirmed = true
is_final dead_lettered = true
is_final _ = false

-- The statuses of jobs.ts that the proof queue neither reads for an update nor sets: from the device's
-- transaction on, and after a final failure to reprove.
abbrev pub is_beyond_queue : JobStatus → Bool
is_beyond_queue device_bound = true
is_beyond_queue awaiting_sponsor = true
is_beyond_queue sponsor_retryable = true
is_beyond_queue sponsoring = true
is_beyond_queue sponsored = true
is_beyond_queue submitted = true
is_beyond_queue confirmed = true
is_beyond_queue reproof_required = true
is_beyond_queue _ = false
