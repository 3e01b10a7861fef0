-- ===== src/Sponsor/Runnable.antt =====
-- The table expression `runnable` of nextServerWalletWork in
-- backend/cloudflare/proof-gateway-worker/src/server-wallet-work.ts: the work of five tables.
use midnight_buildathons_bac.Prelude.{
  ℕ, String, Bool, true, false, ◌&&◌, ◌||◌, Option, none, some, List, [], ◌∷◌, ◌++◌, if◌then◌else◌,
  str_eq, is_some,
}
use midnight_buildathons_bac.Prelude.Int.{ℤ, leb_ℤ}
use midnight_buildathons_bac.Gateway.Job.{
  ProofJobRow, JobStatus, awaiting_sponsor, sponsor_retryable, sponsored, device_bound,
}
use midnight_buildathons_bac.Sponsor.Lease.{
  ServerWalletWorkKind, ServerWalletWorkItem, browser_policy, browser_device, managed_source,
  managed_attestation, sponsor_transaction,
}

-- Rows of browser_policy_operations, browser_provisioning_operations, managed_sources,
-- managed_source_runs, project_policies and threshold_policies, as far as they are read.
pub record PolicyOperation : Type 0 where
  pub id : String
  pub status : String
  pub created_at : ℤ

pub record DeviceOperation : Type 0 where
  pub id : String
  pub status : String
  pub created_at : ℤ
  pub project_id : String
  pub policy_id : String

pub record SourceRow : Type 0 where
  pub id : String
  pub project_id : String
  pub policy_id : String
  pub status : String
  pub stage : String
  pub available_after : ℤ
  pub created_at : ℤ

pub record RunRow : Type 0 where
  pub id : String
  pub source_id : String
  pub status : String
  pub available_after : ℤ
  pub created_at : ℤ

pub record ProjectPolicy : Type 0 where
  pub project_id : String
  pub policy_id : String

pub record ThresholdPolicy : Type 0 where
  pub policy_id : String
  pub status : String
  pub contract_address : String

pub record WorkTables : Type 0 where
  pub policy_operations : List PolicyOperation
  pub device_operations : List DeviceOperation
  pub sources : List SourceRow
  pub runs : List RunRow
  pub jobs : List ProofJobRow
  pub project_policies : List ProjectPolicy
  pub threshold_policies : List ThresholdPolicy

-- A row of `runnable`, by its work; the precedence follows from the kind.
abbrev pub precedence : ServerWalletWorkKind → ℕ
precedence browser_policy = 1
precedence browser_device = 2
precedence managed_source = 3
precedence managed_attestation = 4
precedence sponsor_transaction = 5

-- `?2 IS NULL OR created_at <= ?2`
abbrev pub is_accepted : Option ℤ → ℤ → Bool
is_accepted none created_at = true
is_accepted (some through) created_at = leb_ℤ created_at through

abbrev pub is_queued : String → Bool
is_queued status = str_eq status "queued" || str_eq status "retrying"

-- The rows a condition selects, as work.
unfoldable pub select :
    {A : Type 0} → (A → Bool) → (A → ServerWalletWorkItem) → List A → List ServerWalletWorkItem
select p f [] = []
select p f (r ∷ rs) = let rest = select p f rs in if p r then f r ∷ rest else rest

unfoldable pub exists : {A : Type 0} → (A → Bool) → List A → Bool
exists p [] = false
exists p (r ∷ rs) = p r || exists p rs

-- The project has the policy, and the policy is registered with the contract.
unfoldable pub policy_is_registered : WorkTables → String → String → String → Bool
policy_is_registered t contract_address project_id policy_id =
    exists (λ (r : ProjectPolicy). str_eq r.project_id project_id && str_eq r.policy_id policy_id)
      t.project_policies
    && exists
        (λ (r : ThresholdPolicy).
          str_eq r.policy_id policy_id
          && str_eq r.status "registered"
          && str_eq r.contract_address contract_address)
        t.threshold_policies

unfoldable pub source_is_active : WorkTables → String → Bool
source_is_active t source_id =
    exists (λ (r : SourceRow). str_eq r.id source_id && str_eq r.status "active") t.sources

-- A job that waits for the sponsor, or whose device's transaction is bound and stored.
unfoldable pub is_sponsor_work : ProofJobRow → Bool
is_sponsor_work r = elim r.status [
  | awaiting_sponsor ↦ true
  | sponsor_retryable ↦ true
  | sponsored ↦ true
  | device_bound ↦ is_some r.device_transaction_object_key && is_some r.device_transaction_hash
  | _ ↦ false
]

abbrev pub item : ServerWalletWorkKind → String → ℤ → Option JobStatus → ServerWalletWorkItem
item kind id created_at sponsor_status = record {
  kind = kind;
  id = id;
  created_at = created_at;
  sponsor_status = sponsor_status;
}

unfoldable pub runnable : WorkTables → ℤ → Option ℤ → String → List ServerWalletWorkItem
runnable t now through contract_address =
    select (λ r. is_queued r.status && is_accepted through r.created_at)
      (λ r. item browser_policy r.id r.created_at none) t.policy_operations
    ++ select
        (λ r.
          is_queued r.status
          && is_accepted through r.created_at
          && policy_is_registered t contract_address r.project_id r.policy_id)
        (λ r. item browser_device r.id r.created_at none) t.device_operations
    ++ select
        (λ r.
          policy_is_registered t contract_address r.project_id r.policy_id
          && str_eq r.status "provisioning"
          && (str_eq r.stage "queued" || str_eq r.stage "retry_waiting")
          && leb_ℤ r.available_after now
          && is_accepted through r.created_at)
        (λ r. item managed_source r.id r.created_at none) t.sources
    ++ select
        (λ r.
          source_is_active t r.source_id
          && (str_eq r.status "proof_queued" || str_eq r.status "proof_retry")
          && leb_ℤ r.available_after now
          && is_accepted through r.created_at)
        (λ r. item managed_attestation r.id r.created_at none) t.runs
    ++ select
        (λ r.
          is_sponsor_work r
          && leb_ℤ r.sponsor_available_after now
          && is_accepted through r.created_at)
        (λ r. item sponsor_transaction r.id r.created_at (some r.status)) t.jobs
