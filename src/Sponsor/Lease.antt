-- ===== src/Sponsor/Lease.antt =====
-- The two leases of server-wallet-work.ts of backend/cloudflare/proof-gateway-worker/src: each is one
-- row, taken by an update with a condition and given back by its token.
pub mod Laws
use midnight_buildathons_bac.Prelude.{
  ℕ, ◌+◌, String, Bool, true, false, ◌||◌, Option, none, some, if◌then◌else◌, str_eq,
}
use midnight_buildathons_bac.Prelude.Int.{ℤ, pos, ◌+ℤ◌, leb_ℤ}
use midnight_buildathons_bac.Gateway.Job.{JobStatus}
use midnight_buildathons_bac.Sponsor.Policy.{
  SponsorWalletReadiness, sponsor_wallet_can_submit, sponsor_job_can_proceed,
}

pub data ServerWalletWorkKind : Type 0 where
  browser_policy browser_device managed_source managed_attestation sponsor_transaction :
      ServerWalletWorkKind

pub record ServerWalletWorkItem : Type 0 where
  pub kind : ServerWalletWorkKind
  pub id : String
  pub created_at : ℤ
  pub sponsor_status : Option JobStatus

pub record LeaseRow : Type 0 where
  pub lease_token : Option String
  pub lease_expires_at : Option ℤ
  pub work : Option (ServerWalletWorkKind × String)
  pub updated_at : ℤ

abbrev pub processing_lease_milliseconds : ℕ
processing_lease_milliseconds = 360_000

abbrev pub warmup_lease_milliseconds : ℕ
warmup_lease_milliseconds = 900_000

abbrev pub none_or_over : Option ℤ → ℤ → Bool
none_or_over none now = true
none_or_over (some e) now = leb_ℤ e now

abbrev pub is_none_text : Option String → Bool
is_none_text none = true
is_none_text (some s) = false

-- `lease_token IS NULL OR lease_expires_at IS NULL OR lease_expires_at <= ?5`
unfoldable pub is_free : LeaseRow → ℤ → Bool
is_free row now = is_none_text row.lease_token || none_or_over row.lease_expires_at now

-- The token is the fresh `crypto.randomUUID()`.
unfoldable pub acquire_lease :
    ℕ → LeaseRow → ServerWalletWorkItem → ℤ → String → LeaseRow × Option String
acquire_lease milliseconds row work now token =
    if is_free row now
    then (
      record {
        lease_token = some token;
        lease_expires_at = some (now +ℤ pos milliseconds);
        work = some (work.kind, work.id);
        updated_at = now;
      },
      some token,
    )
    else (row, none)

abbrev pub holds : Option String → String → Bool
holds none token = false
holds (some held) token = str_eq held token

unfoldable pub release_lease : LeaseRow → String → ℤ → LeaseRow
release_lease row token now =
    if holds row.lease_token token
    then record { lease_token = none; lease_expires_at = none; work = none; updated_at = now }
    else row

unfoldable pub acquire_processing_lease :
    LeaseRow → ServerWalletWorkItem → ℤ → String → LeaseRow × Option String
acquire_processing_lease = acquire_lease processing_lease_milliseconds

unfoldable pub acquire_server_wallet_warmup_lease :
    LeaseRow → ServerWalletWorkItem → ℤ → String → LeaseRow × Option String
acquire_server_wallet_warmup_lease = acquire_lease warmup_lease_milliseconds

abbrev pub status_can_proceed : Option JobStatus → SponsorWalletReadiness → Bool
status_can_proceed none health = false
status_can_proceed (some status) health = sponsor_job_can_proceed status health

unfoldable pub server_wallet_work_can_proceed : ServerWalletWorkItem → SponsorWalletReadiness → Bool
server_wallet_work_can_proceed work health = elim work.kind [
  | sponsor_transaction ↦ status_can_proceed work.sponsor_status health
  | _ ↦ sponsor_wallet_can_submit health
]
