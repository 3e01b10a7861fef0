-- ===== src/Sponsor/Work.antt =====
-- nextServerWalletWork and processNextServerWalletWork of
-- backend/cloudflare/proof-gateway-worker/src/server-wallet-work.ts: the oldest work of five tables, done
-- under the processing lease. What a kind of work does is a parameter, which returns or throws and may
-- change the tables.
pub mod Laws
use Prim.Native.String.{compare as compare_text}
use Prim.Native.Nat.{Ordering}
use midnight_buildathons_bac.Prelude.{
  ℕ, String, Bool, true, false, ◌&&◌, ◌||◌, not, Option, none, some, List, [], ◌∷◌, ◌++◌,
  if◌then◌else◌, str_eq, ltb, ◌==◌, is_some,
}
use midnight_buildathons_bac.Prelude.Int.{ℤ, leb_ℤ, ltb_ℤ, eqb_ℤ}
use midnight_buildathons_bac.Prelude.Results.{Result, ok, throw}
use midnight_buildathons_bac.Gateway.Job.{
  ProofJobRow, JobStatus, awaiting_sponsor, sponsor_retryable, sponsored, device_bound,
}
use midnight_buildathons_bac.Agent.Pending.{is_hex}
use midnight_buildathons_bac.Sponsor.Lease.{
  ServerWalletWorkKind, ServerWalletWorkItem, browser_policy, browser_device, managed_source,
  managed_attestation, sponsor_transaction, LeaseRow, acquire_processing_lease, release_lease,
}
use midnight_buildathons_bac.Sponsor.Runnable.{WorkTables, precedence, runnable}

abbrev pub text_leb : String → String → Bool
text_leb a b = elim (compare_text a b) [ Ordering.gt ↦ false | _ ↦ true ]

-- `created_at ASC, precedence ASC, id ASC`
unfoldable pub comes_first : ServerWalletWorkItem → ServerWalletWorkItem → Bool
comes_first a b =
    if ltb_ℤ a.created_at b.created_at
    then true
    else (if ltb_ℤ b.created_at a.created_at
        then false
        else (if ltb (precedence a.kind) (precedence b.kind)
            then true
            else (if ltb (precedence b.kind) (precedence a.kind)
                then false
                else text_leb a.id b.id)))

abbrev pub first_of : ServerWalletWorkItem → Option ServerWalletWorkItem → ServerWalletWorkItem
first_of a none = a
first_of a (some b) = if comes_first a b then a else b

-- `ORDER BY … LIMIT 1`
unfoldable pub least : List ServerWalletWorkItem → Option ServerWalletWorkItem
least [] = none
least (w ∷ ws) = some (first_of w (least ws))

unfoldable pub next_server_wallet_work :
    WorkTables → ℤ → Option ℤ → String → Option ServerWalletWorkItem
next_server_wallet_work t now through contract_address =
    least (runnable t now through contract_address)

pub data ServerWalletProcessingResult : Type 0 where
  idle : ServerWalletProcessingResult
  busy processed : ServerWalletWorkItem → ServerWalletProcessingResult

-- The tables and the row of the processing lease.
pub record Server : Type 0 where
  pub tables : WorkTables
  pub lease : LeaseRow

-- What happens outside: what a work does, and what others do meanwhile: to the tables and to the row of
-- the lease between the first selection and the lease's statement, to the tables before they are read
-- again, and to the row of the lease before it is given back.
pub record Surroundings : Type 0 where
  pub process_work : ServerWalletWorkItem → WorkTables → WorkTables × Result (Unit {0})
  pub before_taking : Server → Server
  pub before_reading : WorkTables → WorkTables
  pub before_release : LeaseRow → LeaseRow

module _ (around : Surroundings) (acceptance : Option ℤ) (contract_address : String) where
  open around use {process_work, before_taking, before_reading, before_release}

  abbrev pub finished :
      ServerWalletWorkItem → Result (Unit {0}) → Result ServerWalletProcessingResult
  finished work (ok done) = ok (processed work)
  finished work (throw e) = throw e

  -- The body of the `try`, under the lease; the tables are read again.
  unfoldable pub process_selected :
      Option ServerWalletWorkItem → WorkTables → WorkTables × Result ServerWalletProcessingResult
  process_selected none t = (t, ok idle)
  process_selected (some work) t = let done = process_work work t in (done.0, finished work done.1)

  -- The lease was taken or not; `ends_at` is the time when it is given back.
  unfoldable pub process_leased :
      ServerWalletWorkItem
      → ℤ
      → ℤ
      → WorkTables
      → LeaseRow × Option String
      → Server × Result ServerWalletProcessingResult
  process_leased work started_at ends_at t (row, none) =
      (record { tables = t; lease = row }, ok (busy work))
  process_leased work started_at ends_at t (row, some token) =
      let t' = before_reading t in
      let selected = next_server_wallet_work t' started_at acceptance contract_address in
      let done = process_selected selected t' in
      (record { tables = done.0; lease = release_lease (before_release row) token ends_at }, done.1)

  unfoldable pub process_found :
      ℤ
      → ℤ
      → ℤ
      → String
      → Server
      → Option ServerWalletWorkItem
      → Server × Result ServerWalletProcessingResult
  process_found now started_at ends_at token s none = (s, ok idle)
  process_found now started_at ends_at token s (some work) =
      let asked = before_taking s in
      process_leased work started_at ends_at asked.tables
        (acquire_processing_lease asked.lease work now token)

  -- `token` is the fresh one of the lease; the clock is read once more after it is taken, and at the end.
  unfoldable pub process_next_server_wallet_work :
      ℤ → ℤ → ℤ → String → Server → Server × Result ServerWalletProcessingResult
  process_next_server_wallet_work now started_at ends_at token s =
      if not (is_hex 64 contract_address)
      then (s, ok idle)
      else process_found now started_at ends_at token s
          (next_server_wallet_work s.tables now acceptance contract_address)
