-- ===== src/Agent/Pending.antt =====
-- edge-device/midnight-transaction-agent/src/pending-transaction.ts: the device's transaction of a proof
-- job, kept in a file until it is submitted. The state is the files of one job. The digest and the
-- Base64 code are parameters; a file operation that fails is not modelled.
pub mod Laws
use Prim.Native.Char.{code}
use Prim.Native.String
use midnight_buildathons_bac.Prelude.{
  ℕ, zero, suc, String, Bool, true, false, ◌&&◌, ◌||◌, not, Option, none, some, List, [], ◌∷◌, ◌≡◌,
  if◌then◌else◌, leb, ◌==◌, str_eq, length,
}
use midnight_buildathons_bac.Prelude.Results.{Result, ok, throw, ◌>>=◌, ◌>>◌, require}
use midnight_buildathons_bac.Protocol.Identifier.{matches_identifier}
use midnight_buildathons_bac.Gateway.Job.{JobStatus, is_admitted}

pub record PendingDeviceTransactionFile : Type 0 where
  pub version : ℕ
  pub proof_job_id : String
  pub serialized_sha256 : String
  pub serialized_base64 : String
  pub created_at : String

-- What a file holds, when it is no text of the program's.
pub data Content : Type 0 where
  transaction_file : PendingDeviceTransactionFile → Content
  no_json : Content

pub record PendingDeviceTransaction : Type 0 where
  pub bytes : List ℕ
  pub serialized_sha256 : String

-- What replaces the active file of an admitted generation: the file itself, or a note that there was
-- none.
pub data Retired : Type 0 where
  renamed : Content → Retired
  no_transaction : Retired

-- The active file, and the archived ones by the attempt in their name.
pub record Files : Type 0 where
  pub active : Option Content
  pub archived : List (ℕ × Retired)

-- [0-9a-f], as often as said.
unfoldable pub is_hex : ℕ → String → Bool
is_hex zero String.[] = true
is_hex zero (String.◌∷◌ c s) = false
is_hex (suc n) String.[] = false
is_hex (suc n) (String.◌∷◌ c s) =
    let here = code c in
    ((leb b'0' here && leb here b'9') || (leb b'a' here && leb here b'f')) && is_hex n s

-- /^(?:[0-9a-f]{2}){32}$/u
abbrev pub is_digest : String → Bool
is_digest s = is_hex 64 s

-- SHA-256 in hexadecimal, and Base64.
pub record Codec : Type 0 where
  pub serialized_sha256 : List ℕ → String
  pub sha256_IsHex : (bytes : List ℕ) → is_digest (serialized_sha256 bytes) ≡ true
  pub to_base64 : List ℕ → String
  pub from_base64 : String → List ℕ
  pub from-to_base64 : (bytes : List ℕ) → from_base64 (to_base64 bytes) ≡ bytes

pub record ReproofJob : Type 0 where
  pub proof_job_id : String
  pub status : JobStatus
  pub sponsor_stage : Option String
  pub attempt_count : ℕ
  pub device_transaction_hash : Option String
  pub sponsor_transaction_id : Option String
  pub attest_tx_id : Option String

abbrev pub is_archived : ℕ → List (ℕ × Retired) → Bool
is_archived n [] = false
is_archived n (r ∷ rs) = r.0 == n || is_archived n rs

-- A text that is neither null nor empty.
abbrev is_truthy : Option String → Bool
is_truthy none = false
is_truthy (some s) = not (str_eq s "")

abbrev is_queued_again : Option String → Bool
is_queued_again none = false
is_queued_again (some stage) = str_eq stage "reproof_queued"

-- `transactionPath` throws for an identifier that is no file name.
unfoldable pub check_path : String → Result (Unit {0})
unfolding matches_identifier
check_path proof_job_id = require (matches_identifier proof_job_id) "Proof Job ID is invalid"

unfoldable pub may_retire : ReproofJob → Bool
may_retire job =
    is_queued_again job.sponsor_stage
    && is_admitted job.status
    && not (
        is_truthy job.device_transaction_hash
        || is_truthy job.sponsor_transaction_id
        || is_truthy job.attest_tx_id)

module _ (c : Codec) where
  open c use {serialized_sha256, to_base64, from_base64}

  unfoldable pub check_file :
      String → PendingDeviceTransactionFile → Result (Option PendingDeviceTransaction)
  check_file proof_job_id parsed = do
    require
        (parsed.version == 1
          && str_eq parsed.proof_job_id proof_job_id
          && is_digest parsed.serialized_sha256)
        "Pending Device transaction metadata is invalid"
    let bytes = from_base64 parsed.serialized_base64
    require (not (length bytes == 0) && str_eq (serialized_sha256 bytes) parsed.serialized_sha256)
        "Pending Device transaction failed its integrity check"
    ok (some (record { bytes = bytes; serialized_sha256 = parsed.serialized_sha256 }))

  unfoldable pub load_content : String → Option Content → Result (Option PendingDeviceTransaction)
  load_content proof_job_id none = ok none
  load_content proof_job_id (some no_json) = throw "Unexpected token"
  load_content proof_job_id (some (transaction_file parsed)) = check_file proof_job_id parsed

  unfoldable pub load_pending_device_transaction :
      String → Files → Result (Option PendingDeviceTransaction)
  load_pending_device_transaction proof_job_id files = do
    check_path proof_job_id
    load_content proof_job_id files.active

  -- The new content of the active file.
  abbrev pub new_file : String → List ℕ → String → PendingDeviceTransactionFile
  new_file proof_job_id bytes now = record {
    version = 1;
    proof_job_id = proof_job_id;
    serialized_sha256 = serialized_sha256 bytes;
    serialized_base64 = to_base64 bytes;
    created_at = now;
  }

  unfoldable pub save_over :
      String
      → List ℕ
      → String
      → Files
      → Result (Option PendingDeviceTransaction)
      → Files × Result PendingDeviceTransaction
  save_over proof_job_id bytes now files (throw e) = (files, throw e)
  save_over proof_job_id bytes now files (ok (some existing)) = (
    files,
    if not (str_eq existing.serialized_sha256 (serialized_sha256 bytes))
        then throw "Proof Job is already bound to another local Device transaction"
        else ok existing,
  )
  save_over proof_job_id bytes now files (ok none) = (
    record files { active = some (transaction_file (new_file proof_job_id bytes now)) },
    ok (record { bytes = bytes; serialized_sha256 = serialized_sha256 bytes }),
  )

  unfoldable pub save_pending_device_transaction :
      String → List ℕ → String → Files → Files × Result PendingDeviceTransaction
  save_pending_device_transaction proof_job_id bytes now files =
      if length bytes == 0
      then (files, throw "Pending Device transaction must not be empty")
      else save_over proof_job_id bytes now files
          (load_pending_device_transaction proof_job_id files)

  -- The active file is checked, then renamed; or a note is written.
  unfoldable pub archive :
      ReproofJob
      → Files
      → Option Content
      → Result (Option PendingDeviceTransaction)
      → Files × Result (Unit {0})
  archive job files none loaded =
      (record files { archived = (job.attempt_count, no_transaction) ∷ files.archived }, ok tt)
  archive job files (some content) (throw e) = (files, throw e)
  archive job files (some content) (ok p) = (
    record { active = none; archived = (job.attempt_count, renamed content) ∷ files.archived },
    ok tt,
  )

  unfoldable pub retire_checked : ReproofJob → Files → Result (Unit {0}) → Files × Result (Unit {0})
  retire_checked job files (throw e) = (files, throw e)
  retire_checked job files (ok done) =
      if is_archived job.attempt_count files.archived
      then (files, ok tt)
      else archive job files files.active (load_pending_device_transaction job.proof_job_id files)

  unfoldable pub retire_pending_device_transaction_for_reproof :
      ReproofJob → Files → Files × Result (Unit {0})
  retire_pending_device_transaction_for_reproof job files =
      if not (may_retire job)
      then (files, ok tt)
      else retire_checked job files (do
        require (leb 1 job.attempt_count && leb job.attempt_count 9_007_199_254_740_991)
            "Reproof admission attempt is invalid"
        check_path job.proof_job_id)
