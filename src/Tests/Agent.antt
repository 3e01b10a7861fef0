-- ===== src/Tests/Agent.antt =====
-- Inputs of the lock: two processes, of which one is active.
use midnight_buildathons_bac.Prelude.{
  ℕ, ◌≡◌, ◌≢◌, ◌↔◌, refl, sym, String, Bool, true, false, some, List, [], ◌∷◌, ◌==◌, if◌then◌else◌,
  eq_iff, zero, suc, ◌+◌, none, ap, ◌∙◌, arith,
}
use midnight_buildathons_bac.Prelude.Int.{pos}
use midnight_buildathons_bac.Prelude.Results.{ok}
use Prim.Native.Char.{code}
use midnight_buildathons_bac.Gateway.Job.{proof_ready}
use midnight_buildathons_bac.Protocol.Identifier.{
  matches_identifier, all_identifier_codes, is_identifier_code, is_alphanumeric,
}
use midnight_buildathons_bac.Agent.Pending.{
  Files, no_transaction, Codec, PendingDeviceTransaction, ReproofJob, is_hex, check_path,
  load_content, load_pending_device_transaction, save_over, save_pending_device_transaction,
  archive, may_retire, retire_checked, retire_pending_device_transaction_for_reproof,
}
use midnight_buildathons_bac.Agent.Pending.Laws.{load-save, retire-save}
use midnight_buildathons_bac.Agent.Lock.{
  LockOwner, LockDirectory, absent, present, release, acquire_wallet_execution_lock, is_stale, Step,
  try_lock, give_back, do_steps, acquire_wallet_execution_lock-stale, do_steps-exclusive,
}

abbrev only_seven : ℕ → Bool
only_seven pid = pid == 7

abbrev seven : LockOwner
seven = record { pid = 7; command = "submit"; started_at = pos 1000; token = "a" }

abbrev eight : LockOwner
eight = record { pid = 8; command = "prove"; started_at = pos 2000; token = "b" }

-- A directory whose owner has ended.
abbrev left_behind : LockDirectory
left_behind = present (some eight) (pos 500)

acquire_wallet_execution_lock-stale_example :
    ((acquire_wallet_execution_lock only_seven seven left_behind (pos 1000)).0 ≡ (
      if is_stale only_seven left_behind (pos 1000)
      then present (some seven) (pos 1000)
      else left_behind))
    × (((acquire_wallet_execution_lock only_seven seven left_behind (pos 1000)).1
          ≡ ok (record { owner = seven; released = false }))
        ↔ (is_stale only_seven left_behind (pos 1000) ≡ true))
acquire_wallet_execution_lock-stale_example =
    acquire_wallet_execution_lock-stale only_seven seven left_behind (pos 1000)

abbrev tries_of_eight : List (Step only_seven)
tries_of_eight =
    try_lock eight (pos 2000) ∷ give_back (record { owner = eight; released = false }) ∷ []

different_owners : ◌≢◌ {A = String} "a" "b"
different_owners e = let same : true ≡ false = sym ((eq_iff "a" "b").1 e) in cc

do_steps-exclusive_example :
    (do_steps only_seven (present (some seven) (pos 1000)) tries_of_eight
      ≡ present (some seven) (pos 1000))
    × ((release
          (record { owner = seven; released = false })
          (do_steps only_seven (present (some seven) (pos 1000)) tries_of_eight)).1
        ≡ absent)
do_steps-exclusive_example =
    do_steps-exclusive only_seven seven (pos 1000) tries_of_eight refl (different_owners, tt)

-- A number as ticks, and bytes as the ticks of each: a code that can be read back.
ticks : ℕ → String → String
ticks zero s = String.◌∷◌ "." s
ticks (suc n) s = String.◌∷◌ "i" (ticks n s)

write_ticks : List ℕ → String
write_ticks [] = ""
write_ticks (n ∷ ns) = ticks n (write_ticks ns)

read_ticks : ℕ → String → List ℕ
read_ticks k String.[] = []
read_ticks k (String.◌∷◌ c s) =
    let more = read_ticks (suc k) s in
    let next = read_ticks 0 s in if code c == b'i' then more else k ∷ next

read_ticks_lem : (k n : ℕ) (s : String) → read_ticks k (ticks n s) ≡ (k + n) ∷ read_ticks 0 s
unfolding read_ticks ticks
read_ticks_lem k zero s = ap (λ m. m ∷ read_ticks 0 s) (omega arith)
read_ticks_lem k (suc n) s = read_ticks_lem (suc k) n s ∙ ap (λ m. m ∷ read_ticks 0 s) (omega arith)

read-write_ticks : (bytes : List ℕ) → read_ticks 0 (write_ticks bytes) ≡ bytes
unfolding write_ticks read_ticks
read-write_ticks [] = refl
read-write_ticks (n ∷ ns) =
    let zero_add : 0 + n ≡ n = omega arith in
    read_ticks_lem 0 n (write_ticks ns)
    ∙ ap (λ m. m ∷ read_ticks 0 (write_ticks ns)) zero_add
    ∙ ap (λ rest. n ∷ rest) (read-write_ticks ns)

abbrev zeros : String
zeros = "0000000000000000000000000000000000000000000000000000000000000000"

zeros-IsHex : is_hex 64 zeros ≡ true
unfolding is_hex
zeros-IsHex = refl

abbrev ticks_codec : Codec
ticks_codec = record {
  serialized_sha256 = λ bytes. zeros;
  sha256_IsHex = λ bytes. zeros-IsHex;
  to_base64 = write_ticks;
  from_base64 = read_ticks 0;
  from-to_base64 = read-write_ticks;
}

abbrev no_files : Files
no_files = record { active = none; archived = [] }

saved :
    (files : Files) × (p : PendingDeviceTransaction) × (save_pending_device_transaction ticks_codec
        "job"
        (1 ∷ 2 ∷ [])
        "now"
        no_files
      ≡ (files, ok p))
unfolding save_pending_device_transaction save_over load_pending_device_transaction load_content
    check_path matches_identifier all_identifier_codes is_identifier_code is_alphanumeric
saved = (_, _, refl)

load-save_example :
    (load_pending_device_transaction ticks_codec "job" saved.0 ≡ ok (some saved.1))
    × (saved.1.serialized_sha256 ≡ zeros)
    × ((save_pending_device_transaction ticks_codec "job" (3 ∷ []) "later" saved.0).0 ≡ saved.0)
load-save_example =
    load-save ticks_codec "job" (1 ∷ 2 ∷ []) "now" no_files saved.0 saved.1 (3 ∷ []) "later" saved.2

abbrev reproof : ReproofJob
reproof = record {
  proof_job_id = "job";
  status = proof_ready;
  sponsor_stage = some "reproof_queued";
  attempt_count = 2;
  device_transaction_hash = none;
  sponsor_transaction_id = none;
  attest_tx_id = none;
}

reproof_may : may_retire reproof ≡ true
unfolding may_retire
reproof_may = refl

-- There was no active file: a note of that is written.
abbrev after_retiring : Files
after_retiring = record { active = none; archived = (2, no_transaction) ∷ [] }

retired :
    retire_pending_device_transaction_for_reproof ticks_codec reproof no_files
    ≡ (after_retiring, ok tt)
unfolding retire_pending_device_transaction_for_reproof retire_checked archive may_retire check_path
    matches_identifier all_identifier_codes is_identifier_code is_alphanumeric
retired = refl

retire-save_example :
    retire_pending_device_transaction_for_reproof ticks_codec reproof
      (save_pending_device_transaction ticks_codec "job" (1 ∷ []) "now" after_retiring).0
    ≡ ((save_pending_device_transaction ticks_codec "job" (1 ∷ []) "now" after_retiring).0, ok tt)
retire-save_example =
    retire-save ticks_codec reproof no_files after_retiring (1 ∷ []) "now" reproof_may retired
