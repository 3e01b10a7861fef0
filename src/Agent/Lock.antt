-- ===== src/Agent/Lock.antt =====
-- execution-lock.ts of edge-device/midnight-transaction-agent/src: a directory that one process at a
-- time can make, with a file that names its owner. Each call is one step; which processes are active
-- is a parameter.
use text.Mathlib.TextPositions.{eq_refl}
use midnight_buildathons_bac.Prelude.{
  ℕ, zero, suc, ◌≡◌, ◌≢◌, refl, String, Bool, true, false, Option, none, some, List, [], ◌∷◌,
  if◌then◌else◌, str_eq, eq_iff, Bool-cases, inl, inr, ◌↔◌, arith,
}
use midnight_buildathons_bac.Prelude.Int.{ℤ, pos, ◌-ℤ◌, ltb_ℤ}
use midnight_buildathons_bac.Prelude.Results.{Result, ok, throw}

pub record LockOwner : Type 0 where
  pub pid : ℕ
  pub command : String
  pub started_at : ℤ
  pub token : String

-- The directory is made at an instant; its file may be missing or not readable as an owner.
pub data LockDirectory : Type 0 where
  absent : LockDirectory
  present : Option LockOwner → ℤ → LockDirectory

pub record WalletExecutionLock : Type 0 where
  pub owner : LockOwner
  pub released : Bool

abbrev pub initializing_grace_ms : ℤ
initializing_grace_ms = pos 30000

abbrev pub read_owner : LockDirectory → Option LockOwner
read_owner absent = none
read_owner (present owner made_at) = owner

abbrev pub owns : Option LockOwner → String → Bool
owns none token = false
owns (some o) token = str_eq o.token token

unfoldable pub release : WalletExecutionLock → LockDirectory → WalletExecutionLock × LockDirectory
release lock directory =
    let released = record lock { released = true } in
    if lock.released
    then (lock, directory)
    else if owns (read_owner directory) lock.owner.token
    then (released, absent)
    else (released, directory)

module _ (active_process : ℕ → Bool) where
  -- Up to so many attempts.
  unfoldable pub attempt_lock :
      ℕ → LockOwner → LockDirectory → ℤ → LockDirectory × Result WalletExecutionLock
  attempt_lock zero owner directory now =
      (directory, throw "Could not acquire the Device Wallet execution lock")
  attempt_lock (suc n) owner absent now =
      (present (some owner) now, ok (record { owner = owner; released = false }))
  attempt_lock (suc n) owner (present (some o) made_at) now =
      let again = attempt_lock n owner absent now in
      if active_process o.pid
      then (present (some o) made_at, throw "Another Device Wallet operation is already running")
      else again
  attempt_lock (suc n) owner (present none made_at) now =
      let again = attempt_lock n owner absent now in
      if ltb_ℤ (now -ℤ made_at) initializing_grace_ms
      then (
        present none made_at,
        throw "Another Device Wallet operation is acquiring the execution lock",
      )
      else again

  unfoldable pub acquire_wallet_execution_lock :
      LockOwner → LockDirectory → ℤ → LockDirectory × Result WalletExecutionLock
  unfolding attempt_lock
  acquire_wallet_execution_lock = attempt_lock 2

  -- A directory that nobody holds: there is none, its owner is not active, or it has stood without an
  -- owner longer than the grace.
  unfoldable pub is_stale : LockDirectory → ℤ → Bool
  is_stale absent now = true
  is_stale (present (some o) made_at) now = if active_process o.pid then false else true
  is_stale (present none made_at) now =
      if ltb_ℤ (now -ℤ made_at) initializing_grace_ms then false else true

  -- The lock is given exactly where nobody holds it, and then names the new owner; otherwise the
  -- directory stays as it is.
  pub acquire_wallet_execution_lock-stale :
      (owner : LockOwner) (directory : LockDirectory) (now : ℤ)
      → ((acquire_wallet_execution_lock owner directory now).0
          ≡ (if is_stale directory now then present (some owner) now else directory))
        × (((acquire_wallet_execution_lock owner directory now).1
              ≡ ok (record { owner = owner; released = false }))
            ↔ (is_stale directory now ≡ true))
  unfolding acquire_wallet_execution_lock is_stale attempt_lock
  acquire_wallet_execution_lock-stale owner absent now = ground arith
  acquire_wallet_execution_lock-stale owner (present (some o) made_at) now = ground arith
  acquire_wallet_execution_lock-stale owner (present none made_at) now = ground arith

  -- What other processes may do.
  pub data Step : Type 0 where
    try_lock : LockOwner → ℤ → Step
    give_back : WalletExecutionLock → Step

  unfoldable pub do_step : LockDirectory → Step → LockDirectory
  do_step directory (try_lock owner now) = (acquire_wallet_execution_lock owner directory now).0
  do_step directory (give_back lock) = (release lock directory).1

  unfoldable pub do_steps : LockDirectory → List Step → LockDirectory
  do_steps directory [] = directory
  do_steps directory (s ∷ ss) = do_steps (do_step directory s) ss

  -- The locks that others give back have other tokens.
  abbrev pub AreOthers : String → List Step → Type 0
  AreOthers token [] = Unit
  AreOthers token (try_lock owner now ∷ ss) = AreOthers token ss
  AreOthers token (give_back lock ∷ ss) = (token ≢ lock.owner.token) × AreOthers token ss

  try_lock-active :
      (o owner : LockOwner) (made_at now : ℤ)
      → active_process o.pid ≡ true
      → (acquire_wallet_execution_lock owner (present (some o) made_at) now).0
        ≡ present (some o) made_at
  unfolding acquire_wallet_execution_lock attempt_lock
  try_lock-active o owner made_at now active = ground arith

  release-cases :
      (lock : WalletExecutionLock) (o : LockOwner) (made_at : ℤ)
      → str_eq o.token lock.owner.token ≡ false
      → (release lock (present (some o) made_at)).1 ≡ present (some o) made_at
  unfolding release
  release-cases lock o made_at other = ground arith

  release-own :
      (o : LockOwner) (made_at : ℤ)
      → (release (record { owner = o; released = false }) (present (some o) made_at)).1 ≡ absent
  unfolding release
  release-own o made_at = let own = eq_refl o.token in ground arith

  give_back-other :
      (o : LockOwner) (lock : WalletExecutionLock) (made_at : ℤ)
      → o.token ≢ lock.owner.token
      → (release lock (present (some o) made_at)).1 ≡ present (some o) made_at
  give_back-other o lock made_at differs = elim (Bool-cases (str_eq o.token lock.owner.token)) [
    | inl same ↦ absurd (differs ((eq_iff o.token lock.owner.token).0 same))
    | inr other ↦ release-cases lock o made_at other
  ]

  kept :
      (o : LockOwner) (made_at : ℤ) (ss : List Step)
      → active_process o.pid ≡ true
      → AreOthers o.token ss
      → do_steps (present (some o) made_at) ss ≡ present (some o) made_at
  unfolding do_steps do_step
  kept o made_at [] active others = refl
  kept o made_at (try_lock owner now ∷ ss) active others =
      rw (try_lock-active o owner made_at now active) (kept o made_at ss active others)
  kept o made_at (give_back lock ∷ ss) active others =
      rw (give_back-other o lock made_at others.0) (kept o made_at ss active others.1)

  -- While its owner's process is active, a lock stays as it is whatever others try, and whatever
  -- locks of other tokens they give back; when its owner then gives it back the directory is gone.
  pub do_steps-exclusive :
      (o : LockOwner) (made_at : ℤ) (ss : List Step)
      → active_process o.pid ≡ true
      → AreOthers o.token ss
      → (do_steps (present (some o) made_at) ss ≡ present (some o) made_at)
        × ((release
              (record { owner = o; released = false })
              (do_steps (present (some o) made_at) ss)).1
            ≡ absent)
  do_steps-exclusive o made_at ss active others =
      let same = kept o made_at ss active others in rw same (refl, release-own o made_at)
