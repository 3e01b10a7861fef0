-- ===== src/Container/Progress.antt =====
-- sync-progress.ts of backend/cloudflare/sponsor-wallet-container/src: what counts as synchronized.
-- An index is a number that is not negative; `isStrictlyComplete()` is a field.
use midnight_buildathons_bac.Prelude.{
  ℕ, Bool, false, ◌&&◌, Option, none, some, leb, ltb, if◌then◌else◌,
}

pub record SyncProgressLike : Type 0 where
  pub applied_index : Option ℕ
  pub highest_index : Option ℕ
  pub applied_id : Option ℕ
  pub highest_transaction_id : Option ℕ
  pub highest_relevant_wallet_index : Option ℕ
  pub is_connected : Bool
  pub is_strictly_complete : Bool

pub record SponsorSyncProgressDetails : Type 0 where
  pub applied : ℕ
  pub highest : ℕ
  pub connected : Bool
  pub complete : Bool

abbrev pub reaches : Option ℕ → Option ℕ → Bool
reaches none applied = false
reaches (some tip) none = false
reaches (some tip) (some applied) = ltb 0 tip && leb tip applied

unfoldable pub is_sponsor_dust_replay_complete : SyncProgressLike → Bool
is_sponsor_dust_replay_complete progress =
    progress.is_connected && reaches progress.highest_relevant_wallet_index progress.applied_index

unfoldable pub is_sponsor_base_sync_complete : SyncProgressLike → SyncProgressLike → Bool
is_sponsor_base_sync_complete shielded unshielded =
    shielded.is_strictly_complete && unshielded.is_strictly_complete

unfoldable pub is_sponsor_dust_only_base_sync_complete : SyncProgressLike → Bool
is_sponsor_dust_only_base_sync_complete unshielded = unshielded.is_strictly_complete

unfoldable pub is_sponsor_dust_only_transaction_sync_complete :
    SyncProgressLike → SyncProgressLike → Bool
is_sponsor_dust_only_transaction_sync_complete unshielded dust =
    unshielded.is_strictly_complete && dust.is_connected

abbrev pub or_zero : Option ℕ → ℕ
or_zero none = 0
or_zero (some n) = n

abbrev pub positions_by_id : SyncProgressLike → Option ℕ → Option ℕ → ℕ × ℕ
positions_by_id value (some applied) (some highest) = (applied, highest)
positions_by_id value _ _ =
    (or_zero value.applied_index, or_zero value.highest_relevant_wallet_index)

abbrev pub positions : SyncProgressLike → Option ℕ → Option ℕ → ℕ × ℕ
positions value (some applied) (some highest) =
    (applied, if ltb 0 highest then highest else or_zero value.highest_relevant_wallet_index)
positions value none highest = positions_by_id value value.applied_id value.highest_transaction_id
positions value (some applied) none =
    positions_by_id value value.applied_id value.highest_transaction_id

unfoldable pub sponsor_sync_progress_details : SyncProgressLike → SponsorSyncProgressDetails
sponsor_sync_progress_details value =
    let (applied, highest) = positions value value.applied_index value.highest_index in
    record {
      applied = applied;
      highest = highest;
      connected = value.is_connected;
      complete = value.is_strictly_complete;
    }
