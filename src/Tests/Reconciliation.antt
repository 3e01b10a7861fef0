-- ===== src/Tests/Reconciliation.antt =====
-- An indexer that has one transaction.
use midnight_buildathons_bac.Prelude.{ℕ, ◌≡◌, refl, String, false, true, some, List, [], ◌∷◌, ◌↔◌}
use midnight_buildathons_bac.Prelude.Results.{Result, ok}
use midnight_buildathons_bac.Managed.Endpoint.{codes, eq_codes}
use midnight_buildathons_bac.Protocol.Identifier.{trim, trim_start, trim_end, is_space}
use midnight_buildathons_bac.Sponsor.Reconciliation.{
  Network, ReconciledSponsorTransaction, IndexerTransaction, IndexerResponse, ReconciliationInput,
  to_lower_case, strip_prefix, is_hex, all_texts, includes_lower, confirm, reconcile_transactions,
  reconcile_payload, reconcile_response, reconcile_on, normalized_network,
  reconcile_replay_protected_sponsor_transaction,
}
use midnight_buildathons_bac.Sponsor.Reconciliation.Laws.{
  IsConfirmed, reconcile_replay_protected_sponsor_transaction-IsConfirmed,
}

abbrev id_text : String
id_text = "00a1b2c3d4e5f60718293a4b5c6d7e8f90a1b2c3d4e5f60718293a4b5c6d7e8f90"

abbrev hash_text : String
hash_text = "ffa1b2c3d4e5f60718293a4b5c6d7e8f90a1b2c3d4e5f60718293a4b5c6d7e8f"

abbrev entry : IndexerTransaction
entry = record {
  hash = some hash_text;
  identifiers = some (some "01" ∷ some id_text ∷ []);
  block = some (some 1234);
  transaction_result = some (some "SUCCESS");
}

abbrev indexer : Network → List ℕ → Result IndexerResponse
indexer network id = ok (record {
  is_ok = true;
  json = ok (record { has_errors = false; transactions = some (some entry ∷ []) });
})

abbrev input : ReconciliationInput
input = record {
  network = some " Midnight Preview";
  transaction_id = "0x00A1b2c3d4e5f60718293a4b5c6d7e8f90a1b2c3d4e5f60718293a4b5c6d7e8f90";
  transaction_hash = hash_text;
}

abbrev expected : ReconciledSponsorTransaction
expected = record {
  transaction_id = codes id_text;
  transaction_hash = codes hash_text;
  block_height = 1234;
}

-- The run returns the transaction.
run : reconcile_replay_protected_sponsor_transaction indexer input ≡ ok (some expected)
unfolding reconcile_replay_protected_sponsor_transaction reconcile_on normalized_network trim
    trim_start trim_end is_space codes eq_codes to_lower_case strip_prefix is_hex all_texts
    includes_lower confirm reconcile_transactions reconcile_payload reconcile_response
run = refl

reconcile_replay_protected_sponsor_transaction-IsConfirmed_example :
    (reconcile_replay_protected_sponsor_transaction indexer input ≡ ok (some expected))
    ↔ IsConfirmed indexer input expected
reconcile_replay_protected_sponsor_transaction-IsConfirmed_example =
    reconcile_replay_protected_sponsor_transaction-IsConfirmed indexer input expected
