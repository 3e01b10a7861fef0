-- ===== src/Sponsor/Reconciliation/Laws.antt =====
-- What a sponsor's transaction that is reconciled says of the answer of the indexer.
use midnight_buildathons_bac.Prelude.{
  ℕ, ◌*◌, ◌≡◌, refl, sym, ap, ◌∙◌, String, Bool, true, false, not, Option, none, some, List, [],
  ◌∷◌, ◌↔◌, arith, inl, inr, Option-cases, eq_iff,
}
use midnight_buildathons_bac.Prelude.Results.{Result, ok, throw, ◌>>=◌, require-eq-ok, ok-injective}
use midnight_buildathons_bac.Managed.Endpoint.{eq_codes}
use midnight_buildathons_bac.Sponsor.Reconciliation.{
  Network, ReconciledSponsorTransaction, IndexerTransaction, Payload, IndexerResponse,
  ReconciliationInput, normalized_network, is_hex, normalized, normalized_hex, includes_lower,
  Typed, typed_transaction, is_success, reconciled, confirm, reconcile_transactions,
  reconcile_payload, reconcile_response, reconcile_on,
  reconcile_replay_protected_sponsor_transaction,
}

bind-eq-ok {κ μ} :
    {Value : Type κ} {Next : Type μ} (r : Result Value) (next : Value → Result Next) {x : Next}
    → (r >>= next) ≡ ok x
    → (v : Value) × (r ≡ ok v) × (next v ≡ ok x)
bind-eq-ok (throw message) next h = cc
bind-eq-ok (ok v) next h = (v, refl, h)

normalized_hex-eq-ok :
    (value : String) (bytes : ℕ) (message : String) {hex : List ℕ}
    → normalized_hex value bytes message ≡ ok hex
    → (is_hex (bytes * 2) (normalized value) ≡ true) × (normalized value ≡ hex)
normalized_hex-eq-ok value bytes message h =
    let (formed, same) = require-eq-ok _ message (ok (normalized value)) h in
    (formed, ok-injective (normalized value) _ same)

eq_codes-eq : (s t : List ℕ) → eq_codes s t ≡ true → s ≡ t
unfolding eq_codes
eq_codes-eq [] [] h = refl
eq_codes-eq [] (d ∷ t) h = cc
eq_codes-eq (c ∷ s) [] h = cc
eq_codes-eq (c ∷ s) (d ∷ t) h =
    let first : c ≡ d = ground arith in
    let rest : eq_codes s t ≡ true = ground arith in let more = eq_codes-eq s t rest in cc

eq_codes_refl : (s : List ℕ) → eq_codes s s ≡ true
unfolding eq_codes
eq_codes_refl [] = refl
eq_codes_refl (c ∷ s) = let rest = eq_codes_refl s in ground arith

-- The transaction has the identifier and the hash, succeeded, and stands in the block of the height.
pub record IsFound (id expected_hash : List ℕ) (transaction : Typed)
    (r : ReconciledSponsorTransaction) : Type 0 where
  pub identified : includes_lower transaction.identifiers id ≡ true
  pub id_kept : r.transaction_id ≡ id
  pub has_hash : normalized transaction.hash ≡ expected_hash
  pub hash_formed : is_hex 64 (normalized transaction.hash) ≡ true
  pub hash_kept : r.transaction_hash ≡ expected_hash
  pub succeeded : transaction.status ≡ some "SUCCESS"
  pub at_height : transaction.height ≡ some r.block_height

is_success-eq : (status : Option String) → is_success status ≡ true → status ≡ some "SUCCESS"
is_success-eq none h = cc
is_success-eq (some s) h = ap some ((eq_iff s "SUCCESS").0 h)

reconciled-eq-ok :
    (id hash : List ℕ) (height : Option ℕ) {r : ReconciledSponsorTransaction}
    → reconciled id hash height ≡ ok (some r)
    → (r.transaction_id ≡ id) × (r.transaction_hash ≡ hash) × (height ≡ some r.block_height)
reconciled-eq-ok id hash none h = cc
reconciled-eq-ok id hash (some n) {r} h =
    let same : record { transaction_id = id; transaction_hash = hash; block_height = n } ≡ r = cc in
    (
      sym (ap (λ x. x.transaction_id) same),
      sym (ap (λ x. x.transaction_hash) same),
      ap (λ x. some (x.block_height)) same,
    )

confirm-IsFound :
    (id expected_hash : List ℕ) (transaction : Typed) {r : ReconciledSponsorTransaction}
    → confirm id expected_hash (some transaction) ≡ ok (some r)
    → IsFound id expected_hash transaction r
unfolding confirm
confirm-IsFound id expected_hash transaction {r} h =
    let (identified, hashed) = require-eq-ok _ _ _ h in
    let (hash, formed, rest) = bind-eq-ok _ _ hashed in
    let (is_formed, is_hash) = normalized_hex-eq-ok transaction.hash 32 _ formed in
    let (same, ended) = require-eq-ok _ _ _ rest in
    let (success, last) = require-eq-ok _ _ _ ended in
    let (id_kept, hash_kept, at_height) = reconciled-eq-ok id hash transaction.height last in
    let expected = eq_codes-eq hash expected_hash same in
    record {
      identified = identified;
      id_kept = id_kept;
      has_hash = is_hash ∙ expected;
      hash_formed = is_formed;
      hash_kept = hash_kept ∙ expected;
      succeeded = is_success-eq transaction.status success;
      at_height = at_height;
    }

IsFound-confirm :
    (id expected_hash : List ℕ) (transaction : Typed) {r : ReconciledSponsorTransaction}
    → IsFound id expected_hash transaction r
    → confirm id expected_hash (some transaction) ≡ ok (some r)
unfolding confirm
IsFound-confirm id expected_hash transaction {r} f =
    rw
      (
        f.identified,
        f.hash_formed,
        f.has_hash,
        eq_codes_refl expected_hash,
        f.succeeded,
        f.at_height,
      )
      (ap
          (λ id. ok (
            some (record {
              transaction_id = id;
              transaction_hash = expected_hash;
              block_height = r.block_height;
            })))
          (sym f.id_kept)
        ∙ ap
            (λ hash. ok (
              some (record {
                transaction_id = r.transaction_id;
                transaction_hash = hash;
                block_height = r.block_height;
              })))
            (sym f.hash_kept))

-- The one transaction of an answer without errors.
pub record IsAnswered (id expected_hash : List ℕ) (response : IndexerResponse)
    (r : ReconciledSponsorTransaction) : Type 0 where
  pub payload : Payload
  pub entry : Option IndexerTransaction
  pub transaction : Typed
  pub received : response.is_ok ≡ true
  pub read : response.json ≡ ok payload
  pub no_errors : payload.has_errors ≡ false
  pub alone : payload.transactions ≡ some (entry ∷ [])
  pub typed : typed_transaction entry ≡ some transaction
  pub found : IsFound id expected_hash transaction r

-- The network is known, the identifier and the hash that are asked for are hexadecimal of 33 and of 32
-- bytes, and the network's indexer answers the identifier with that transaction.
pub record IsConfirmed (fetch : Network → List ℕ → Result IndexerResponse)
    (input : ReconciliationInput) (r : ReconciledSponsorTransaction) : Type 0 where
  pub network : Network
  pub response : IndexerResponse
  pub configured : normalized_network input.network ≡ some network
  pub id_formed : is_hex 66 (normalized input.transaction_id) ≡ true
  pub hash_formed : is_hex 64 (normalized input.transaction_hash) ≡ true
  pub asked : fetch network (normalized input.transaction_id) ≡ ok response
  pub answered :
      IsAnswered (normalized input.transaction_id) (normalized input.transaction_hash) response r

not-true : (b : Bool) → not b ≡ true → b ≡ false
not-true true h = cc
not-true false h = refl

module _ (id expected_hash : List ℕ) {r : ReconciledSponsorTransaction} where
  -- What an answer with these transactions says.
  transactions-alone :
      (transactions : Option (List (Option IndexerTransaction)))
      → reconcile_transactions id expected_hash transactions ≡ ok (some r)
      → (entry : Option IndexerTransaction) × (transaction : Typed) × (transactions
          ≡ some (entry ∷ []))
        × (typed_transaction entry ≡ some transaction)
        × IsFound id expected_hash transaction r
  unfolding reconcile_transactions confirm
  transactions-alone none h = cc
  transactions-alone (some []) h = cc
  transactions-alone (some (a ∷ b ∷ more)) h = cc
  transactions-alone (some (entry ∷ [])) h = elim (Option-cases (typed_transaction entry)) [
    | inl untyped ↦ let e = rw untyped at h in cc
    | inr (transaction, typed) ↦ (
      entry,
      transaction,
      refl,
      typed,
      confirm-IsFound id expected_hash transaction (rw typed at h),
    )
  ]

  response-IsAnswered :
      (response : IndexerResponse)
      → reconcile_response id expected_hash response ≡ ok (some r)
      → IsAnswered id expected_hash response r
  unfolding reconcile_response reconcile_payload
  response-IsAnswered response h =
      let (received, parsed) = require-eq-ok _ _ _ h in
      let (payload, read, listed) = bind-eq-ok _ _ parsed in
      let (no_errors, rest) = require-eq-ok _ _ _ listed in
      let (entry, transaction, alone, typed, found) =
        transactions-alone payload.transactions rest in
      record {
        payload = payload;
        entry = entry;
        transaction = transaction;
        received = received;
        read = read;
        no_errors = not-true payload.has_errors no_errors;
        alone = alone;
        typed = typed;
        found = found;
      }

  IsAnswered-response :
      (response : IndexerResponse)
      → IsAnswered id expected_hash response r
      → reconcile_response id expected_hash response ≡ ok (some r)
  unfolding reconcile_response reconcile_payload reconcile_transactions
  IsAnswered-response response a =
      rw (a.received, a.read, a.no_errors, a.alone, a.typed)
        (IsFound-confirm id expected_hash a.transaction a.found)

module _ (fetch : Network → List ℕ → Result IndexerResponse) where
  -- The result is a transaction exactly when the network is known, the identifier and the hash of the
  -- input are hexadecimal of 33 and of 32 bytes once trimmed, without `0x` and in lower case, and the
  -- network's indexer answers without errors with one transaction, which has that identifier and that
  -- hash and status SUCCESS; the result is the identifier, the hash and the height of its block.
  pub reconcile_replay_protected_sponsor_transaction-IsConfirmed :
      (input : ReconciliationInput) (r : ReconciledSponsorTransaction)
      → (reconcile_replay_protected_sponsor_transaction fetch input ≡ ok (some r))
        ↔ IsConfirmed fetch input r
  unfolding reconcile_replay_protected_sponsor_transaction reconcile_on
  reconcile_replay_protected_sponsor_transaction-IsConfirmed input r = (
    (λ h. elim (Option-cases (normalized_network input.network)) [
      | inl unknown ↦ let e = rw unknown at h in cc
      | inr (network, configured) ↦
          let (id, id_read, hashed) = bind-eq-ok _ _ (rw configured at h) in
          let (id_formed, is_id) = normalized_hex-eq-ok input.transaction_id 33 _ id_read in
          let (hash, hash_read, asked) = bind-eq-ok _ _ hashed in
          let (hash_formed, is_hash) = normalized_hex-eq-ok input.transaction_hash 32 _ hash_read in
          let (response, fetched, answered) = bind-eq-ok _ _ asked in
          record {
            network = network;
            response = response;
            configured = configured;
            id_formed = id_formed;
            hash_formed = hash_formed;
            asked = ap (fetch network) is_id ∙ fetched;
            answered = response-IsAnswered _ _ response (rw (is_id, is_hash) answered);
          }
    ]),
    (λ c.
        rw (c.configured, c.id_formed, c.hash_formed, c.asked)
          (IsAnswered-response _ _ c.response c.answered)),
  )
