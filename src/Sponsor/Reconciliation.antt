-- ===== src/Sponsor/Reconciliation.antt =====
-- backend/cloudflare/proof-gateway-worker/src/sponsor-reconciliation.ts: what the indexer says of a
-- sponsor's transaction. A text that is compared after it is put in lower case is the list of its codes.
-- The request to the indexer is a parameter, and its answer is what the code tests of the parsed body.
pub mod Laws
use midnight_buildathons_bac.Prelude.{
  ℕ, zero, suc, ◌+◌, ◌*◌, String, Bool, true, false, ◌&&◌, ◌||◌, not, Option, none, some, List, [],
  ◌∷◌, if◌then◌else◌, leb, ◌==◌, str_eq,
}
use midnight_buildathons_bac.Prelude.Results.{Result, ok, throw, ◌>>=◌, ◌>>◌, require}
use midnight_buildathons_bac.Protocol.Identifier.{trim}
use midnight_buildathons_bac.Managed.Endpoint.{codes, eq_codes}

pub data Network : Type 0 where
  preview preprod : Network

pub record ReconciledSponsorTransaction : Type 0 where
  pub transaction_id : List ℕ
  pub transaction_hash : List ℕ
  pub block_height : ℕ

-- `none` stands for a value of another type: a text, a list of texts, and an object are asked for. The
-- height of a block is `none` when it is not a safe integer from 0 on. The number in the message on a status
-- of HTTP is left out.
pub record IndexerTransaction : Type 0 where
  pub hash : Option String
  pub identifiers : Option (List (Option String))
  pub block : Option (Option ℕ)
  pub transaction_result : Option (Option String)

-- `transactions` is `none` when it is not a list, and one of them when it is not an object.
pub record Payload : Type 0 where
  pub has_errors : Bool
  pub transactions : Option (List (Option IndexerTransaction))

pub record IndexerResponse : Type 0 where
  pub is_ok : Bool
  pub json : Result Payload

pub record ReconciliationInput : Type 0 where
  pub network : Option String
  pub transaction_id : String
  pub transaction_hash : String

-- `toLowerCase`, of the letters of ASCII: no other character becomes one that the tests below accept.
unfoldable pub to_lower_case : List ℕ → List ℕ
to_lower_case [] = []
to_lower_case (c ∷ s) = (if leb b'A' c && leb c b'Z' then c + 32 else c) ∷ to_lower_case s

unfoldable pub normalized_network : Option String → Option Network
normalized_network none = none
normalized_network (some value) =
    let normalized = to_lower_case (codes (trim value)) in
    if eq_codes normalized (codes "preview") || eq_codes normalized (codes "midnight preview")
    then some preview
    else (if eq_codes normalized (codes "preprod") || eq_codes normalized (codes "midnight preprod")
        then some preprod
        else none)

-- `replace(/^0x/iu, '')`
unfoldable pub strip_prefix : List ℕ → List ℕ
strip_prefix (a ∷ b ∷ s) = if a == b'0' && (b == b'x' || b == b'X') then s else a ∷ b ∷ s
strip_prefix s = s

-- [\da-f]
abbrev pub is_hex_code : ℕ → Bool
is_hex_code c = (leb b'0' c && leb c b'9') || (leb b'a' c && leb c b'f')

-- So many digits.
unfoldable pub is_hex : ℕ → List ℕ → Bool
is_hex zero [] = true
is_hex zero (c ∷ s) = false
is_hex (suc n) [] = false
is_hex (suc n) (c ∷ s) = is_hex_code c && is_hex n s

abbrev pub normalized : String → List ℕ
normalized value = to_lower_case (strip_prefix (codes (trim value)))

abbrev pub normalized_hex : String → ℕ → String → Result (List ℕ)
normalized_hex value bytes message =
    require (is_hex (bytes * 2) (normalized value)) message >> ok (normalized value)

abbrev pub put_text : String → Option (List String) → Option (List String)
put_text s none = none
put_text s (some texts) = some (s ∷ texts)

-- The texts of a list when every value of it is one.
unfoldable pub all_texts : List (Option String) → Option (List String)
all_texts [] = some []
all_texts (none ∷ values) = none
all_texts (some s ∷ values) = put_text s (all_texts values)

unfoldable pub includes_lower : List String → List ℕ → Bool
includes_lower [] id = false
includes_lower (s ∷ ss) id = eq_codes (to_lower_case (codes s)) id || includes_lower ss id

-- The values of a transaction that has the types the code asks for.
pub record Typed : Type 0 where
  pub hash : String
  pub identifiers : List String
  pub height : Option ℕ
  pub status : Option String

abbrev pub typed_of :
    Option String → Option (List String) → Option (Option ℕ) → Option (Option String) → Option Typed
typed_of (some hash) (some identifiers) (some height) (some status) =
    some (record { hash = hash; identifiers = identifiers; height = height; status = status })
typed_of _ _ _ _ = none

abbrev pub texts_of : Option (List (Option String)) → Option (List String)
texts_of none = none
texts_of (some values) = all_texts values

abbrev pub typed_transaction : Option IndexerTransaction → Option Typed
typed_transaction none = none
typed_transaction (some transaction) =
    typed_of transaction.hash (texts_of transaction.identifiers) transaction.block
      transaction.transaction_result

abbrev pub is_success : Option String → Bool
is_success none = false
is_success (some status) = str_eq status "SUCCESS"

abbrev pub reconciled : List ℕ → List ℕ → Option ℕ → Result (Option ReconciledSponsorTransaction)
reconciled id hash none = throw "Midnight Indexer reconciliation returned an invalid block height"
reconciled id hash (some height) =
    ok (some (record { transaction_id = id; transaction_hash = hash; block_height = height }))

-- The transaction is the one that was asked for, and it succeeded.
unfoldable pub confirm :
    List ℕ → List ℕ → Option Typed → Result (Option ReconciledSponsorTransaction)
confirm id expected_hash none =
    throw "Midnight Indexer reconciliation returned an invalid transaction"
confirm id expected_hash (some transaction) =
    require (includes_lower transaction.identifiers id)
      "Midnight Indexer reconciliation returned a different transaction identifier"
    >> (normalized_hex transaction.hash 32
          "Indexer transaction hash must be a 32-byte hexadecimal value"
        >>= (λ hash.
            require (eq_codes hash expected_hash)
              "Midnight Indexer reconciliation returned a different transaction hash"
            >> (require (is_success transaction.status)
                  "Midnight Indexer reconciliation found an unsuccessful transaction"
                >> reconciled id hash transaction.height)))

unfoldable pub reconcile_transactions :
    List ℕ
    → List ℕ
    → Option (List (Option IndexerTransaction))
    → Result (Option ReconciledSponsorTransaction)
reconcile_transactions id expected_hash none =
    throw "Midnight Indexer reconciliation returned an invalid transaction list"
reconcile_transactions id expected_hash (some []) = ok none
reconcile_transactions id expected_hash (some (transaction ∷ [])) =
    confirm id expected_hash (typed_transaction transaction)
reconcile_transactions id expected_hash (some (transaction ∷ next ∷ more)) =
    throw "Midnight Indexer reconciliation returned multiple transactions"

unfoldable pub reconcile_payload :
    List ℕ → List ℕ → Payload → Result (Option ReconciledSponsorTransaction)
reconcile_payload id expected_hash payload =
    require (not payload.has_errors) "Midnight Indexer reconciliation returned GraphQL errors"
    >> reconcile_transactions id expected_hash payload.transactions

unfoldable pub reconcile_response :
    List ℕ → List ℕ → IndexerResponse → Result (Option ReconciledSponsorTransaction)
reconcile_response id expected_hash response =
    require response.is_ok "Midnight Indexer reconciliation returned an HTTP error"
    >> (response.json >>= reconcile_payload id expected_hash)

module _ (fetch : Network → List ℕ → Result IndexerResponse) where
  unfoldable pub reconcile_on :
      ReconciliationInput → Option Network → Result (Option ReconciledSponsorTransaction)
  reconcile_on input none = throw "Sponsor reconciliation network is not configured"
  reconcile_on input (some network) =
      normalized_hex input.transaction_id 33
        "Sponsor transaction ID must be a 33-byte hexadecimal value"
      >>= (λ id.
          normalized_hex input.transaction_hash 32
            "Sponsor transaction hash must be a 32-byte hexadecimal value"
          >>= (λ expected_hash. fetch network id >>= reconcile_response id expected_hash))

  -- `none` says that the indexer does not have the transaction.
  unfoldable pub reconcile_replay_protected_sponsor_transaction :
      ReconciliationInput → Result (Option ReconciledSponsorTransaction)
  reconcile_replay_protected_sponsor_transaction input =
      reconcile_on input (normalized_network input.network)
