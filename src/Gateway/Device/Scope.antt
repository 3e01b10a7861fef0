-- ===== src/Gateway/Device/Scope.antt =====
-- DeviceScope, requestedScopes and requiredString of
-- backend/cloudflare/proof-gateway-worker/src/device-auth.ts. A field of a body is `none` when it has
-- another type; an element of a list of scopes is `none` when it is no supported scope.
use Prim.Native.String.{count as characters}
use midnight_buildathons_bac.Prelude.{
  ℕ, String, Bool, true, false, ◌&&◌, ◌||◌, not, Option, none, some, List, [], ◌∷◌, if◌then◌else◌,
  leb, ◌==◌, str_eq, length,
}
use midnight_buildathons_bac.Prelude.Results.{Result, ok, throw, ◌>>=◌, ◌>>◌, require}
use midnight_buildathons_bac.Protocol.Identifier.{trim}

pub data DeviceScope : Type 0 where
  measurement_write anomaly_write proof_request proof_read proof_generate : DeviceScope
  transaction_submit configuration_read device_status : DeviceScope

-- The place of a scope's text in the order of texts.
abbrev pub rank : DeviceScope → ℕ
rank anomaly_write = 0
rank configuration_read = 1
rank device_status = 2
rank measurement_write = 3
rank proof_generate = 4
rank proof_read = 5
rank proof_request = 6
rank transaction_submit = 7

abbrev pub scope_text : DeviceScope → String
scope_text measurement_write = "measurement:write"
scope_text anomaly_write = "anomaly:write"
scope_text proof_request = "proof:request"
scope_text proof_read = "proof:read"
scope_text proof_generate = "proof:generate"
scope_text transaction_submit = "transaction:submit"
scope_text configuration_read = "configuration:read"
scope_text device_status = "device:status"

-- `scopes.includes(scope)`
unfoldable pub includes : List DeviceScope → DeviceScope → Bool
includes [] s = false
includes (x ∷ xs) s = rank x == rank s || includes xs s

unfoldable pub all_included : List DeviceScope → List DeviceScope → Bool
all_included allowed [] = true
all_included allowed (x ∷ xs) = includes allowed x && all_included allowed xs

-- `new Set(scopes)`: the scopes not yet seen, in their order.
unfoldable pub unique_after : List DeviceScope → List DeviceScope → List DeviceScope
unique_after seen [] = []
unique_after seen (x ∷ xs) =
    let rest = unique_after (x ∷ seen) xs in if includes seen x then rest else x ∷ rest

unfoldable pub insert_scope : DeviceScope → List DeviceScope → List DeviceScope
insert_scope s [] = s ∷ []
insert_scope s (x ∷ xs) =
    let rest = insert_scope s xs in if leb (rank s) (rank x) then s ∷ x ∷ xs else x ∷ rest

unfoldable pub sort_scopes : List DeviceScope → List DeviceScope
sort_scopes [] = []
sort_scopes (x ∷ xs) = insert_scope x (sort_scopes xs)

-- The elements, when each is a supported scope.
unfoldable pub every_scope : List (Option DeviceScope) → Result (List DeviceScope)
every_scope [] = ok []
every_scope (none ∷ xs) = throw "requestedScopes must contain supported scopes"
every_scope (some s ∷ xs) = do rest ← every_scope xs; ok (s ∷ rest)

unfoldable pub requested_scopes : Option (List (Option DeviceScope)) → Result (List DeviceScope)
requested_scopes none = throw "requestedScopes must contain supported scopes"
requested_scopes (some elements) = do
  require (leb 1 (length elements) && leb (length elements) 8)
      "requestedScopes must contain supported scopes"
  scopes ← every_scope elements
  ok (sort_scopes (unique_after [] scopes))

-- The message names the field and is left out; the length is in characters.
unfoldable pub required_string : Option String → ℕ → Result String
required_string none most = throw "must be a non-empty string"
required_string (some value) most = do
  require (not (str_eq (trim value) "") && leb (characters value) most) "must be a non-empty string"
  ok (trim value)
