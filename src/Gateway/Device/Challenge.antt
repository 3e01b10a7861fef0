-- ===== src/Gateway/Device/Challenge.antt =====
-- The keys and the challenge of backend/cloudflare/proof-gateway-worker/src/device-auth.ts. A request is
-- the fields of its body; the digest and the test of a signature are parameters, the clock, the limiter
-- and fresh identifiers are arguments. An INSERT with an identifier that is there already throws.
use midnight_buildathons_bac.Prelude.{
  ℕ, String, Bool, ◌&&◌, ◌||◌, not, Option, none, some, false, List, [], ◌∷◌, if◌then◌else◌, ltb,
  str_eq,
}
use midnight_buildathons_bac.Prelude.Int.{ℤ, pos, ◌+ℤ◌}
use midnight_buildathons_bac.Prelude.Results.{Result, ok, throw, ◌>>=◌}
use midnight_buildathons_bac.Prelude.Tables.{count_where, find_where}
use midnight_buildathons_bac.Gateway.Device.Scope.{DeviceScope, required_string}

abbrev pub challenge_ttl_seconds : ℕ
challenge_ttl_seconds = 300

abbrev pub session_ttl_seconds : ℕ
session_ttl_seconds = 86_400

abbrev pub timestamp_tolerance_seconds : ℕ
timestamp_tolerance_seconds = 300

-- A row of device_auth_keys; `none` stands for a key or scopes that are unusable.
pub record DeviceKeyRow : Type 0 where
  pub device_id : String
  pub project_id : String
  pub key_id : String
  pub algorithm : String
  pub is_active : Bool
  pub public_key : Option String
  pub allowed_scopes : Option (List DeviceScope)

pub record ActiveDeviceKey : Type 0 where
  pub project_id : String
  pub public_key : String
  pub allowed_scopes : List DeviceScope

pub record ChallengeRow : Type 0 where
  pub id : String
  pub device_id : String
  pub key_id : String
  pub nonce_sha256 : String
  pub created_at : ℤ
  pub expires_at : ℤ
  pub used_at : Option ℤ

pub record SessionRow : Type 0 where
  pub id : String
  pub device_id : String
  pub project_id : String
  pub key_id : String
  pub token_sha256 : String
  pub scopes : List DeviceScope
  pub issued_at : ℤ
  pub expires_at : ℤ
  pub is_revoked : Bool

-- A row of devices.
pub record Device : Type 0 where
  pub id : String
  pub project_id : String
  pub is_registered : Bool

pub record AuthTables : Type 0 where
  pub devices : List Device
  pub keys : List DeviceKeyRow
  pub challenges : List ChallengeRow
  pub sessions : List SessionRow

-- What the code calls: the digest in base64url, Date.parse, and the test of a signature of a message by a
-- key, which is `none` when it throws.
pub record AuthRuntime : Type 0 where
  pub sha256_base64_url : String → String
  pub date_parse : String → Option ℤ
  pub verify : String → String → String → Option Bool

-- The device is registered and has all the columns that the queries ask for.
unfoldable pub is_registered : List Device → String → String → Bool
is_registered [] id project_id = false
is_registered (d ∷ ds) id project_id =
    (str_eq d.id id && str_eq d.project_id project_id && d.is_registered)
    || is_registered ds id project_id

abbrev pub is_key : List Device → String → String → DeviceKeyRow → Bool
is_key devices device_id key_id k =
    str_eq k.device_id device_id
    && str_eq k.key_id key_id
    && k.is_active
    && is_registered devices k.device_id k.project_id

abbrev pub usable_key : String → Option String → Option (List DeviceScope) → Option ActiveDeviceKey
usable_key project_id (some public_key) (some scopes) =
    some (record { project_id = project_id; public_key = public_key; allowed_scopes = scopes })
usable_key project_id _ _ = none

abbrev pub key_of_row : Option DeviceKeyRow → Option ActiveDeviceKey
key_of_row none = none
key_of_row (some k) =
    if str_eq k.algorithm "ES256"
    then usable_key k.project_id k.public_key k.allowed_scopes
    else none

unfoldable pub load_active_key : AuthTables → String → String → Option ActiveDeviceKey
load_active_key t device_id key_id =
    key_of_row (find_where (is_key t.devices device_id key_id) t.keys)

abbrev pub has_challenge_id : String → ChallengeRow → Bool
has_challenge_id id r = str_eq r.id id

pub record ChallengeRequest : Type 0 where
  pub device_id : Option String
  pub key_id : Option String

-- The answer's status, with what it names when it is 200.
pub data AuthAnswer : Type 0 where
  challenge_issued : String → AuthAnswer
  session_issued : (challenge_id session_id token : String) → List DeviceScope → AuthAnswer
  rejected : ℕ → AuthAnswer

-- The limiter's answer, the fresh identifier and nonce, and the time in seconds.
pub record Fresh : Type 0 where
  pub within_limits : Bool
  pub id : String
  pub secret : String
  pub now : ℤ

module _ (runtime : AuthRuntime) where
  open runtime use {sha256_base64_url, date_parse, verify}

  abbrev pub new_challenge : String → String → Fresh → ChallengeRow
  new_challenge device_id key_id fresh = record {
    id = fresh.id;
    device_id = device_id;
    key_id = key_id;
    nonce_sha256 = sha256_base64_url fresh.secret;
    created_at = fresh.now;
    expires_at = fresh.now +ℤ pos challenge_ttl_seconds;
    used_at = none;
  }

  unfoldable pub insert_challenge :
      String → String → Fresh → Option ActiveDeviceKey → AuthTables → AuthTables × AuthAnswer
  insert_challenge device_id key_id fresh none t = (t, rejected 401)
  insert_challenge device_id key_id fresh (some key) t =
      if ltb 0 (count_where (has_challenge_id fresh.id) t.challenges) then (t, rejected 400) else (
        record t { challenges = new_challenge device_id key_id fresh ∷ t.challenges },
        challenge_issued fresh.id,
      )

  unfoldable pub challenge_for :
      Result (String × String) → Fresh → AuthTables → AuthTables × AuthAnswer
  challenge_for (throw e) fresh t = (t, rejected 400)
  challenge_for (ok (device_id, key_id)) fresh t =
      if not fresh.within_limits
      then (t, rejected 429)
      else insert_challenge device_id key_id fresh (load_active_key t device_id key_id) t

  unfoldable pub challenge : ChallengeRequest → Fresh → AuthTables → AuthTables × AuthAnswer
  challenge request = challenge_for (do
    device_id ← required_string request.device_id 160
    key_id ← required_string request.key_id 160
    ok (device_id, key_id))
