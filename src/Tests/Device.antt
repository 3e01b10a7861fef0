-- ===== src/Tests/Device.antt =====
-- A device that asks for one challenge and sends its signed request twice, and a request with the token.
use midnight_buildathons_bac.Prelude.{
  ◌≤◌, ◌≡◌, refl, String, Bool, Bool-cases, inl, inr, true, some, none, str_eq, ◌&&◌, List, [], ◌∷◌,
  arith,
}
use Prim.Native.String.{◌++◌ as append}
use midnight_buildathons_bac.Prelude.Int.{pos, ◌+ℤ◌, ◌-ℤ◌, div_floor}
use midnight_buildathons_bac.Protocol.Identifier.{
  trim, trim_start, trim_end, is_space, is_alphanumeric,
}
use midnight_buildathons_bac.Gateway.Device.Token.{has_only, is_uuid_code, is_base64_url_code}
use midnight_buildathons_bac.Prelude.Tables.{count_where}
use midnight_buildathons_bac.Gateway.Device.Scope.{
  proof_request, proof_read, required_string, requested_scopes, every_scope, all_included,
  sort_scopes, unique_after, includes, insert_scope,
}
use midnight_buildathons_bac.Gateway.Device.Challenge.{
  AuthRuntime, AuthTables, DeviceKeyRow, Fresh, ChallengeRequest, session_issued,
  session_ttl_seconds, load_active_key, is_registered,
}
use midnight_buildathons_bac.Gateway.Device.Session.{
  SessionRequest, session, session_for, session_claims, redeem_with_key, redeem_verified, redeem,
  insert_session, is_open_for, use_challenge,
}
use midnight_buildathons_bac.Gateway.Device.Authorize.{DevicePrincipal, authorize_device_request}
use midnight_buildathons_bac.Gateway.Device.Authorize.Laws.{
  IsKeyed, authorized_until, authorize_device_request-session,
}
use midnight_buildathons_bac.Gateway.Device.Replay.{
  Request, ask_challenge, ask_session, sessions_for, sessions_for-once,
}

abbrev runtime : AuthRuntime
runtime = record {
  sha256_base64_url = λ text. text;
  date_parse = λ text. some (pos 1000000);
  verify = λ key signature message. some true;
}

abbrev key : DeviceKeyRow
key = record {
  device_id = "device";
  project_id = "project";
  key_id = "key";
  algorithm = "ES256";
  is_active = true;
  public_key = some "jwk";
  allowed_scopes = some (proof_request ∷ proof_read ∷ []);
}

abbrev tables : AuthTables
tables = record {
  devices = record { id = "device"; project_id = "project"; is_registered = true } ∷ [];
  keys = key ∷ [];
  challenges = [];
  sessions = [];
}

abbrev fresh : String → Fresh
fresh id = record { within_limits = true; id = id; secret = "nonce"; now = pos 1000 }

abbrev asked : ChallengeRequest
asked = record { device_id = some "device"; key_id = some "key" }

abbrev signed : SessionRequest
signed = record {
  device_id = some "device";
  key_id = some "key";
  challenge_id = some "c1";
  nonce = some "nonce";
  timestamp = some "now";
  signature = some "signature";
  scopes = some (some proof_read ∷ some proof_request ∷ some proof_read ∷ []);
}

abbrev requests : List Request
requests =
    ask_challenge asked (fresh "c1")
    ∷ ask_session signed (fresh "s1")
    ∷ ask_session signed (fresh "s2")
    ∷ []

sessions_for-once_example : sessions_for runtime "c1" tables requests ≤ 1
sessions_for-once_example = sessions_for-once runtime "c1" tables requests (omega arith)

-- One row satisfies a condition at most once.
at_most_one : (p : DeviceKeyRow → Bool) → count_where p (key ∷ []) ≤ 1
at_most_one p = elim (Bool-cases (p key)) [
  | inl here ↦ rw here (omega arith)
  | inr other ↦ rw other (omega arith)
]

one_key : IsKeyed tables.keys
one_key device_id key_id = at_most_one (λ k. str_eq k.key_id key_id && str_eq k.device_id device_id)

abbrev session_uuid : String
session_uuid = "0f8fad5b-d9cb-469f-a165-70867728950e"

abbrev session_secret : String
session_secret = "abcdefghijklmnopqrstuvwxyzABCDEFGHIJKLMN-_0"

abbrev issued_at_noon : Fresh
issued_at_noon = record {
  within_limits = true;
  id = session_uuid;
  secret = session_secret;
  now = pos 1000;
}

abbrev with_challenge : AuthTables
with_challenge = record tables {
  challenges =
      record {
        id = "c1";
        device_id = "device";
        key_id = "key";
        nonce_sha256 = "nonce";
        created_at = pos 900;
        expires_at = pos 1200;
        used_at = none;
      }
      ∷ [];
}

abbrev after : AuthTables
after = (session runtime signed issued_at_noon with_challenge).0

abbrev token : String
token = append session_uuid (append "." session_secret)

issued :
    session runtime signed issued_at_noon with_challenge
    ≡ (after, session_issued "c1" session_uuid token (proof_read ∷ proof_request ∷ []))
unfolding session session_for session_claims required_string trim trim_start trim_end is_space
    requested_scopes every_scope ◌-ℤ◌ ◌+ℤ◌ div_floor redeem_with_key load_active_key is_registered
    all_included sort_scopes unique_after includes insert_scope redeem_verified redeem
    insert_session is_open_for use_challenge
issued = refl

id_has_form : has_only is_uuid_code 36 session_uuid ≡ true
unfolding has_only
id_has_form = refl

secret_has_form : has_only is_base64_url_code 43 session_secret ≡ true
unfolding has_only is_base64_url_code is_alphanumeric
secret_has_form = refl

authorize_device_request-session_example :
    (p : DevicePrincipal) × (p.session_id ≡ session_uuid)
    × (p.scopes ≡ proof_read ∷ proof_request ∷ [])
    × (authorize_device_request runtime after (some token) proof_request (pos 5000)
        ≡ authorized_until (pos 1000 +ℤ pos session_ttl_seconds) p proof_request (pos 5000))
authorize_device_request-session_example =
    authorize_device_request-session runtime signed issued_at_noon with_challenge proof_request
      (pos 5000) one_key id_has_form secret_has_form issued
