-- ===== src/Gateway/Device/Session.antt =====
-- The session of backend/cloudflare/proof-gateway-worker/src/device-auth.ts: a signed request uses a
-- challenge.
use Prim.Native.String.{◌++◌ as append}
use midnight_buildathons_bac.Prelude.{
  String, Bool, true, false, ◌&&◌, not, Option, none, some, List, [], ◌∷◌, if◌then◌else◌, ltb, ◌==◌,
  str_eq,
}
use midnight_buildathons_bac.Prelude.Int.{ℤ, pos, ◌+ℤ◌, ◌-ℤ◌, leb_ℤ, div_floor}
use midnight_buildathons_bac.Prelude.Results.{Result, ok, throw, ◌>>=◌}
use midnight_buildathons_bac.Prelude.Tables.{update_where, count_where}
use midnight_buildathons_bac.Gateway.Device.Scope.{
  DeviceScope, scope_text, all_included, sort_scopes, requested_scopes, required_string,
}
use midnight_buildathons_bac.Gateway.Device.Challenge.{
  session_ttl_seconds, timestamp_tolerance_seconds, ActiveDeviceKey, ChallengeRow, SessionRow,
  AuthTables, AuthRuntime, load_active_key, has_challenge_id, AuthAnswer, Fresh, session_issued,
  rejected,
}

-- The elements of the message, each on a line, and the scopes in order on the last one.
unfoldable pub joined_scopes : List DeviceScope → String
joined_scopes [] = ""
joined_scopes (s ∷ []) = scope_text s
joined_scopes (s ∷ t ∷ more) = append (scope_text s) (append " " (joined_scopes (t ∷ more)))

unfoldable pub join_lines : List String → String
join_lines [] = ""
join_lines (s ∷ []) = s
join_lines (s ∷ t ∷ more) = append s (append "\n" (join_lines (t ∷ more)))

unfoldable pub session_canonical_message :
    (device_id key_id challenge_id nonce timestamp : String) → List DeviceScope → String
session_canonical_message device_id key_id challenge_id nonce timestamp scopes = join_lines (
    "VSP-DEVICE-SESSION-V2"
    ∷ "POST"
    ∷ "/auth/session"
    ∷ device_id
    ∷ key_id
    ∷ challenge_id
    ∷ nonce
    ∷ timestamp
    ∷ joined_scopes (sort_scopes scopes)
    ∷ [])

pub record SessionRequest : Type 0 where
  pub device_id : Option String
  pub key_id : Option String
  pub challenge_id : Option String
  pub nonce : Option String
  pub timestamp : Option String
  pub signature : Option String
  pub scopes : Option (List (Option DeviceScope))

pub record SessionClaims : Type 0 where
  pub device_id : String
  pub key_id : String
  pub challenge_id : String
  pub nonce : String
  pub timestamp : String
  pub signature : String
  pub scopes : List DeviceScope

unfoldable pub session_claims : SessionRequest → Result SessionClaims
session_claims request = do
  device_id ← required_string request.device_id 160
  key_id ← required_string request.key_id 160
  challenge_id ← required_string request.challenge_id 160
  nonce ← required_string request.nonce 256
  timestamp ← required_string request.timestamp 64
  signature ← required_string request.signature 256
  scopes ← requested_scopes request.scopes
  ok (record {
    device_id = device_id;
    key_id = key_id;
    challenge_id = challenge_id;
    nonce = nonce;
    timestamp = timestamp;
    signature = signature;
    scopes = scopes;
  })

-- `Number.isFinite(seconds) && Math.abs(now - seconds) <= tolerance`
abbrev pub is_timely : ℤ → Option ℤ → Bool
is_timely now none = false
is_timely now (some at) =
    let seconds = div_floor at 1000 in
    leb_ℤ (now -ℤ seconds) (pos timestamp_tolerance_seconds)
    && leb_ℤ (seconds -ℤ now) (pos timestamp_tolerance_seconds)

abbrev pub is_unused : Option ℤ → Bool
is_unused none = true
is_unused (some t) = false

abbrev pub is_session_id : String → SessionRow → Bool
is_session_id id r = str_eq r.id id

module _ (runtime : AuthRuntime) where
  open runtime use {sha256_base64_url, date_parse, verify}

  -- The challenge that the claims name, open at the time.
  unfoldable pub is_open_for : SessionClaims → ℤ → ChallengeRow → Bool
  is_open_for c now r =
      has_challenge_id c.challenge_id r
      && str_eq r.device_id c.device_id
      && str_eq r.key_id c.key_id
      && str_eq r.nonce_sha256 (sha256_base64_url c.nonce)
      && is_unused r.used_at
      && leb_ℤ now r.expires_at

  unfoldable pub use_challenge : SessionClaims → ℤ → AuthTables → AuthTables
  use_challenge c now t = record t {
    challenges =
        update_where (is_open_for c now) (λ r. record r { used_at = some now }) t.challenges;
  }

  abbrev pub token_of : Fresh → String
  token_of fresh = append fresh.id (append "." fresh.secret)

  abbrev pub new_session : SessionClaims → Fresh → String → SessionRow
  new_session c fresh project_id = record {
    id = fresh.id;
    device_id = c.device_id;
    project_id = project_id;
    key_id = c.key_id;
    token_sha256 = sha256_base64_url (token_of fresh);
    scopes = c.scopes;
    issued_at = fresh.now;
    expires_at = fresh.now +ℤ pos session_ttl_seconds;
    is_revoked = false;
  }

  unfoldable pub insert_session :
      SessionClaims → Fresh → ActiveDeviceKey → AuthTables → AuthTables × AuthAnswer
  insert_session c fresh key t =
      if ltb 0 (count_where (is_session_id fresh.id) t.sessions) then (t, rejected 400) else (
        record t { sessions = new_session c fresh key.project_id ∷ t.sessions },
        session_issued c.challenge_id fresh.id (token_of fresh) c.scopes,
      )

  -- The signature is valid: the challenge is used, and when it was open a session is made.
  unfoldable pub redeem :
      SessionClaims → Fresh → ActiveDeviceKey → AuthTables → AuthTables × AuthAnswer
  redeem c fresh key t =
      if count_where (is_open_for c fresh.now) t.challenges == 1
      then insert_session c fresh key (use_challenge c fresh.now t)
      else (use_challenge c fresh.now t, rejected 401)

  unfoldable pub redeem_verified :
      SessionClaims → Fresh → ActiveDeviceKey → Option Bool → AuthTables → AuthTables × AuthAnswer
  redeem_verified c fresh key none t = (t, rejected 400)
  redeem_verified c fresh key (some false) t = (t, rejected 401)
  redeem_verified c fresh key (some true) t = redeem c fresh key t

  unfoldable pub redeem_with_key :
      SessionClaims → Fresh → Option ActiveDeviceKey → AuthTables → AuthTables × AuthAnswer
  redeem_with_key c fresh none t = (t, rejected 401)
  redeem_with_key c fresh (some key) t =
      if not (all_included key.allowed_scopes c.scopes)
      then (t, rejected 401)
      else redeem_verified c fresh key
          (verify key.public_key c.signature (
            session_canonical_message c.device_id c.key_id c.challenge_id c.nonce c.timestamp
              c.scopes))
          t

  unfoldable pub session_for : Result SessionClaims → Fresh → AuthTables → AuthTables × AuthAnswer
  session_for (throw e) fresh t = (t, rejected 400)
  session_for (ok c) fresh t =
      if not fresh.within_limits
      then (t, rejected 429)
      else (if not (is_timely fresh.now (date_parse c.timestamp))
          then (t, rejected 401)
          else redeem_with_key c fresh (load_active_key t c.device_id c.key_id) t)

  -- The seconds of the clock are read as one: the source reads it three times.
  unfoldable pub session : SessionRequest → Fresh → AuthTables → AuthTables × AuthAnswer
  session request = session_for (session_claims request)
