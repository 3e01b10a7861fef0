-- ===== src/Gateway/Device/Authorize.antt =====
-- verifySessionToken and authorizeDeviceRequest of
-- backend/cloudflare/proof-gateway-worker/src/device-auth.ts. The request is `none` when its header does
-- not start with `Bearer `, and else the text after that without the spaces around it. Digests are
-- compared as the texts of their bytes; stored scopes are readable; a database that fails is left out.
pub mod Laws
use midnight_buildathons_bac.Prelude.{
  ℕ, String, Bool, true, false, ◌&&◌, ◌||◌, not, Option, none, some, List, if◌then◌else◌, str_eq,
}
use midnight_buildathons_bac.Prelude.Int.{ℤ, leb_ℤ}
use midnight_buildathons_bac.Prelude.Tables.{find_where}
use midnight_buildathons_bac.Gateway.Device.Scope.{DeviceScope, includes}
use midnight_buildathons_bac.Gateway.Device.Challenge.{
  AuthRuntime, AuthTables, DeviceKeyRow, SessionRow, is_registered,
}
use midnight_buildathons_bac.Gateway.Device.Session.{is_session_id}
use midnight_buildathons_bac.Gateway.Device.Token.{session_id_from_token}

pub record DevicePrincipal : Type 0 where
  pub device_id : String
  pub project_id : String
  pub key_id : String
  pub scopes : List DeviceScope
  pub session_id : String
  pub issued_at : ℤ
  pub expires_at : ℤ

pub data AuthorizationResult : Type 0 where
  granted : DevicePrincipal → AuthorizationResult
  refused : ℕ → AuthorizationResult

abbrev pub principal_of : SessionRow → DevicePrincipal
principal_of s = record {
  device_id = s.device_id;
  project_id = s.project_id;
  key_id = s.key_id;
  scopes = s.scopes;
  session_id = s.id;
  issued_at = s.issued_at;
  expires_at = s.expires_at;
}

-- `k.key_id = s.key_id AND k.device_id = s.device_id`
abbrev pub is_key_of : SessionRow → DeviceKeyRow → Bool
is_key_of s k = str_eq k.key_id s.key_id && str_eq k.device_id s.device_id

abbrev pub grant : DeviceScope → Option DevicePrincipal → AuthorizationResult
grant required none = refused 401
grant required (some principal) =
    if includes principal.scopes required then granted principal else refused 403

module _ (runtime : AuthRuntime) where
  open runtime use {sha256_base64_url}

  -- The session's row, joined with its key and with its device.
  unfoldable pub verify_joined :
      AuthTables → String → ℤ → SessionRow → Option DeviceKeyRow → Option DevicePrincipal
  verify_joined t token now s none = none
  verify_joined t token now s (some k) =
      if not (is_registered t.devices s.device_id s.project_id)
        || s.is_revoked
        || leb_ℤ s.expires_at now
        || not k.is_active
        || not (str_eq (sha256_base64_url token) s.token_sha256)
      then none
      else some (principal_of s)

  unfoldable pub verify_session :
      AuthTables → String → ℤ → Option SessionRow → Option DevicePrincipal
  verify_session t token now none = none
  verify_session t token now (some s) =
      verify_joined t token now s (find_where (is_key_of s) t.keys)

  unfoldable pub verify_with_id : AuthTables → String → ℤ → Option String → Option DevicePrincipal
  verify_with_id t token now none = none
  verify_with_id t token now (some id) =
      verify_session t token now (find_where (is_session_id id) t.sessions)

  unfoldable pub verify_session_token : AuthTables → String → ℤ → Option DevicePrincipal
  verify_session_token t token now = verify_with_id t token now (session_id_from_token token)

  unfoldable pub authorize_device_request :
      AuthTables → Option String → DeviceScope → ℤ → AuthorizationResult
  authorize_device_request t none required now = refused 401
  authorize_device_request t (some token) required now =
      grant required (verify_session_token t token now)
