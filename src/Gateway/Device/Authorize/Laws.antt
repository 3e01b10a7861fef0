-- ===== src/Gateway/Device/Authorize/Laws.antt =====
-- A session of backend/cloudflare/proof-gateway-worker/src/device-auth.ts that was made, and the requests
-- with its token.
use midnight_buildathons_bac.Prelude.{
  ℕ, ◌≤◌, ◌≡◌, ◌⊎◌, refl, sym, ap, ◌∙◌, subst, String, Bool, true, false, ◌&&◌, ◌||◌, not, Option,
  none, some, List, ◌∷◌, arith, inl, inr, Bool-cases, Option-cases, if◌then◌else◌, ltb, ◌==◌,
  str_eq, eq_iff,
}
use midnight_buildathons_bac.Prelude.Int.{ℤ, pos, ◌+ℤ◌, leb_ℤ}
use midnight_buildathons_bac.Prelude.Results.{Result, ok, throw}
use midnight_buildathons_bac.Prelude.Tables.{count_where, find_where, find_holds, find_unique}
use midnight_buildathons_bac.Gateway.Device.Scope.{DeviceScope, includes, all_included}
use midnight_buildathons_bac.Gateway.Device.Challenge.{
  AuthRuntime, AuthTables, AuthAnswer, session_issued, rejected, ActiveDeviceKey, DeviceKeyRow,
  Fresh, SessionRow, is_registered, is_key, key_of_row, usable_key, load_active_key,
  session_ttl_seconds,
}
use midnight_buildathons_bac.Gateway.Device.Session.{
  SessionClaims, SessionRequest, session_claims, is_timely, use_challenge, token_of, new_session,
  insert_session, redeem, redeem_verified, redeem_with_key, session_for, session, is_session_id,
  is_open_for,
}
use midnight_buildathons_bac.Gateway.Device.Token.{
  is_uuid_code, is_base64_url_code, has_only, session_id_from_token_lem,
}
use midnight_buildathons_bac.Gateway.Device.Authorize.{
  DevicePrincipal, AuthorizationResult, granted, refused, principal_of, is_key_of, verify_joined,
  verify_session, verify_with_id, verify_session_token, grant, authorize_device_request,
}
use text.Mathlib.TextPositions.{eq_refl}

-- The primary key of device_auth_keys: an identifier names at most one key of a device.
abbrev pub IsKeyed : List DeviceKeyRow → Type 0
IsKeyed keys =
    (device_id key_id : String)
    → count_where (λ k. str_eq k.key_id key_id && str_eq k.device_id device_id) keys ≤ 1

module _ (runtime : AuthRuntime) (fresh : Fresh) (t : AuthTables) where
  -- What is known of a call that answered with a session.
  record IsIssued (done : AuthTables × AuthAnswer) : Type 0 where
    claims : SessionClaims
    key : ActiveDeviceKey
    loaded : load_active_key t claims.device_id claims.key_id ≡ some key
    keys_kept : done.0.keys ≡ t.keys
    devices_kept : done.0.devices ≡ t.devices
    added :
        (rest : List SessionRow) × (done.0.sessions
          ≡ new_session runtime claims fresh key.project_id ∷ rest)
    answered :
        done.1 ≡ session_issued claims.challenge_id fresh.id (token_of runtime fresh) claims.scopes

  abbrev Or : AuthTables × AuthAnswer → Type 0
  Or done = IsIssued done ⊎ ((status : ℕ) × (done.1 ≡ rejected status))

  if-Or : (b : Bool) (x y : AuthTables × AuthAnswer) → Or x → Or y → Or (if b then x else y)
  if-Or true x y p q = p
  if-Or false x y p q = q

  module _ (c : SessionClaims) where
    redeem-Or :
        (key : ActiveDeviceKey)
        → load_active_key t c.device_id c.key_id ≡ some key
        → Or (redeem runtime c fresh key t)
    unfolding redeem insert_session use_challenge
    redeem-Or key loaded =
        if-Or (count_where (is_open_for runtime c fresh.now) t.challenges == 1) _ _
          (if-Or (ltb 0 (count_where (is_session_id fresh.id) t.sessions)) _ _ (inr (400, refl)) (
            inl (record {
              claims = c;
              key = key;
              loaded = loaded;
              keys_kept = refl;
              devices_kept = refl;
              added = (t.sessions, refl);
              answered = refl;
            })))
          (inr (401, refl))

    verified-Or :
        (key : ActiveDeviceKey) (valid : Option Bool)
        → load_active_key t c.device_id c.key_id ≡ some key
        → Or (redeem_verified runtime c fresh key valid t)
    unfolding redeem_verified
    verified-Or key none loaded = inr (400, refl)
    verified-Or key (some false) loaded = inr (401, refl)
    verified-Or key (some true) loaded = redeem-Or key loaded

    with_key-Or :
        (key : Option ActiveDeviceKey)
        → load_active_key t c.device_id c.key_id ≡ key
        → Or (redeem_with_key runtime c fresh key t)
    unfolding redeem_with_key
    with_key-Or none loaded = inr (401, refl)
    with_key-Or (some key) loaded =
        if-Or (not (all_included key.allowed_scopes c.scopes)) _ _ (inr (401, refl))
          (verified-Or key _ loaded)

  session_for-Or : (claims : Result SessionClaims) → Or (session_for runtime claims fresh t)
  unfolding session_for
  session_for-Or (throw e) = inr (400, refl)
  session_for-Or (ok c) = if-Or (not fresh.within_limits) _ _ (inr (429, refl)) (
      if-Or (not (is_timely fresh.now (runtime.date_parse c.timestamp))) _ _ (inr (401, refl))
        (with_key-Or c (load_active_key t c.device_id c.key_id) refl))

-- A key in use is a row of the table, of a device that is registered.
record IsInUse (t : AuthTables) (device_id key_id : String) (key : ActiveDeviceKey) : Type 0 where
  row : DeviceKeyRow
  found : find_where (is_key t.devices device_id key_id) t.keys ≡ some row
  project_kept : key.project_id ≡ row.project_id

usable_key-project :
    (project_id : String) (jwk : Option String) (scopes : Option (List DeviceScope))
    {key : ActiveDeviceKey}
    → usable_key project_id jwk scopes ≡ some key
    → key.project_id ≡ project_id
usable_key-project project_id none scopes h = cc
usable_key-project project_id (some jwk) none h = cc
usable_key-project project_id (some jwk) (some scopes) {key} h =
    let same : record { project_id = project_id; public_key = jwk; allowed_scopes = scopes } ≡ key =
      cc in
    sym (ap (λ k. k.project_id) same)

key_of_row-project :
    (row : DeviceKeyRow) {key : ActiveDeviceKey}
    → key_of_row (some row) ≡ some key
    → key.project_id ≡ row.project_id
key_of_row-project row h = elim (Bool-cases (str_eq row.algorithm "ES256")) [
  | inl usual ↦ usable_key-project row.project_id row.public_key row.allowed_scopes (rw usual at h)
  | inr other ↦ let e = rw other at h in cc
]

load_active_key-IsInUse :
    (t : AuthTables) (device_id key_id : String) {key : ActiveDeviceKey}
    → load_active_key t device_id key_id ≡ some key
    → IsInUse t device_id key_id key
unfolding load_active_key
load_active_key-IsInUse t device_id key_id h =
    elim (Option-cases (find_where (is_key t.devices device_id key_id) t.keys)) [
      | inl missing ↦ let e = rw missing at h in cc
      | inr (row, found) ↦ record {
        row = row;
        found = found;
        project_kept = key_of_row-project row (rw found at h);
      }
    ]

or_false : (b : Bool) → (b || false || false) ≡ b
or_false true = refl
or_false false = refl

module _ (runtime : AuthRuntime) (c : SessionClaims) (fresh : Fresh) (t : AuthTables) where
  verify_joined-new :
      (key : ActiveDeviceKey) (now : ℤ) (used : IsInUse t c.device_id c.key_id key)
      → verify_joined runtime t
          (token_of runtime fresh)
          now
          (new_session runtime c fresh key.project_id)
          (some used.row)
        ≡ (if leb_ℤ (fresh.now +ℤ pos session_ttl_seconds) now
            then none
            else some (principal_of (new_session runtime c fresh key.project_id)))
  unfolding verify_joined
  verify_joined-new key now used =
      let row = used.row in
      let holds = find_holds (is_key t.devices c.device_id c.key_id) t.keys used.found in
      let device : row.device_id ≡ c.device_id =
        (eq_iff row.device_id c.device_id).0 (ground arith) in
      let active : row.is_active ≡ true = ground arith in
      let registered : is_registered t.devices row.device_id row.project_id ≡ true = ground arith in
      let here : is_registered t.devices c.device_id key.project_id ≡ true =
        ap (λ d. is_registered t.devices d key.project_id) (sym device)
        ∙ ap (is_registered t.devices row.device_id) used.project_kept
        ∙ registered in
      rw (here, active, eq_refl (runtime.sha256_base64_url (token_of runtime fresh)))
        (ap
          (λ over.
            if over then none else some (principal_of (new_session runtime c fresh key.project_id)))
          (or_false (leb_ℤ (fresh.now +ℤ pos session_ttl_seconds) now)))

  key_of-new :
      (key : ActiveDeviceKey) (used : IsInUse t c.device_id c.key_id key)
      → IsKeyed t.keys
      → find_where (is_key_of (new_session runtime c fresh key.project_id)) t.keys ≡ some used.row
  key_of-new key used keyed =
      find_unique (is_key t.devices c.device_id c.key_id)
        (is_key_of (new_session runtime c fresh key.project_id)) t.keys
        (λ x h.
          let a : str_eq x.key_id c.key_id ≡ true = ground arith in
          let b : str_eq x.device_id c.device_id ≡ true = ground arith in rw (a, b) refl)
        (keyed c.device_id c.key_id) used.found

module _ (runtime : AuthRuntime) (fresh : Fresh) (t : AuthTables) (keyed : IsKeyed t.keys)
    (id_ok : has_only is_uuid_code 36 fresh.id ≡ true)
    (secret_ok : has_only is_base64_url_code 43 fresh.secret ≡ true) where
  verify_session_token-new :
      (done : AuthTables × AuthAnswer) (issued : IsIssued runtime fresh t done) (now : ℤ)
      → verify_session_token runtime done.0 (token_of runtime fresh) now ≡ (
          if leb_ℤ (fresh.now +ℤ pos session_ttl_seconds) now
          then none
          else some (principal_of (new_session runtime issued.claims fresh issued.key.project_id)))
  unfolding verify_session_token verify_with_id verify_session verify_joined
  verify_session_token-new done issued now =
      let (rest, added) = issued.added in
      let used =
        load_active_key-IsInUse t issued.claims.device_id issued.claims.key_id issued.loaded in
      rw
        (
          session_id_from_token_lem fresh.id fresh.secret id_ok secret_ok,
          added,
          eq_refl fresh.id,
          issued.keys_kept,
          key_of-new runtime issued.claims fresh t issued.key used keyed,
          issued.devices_kept,
        )
        (verify_joined-new runtime issued.claims fresh t issued.key now used)

-- The answer to a request for a scope: 401 from the time on at which the session ends, before it 403
-- for a scope that the session does not have, and the session's device for a scope that it has.
abbrev pub authorized_until : ℤ → DevicePrincipal → DeviceScope → ℤ → AuthorizationResult
authorized_until expires_at p required now =
    if leb_ℤ expires_at now
    then refused 401
    else (if includes p.scopes required then granted p else refused 403)

grant-if :
    (required : DeviceScope) (p : DevicePrincipal) (over : Bool)
    → grant required (if over then none else some p) ≡ (
        if over
        then refused 401
        else (if includes p.scopes required then granted p else refused 403))
grant-if required p true = refl
grant-if required p false = refl

module _ (runtime : AuthRuntime) where
  -- When a call of `session` answers with a session and a token, where the table has at most one key of
  -- an identifier and a device and the fresh identifier and secret have the form that
  -- `sessionIdFromToken` reads, then on the tables after the call a request with that token is answered
  -- 401 from a day after the call on, and before that with 403 when the scope is not among the
  -- session's, and else with the principal that has the session's identifier and scopes.
  pub authorize_device_request-session :
      (request : SessionRequest) (fresh : Fresh) (t : AuthTables) {t' : AuthTables}
      {challenge_id session_id token : String} {scopes : List DeviceScope} (required : DeviceScope)
      (now : ℤ)
      → IsKeyed t.keys
      → has_only is_uuid_code 36 fresh.id ≡ true
      → has_only is_base64_url_code 43 fresh.secret ≡ true
      → session runtime request fresh t ≡ (t', session_issued challenge_id session_id token scopes)
      → (p : DevicePrincipal) × (p.session_id ≡ session_id)
        × (p.scopes ≡ scopes)
        × (authorize_device_request runtime t' (some token) required now
            ≡ authorized_until (fresh.now +ℤ pos session_ttl_seconds) p required now)
  unfolding session authorize_device_request
  authorize_device_request-session request fresh t {t'} {challenge_id} {session_id} {token} {scopes}
        required now keyed id_ok secret_ok made =
      elim (subst (Or runtime fresh t) made
        (session_for-Or runtime fresh t (session_claims request))) [
          | inr (status, other) ↦ cc
          | inl issued ↦
              let p =
                principal_of (new_session runtime issued.claims fresh issued.key.project_id) in
              let verified =
                verify_session_token-new runtime fresh t keyed id_ok secret_ok _ issued now in
              let answer = issued.answered in
              let same_id : fresh.id ≡ session_id = cc in
              let same_scopes : issued.claims.scopes ≡ scopes = cc in
              let same_token : token ≡ token_of runtime fresh = cc in
              (
                p,
                same_id,
                same_scopes,
                rw (same_token, verified)
                    (grant-if required p (leb_ℤ (fresh.now +ℤ pos session_ttl_seconds) now)),
              )
        ]
