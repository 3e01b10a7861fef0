-- ===== src/Gateway/Device/Replay.antt =====
-- Runs of the challenges and sessions of backend/cloudflare/proof-gateway-worker/src/device-auth.ts, and how
-- often one challenge leads to a session.
use midnight_buildathons_bac.Prelude.{
  ℕ, ◌+◌, ◌≤◌, ◌≡◌, String, Bool, true, false, not, Option, none, some, List, [], ◌∷◌, arith, inl,
  inr, Bool-cases, if◌then◌else◌, ltb, ◌==◌, str_eq,
}
use midnight_buildathons_bac.Prelude.Results.{Result, ok, throw}
use midnight_buildathons_bac.Prelude.Tables.{count_where}
use midnight_buildathons_bac.Gateway.Device.Scope.{all_included}
use midnight_buildathons_bac.Gateway.Device.Challenge.{
  AuthRuntime, AuthTables, ChallengeRequest, Fresh, ActiveDeviceKey, AuthAnswer, session_issued,
  challenge_issued, rejected, has_challenge_id, insert_challenge, challenge_for, challenge,
  load_active_key,
}
use midnight_buildathons_bac.Gateway.Device.Session.{
  SessionClaims, SessionRequest, is_open_for, use_challenge, session_claims, insert_session, redeem,
  redeem_verified, redeem_with_key, session_for, session, is_timely, is_session_id,
}
use midnight_buildathons_bac.Gateway.Device.Left.{
  left_of, left_le, open-le, left-insert, left-use, spent,
}

pub data Request : Type 0 where
  ask_challenge : ChallengeRequest → Fresh → Request
  ask_session : SessionRequest → Fresh → Request

-- One for a session made for the challenge.
abbrev pub is_for : String → AuthAnswer → ℕ
is_for id (session_issued challenge_id session_id token scopes) =
    if str_eq challenge_id id then 1 else 0
is_for id (challenge_issued other) = 0
is_for id (rejected status) = 0

module _ (runtime : AuthRuntime) where
  unfoldable pub answer : Request → AuthTables → AuthTables × AuthAnswer
  answer (ask_challenge request fresh) t = challenge runtime request fresh t
  answer (ask_session request fresh) t = session runtime request fresh t

  -- How many of the answers to the requests, one after the other, are sessions for the challenge.
  unfoldable pub sessions_for : String → AuthTables → List Request → ℕ
  sessions_for id t [] = 0
  sessions_for id t (q ∷ qs) = is_for id (answer q t).1 + sessions_for id (answer q t).0 qs

module _ (runtime : AuthRuntime) (id : String) where
  -- A request's answer for the challenge is paid for by what is left of it.
  abbrev Pays : AuthTables → AuthTables × AuthAnswer → Type 0
  Pays t done = is_for id done.1 + left_of id done.0.challenges ≤ left_of id t.challenges

  if-Pays :
      (t : AuthTables) (b : Bool) (x y : AuthTables × AuthAnswer)
      → Pays t x
      → Pays t y
      → Pays t (if b then x else y)
  if-Pays t true x y p q = p
  if-Pays t false x y p q = q

  insert_session-Pays :
      (c : SessionClaims) (fresh : Fresh) (key : ActiveDeviceKey) (t : AuthTables)
      → (count_where (is_open_for runtime c fresh.now) t.challenges == 1) ≡ true
      → Pays t (insert_session runtime c fresh key (use_challenge runtime c fresh.now t))
  unfolding insert_session
  insert_session-Pays c fresh key t one =
      let t' = use_challenge runtime c fresh.now t in
      elim (Bool-cases (ltb 0 (count_where (is_session_id fresh.id) t'.sessions))) [
        | inl there ↦ rw there (omega (arith, left-use runtime id c fresh.now t))
        | inr absent ↦ elim (Bool-cases (str_eq c.challenge_id id)) [
          | inl same ↦ rw (absent, same) (spent runtime id c fresh.now t same one)
          | inr other ↦ rw (absent, other) (omega (arith, left-use runtime id c fresh.now t))
        ]
      ]

  redeem-Pays :
      (c : SessionClaims) (fresh : Fresh) (key : ActiveDeviceKey) (t : AuthTables)
      → Pays t (redeem runtime c fresh key t)
  unfolding redeem
  redeem-Pays c fresh key t =
      elim (Bool-cases (count_where (is_open_for runtime c fresh.now) t.challenges == 1)) [
        | inl one ↦ rw one (insert_session-Pays c fresh key t one)
        | inr other ↦ rw other (omega (arith, left-use runtime id c fresh.now t))
      ]

  redeem_verified-Pays :
      (c : SessionClaims) (fresh : Fresh) (key : ActiveDeviceKey) (valid : Option Bool)
      (t : AuthTables)
      → Pays t (redeem_verified runtime c fresh key valid t)
  unfolding redeem_verified
  redeem_verified-Pays c fresh key none t = omega arith
  redeem_verified-Pays c fresh key (some false) t = omega arith
  redeem_verified-Pays c fresh key (some true) t = redeem-Pays c fresh key t

  redeem_with_key-Pays :
      (c : SessionClaims) (fresh : Fresh) (key : Option ActiveDeviceKey) (t : AuthTables)
      → Pays t (redeem_with_key runtime c fresh key t)
  unfolding redeem_with_key
  redeem_with_key-Pays c fresh none t = omega arith
  redeem_with_key-Pays c fresh (some key) t =
      elim (Bool-cases (all_included key.allowed_scopes c.scopes)) [
        | inr beyond ↦ rw beyond (omega arith)
        | inl within ↦ rw within (redeem_verified-Pays c fresh key _ t)
      ]

  session_for-Pays :
      (claims : Result SessionClaims) (fresh : Fresh) (t : AuthTables)
      → Pays t (session_for runtime claims fresh t)
  unfolding session_for
  session_for-Pays (throw e) fresh t = omega arith
  session_for-Pays (ok c) fresh t = if-Pays t (not fresh.within_limits) _ _ (omega arith) (
      if-Pays t (not (is_timely fresh.now (runtime.date_parse c.timestamp))) _ _ (omega arith)
        (redeem_with_key-Pays c fresh (load_active_key t c.device_id c.key_id) t))

  insert_challenge-Pays :
      (device_id key_id : String) (fresh : Fresh) (key : Option ActiveDeviceKey) (t : AuthTables)
      → Pays t (insert_challenge runtime device_id key_id fresh key t)
  unfolding insert_challenge
  insert_challenge-Pays device_id key_id fresh none t = omega arith
  insert_challenge-Pays device_id key_id fresh (some key) t =
      elim (Bool-cases (ltb 0 (count_where (has_challenge_id fresh.id) t.challenges))) [
        | inl there ↦ rw there (omega arith)
        | inr absent ↦
            rw absent
              (omega (arith, left-insert runtime id device_id key_id fresh t.challenges absent))
      ]

  challenge_for-Pays :
      (claims : Result (String × String)) (fresh : Fresh) (t : AuthTables)
      → Pays t (challenge_for runtime claims fresh t)
  unfolding challenge_for
  challenge_for-Pays (throw e) fresh t = omega arith
  challenge_for-Pays (ok (device_id, key_id)) fresh t =
      if-Pays t (not fresh.within_limits) _ _ (omega arith)
        (insert_challenge-Pays device_id key_id fresh (load_active_key t device_id key_id) t)

  answer-Pays : (q : Request) (t : AuthTables) → Pays t (answer runtime q t)
  unfolding answer challenge session
  answer-Pays (ask_challenge request fresh) t = challenge_for-Pays _ fresh t
  answer-Pays (ask_session request fresh) t = session_for-Pays (session_claims request) fresh t

  sessions_for-left :
      (qs : List Request) (t : AuthTables) → sessions_for runtime id t qs ≤ left_of id t.challenges
  unfolding sessions_for
  sessions_for-left [] t = omega arith
  sessions_for-left (q ∷ qs) t =
      omega (arith, answer-Pays q t, sessions_for-left qs (answer runtime q t).0)

  -- When a challenge's identifier occurs at most once among the stored challenges, or not at all, at most
  -- one of all the later requests, valid or replayed, is answered by a session for that challenge.
  pub sessions_for-once :
      (t : AuthTables) (qs : List Request)
      → count_where (has_challenge_id id) t.challenges ≤ 1
      → sessions_for runtime id t qs ≤ 1
  sessions_for-once t qs keyed = omega (
    arith,
    sessions_for-left qs t,
    left_le (count_where (has_challenge_id id) t.challenges) _ (open-le id t.challenges) keyed,
  )
