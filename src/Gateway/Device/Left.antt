-- ===== src/Gateway/Device/Left.antt =====
-- How many sessions a challenge of backend/cloudflare/proof-gateway-worker/src/device-auth.ts can still
-- lead to, before and after the statements on challenges.
use midnight_buildathons_bac.Prelude.{
  ℕ, ◌+◌, ◌≤◌, ◌≡◌, refl, subst, String, Bool, true, false, ◌&&◌, some, List, ◌∷◌, arith, inl, inr,
  Bool-cases, ltb, ◌==◌, str_eq, eq_iff,
}
use midnight_buildathons_bac.Prelude.Int.{ℤ}
use midnight_buildathons_bac.Prelude.Tables.{
  count_where, count-update_le, count-update_eq, count-update_drop, count_mono,
}
use midnight_buildathons_bac.Gateway.Device.Challenge.{
  AuthRuntime, AuthTables, ChallengeRow, Fresh, has_challenge_id, new_challenge,
}
use midnight_buildathons_bac.Gateway.Device.Session.{
  SessionClaims, is_unused, is_open_for, use_challenge,
}

-- The challenge, unused.
abbrev pub is_open : String → ChallengeRow → Bool
is_open id r = has_challenge_id id r && is_unused r.used_at

-- How many sessions the challenge can still lead to.
abbrev pub left_when : Bool → ℕ → ℕ
left_when true n = n
left_when false n = 1

abbrev pub left_of : String → List ChallengeRow → ℕ
left_of id rs =
    left_when (ltb 0 (count_where (has_challenge_id id) rs)) (count_where (is_open id) rs)

left_mono : (b : Bool) (m n : ℕ) → m ≤ n → left_when b m ≤ left_when b n
left_mono true m n h = h
left_mono false m n h = omega arith

left_same : (m n : ℕ) → left_when (ltb 0 (0 + m)) (0 + n) ≤ left_when (ltb 0 m) n
left_same m n = ground arith

left_one : (b : Bool) (n : ℕ) → n ≡ 0 → left_when b (1 + n) ≤ 1
left_one b n h = ground arith

none_open : (m n : ℕ) → ltb 0 m ≡ false → n ≤ m → n ≡ 0
none_open m n h k = ground arith

left_spent :
    (m n k u : ℕ)
    → (u == 1) ≡ true
    → k + u ≡ n
    → n ≤ m
    → 1 + left_when (ltb 0 m) k ≤ left_when (ltb 0 m) n
left_spent m n k u one sum few = ground arith

pub left_le : (m n : ℕ) → n ≤ m → m ≤ 1 → left_when (ltb 0 m) n ≤ 1
left_le m n h k = ground arith

and-cases : (a b : Bool) → (a && b) ≡ true → (a ≡ true) × (b ≡ true)
and-cases a b h = ground arith

-- The count of rows with an identifier is at least that of the open ones.
pub open-le :
    (id : String) (rs : List ChallengeRow)
    → count_where (is_open id) rs ≤ count_where (has_challenge_id id) rs
open-le id rs =
    count_mono (is_open id) (has_challenge_id id) rs
      (λ r h. (and-cases (has_challenge_id id r) (is_unused r.used_at) h).0)

module _ (runtime : AuthRuntime) (id : String) where
  pub left-insert :
      (device_id key_id : String) (fresh : Fresh) (rs : List ChallengeRow)
      → ltb 0 (count_where (has_challenge_id fresh.id) rs) ≡ false
      → left_of id (new_challenge runtime device_id key_id fresh ∷ rs) ≤ left_of id rs
  left-insert device_id key_id fresh rs absent = elim (Bool-cases (str_eq fresh.id id)) [
    | inr other ↦
        rw other (left_same (count_where (has_challenge_id id) rs) (count_where (is_open id) rs))
    | inl same ↦
        let key = (eq_iff fresh.id id).0 same in
        let gone : ltb 0 (count_where (has_challenge_id id) rs) ≡ false =
          subst (λ k. ltb 0 (count_where (has_challenge_id k) rs) ≡ false) key absent in
        let few = open-le id rs in
        let zero_open : count_where (is_open id) rs ≡ 0 =
          none_open (count_where (has_challenge_id id) rs) _ gone few in
        rw (same, gone) (left_one (ltb 0 (1 + count_where (has_challenge_id id) rs)) _ zero_open)
  ]

  pub left-use :
      (c : SessionClaims) (now : ℤ) (t : AuthTables)
      → left_of id (use_challenge runtime c now t).challenges ≤ left_of id t.challenges
  unfolding use_challenge
  left-use c now t =
      let same =
        count-update_eq (has_challenge_id id) (is_open_for runtime c now)
          (λ r. record r { used_at = some now }) t.challenges (λ r. refl) in
      let fewer =
        count-update_le (is_open id) (is_open_for runtime c now)
          (λ r. record r { used_at = some now }) t.challenges (λ r p q. ground arith) in
      rw same (left_mono (ltb 0 (count_where (has_challenge_id id) t.challenges)) _ _ fewer)

  open_for-open :
      (c : SessionClaims) (now : ℤ) (r : ChallengeRow)
      → is_open_for runtime c now r ≡ true
      → (is_open c.challenge_id r ≡ true)
        × (is_open c.challenge_id (record r { used_at = some now }) ≡ false)
  unfolding is_open_for
  open_for-open c now r h = (ground arith, ground arith)

  pub spent :
      (c : SessionClaims) (now : ℤ) (t : AuthTables)
      → str_eq c.challenge_id id ≡ true
      → (count_where (is_open_for runtime c now) t.challenges == 1) ≡ true
      → 1 + left_of id (use_challenge runtime c now t).challenges ≤ left_of id t.challenges
  unfolding use_challenge
  spent c now t same one =
      let p = is_open_for runtime c now in
      let key = (eq_iff c.challenge_id id).0 same in
      let kept =
        count-update_eq (has_challenge_id id) p (λ r. record r { used_at = some now }) t.challenges
          (λ r. refl) in
      let dropped =
        count-update_drop (is_open id) p (λ r. record r { used_at = some now }) t.challenges
          (λ r open_for.
            subst
              (λ k. (is_open k r ≡ true) × (is_open k (record r { used_at = some now }) ≡ false))
              key (open_for-open c now r open_for)) in
      let few = open-le id t.challenges in
      rw kept (
        left_spent (count_where (has_challenge_id id) t.challenges)
          (count_where (is_open id) t.challenges) _ (count_where p t.challenges) one dropped few)
