-- ===== src/Sponsor/Lease/Laws.antt =====
-- The steps of several workers on the row of a lease.
use text.Mathlib.TextPositions.{eq_refl}
use midnight_buildathons_bac.Prelude.{
  ℕ, ◌≡◌, ◌≢◌, refl, sym, subst, ap, String, true, false, none, some, List, [], ◌∷◌, arith,
  Bool-cases, inl, inr, str_eq, eq_iff,
}
use midnight_buildathons_bac.Prelude.Int.{ℤ, pos, ◌+ℤ◌, ◌<ℤ◌, leb_ℤ}
use midnight_buildathons_bac.Sponsor.Lease.{
  ServerWalletWorkItem, LeaseRow, is_free, acquire_lease, holds, release_lease,
}

-- What others may do with the row of a lease: take it, or give it back by their token.
pub data Step : Type 0 where
  take : ServerWalletWorkItem → ℤ → String → Step
  give_back : String → ℤ → Step

unfoldable pub do_step : ℕ → LeaseRow → Step → LeaseRow
do_step ms row (take work now token) = (acquire_lease ms row work now token).0
do_step ms row (give_back token now) = release_lease row token now

unfoldable pub do_steps : ℕ → LeaseRow → List Step → LeaseRow
do_steps ms row [] = row
do_steps ms row (s ∷ ss) = do_steps ms (do_step ms row s) ss

-- A step of another worker before an instant: it takes the lease earlier, or its token is another.
abbrev pub IsOther : String → ℤ → Step → Type 0
IsOther token end (take work now other) = now <ℤ end
IsOther token end (give_back other now) = other ≢ token

abbrev pub AllOthers : String → ℤ → List Step → Type 0
AllOthers token end [] = Unit
AllOthers token end (s ∷ ss) = IsOther token end s × AllOthers token end ss

is_free-held :
    (row : LeaseRow) (token : String) (end now : ℤ)
    → row.lease_token ≡ some token
    → row.lease_expires_at ≡ some end
    → now <ℤ end
    → is_free row now ≡ false
unfolding is_free
is_free-held row token end now held expires before =
    let busy : leb_ℤ end now ≡ false = ground arith in rw (held, expires) busy

acquire_lease-held :
    (ms : ℕ) (row : LeaseRow) (token : String) (end now : ℤ) (work : ServerWalletWorkItem)
    (other : String)
    → row.lease_token ≡ some token
    → row.lease_expires_at ≡ some end
    → now <ℤ end
    → acquire_lease ms row work now other ≡ (row, none)
unfolding acquire_lease
acquire_lease-held ms row token end now work other held expires before =
    rw (is_free-held row token end now held expires before) refl

do_step-kept :
    (ms : ℕ) (row : LeaseRow) (token : String) (end : ℤ) (s : Step)
    → row.lease_token ≡ some token
    → row.lease_expires_at ≡ some end
    → IsOther token end s
    → do_step ms row s ≡ row
unfolding do_step release_lease
do_step-kept ms row token end (take work now other) held expires before =
    ap (λ p. p.0) (acquire_lease-held ms row token end now work other held expires before)
do_step-kept ms row token end (give_back other now) held expires differs =
    elim (Bool-cases (holds row.lease_token other)) [
      | inr not_held ↦ rw not_held refl
      | inl is_held ↦
          let same : str_eq token other ≡ true = rw held at is_held in
          absurd (differs (sym ((eq_iff token other).0 same)))
    ]

do_steps-kept :
    (ms : ℕ) (row : LeaseRow) (token : String) (end : ℤ) (ss : List Step)
    → row.lease_token ≡ some token
    → row.lease_expires_at ≡ some end
    → AllOthers token end ss
    → do_steps ms row ss ≡ row
unfolding do_steps
do_steps-kept ms row token end [] held expires others = refl
do_steps-kept ms row token end (s ∷ ss) held expires others =
    let kept = do_step-kept ms row token end s held expires others.0 in
    rw kept (do_steps-kept ms row token end ss held expires others.1)

abbrev pub taken : ℕ → ServerWalletWorkItem → ℤ → String → LeaseRow
taken ms work now token = record {
  lease_token = some token;
  lease_expires_at = some (now +ℤ pos ms);
  work = some (work.kind, work.id);
  updated_at = now;
}

acquire_lease-inversion :
    (ms : ℕ) (row row' : LeaseRow) (work : ServerWalletWorkItem) (now : ℤ) (token : String)
    → acquire_lease ms row work now token ≡ (row', some token)
    → taken ms work now token ≡ row'
unfolding acquire_lease
acquire_lease-inversion ms row row' work now token got = elim (Bool-cases (is_free row now)) [
  | inl free ↦ ap (λ p. p.0) (rw free at got)
  | inr busy ↦ let nothing : none ≡ some token = ap (λ p. p.1) (rw busy at got) in cc
]

acquire_lease-busy :
    (ms : ℕ) (work next : ServerWalletWorkItem) (now later : ℤ) (token other : String) (span : ℕ)
    → later <ℤ now +ℤ pos ms
    → acquire_lease span (taken ms work now token) next later other
      ≡ (taken ms work now token, none)
unfolding acquire_lease is_free
acquire_lease-busy ms work next now later token other span soon =
    let busy : leb_ℤ (now +ℤ pos ms) later ≡ false = ground arith in rw busy refl

release_lease-free :
    (ms : ℕ) (work : ServerWalletWorkItem) (now later : ℤ) (token : String)
    → is_free (release_lease (taken ms work now token) token later) later ≡ true
unfolding release_lease is_free
release_lease-free ms work now later token = rw (eq_refl token) refl

-- When taking a lease gives a token, then after any steps by others, each of which asks for the
-- lease before it expires or gives back another token, a further attempt before it expires gets
-- nothing and leaves the row, and giving the token back frees the lease.
pub acquire_lease-exclusive :
    (ms : ℕ) (row row' : LeaseRow) (work next : ServerWalletWorkItem) (now later : ℤ)
    (token other : String) (ss : List Step)
    → acquire_lease ms row work now token ≡ (row', some token)
    → AllOthers token (now +ℤ pos ms) ss
    → later <ℤ now +ℤ pos ms
    → (acquire_lease ms (do_steps ms row' ss) next later other ≡ (row', none))
      × (is_free (release_lease (do_steps ms row' ss) token later) later ≡ true)
acquire_lease-exclusive ms row row' work next now later token other ss got others soon =
    let made = acquire_lease-inversion ms row row' work now token got in
    let kept =
      do_steps-kept ms (taken ms work now token) token (now +ℤ pos ms) ss refl refl others in
    subst
      (λ r.
        (acquire_lease ms (do_steps ms r ss) next later other ≡ (r, none))
        × (is_free (release_lease (do_steps ms r ss) token later) later ≡ true))
      made
      (rw kept (
        acquire_lease-busy ms work next now later token other ms soon,
        release_lease-free ms work now later token,
      ))
