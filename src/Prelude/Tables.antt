-- ===== src/Prelude/Tables.antt =====
-- A table as the list of its rows: what UPDATE … WHERE and COUNT(*) … WHERE do to it.
use Prim.Native.Nat.{ℕ, ◌+◌, ◌≤◌}
use mathlib.Core.Path.{◌≡◌, refl, subst, sym, ap}
use mathlib.Core.Bool.{Bool, true, false}
use mathlib.Core.Logic.{inl, inr}
use mathlib.Core.List.{List, [], ◌∷◌}
use mathlib.Core.Option.{Option, none, some}
use native.Mathlib.Omega.{arith}
use midnight_buildathons_bac.Prelude.Tests.{if◌then◌else◌, Bool-cases, ltb, lt→ltb}

module _ {ℓ} {A : Type ℓ} where
  abbrev pub update_where : (A → Bool) → (A → A) → List A → List A
  update_where p f [] = []
  update_where p f (r ∷ rs) = let rest = update_where p f rs in if p r then f r ∷ rest else r ∷ rest

  abbrev pub count_where : (A → Bool) → List A → ℕ
  count_where p [] = 0
  count_where p (r ∷ rs) = (if p r then 1 else 0) + count_where p rs

  abbrev pub filter_where : (A → Bool) → List A → List A
  filter_where p [] = []
  filter_where p (r ∷ rs) = let rest = filter_where p rs in if p r then r ∷ rest else rest

  -- The first row, for a condition on a key.
  abbrev pub find_where : (A → Bool) → List A → Option A
  find_where p [] = none
  find_where p (r ∷ rs) = let rest = find_where p rs in if p r then some r else rest

module _ {ℓ} {A : Type ℓ} where
  -- An update that makes no row count anew raises no count.
  pub count-update_le :
      (q p : A → Bool) (f : A → A) (rs : List A)
      → ((r : A) → p r ≡ true → q (f r) ≡ true → q r ≡ true)
      → count_where q (update_where p f rs) ≤ count_where q rs
  count-update_le q p f [] h = omega arith
  count-update_le q p f (r ∷ rs) h =
      let rest = count-update_le q p f rs h in
      elim (Bool-cases (p r)) [
        | inr other ↦ rw other (omega (arith, rest))
        | inl chosen ↦ elim (Bool-cases (q (f r))) [
          | inr gone ↦ rw (chosen, gone) (omega (arith, rest))
          | inl stays ↦ rw (chosen, stays, h r chosen stays) (omega (arith, rest))
        ]
      ]

  pub count-update_add :
      (q p : A → Bool) (f : A → A) (rs : List A)
      → count_where q (update_where p f rs) ≤ count_where q rs + count_where p rs
  count-update_add q p f [] = omega arith
  count-update_add q p f (r ∷ rs) =
      let rest = count-update_add q p f rs in
      elim (Bool-cases (p r)) [
        | inr other ↦ rw other (omega (arith, rest))
        | inl chosen ↦ elim (Bool-cases (q (f r))) [
          | inr gone ↦ rw (chosen, gone) (omega (arith, rest))
          | inl stays ↦ rw (chosen, stays) (omega (arith, rest))
        ]
      ]

  pub count_mono :
      (p q : A → Bool) (rs : List A)
      → ((r : A) → p r ≡ true → q r ≡ true)
      → count_where p rs ≤ count_where q rs
  count_mono p q [] h = omega arith
  count_mono p q (r ∷ rs) h =
      let rest = count_mono p q rs h in
      elim (Bool-cases (p r)) [
        | inr other ↦ rw other (omega (arith, rest))
        | inl chosen ↦ rw (chosen, h r chosen) (omega (arith, rest))
      ]

  -- An update that keeps a key keeps how often it occurs.
  pub count-update_eq :
      (q p : A → Bool) (f : A → A) (rs : List A)
      → ((r : A) → q (f r) ≡ q r)
      → count_where q (update_where p f rs) ≡ count_where q rs
  count-update_eq q p f [] h = refl
  count-update_eq q p f (r ∷ rs) h =
      let rest = count-update_eq q p f rs h in
      elim (Bool-cases (p r)) [
        | inr other ↦ rw (other, rest) refl
        | inl chosen ↦ rw (chosen, h r, rest) refl
      ]

  -- An update of rows outside a selection, which stay outside, leaves what it selects as it is.
  pub filter-update :
      (q p : A → Bool) (f : A → A) (rs : List A)
      → ((r : A) → p r ≡ true → (q r ≡ false) × (q (f r) ≡ false))
      → filter_where q (update_where p f rs) ≡ filter_where q rs
  filter-update q p f [] h = refl
  filter-update q p f (r ∷ rs) h =
      let rest = filter-update q p f rs h in
      elim (Bool-cases (p r)) [
        | inr other ↦ rw (other, rest) refl
        | inl chosen ↦ let outside = h r chosen in rw (chosen, outside.0, outside.1, rest) refl
      ]

  -- `INSERT … ON CONFLICT DO UPDATE`: `same` finds the row with the key.
  abbrev pub upsert : (A → Bool) → (A → A) → A → List A → List A
  upsert same change new rs =
      if ltb 0 (count_where same rs) then update_where same change rs else new ∷ rs

  -- `INSERT OR IGNORE`
  abbrev pub insert_or_ignore : (A → Bool) → A → List A → List A
  insert_or_ignore same new rs = if ltb 0 (count_where same rs) then rs else new ∷ rs

  -- A second update with the same condition finds nothing, when the first one falsifies it.
  pub update-update :
      (p : A → Bool) (f g : A → A) (rs : List A)
      → ((r : A) → p (f r) ≡ false)
      → update_where p g (update_where p f rs) ≡ update_where p f rs
  update-update p f g [] h = refl
  update-update p f g (r ∷ rs) h =
      let rest = update-update p f g rs h in
      elim (Bool-cases (p r)) [
        | inr other ↦ rw (other, other, rest) refl
        | inl chosen ↦ rw (chosen, h r, rest) refl
      ]

  -- After an update that falsifies its condition, no row satisfies it.
  pub count-update_zero :
      (p : A → Bool) (f : A → A) (rs : List A)
      → ((r : A) → p (f r) ≡ false)
      → count_where p (update_where p f rs) ≡ 0
  count-update_zero p f [] h = refl
  count-update_zero p f (r ∷ rs) h =
      let rest = count-update_zero p f rs h in
      elim (Bool-cases (p r)) [
        | inr other ↦ rw (other, other) (omega (arith, rest))
        | inl chosen ↦ rw (chosen, h r) (omega (arith, rest))
      ]

  -- A second insertion of a row with the same key is ignored.
  pub insert_or_ignore-again :
      (same : A → Bool) (new again : A) (rs : List A)
      → same new ≡ true
      → insert_or_ignore same again (insert_or_ignore same new rs) ≡ insert_or_ignore same new rs
  insert_or_ignore-again same new again rs h = elim (Bool-cases (ltb 0 (count_where same rs))) [
    | inl there ↦ rw (there, there) refl
    | inr absent ↦ rw (absent, h, lt→ltb 0 (1 + count_where same rs) (omega arith)) refl
  ]

  -- What an update of the rows it selects makes of the first of them.
  pub find-update :
      (p : A → Bool) (f : A → A) (rs : List A) {r : A}
      → ((x : A) → p x ≡ true → p (f x) ≡ true)
      → find_where p rs ≡ some r
      → find_where p (update_where p f rs) ≡ some (f r)
  find-update p f [] h found = cc
  find-update p f (x ∷ rs) h found = elim (Bool-cases (p x)) [
    | inr other ↦ rw (other, other) (find-update p f rs h (rw other at found))
    | inl chosen ↦ let first = rw chosen at found in rw (chosen, h x chosen) cc
  ]

  -- The row found by a key that an update keeps, when the update changes that row.
  pub find-update_key :
      (p q : A → Bool) (f : A → A) (rs : List A) {r : A}
      → ((x : A) → p (f x) ≡ p x)
      → find_where p rs ≡ some r
      → q r ≡ true
      → find_where p (update_where q f rs) ≡ some (f r)
  find-update_key p q f [] kept found changed = cc
  find-update_key p q f (x ∷ rs) {r} kept found changed = elim (Bool-cases (p x)) [
    | inr other ↦
        let rest = find-update_key p q f rs kept (rw other at found) changed in
        elim (Bool-cases (q x)) [
          | inl updated ↦ rw (updated, kept x, other) rest
          | inr same ↦ rw (same, other) rest
        ]
    | inl chosen ↦
        let first : x ≡ r = let e = rw chosen at found in cc in
        let here : q x ≡ true = subst (λ y. q y ≡ true) (sym first) changed in
        rw (here, kept x, chosen) (ap (λ y. some (f y)) first)
  ]

  pub count-find_none : (p : A → Bool) (rs : List A) → find_where p rs ≡ none → count_where p rs ≡ 0
  count-find_none p [] h = refl
  count-find_none p (r ∷ rs) h = elim (Bool-cases (p r)) [
    | inr other ↦ rw other (omega (arith, count-find_none p rs (rw other at h)))
    | inl chosen ↦ let impossible = rw chosen at h in cc
  ]

  pub count-find_some :
      (p : A → Bool) (rs : List A) {r : A} → find_where p rs ≡ some r → 1 ≤ count_where p rs
  count-find_some p [] h = cc
  count-find_some p (r ∷ rs) h = elim (Bool-cases (p r)) [
    | inr other ↦ rw other (omega (arith, count-find_some p rs (rw other at h)))
    | inl chosen ↦ rw chosen (omega arith)
  ]

  -- An update of counted rows, which are counted no more.
  pub count-update_drop :
      (q p : A → Bool) (f : A → A) (rs : List A)
      → ((r : A) → p r ≡ true → (q r ≡ true) × (q (f r) ≡ false))
      → count_where q (update_where p f rs) + count_where p rs ≡ count_where q rs
  count-update_drop q p f [] h = omega arith
  count-update_drop q p f (r ∷ rs) h =
      let rest = count-update_drop q p f rs h in
      elim (Bool-cases (p r)) [
        | inr other ↦ rw other (omega (arith, rest))
        | inl chosen ↦ let was = h r chosen in rw (chosen, was.0, was.1) (omega (arith, rest))
      ]

  pub find_holds : (p : A → Bool) (rs : List A) {r : A} → find_where p rs ≡ some r → p r ≡ true
  find_holds p [] h = cc
  find_holds p (x ∷ rs) {r} h = elim (Bool-cases (p x)) [
    | inr other ↦ find_holds p rs (rw other at h)
    | inl chosen ↦
        let first : x ≡ r = let e = rw chosen at h in cc in subst (λ y. p y ≡ true) first chosen
  ]

  find_unique_count :
      (p q : A → Bool) (rs : List A) {r : A}
      → ((x : A) → p x ≡ true → q x ≡ true)
      → find_where p rs ≡ some r
      → 1 ≤ count_where q rs
  find_unique_count p q rs wider h = omega (arith, count-find_some p rs h, count_mono p q rs wider)

  -- A row found by a narrower condition is found by a wider one that at most one row satisfies.
  pub find_unique :
      (p q : A → Bool) (rs : List A) {r : A}
      → ((x : A) → p x ≡ true → q x ≡ true)
      → count_where q rs ≤ 1
      → find_where p rs ≡ some r
      → find_where q rs ≡ some r
  find_unique p q [] wider one h = cc
  find_unique p q (x ∷ rs) {r} wider one h = elim (Bool-cases (q x)) [
    | inr other ↦ elim (Bool-cases (p x)) [
      | inl chosen ↦ let impossible = wider x chosen in cc
      | inr outside ↦ rw other (
          find_unique p q rs wider (let few = rw other at one in omega (arith, few))
            (rw outside at h))
    ]
    | inl here ↦ elim (Bool-cases (p x)) [
      | inl chosen ↦ rw here (rw chosen at h)
      | inr outside ↦
          let later = find_unique_count p q rs wider (rw outside at h) in
          let few = rw here at one in absurd (omega (arith, later, few))
    ]
  ]
