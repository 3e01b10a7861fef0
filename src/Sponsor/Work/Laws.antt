-- ===== src/Sponsor/Work/Laws.antt =====
-- Which work of backend/cloudflare/proof-gateway-worker/src/server-wallet-work.ts is next, and what a call
-- leaves of the lease.
use midnight_buildathons_bac.Prelude.{
  ◌+◌, ◌≤◌, ◌≡◌, ◌⊎◌, inl, inr, refl, String, true, false, Option, none, some, List, [], ◌∷◌, arith,
  All, Bool-cases, Option-cases,
}
use midnight_buildathons_bac.Prelude.Int.{ℤ, ◌<ℤ◌, ◌≤ℤ◌, pos_part, neg_part}
use midnight_buildathons_bac.Prelude.Results.{Result, ok, throw}
use midnight_buildathons_bac.Agent.Pending.{is_hex}
use midnight_buildathons_bac.Sponsor.Lease.{
  ServerWalletWorkItem, LeaseRow, is_free, none_or_over, holds, release_lease, acquire_lease,
  acquire_processing_lease,
}
use midnight_buildathons_bac.Sponsor.Runnable.{WorkTables, precedence, runnable}
use midnight_buildathons_bac.Sponsor.Work.{
  comes_first, least, next_server_wallet_work, Server, Surroundings, ServerWalletProcessingResult,
  idle, busy, processed, finished, process_selected, process_leased, process_found,
  process_next_server_wallet_work,
}

-- The work `b` is not before the work `a`: it is newer, or as old and not of a smaller precedence.
abbrev pub IsNotBefore : ServerWalletWorkItem → ServerWalletWorkItem → Type 0
IsNotBefore a b =
    (a.created_at <ℤ b.created_at)
    ⊎ ((pos_part a.created_at + neg_part b.created_at
          ≡ pos_part b.created_at + neg_part a.created_at)
        × (precedence a.kind ≤ precedence b.kind))

abbrev pub IsIn : ServerWalletWorkItem → List ServerWalletWorkItem → Type 0
IsIn w [] = ⊥
IsIn w (x ∷ xs) = (x ≡ w) ⊎ IsIn w xs

IsNotBefore-refl : (a : ServerWalletWorkItem) → IsNotBefore a a
IsNotBefore-refl a = inr (refl, omega arith)

IsNotBefore-trans :
    (a b c : ServerWalletWorkItem) → IsNotBefore a b → IsNotBefore b c → IsNotBefore a c
IsNotBefore-trans a b c (inl p) (inl q) = inl (omega (arith, p, q))
IsNotBefore-trans a b c (inl p) (inr q) = inl (omega (arith, p, q.0))
IsNotBefore-trans a b c (inr p) (inl q) = inl (omega (arith, p.0, q))
IsNotBefore-trans a b c (inr p) (inr q) = inr (omega (arith, p.0, q.0), omega (arith, p.1, q.1))

comes_first-cases :
    (a b : ServerWalletWorkItem)
    → ((comes_first a b ≡ true) × IsNotBefore a b) ⊎ ((comes_first a b ≡ false) × IsNotBefore b a)
unfolding comes_first
comes_first-cases a b = ground arith

-- A first element of a list: one of them, and none is before it.
abbrev pub IsFirst : ServerWalletWorkItem → List ServerWalletWorkItem → Type 0
IsFirst w ws = IsIn w ws × All (IsNotBefore w) ws

All-trans :
    (a b : ServerWalletWorkItem) (ws : List ServerWalletWorkItem)
    → IsNotBefore a b
    → All (IsNotBefore b) ws
    → All (IsNotBefore a) ws
All-trans a b [] h all = tt
All-trans a b (w ∷ ws) h all = (IsNotBefore-trans a b w h all.0, All-trans a b ws h all.1)

least-cases :
    (ws : List ServerWalletWorkItem)
    → ((least ws ≡ none) × (ws ≡ []))
      ⊎ ((w : ServerWalletWorkItem) × (least ws ≡ some w) × IsFirst w ws)
unfolding least
least-cases [] = inl (refl, refl)
least-cases (a ∷ ws) = elim (least-cases ws) [
  | inl nothing ↦ inr (a, rw nothing.0 refl, (inl refl, (IsNotBefore-refl a, rw nothing.1 tt)))
  | inr rest ↦
      let b = rest.0 in
      elim (comes_first-cases a b) [
        | inl first ↦ inr (
          a,
          rw (rest.1, first.0) refl,
          (inl refl, (IsNotBefore-refl a, All-trans a b ws first.1 rest.2.1)),
        )
        | inr later ↦ inr (b, rw (rest.1, later.0) refl, (inr rest.2.0, (later.1, rest.2.1)))
      ]
]

-- The next work is none exactly when nothing is runnable; otherwise it is one of the runnable ones, and
-- none of these is older, nor as old and of a smaller precedence.
pub next_server_wallet_work-IsFirst :
    (t : WorkTables) (now : ℤ) (through : Option ℤ) (contract_address : String)
    → ((next_server_wallet_work t now through contract_address ≡ none)
        × (runnable t now through contract_address ≡ []))
      ⊎ ((w : ServerWalletWorkItem) × (next_server_wallet_work t now through contract_address
            ≡ some w)
          × IsFirst w (runnable t now through contract_address))
unfolding next_server_wallet_work
next_server_wallet_work-IsFirst t now through contract_address =
    least-cases (runnable t now through contract_address)

release_lease-holds :
    (row : LeaseRow) (token : String) (now : ℤ)
    → holds (release_lease row token now).lease_token token ≡ false
unfolding release_lease
release_lease-holds row token now = elim (Bool-cases (holds row.lease_token token)) [
  | inl held ↦ rw held refl
  | inr other ↦ rw other other
]

-- The lease has no holder, or its time is over.
abbrev pub IsOver : LeaseRow → ℤ → Type 0
IsOver row now =
    (row.lease_token ≡ none)
    ⊎ ((row.lease_expires_at ≡ none) ⊎ ((e : ℤ) × (row.lease_expires_at ≡ some e) × (e ≤ℤ now)))

none_or_over-cases :
    (expires : Option ℤ) (now : ℤ)
    → none_or_over expires now ≡ true
    → (expires ≡ none) ⊎ ((e : ℤ) × (expires ≡ some e) × (e ≤ℤ now))
none_or_over-cases none now h = inl refl
none_or_over-cases (some e) now h = inr (e, refl, ground arith)

is_free-IsOver : (row : LeaseRow) (now : ℤ) → is_free row now ≡ true → IsOver row now
unfolding is_free
is_free-IsOver row now h = elim (Option-cases row.lease_token) [
  | inl nobody ↦ inl nobody
  | inr held ↦ inr (none_or_over-cases row.lease_expires_at now (rw held.1 at h))
]

acquire-cases :
    (row : LeaseRow) (work : ServerWalletWorkItem) (now : ℤ) (token : String)
    → ((row' : LeaseRow) × IsOver row now
        × (acquire_processing_lease row work now token ≡ (row', some token)))
      ⊎ (acquire_processing_lease row work now token ≡ (row, none))
unfolding acquire_processing_lease acquire_lease
acquire-cases row work now token = elim (Bool-cases (is_free row now)) [
  | inl free ↦
      inl
        ((acquire_processing_lease row work now token).0, is_free-IsOver row now free, rw free refl)
  | inr taken ↦ inr (rw taken refl)
]

module _ (around : Surroundings) (acceptance : Option ℤ) (contract_address : String) where
  -- What a call did under the lease, on the tables as they were read again: nothing was runnable, or it
  -- did the first of the runnable works, and returned or threw what that work did.
  abbrev pub HasWorked : WorkTables → ℤ → Server × Result ServerWalletProcessingResult → Type 0
  HasWorked t started_at r =
      ((r.0.tables ≡ t)
        × (r.1 ≡ ok idle)
        × (runnable t started_at acceptance contract_address ≡ []))
      ⊎ ((w : ServerWalletWorkItem) × IsFirst w (runnable t started_at acceptance contract_address)
          × (r.0.tables ≡ (around.process_work w t).0)
          × ((r.1 ≡ ok (processed w)) ⊎ ((e : String) × (r.1 ≡ throw e))))

  abbrev pub Outcome : ℤ → ℤ → Server → Server × Result ServerWalletProcessingResult → Type 0
  Outcome now started_at s r =
      let asked = around.before_taking s in
      (r ≡ (s, ok idle))
      ⊎ (((w : ServerWalletWorkItem) × (r ≡ (asked, ok (busy w))))
          ⊎ (IsOver asked.lease now × HasWorked (around.before_reading asked.tables) started_at r))

  finished-cases :
      (w : ServerWalletWorkItem) (done : Result (Unit {0}))
      → (finished around acceptance contract_address w done ≡ ok (processed w))
        ⊎ ((e : String) × (finished around acceptance contract_address w done ≡ throw e))
  finished-cases w (ok tt) = inl refl
  finished-cases w (throw e) = inr (e, refl)

  leased-HasWorked :
      (work : ServerWalletWorkItem) (started_at ends_at : ℤ) (t : WorkTables) (row : LeaseRow)
      (token : String)
      → HasWorked (around.before_reading t) started_at (
          process_leased around acceptance contract_address work started_at ends_at t
            (row, some token))
  unfolding process_leased process_selected
  leased-HasWorked work started_at ends_at t row token =
      let t' = around.before_reading t in
      elim (next_server_wallet_work-IsFirst t' started_at acceptance contract_address) [
        | inl nothing ↦ rw nothing.0 (inl (refl, refl, nothing.1))
        | inr (w, selected, first) ↦
            rw selected (inr (w, first, refl, finished-cases w (around.process_work w t').1))
      ]

  found-Outcome :
      (now started_at ends_at : ℤ) (token : String) (s : Server)
      (work : Option ServerWalletWorkItem)
      → holds s.lease.lease_token token ≡ false
      → holds (around.before_taking s).lease.lease_token token ≡ false
      → let r =
          process_found around acceptance contract_address now started_at ends_at token s work in
        (holds r.0.lease.lease_token token ≡ false) × Outcome now started_at s r
  unfolding process_found process_leased
  found-Outcome now started_at ends_at token s none fresh still = (fresh, inl refl)
  found-Outcome now started_at ends_at token s (some work) fresh still =
      let asked = around.before_taking s in
      elim (acquire-cases asked.lease work now token) [
        | inr taken ↦ rw taken (still, inr (inl (work, refl)))
        | inl (row, free, got) ↦ rw got (
          release_lease-holds (around.before_release row) token ends_at,
          inr (inr (free, leased-HasWorked work started_at ends_at asked.tables row token)),
        )
      ]

  -- For a token that the lease does not have, neither when the call begins nor when it asks for the
  -- lease, and whatever others do at the points that `Surroundings` names: after a call, also when its
  -- work throws, the lease is not held by the call's token. Either the call is idle and changes nothing,
  -- or it is busy and leaves the server as it is when it asks for the lease, or the lease then has no
  -- holder or is over. In the last case it is idle when nothing is runnable as it reads the tables again,
  -- and else it does one of the runnable works, none of which is older than that, nor as old and of a
  -- smaller precedence, and it answers with that work or throws.
  pub process_next_server_wallet_work-holds :
      (now started_at ends_at : ℤ) (token : String) (s : Server)
      → holds s.lease.lease_token token ≡ false
      → holds (around.before_taking s).lease.lease_token token ≡ false
      → let r =
          process_next_server_wallet_work around acceptance contract_address now started_at ends_at
            token s in
        (holds r.0.lease.lease_token token ≡ false) × Outcome now started_at s r
  unfolding process_next_server_wallet_work
  process_next_server_wallet_work-holds now started_at ends_at token s fresh still =
      elim (Bool-cases (is_hex 64 contract_address)) [
        | inr no_address ↦ rw no_address (fresh, inl refl)
        | inl address ↦ rw address (
            found-Outcome now started_at ends_at token s
              (next_server_wallet_work s.tables now acceptance contract_address) fresh still)
      ]
