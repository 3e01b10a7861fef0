-- ===== src/Sponsor/Quota/Laws.antt =====
-- The reservations of a day over a run of requests, and the bounds of the quota's day.
use text.Mathlib.TextPositions.{eq_refl}
use midnight_buildathons_bac.Prelude.{
  ℕ, ◌+◌, ◌≤◌, ◌<◌, ◌⊎◌, ltb→lt, ◌≡◌, refl, ap, subst, String, Bool, true, false, ◌&&◌, Option,
  none, some, List, [], ◌∷◌, ◌++◌, length, arith, if◌then◌else◌, ltb, Bool-cases, inl, inr, eq_iff,
  str_eq,
}
use midnight_buildathons_bac.Prelude.Int.{
  ℤ, pos, ◌+ℤ◌, ◌-ℤ◌, scale, div_floor, ◌≤ℤ◌, ◌<ℤ◌, eqb_ℤ, int_laws, div_floor_bounds,
}
use midnight_buildathons_bac.Protocol.Day.{day_ms, hour_ms}
use midnight_buildathons_bac.Sponsor.Quota.{
  DeviceRow, ReservationRow, Database, sponsor_quota_window, find_device, is_of_day,
  reservations_of, find_job, insert_or_keep, insert_for, reserve_sponsor_quota,
  jst_offset_milliseconds, seconds_up, at_least_one,
}

below_one : (s : ℤ) → at_least_one s ≡ false → s ≤ℤ pos 0
below_one s h = ground arith

-- Whole seconds that are at least as long.
seconds_up-reaches : (ms : ℤ) → ms ≤ℤ scale 1000 (seconds_up ms)
seconds_up-reaches ms =
    let up = div_floor_bounds (ms +ℤ pos 999) 1000 (omega arith) in
    let over : ms ≤ℤ scale 1000 (div_floor (ms +ℤ pos 999) 1000) = omega (int_laws, up) in
    elim (Bool-cases (at_least_one (div_floor (ms +ℤ pos 999) 1000))) [
      | inl some_second ↦ rw some_second over
      | inr none_left ↦
          let low = below_one (div_floor (ms +ℤ pos 999) 1000) none_left in
          rw none_left (omega (int_laws, over, low))
    ]

reset-next :
    (now : ℤ)
    → (sponsor_quota_window (sponsor_quota_window now).reset_at).quota_date
      ≡ (sponsor_quota_window now).quota_date +ℤ pos 1
unfolding sponsor_quota_window
reset-next now =
    let quota = div_floor (now +ℤ jst_offset_milliseconds) day_ms in
    let next =
      div_floor_bounds (scale day_ms quota +ℤ scale hour_ms (pos 15) +ℤ jst_offset_milliseconds)
        day_ms (omega arith) in
    omega (int_laws, next)

-- The reset is after the instant and at most one day later, waiting for `retryAfterSeconds` reaches
-- it, and the quota's day at the reset is the next one.
pub sponsor_quota_window-reset :
    (now : ℤ)
    → let w = sponsor_quota_window now in
      (now <ℤ w.reset_at)
      × (w.reset_at ≤ℤ now +ℤ pos day_ms)
      × (w.reset_at ≤ℤ now +ℤ scale 1000 w.retry_after_seconds)
      × ((sponsor_quota_window w.reset_at).quota_date ≡ w.quota_date +ℤ pos 1)
unfolding sponsor_quota_window
sponsor_quota_window-reset now =
    let day = div_floor_bounds (now +ℤ jst_offset_milliseconds) day_ms (omega arith) in
    let reset = (sponsor_quota_window now).reset_at in
    let reached = seconds_up-reaches (reset -ℤ now) in
    (omega (int_laws, day), omega (int_laws, day), omega (int_laws, reached), reset-next now)

length-reservations_of :
    (rows : List ReservationRow) (new : ReservationRow) (device : String) (date : ℤ)
    → length (reservations_of (rows ++ (new ∷ [])) device date)
      ≡ length (reservations_of rows device date) + (if is_of_day device date new then 1 else 0)
unfolding reservations_of
length-reservations_of [] new device date = ground arith
length-reservations_of (r ∷ rows) new device date =
    ground (arith, length-reservations_of rows new device date)

find_job-append :
    (rows : List ReservationRow) (new : ReservationRow)
    → find_job rows new.proof_job_id ≡ none
    → find_job (rows ++ (new ∷ [])) new.proof_job_id ≡ some new
unfolding find_job
find_job-append [] new h = rw (eq_refl new.proof_job_id) refl
find_job-append (r ∷ rows) new h = elim (Bool-cases (str_eq r.proof_job_id new.proof_job_id)) [
  | inl same ↦ absurd (cc (rw same at h))
  | inr other ↦ rw other (find_job-append rows new (rw other at h))
]

and_true : (a b : Bool) → (a && b) ≡ true → (a ≡ true) × (b ≡ true)
and_true a b h = ground arith

eqb_ℤ-eq : (a b : ℤ) → eqb_ℤ a b ≡ true → a ≡ b
eqb_ℤ-eq a b h = ground arith

module _ (limit : String → ℕ) where
  -- On every day no device has more reservations than its limit.
  abbrev pub IsWithin : List ReservationRow → Type 0
  IsWithin rows =
      (device : String) (date : ℤ) → length (reservations_of rows device date) ≤ limit device

  append_of_day :
      (rows : List ReservationRow) (new : ReservationRow) (device : String) (date : ℤ)
      → length (reservations_of rows new.device_id new.quota_date) < limit new.device_id
      → is_of_day device date new ≡ true
      → length (reservations_of (rows ++ (new ∷ [])) device date)
        ≡ length (reservations_of rows device date) + 1
      → length (reservations_of (rows ++ (new ∷ [])) device date) ≤ limit device
  append_of_day rows new device date free of_day total =
      let both = and_true (str_eq new.device_id device) (eqb_ℤ new.quota_date date) of_day in
      let same_device : new.device_id ≡ device = (eq_iff new.device_id device).0 both.0 in
      let same_date : new.quota_date ≡ date = eqb_ℤ-eq new.quota_date date both.1 in
      let free' : length (reservations_of rows device date) < limit device =
        subst (λ x. length (reservations_of rows x date) < limit x) same_device
          (subst (λ y. length (reservations_of rows new.device_id y) < limit new.device_id)
            same_date free) in
      omega (arith, total, free')

  append-IsWithin :
      (rows : List ReservationRow) (new : ReservationRow)
      → length (reservations_of rows new.device_id new.quota_date) < limit new.device_id
      → IsWithin rows
      → IsWithin (rows ++ (new ∷ []))
  append-IsWithin rows new free h device date =
      let total = length-reservations_of rows new device date in
      elim (Bool-cases (is_of_day device date new)) [
        | inr other ↦ omega (arith, h device date, rw other at total)
        | inl of_day ↦ append_of_day rows new device date free of_day (rw of_day at total)
      ]

  -- The requests, each with its device, project, job and instant.
  unfoldable pub reserve_all : Database → List (String × String × String × ℤ) → Database
  reserve_all db [] = db
  reserve_all db ((device, project, job, now) ∷ rest) =
      reserve_all (reserve_sponsor_quota db device project job now).0 rest

  insert_or_keep-cases :
      (o : Option ReservationRow) (d : DeviceRow) (rows : List ReservationRow)
      (new : ReservationRow)
      → ((insert_or_keep o d.sponsor_daily_limit rows new).0 ≡ rows)
        ⊎ (((insert_or_keep o d.sponsor_daily_limit rows new).0 ≡ rows ++ (new ∷ []))
            × (length (reservations_of rows new.device_id new.quota_date) < d.sponsor_daily_limit))
  insert_or_keep-cases (some r) d rows new = inl refl
  insert_or_keep-cases none d rows new =
      let count = length (reservations_of rows new.device_id new.quota_date) in
      let chosen : (b : Bool)
          → ltb count d.sponsor_daily_limit ≡ b
          → insert_or_keep none d.sponsor_daily_limit rows new
            ≡ (if b then (rows ++ (new ∷ []), true) else (rows, false)) =
        λ b h. rw h refl in
      elim (Bool-cases (ltb count d.sponsor_daily_limit)) [
        | inl free ↦ inr (ap (λ p. p.0) (chosen true free), ltb→lt _ _ free)
        | inr full ↦ inl (ap (λ p. p.0) (chosen false full))
      ]

  -- Nothing is inserted, or one reservation where there were fewer than the device's limit.
  insert_for-cases :
      (d : DeviceRow) (rows : List ReservationRow) (new : ReservationRow)
      → ((insert_for (some d) rows new).0 ≡ rows)
        ⊎ (((insert_for (some d) rows new).0 ≡ rows ++ (new ∷ []))
            × (length (reservations_of rows new.device_id new.quota_date) < d.sponsor_daily_limit))
  unfolding insert_for
  insert_for-cases d rows new = insert_or_keep-cases (find_job rows new.proof_job_id) d rows new

  insert_for-IsWithin :
      (found : Option DeviceRow) (rows : List ReservationRow) (new : ReservationRow)
      → ((d : DeviceRow) → found ≡ some d → d.sponsor_daily_limit ≤ limit new.device_id)
      → IsWithin rows
      → IsWithin (insert_for found rows new).0
  insert_for-IsWithin none rows new bound h = unfold insert_for in h
  insert_for-IsWithin (some d) rows new bound h = elim (insert_for-cases d rows new) [
    | inl same ↦ rw same h
    | inr (added, free) ↦ rw added (append-IsWithin rows new (omega (arith, free, bound d refl)) h)
  ]

  reserve_all-keeps :
      (db : Database) (requests : List (String × String × String × ℤ))
      → ((device project : String) (d : DeviceRow)
          → find_device db.devices device project ≡ some d
          → d.sponsor_daily_limit ≤ limit device)
      → IsWithin db.reservations
      → IsWithin (reserve_all db requests).reservations
  unfolding reserve_all reserve_sponsor_quota
  reserve_all-keeps db [] bound h = h
  reserve_all-keeps db ((device, project, job, now) ∷ rest) bound h =
      reserve_all-keeps (reserve_sponsor_quota db device project job now).0 rest bound (
        insert_for-IsWithin (find_device db.devices device project) db.reservations _
          (bound device project) h)

  -- Whatever requests are made of an empty table, in any order and at any instants, no device gets
  -- more reservations on a day than a bound on the daily limits of its registered rows.
  pub reserve_all-IsWithin :
      (devices : List DeviceRow) (requests : List (String × String × String × ℤ))
      → ((device project : String) (d : DeviceRow)
          → find_device devices device project ≡ some d
          → d.sponsor_daily_limit ≤ limit device)
      → IsWithin
          (reserve_all (record { devices = devices; reservations = [] }) requests).reservations
  reserve_all-IsWithin devices requests bound =
      reserve_all-keeps (record { devices = devices; reservations = [] }) requests bound
        (λ device date. unfold reservations_of in omega arith)
