-- ===== src/Protocol/Day/Laws.antt =====
-- The operational day: its first minute, and the instants that belong to a date.
use text.Mathlib.TextPositions.{eq_refl}
use midnight_buildathons_bac.Prelude.{
  ℕ, ◌<◌, ◌≡◌, sym, ap, ◌∙◌, String, true, some, eq_iff, arith, Option-cases, inl, inr, ◌⊎◌, ◌↔◌,
}
use midnight_buildathons_bac.Prelude.Int.{
  ℤ, pos, negsuc, ◌+ℤ◌, ◌-ℤ◌, scale, div_floor, rem, ◌≤ℤ◌, ◌<ℤ◌, int_laws, div_floor_bounds,
  parts_of_eq,
}
use midnight_buildathons_bac.Prelude.Results.{ok, throw, require-eq-ok, ok-injective}
use midnight_buildathons_bac.Protocol.Day.{
  minute_ms, hour_ms, day_ms, min_time_zone_offset_minutes, max_time_zone_offset_minutes, Calendar,
  OperationalDayBoundary, validate_operational_day_boundary, modulo, utc_day_start_minute,
  operational_period_start, operational_period_date,
}

-- The bounds that a valid boundary keeps.
pub record IsValidBoundary (b : OperationalDayBoundary) : Type 0 where
  pub offset_low : min_time_zone_offset_minutes ≤ℤ b.time_zone_offset_minutes
  pub offset_high : b.time_zone_offset_minutes ≤ℤ max_time_zone_offset_minutes
  pub hour_low : pos 0 ≤ℤ b.local_day_start_hour
  pub hour_high : b.local_day_start_hour ≤ℤ pos 23

pub validate-IsValidBoundary :
    (b v : OperationalDayBoundary)
    → validate_operational_day_boundary b ≡ ok v
    → (v ≡ b) × IsValidBoundary b
unfolding validate_operational_day_boundary
validate-IsValidBoundary b v h = ground arith

pub validate_of_IsValidBoundary :
    (b : OperationalDayBoundary) → IsValidBoundary b → validate_operational_day_boundary b ≡ ok b
unfolding validate_operational_day_boundary
validate_of_IsValidBoundary b v = ground arith

pub modulo_bounds : (a : ℤ) (d : ℕ) → 0 < d → (pos 0 ≤ℤ modulo a d) × (modulo a d <ℤ pos d)
unfolding modulo rem ◌+ℤ◌
modulo_bounds (pos n) d h = ground arith
modulo_bounds (negsuc n) d h = ground arith

pub modulo_lem : (a : ℤ) → a ≡ modulo a 1440 +ℤ scale 1440 (div_floor a 1440)
unfolding modulo rem ◌+ℤ◌ scale div_floor
modulo_lem (pos n) = ground arith
modulo_lem (negsuc n) = ground arith

pub modulo_unique :
    (a m k : ℤ) → pos 0 ≤ℤ m → m <ℤ pos 1440 → a ≡ m +ℤ scale 1440 k → modulo a 1440 ≡ m
modulo_unique a m k low high e =
    let e' : m +ℤ scale 1440 k ≡ modulo a 1440 +ℤ scale 1440 (div_floor a 1440) =
      sym e ∙ modulo_lem a in
    omega (int_laws, modulo_bounds a 1440 (omega arith), parts_of_eq _ _ e')

-- Two day counts whose days share an instant are equal.
pub day_unique :
    (k m a : ℤ)
    → scale day_ms k ≤ℤ a
    → a <ℤ scale day_ms k +ℤ pos day_ms
    → scale day_ms m ≤ℤ a
    → a <ℤ scale day_ms m +ℤ pos day_ms
    → k ≡ m
day_unique k m a h1 h2 h3 h4 = omega int_laws

-- The first instant of the operational day of the calendar day `d`.
abbrev pub first_instant : OperationalDayBoundary → ℤ → ℤ
first_instant b d =
    scale day_ms d
    +ℤ scale hour_ms b.local_day_start_hour
    -ℤ scale minute_ms b.time_zone_offset_minutes

day_of_local :
    (d h : ℤ) → pos 0 ≤ℤ h → h ≤ℤ pos 23 → div_floor (scale day_ms d +ℤ scale hour_ms h) day_ms ≡ d
day_of_local d h lo hi =
    let a = scale day_ms d +ℤ scale hour_ms h in
    let b = div_floor_bounds a day_ms (omega arith) in
    day_unique (div_floor a day_ms) d a b.0 b.1 (omega int_laws) (omega int_laws)

local_day :
    (b : OperationalDayBoundary) (d : ℤ)
    → IsValidBoundary b
    → div_floor (first_instant b d +ℤ scale minute_ms b.time_zone_offset_minutes) day_ms ≡ d
local_day b d v =
    let a = scale day_ms d +ℤ scale hour_ms b.local_day_start_hour in
    let e : first_instant b d +ℤ scale minute_ms b.time_zone_offset_minutes ≡ a = omega int_laws in
    rw e (day_of_local d b.local_day_start_hour v.hour_low v.hour_high)

validate-cases :
    (b : OperationalDayBoundary)
    → (validate_operational_day_boundary b ≡ ok b)
      ⊎ ((e : String) × (validate_operational_day_boundary b ≡ throw e))
unfolding validate_operational_day_boundary
validate-cases b = ground arith

-- The day to which an instant belongs.
abbrev pub day_of_instant : OperationalDayBoundary → ℤ → ℤ
day_of_instant b t =
    div_floor
      (t +ℤ scale minute_ms b.time_zone_offset_minutes -ℤ scale hour_ms b.local_day_start_hour)
      day_ms

pub day_of_instant_unique :
    (b : OperationalDayBoundary) (d t : ℤ)
    → first_instant b d ≤ℤ t
    → t <ℤ first_instant b d +ℤ pos day_ms
    → day_of_instant b t ≡ d
day_of_instant_unique b d t lo hi =
    let a =
      t +ℤ scale minute_ms b.time_zone_offset_minutes -ℤ scale hour_ms b.local_day_start_hour in
    let q = div_floor_bounds a day_ms (omega arith) in
    day_unique (div_floor a day_ms) d a q.0 q.1 (omega int_laws) (omega int_laws)

pub day_of_instant_covers :
    (b : OperationalDayBoundary) (t : ℤ)
    → (first_instant b (day_of_instant b t) ≤ℤ t)
      × (t <ℤ first_instant b (day_of_instant b t) +ℤ pos day_ms)
day_of_instant_covers b t =
    let a =
      t +ℤ scale minute_ms b.time_zone_offset_minutes -ℤ scale hour_ms b.local_day_start_hour in
    let q = div_floor_bounds a day_ms (omega arith) in (omega (int_laws, q), omega (int_laws, q))

module _ (c : Calendar) where
  open c use {date_text, utc_day, is_plain, utc_day-date_text}

  -- What a successful start says.
  pub start_inversion :
      (text : String) (b : OperationalDayBoundary) (s : ℤ)
      → operational_period_start c text b ≡ ok s
      → (d : ℤ) × IsValidBoundary b × (s ≡ first_instant b d) × (date_text d ≡ text)
  unfolding operational_period_start
  start_inversion text b s h = elim (validate-cases b) [
    | inr (e, bad) ↦ cc (rw (bad, operational_period_start) at h)
    | inl good ↦ elim (Option-cases (utc_day text)) [
      | inl missing ↦ cc (rw (good, missing) at h)
      | inr (d, found) ↦
          let v = (validate-IsValidBoundary b b good).1 in
          let (same, done) = require-eq-ok _ _ (ok (first_instant b d)) (rw (good, found) at h) in
          (d, v, sym (ok-injective _ _ done), (eq_iff _ _).0 (rw (local_day b d v) at same))
    ]
  ]

  pub start_of_day :
      (b : OperationalDayBoundary) (d : ℤ)
      → IsValidBoundary b
      → utc_day (date_text d) ≡ some d
      → operational_period_start c (date_text d) b ≡ ok (first_instant b d)
  unfolding operational_period_start
  start_of_day b d v e = rw (validate_of_IsValidBoundary b v, e, local_day b d v, eq_refl)

  pub period_date_of_day :
      (b : OperationalDayBoundary) (t : ℤ)
      → IsValidBoundary b
      → operational_period_date c t b ≡ ok (date_text (day_of_instant b t))
  unfolding operational_period_date
  period_date_of_day b t v = rw (validate_of_IsValidBoundary b v)

-- Every instant lies in the operational day that `operationalPeriodDate` names: for a valid
-- boundary, where `Date` reads the date of that day back, `operationalPeriodStart` accepts the
-- date, and the instant lies in the 24 hours from the start that it returns.
pub operational_period_date-start :
    (c : Calendar) (b : OperationalDayBoundary) (t : ℤ)
    → IsValidBoundary b
    → c.is_plain (day_of_instant b t) ≡ true
    → (text : String) × (s : ℤ) × (operational_period_date c t b ≡ ok text)
      × (operational_period_start c text b ≡ ok s)
      × (s ≤ℤ t)
      × (t <ℤ s +ℤ pos day_ms)
operational_period_date-start c b t v plain =
    let d = day_of_instant b t in
    let (low, high) = day_of_instant_covers b t in
    (
      c.date_text d,
      first_instant b d,
      period_date_of_day c b t v,
      start_of_day c b d v (c.utc_day-date_text d plain),
      low,
      high,
    )

-- Where `operationalPeriodStart` accepts a date, `operationalPeriodDate` gives that date to each
-- instant of the 24 hours from the start, whatever texts `Date` makes.
pub operational_period_start-date :
    (c : Calendar) (text : String) (b : OperationalDayBoundary) (s t : ℤ)
    → operational_period_start c text b ≡ ok s
    → s ≤ℤ t
    → t <ℤ s +ℤ pos day_ms
    → operational_period_date c t b ≡ ok text
operational_period_start-date c text b s t h low high =
    let (d, v, start, same) = start_inversion c text b s h in
    let e = day_of_instant_unique b d t (rw start at low) (rw start at high) in
    rw (period_date_of_day c b t v, e, same)

-- `utcDayStartMinute` succeeds exactly at a valid boundary, and then returns the minute of the UTC
-- day, from 0 to 1439, that lies a whole number of days from `60 * localDayStartHour - offset`.
pub utc_day_start_minute_lem :
    (b : OperationalDayBoundary) (m : ℤ)
    → (utc_day_start_minute b ≡ ok m) ↔ (
        IsValidBoundary b
        × (pos 0 ≤ℤ m)
        × (m <ℤ pos 1440)
        × ((k : ℤ) × (scale 60 b.local_day_start_hour -ℤ b.time_zone_offset_minutes
              ≡ m +ℤ scale 1440 k)))
unfolding utc_day_start_minute
utc_day_start_minute_lem b m = (to, from)
  where
    u : ℤ
    u = scale 60 b.local_day_start_hour -ℤ b.time_zone_offset_minutes

    to :
        utc_day_start_minute b ≡ ok m
        → IsValidBoundary b × (pos 0 ≤ℤ m) × (m <ℤ pos 1440) × ((k : ℤ) × (u ≡ m +ℤ scale 1440 k))
    to h = elim (validate-cases b) [
      | inr (e, bad) ↦ cc (rw (bad, utc_day_start_minute) at h)
      | inl good ↦
          let e = ok-injective _ _ (rw good at h) in
          let (low, high) = modulo_bounds u 1440 (omega arith) in
          (
            (validate-IsValidBoundary b b good).1,
            rw (← e) low,
            rw (← e) high,
            (div_floor u 1440, rw (← e) (modulo_lem u)),
          )
    ]

    from :
        IsValidBoundary b × (pos 0 ≤ℤ m) × (m <ℤ pos 1440) × ((k : ℤ) × (u ≡ m +ℤ scale 1440 k))
        → utc_day_start_minute b ≡ ok m
    from (v, low, high, (k, e)) =
        rw (validate_of_IsValidBoundary b v) (ap ok (modulo_unique u m k low high e))
