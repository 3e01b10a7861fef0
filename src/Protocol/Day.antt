-- ===== src/Protocol/Day.antt =====
-- shared/measurement-protocol/src/operational-day.ts. Instants are milliseconds since the epoch.
pub mod Laws
use midnight_buildathons_bac.Prelude.{
  ℕ, ◌+◌, ◌*◌, ◌≡◌, String, Bool, true, false, ◌&&◌, Option, none, some, str_eq, if◌then◌else◌,
}
use midnight_buildathons_bac.Prelude.Int.{ℤ, pos, negsuc, ◌+ℤ◌, ◌-ℤ◌, scale, leb_ℤ, div_floor, rem}
use midnight_buildathons_bac.Prelude.Results.{Result, ok, throw, ◌>>=◌, ◌>>◌, require}

abbrev pub minute_ms : ℕ
minute_ms = 60_000

abbrev pub hour_ms : ℕ
hour_ms = 3_600_000

abbrev pub day_ms : ℕ
day_ms = 86_400_000

-- -14 * 60
abbrev pub min_time_zone_offset_minutes : ℤ
min_time_zone_offset_minutes = negsuc 839

abbrev pub max_time_zone_offset_minutes : ℤ
max_time_zone_offset_minutes = pos 840

-- What `Date` does between a text YYYY-MM-DD and a day counted from the epoch.
pub record Calendar : Type 0 where
  -- `new Date(day * 86_400_000).toISOString().slice(0, 10)`
  pub date_text : ℤ → String
  -- `Date.UTC(year, month - 1, day)` in days, for a text that matches /^\d{4}-\d{2}-\d{2}$/.
  pub utc_day : String → Option ℤ
  -- The days whose text has a year of four digits that `Date.UTC` takes as it stands.
  pub is_plain : ℤ → Bool
  pub utc_day-date_text : (d : ℤ) → is_plain d ≡ true → utc_day (date_text d) ≡ some d

-- Both numbers are integers here; a number that is not one is refused by the same messages.
pub record OperationalDayBoundary : Type 0 where
  pub time_zone_offset_minutes : ℤ
  pub local_day_start_hour : ℤ

unfoldable pub validate_operational_day_boundary :
    OperationalDayBoundary → Result OperationalDayBoundary
validate_operational_day_boundary b = do
  require
      (leb_ℤ min_time_zone_offset_minutes b.time_zone_offset_minutes
        && leb_ℤ b.time_zone_offset_minutes max_time_zone_offset_minutes)
      "timeZoneOffsetMinutes is outside the supported range"
  require (leb_ℤ (pos 0) b.local_day_start_hour && leb_ℤ b.local_day_start_hour (pos 23))
      "localDayStartHour must be an integer from 0 through 23"
  ok b

-- `((value % divisor) + divisor) % divisor`
unfoldable pub modulo : ℤ → ℕ → ℤ
modulo value divisor = rem (rem value divisor +ℤ pos divisor) divisor

unfoldable pub utc_day_start_minute : OperationalDayBoundary → Result ℤ
utc_day_start_minute boundary = do
  validated ← validate_operational_day_boundary boundary
  let unwrapped = scale 60 validated.local_day_start_hour -ℤ validated.time_zone_offset_minutes
  ok (modulo unwrapped 1440)

module _ (calendar : Calendar) where
  open calendar use {date_text, utc_day}

  unfoldable pub operational_period_start : String → OperationalDayBoundary → Result ℤ
  operational_period_start period_date boundary = do
    b ← validate_operational_day_boundary boundary
    day ← elim (utc_day period_date) [
      | none ↦ throw "periodDate must be YYYY-MM-DD"
      | some d ↦ ok d
    ]
    let local = scale day_ms day +ℤ scale hour_ms b.local_day_start_hour
    let start = local -ℤ scale minute_ms b.time_zone_offset_minutes
    let shifted = date_text (div_floor (start +ℤ scale minute_ms b.time_zone_offset_minutes) day_ms)
    require (str_eq shifted period_date) "periodDate is not a valid calendar date"
    ok start

  unfoldable pub operational_period_date : ℤ → OperationalDayBoundary → Result String
  operational_period_date value boundary = do
    b ← validate_operational_day_boundary boundary
    let shifted = value +ℤ scale minute_ms b.time_zone_offset_minutes
    ok (date_text (div_floor (shifted -ℤ scale hour_ms b.local_day_start_hour) day_ms))
