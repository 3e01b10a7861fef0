-- ===== src/Sponsor/Window.antt =====
-- sponsor-operating-window.ts of backend/cloudflare/proof-gateway-worker/src: when the wallet may
-- work, and on which jobs. Instants are integers, milliseconds since the epoch; a text of the row is
-- such an instant or no date. The row's numbers are whole.
pub mod Laws
use midnight_buildathons_bac.Prelude.{
  ◌+◌, String, Bool, true, false, ◌&&◌, ◌||◌, not, Option, none, some, if◌then◌else◌,
}
use midnight_buildathons_bac.Prelude.Int.{
  ℤ, pos, negsuc, ◌+ℤ◌, ◌-ℤ◌, scale, leb_ℤ, ltb_ℤ, eqb_ℤ, div_floor,
}
use midnight_buildathons_bac.Prelude.Results.{Result, ok, throw, ◌>>=◌, ◌>>◌, require}
use midnight_buildathons_bac.Protocol.Day.{modulo, minute_ms}

pub data SponsorWalletOperatingMode : Type 0 where
  always_on on_demand scheduled : SponsorWalletOperatingMode

pub data DateText : Type 0 where
  instant : ℤ → DateText
  no_date : DateText

pub record SponsorWalletOperatingScheduleRow : Type 0 where
  pub mode : SponsorWalletOperatingMode
  pub time_zone_offset_minutes : ℤ
  pub opens_at_minute : ℤ
  pub closes_at_minute : ℤ
  pub processing_starts_at_minute : Option ℤ
  pub last_stopped_at : Option DateText
  pub next_start_allowed_at : Option DateText
  pub updated_at : Option ℤ

pub data Source : Type 0 where
  d1 configuration_unavailable : Source

pub record SponsorWalletOperatingWindow : Type 0 where
  pub mode : SponsorWalletOperatingMode
  pub time_zone_offset_minutes : ℤ
  pub opens_at_minute : ℤ
  pub closes_at_minute : ℤ
  pub processing_starts_at_minute : ℤ
  pub is_open : Bool
  pub execution_allowed : Bool
  pub start_allowed : Bool
  pub evaluated_at : ℤ
  pub next_opens_at : Option ℤ
  pub next_processing_starts_at : Option ℤ
  pub eligible_through : Option ℤ
  pub current_window_closes_at : Option ℤ
  pub last_stopped_at : Option DateText
  pub next_start_allowed_at : Option DateText
  pub updated_at : Option ℤ
  pub source : Source

abbrev pub restart_cooldown_milliseconds : ℤ
restart_cooldown_milliseconds = pos 60000

abbrev pub default_sponsor_wallet_schedule : SponsorWalletOperatingScheduleRow
default_sponsor_wallet_schedule = record {
  mode = scheduled;
  time_zone_offset_minutes = pos 540;
  opens_at_minute = pos 120;
  closes_at_minute = pos 360;
  processing_starts_at_minute = some (pos 120);
  last_stopped_at = none;
  next_start_allowed_at = none;
  updated_at = none;
}

-- `processing_starts_at_minute ?? opens_at_minute`
abbrev pub or_else : Option ℤ → ℤ → ℤ
or_else none d = d
or_else (some a) d = a

abbrev pub is_date : Option DateText → Bool
is_date none = true
is_date (some (instant t)) = true
is_date (some no_date) = false

abbrev pub is_minute_of_day : ℤ → Bool
is_minute_of_day m = not (ltb_ℤ m (pos 0) || leb_ℤ (pos 1440) m)

unfoldable pub valid_schedule : SponsorWalletOperatingScheduleRow → Bool
valid_schedule row =
    not (
      ltb_ℤ row.time_zone_offset_minutes (negsuc 839)
      || ltb_ℤ (pos 840) row.time_zone_offset_minutes)
    && is_minute_of_day row.opens_at_minute
    && is_minute_of_day row.closes_at_minute
    && is_minute_of_day (or_else row.processing_starts_at_minute row.opens_at_minute)
    && is_date row.last_stopped_at
    && is_date row.next_start_allowed_at

unfoldable pub instant_at_local_minute : ℤ → ℤ → ℤ → Bool → ℤ
instant_at_local_minute evaluated_at time_zone_offset_minutes target_minute include_current =
    let utc_epoch_minute = div_floor evaluated_at minute_ms in
    let local_minute = modulo (utc_epoch_minute +ℤ time_zone_offset_minutes) 1440 in
    let delta = target_minute -ℤ local_minute in
    let delta' =
      if ltb_ℤ delta (pos 0) || (not include_current && eqb_ℤ delta (pos 0))
      then delta +ℤ pos 1440
      else delta in
    scale minute_ms (utc_epoch_minute +ℤ delta')

abbrev pub is_d1 : Source → Bool
is_d1 d1 = true
is_d1 configuration_unavailable = false

abbrev pub not_after : Option DateText → ℤ → Bool
not_after none t = true
not_after (some (instant s)) t = leb_ℤ s t
not_after (some no_date) t = false

-- The last instant, not after the evaluation, at which the local clock showed the minute.
unfoldable pub cutoff_minute : ℤ → ℤ → ℤ → ℤ
cutoff_minute evaluated_at time_zone_offset_minutes processing_starts_at_minute =
    let utc_epoch_minute = div_floor evaluated_at minute_ms in
    let local_minute = modulo (utc_epoch_minute +ℤ time_zone_offset_minutes) 1440 in
    utc_epoch_minute -ℤ modulo (local_minute -ℤ processing_starts_at_minute) 1440

abbrev pub unscheduled_window :
    SponsorWalletOperatingScheduleRow → ℤ → Source → SponsorWalletOperatingWindow
unscheduled_window schedule evaluated_at source = record {
  mode = schedule.mode;
  time_zone_offset_minutes = schedule.time_zone_offset_minutes;
  opens_at_minute = schedule.opens_at_minute;
  closes_at_minute = schedule.closes_at_minute;
  processing_starts_at_minute =
      or_else schedule.processing_starts_at_minute schedule.opens_at_minute;
  is_open = true;
  execution_allowed = is_d1 source;
  start_allowed = is_d1 source && not_after schedule.next_start_allowed_at evaluated_at;
  evaluated_at = evaluated_at;
  next_opens_at = none;
  next_processing_starts_at = none;
  eligible_through = none;
  current_window_closes_at = none;
  last_stopped_at = schedule.last_stopped_at;
  next_start_allowed_at = schedule.next_start_allowed_at;
  updated_at = schedule.updated_at;
  source = source;
}

abbrev pub scheduled_window :
    SponsorWalletOperatingScheduleRow → ℤ → Source → SponsorWalletOperatingWindow
scheduled_window schedule evaluated_at source =
    let starts = or_else schedule.processing_starts_at_minute schedule.opens_at_minute in
    let cutoff = cutoff_minute evaluated_at schedule.time_zone_offset_minutes starts in
    record (unscheduled_window schedule evaluated_at source) {
      is_open = false;
      next_opens_at = some (scale minute_ms (cutoff +ℤ pos 1440));
      next_processing_starts_at = some (scale minute_ms (cutoff +ℤ pos 1440));
      eligible_through = some (scale minute_ms cutoff);
    }

abbrev pub window_of_mode :
    SponsorWalletOperatingMode
    → SponsorWalletOperatingScheduleRow
    → ℤ
    → Source
    → SponsorWalletOperatingWindow
window_of_mode always_on = unscheduled_window
window_of_mode on_demand = unscheduled_window
window_of_mode scheduled = scheduled_window

unfoldable pub evaluate_sponsor_wallet_operating_window :
    SponsorWalletOperatingScheduleRow → ℤ → Source → Result SponsorWalletOperatingWindow
evaluate_sponsor_wallet_operating_window schedule evaluated_at source = do
  require (valid_schedule schedule) "Sponsor Wallet operating schedule is invalid"
  ok (window_of_mode schedule.mode schedule evaluated_at source)

-- What stands in for a row that cannot be used.
unfoldable pub fallback_window : ℤ → Result SponsorWalletOperatingWindow
fallback_window evaluated_at = do
  fallback ←
      evaluate_sponsor_wallet_operating_window default_sponsor_wallet_schedule evaluated_at
        configuration_unavailable
  let next =
      instant_at_local_minute evaluated_at fallback.time_zone_offset_minutes
        fallback.processing_starts_at_minute false
  ok (record fallback {
    is_open = false;
    execution_allowed = false;
    start_allowed = false;
    next_opens_at = some next;
    next_processing_starts_at = some next;
    eligible_through = none;
    current_window_closes_at = none;
    updated_at = none;
  })

-- The database's answer is an error, no row, or a row.
unfoldable pub read_schedule :
    Result (Option SponsorWalletOperatingScheduleRow) → ℤ → Result SponsorWalletOperatingWindow
read_schedule (throw e) evaluated_at = throw e
read_schedule (ok none) evaluated_at = throw "Sponsor Wallet operating schedule row is invalid"
read_schedule (ok (some row)) evaluated_at = do
  require (valid_schedule row) "Sponsor Wallet operating schedule row is invalid"
  evaluate_sponsor_wallet_operating_window row evaluated_at d1

unfoldable pub or_fallback :
    ℤ → Result SponsorWalletOperatingWindow → Result SponsorWalletOperatingWindow
or_fallback evaluated_at (ok w) = ok w
or_fallback evaluated_at (throw e) = fallback_window evaluated_at

unfoldable pub sponsor_wallet_operating_window :
    Result (Option SponsorWalletOperatingScheduleRow) → ℤ → Result SponsorWalletOperatingWindow
sponsor_wallet_operating_window row evaluated_at =
    or_fallback evaluated_at (read_schedule row evaluated_at)

-- The row after the wallet stopped.
unfoldable pub record_sponsor_wallet_stopped :
    ℤ → SponsorWalletOperatingScheduleRow → SponsorWalletOperatingScheduleRow
record_sponsor_wallet_stopped stopped_at row = record row {
  last_stopped_at = some (instant stopped_at);
  next_start_allowed_at = some (instant (stopped_at +ℤ restart_cooldown_milliseconds));
  updated_at = some stopped_at;
}

abbrev pub accepted_in_time : SponsorWalletOperatingMode → Option ℤ → ℤ → Bool
accepted_in_time always_on eligible_through accepted_at = true
accepted_in_time on_demand eligible_through accepted_at = true
accepted_in_time scheduled none accepted_at = false
accepted_in_time scheduled (some e) accepted_at = leb_ℤ accepted_at e

unfoldable pub sponsor_work_is_eligible : SponsorWalletOperatingWindow → DateText → Bool
sponsor_work_is_eligible schedule no_date = false
sponsor_work_is_eligible schedule (instant accepted_at) =
    schedule.execution_allowed
    && accepted_in_time schedule.mode schedule.eligible_through accepted_at
