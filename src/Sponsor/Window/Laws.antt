-- ===== src/Sponsor/Window/Laws.antt =====
-- The instants of a scheduled window, and what a row that cannot be used gives.
use midnight_buildathons_bac.Prelude.{
  ◌≡◌, ◌||◌, ◌&&◌, not, String, refl, sym, ap, ◌∙◌, subst, true, false, Option, some, arith,
  Bool-cases, inl, inr, ◌↔◌, if◌then◌else◌,
}
use midnight_buildathons_bac.Prelude.Int.{
  ℤ, pos, negsuc, ◌+ℤ◌, ◌-ℤ◌, scale, ◌≤ℤ◌, ◌<ℤ◌, leb_ℤ, ltb_ℤ, eqb_ℤ, div_floor, int_laws,
  div_floor_bounds, parts_of_eq,
}
use midnight_buildathons_bac.Prelude.Results.{Result, ok, throw, ok-injective}
use midnight_buildathons_bac.Protocol.Day.{modulo, minute_ms, day_ms}
use midnight_buildathons_bac.Protocol.Day.Laws.{modulo_bounds, modulo_lem, modulo_unique}
use midnight_buildathons_bac.Sponsor.Window.{
  SponsorWalletOperatingMode, scheduled, always_on, on_demand, DateText, instant, no_date,
  not_after, accepted_in_time, SponsorWalletOperatingScheduleRow, Source, d1,
  configuration_unavailable, SponsorWalletOperatingWindow, or_else, valid_schedule,
  instant_at_local_minute, cutoff_minute, scheduled_window, window_of_mode,
  evaluate_sponsor_wallet_operating_window, fallback_window, read_schedule, or_fallback,
  sponsor_wallet_operating_window, record_sponsor_wallet_stopped, sponsor_work_is_eligible,
  default_sponsor_wallet_schedule,
}

minute_floor :
    (t : ℤ)
    → (scale minute_ms (div_floor t minute_ms) ≤ℤ t)
      × (t <ℤ scale minute_ms (div_floor t minute_ms) +ℤ pos minute_ms)
minute_floor t = div_floor_bounds t minute_ms (omega arith)

div_floor-minute : (c : ℤ) → div_floor (scale minute_ms c) minute_ms ≡ c
div_floor-minute c = let m = minute_floor (scale minute_ms c) in omega (int_laws, m)

modulo_range : (a : ℤ) → (pos 0 ≤ℤ modulo a 1440) × (modulo a 1440 <ℤ pos 1440)
modulo_range a = modulo_bounds a 1440 (omega arith)

-- The cutoff is not after the instant, which is less than a day later.
cutoff-recent :
    (t offset starts : ℤ)
    → (scale minute_ms (cutoff_minute t offset starts) ≤ℤ t)
      × (t <ℤ scale minute_ms (cutoff_minute t offset starts +ℤ pos 1440))
unfolding cutoff_minute
cutoff-recent t offset starts =
    let m = minute_floor t in
    let r = modulo_range (modulo (div_floor t minute_ms +ℤ offset) 1440 -ℤ starts) in
    (omega (int_laws, m, r), omega (int_laws, m, r))

-- The local minute of the cutoff is the one asked for.
cutoff-local_minute :
    (t offset starts : ℤ)
    → pos 0 ≤ℤ starts
    → starts <ℤ pos 1440
    → modulo (cutoff_minute t offset starts +ℤ offset) 1440 ≡ starts
unfolding cutoff_minute
cutoff-local_minute t offset starts low high =
    let u = div_floor t minute_ms in
    let local = modulo (u +ℤ offset) 1440 in
    let since = local -ℤ starts in
    modulo_unique _ starts (div_floor (u +ℤ offset) 1440 +ℤ div_floor since 1440) low high (
      omega
        (int_laws, parts_of_eq _ _ (modulo_lem (u +ℤ offset)), parts_of_eq _ _ (modulo_lem since)))

valid_schedule-starts :
    (row : SponsorWalletOperatingScheduleRow)
    → valid_schedule row ≡ true
    → (pos 0 ≤ℤ or_else row.processing_starts_at_minute row.opens_at_minute)
      × (or_else row.processing_starts_at_minute row.opens_at_minute <ℤ pos 1440)
unfolding valid_schedule
valid_schedule-starts row h = ground arith

-- The wait until the minute shows again, from the time since it last showed.
wait_lem :
    (l s : ℤ)
    → pos 0 ≤ℤ l
    → l <ℤ pos 1440
    → pos 0 ≤ℤ s
    → s <ℤ pos 1440
    → (if ltb_ℤ (s -ℤ l) (pos 0) || (not false && eqb_ℤ (s -ℤ l) (pos 0))
        then s -ℤ l +ℤ pos 1440
        else s -ℤ l)
      ≡ pos 1440 -ℤ modulo (l -ℤ s) 1440
wait_lem l s l0 l1 s0 s1 = elim (Bool-cases (leb_ℤ s l)) [
  | inl past ↦
      let le : s ≤ℤ l = ground arith in
      let m =
        modulo_unique (l -ℤ s) (l -ℤ s) (pos 0) (omega (int_laws, le)) (omega int_laws)
          (omega int_laws) in
      let test : (ltb_ℤ (s -ℤ l) (pos 0) || (not false && eqb_ℤ (s -ℤ l) (pos 0))) ≡ true =
        let d : s -ℤ l ≤ℤ pos 0 = omega (int_laws, le) in ground arith in
      rw (test, m) (omega int_laws)
  | inr ahead ↦
      let gt : l <ℤ s = ground arith in
      let m =
        modulo_unique (l -ℤ s) (l -ℤ s +ℤ pos 1440) (negsuc 0) (omega (int_laws, gt))
          (omega (int_laws, gt)) (omega int_laws) in
      let test : (ltb_ℤ (s -ℤ l) (pos 0) || (not false && eqb_ℤ (s -ℤ l) (pos 0))) ≡ false =
        let d : pos 0 <ℤ s -ℤ l = omega (int_laws, gt) in ground arith in
      rw (test, m) (omega int_laws)
]

instant_at_local_minute-cutoff :
    (t offset starts : ℤ)
    → pos 0 ≤ℤ starts
    → starts <ℤ pos 1440
    → instant_at_local_minute t offset starts false
      ≡ scale minute_ms (cutoff_minute t offset starts +ℤ pos 1440)
unfolding instant_at_local_minute cutoff_minute
instant_at_local_minute-cutoff t offset starts low high =
    let local = modulo (div_floor t minute_ms +ℤ offset) 1440 in
    let r = modulo_range (div_floor t minute_ms +ℤ offset) in
    let w = wait_lem local starts r.0 r.1 low high in rw w (ap (scale minute_ms) (omega int_laws))

not_allowed :
    (w : SponsorWalletOperatingWindow)
    → w.execution_allowed ≡ false
    → (accepted : DateText) → sponsor_work_is_eligible w accepted ≡ false
unfolding sponsor_work_is_eligible
not_allowed w h no_date = refl
not_allowed w h (instant a) = rw h refl

stopped-valid :
    (row : SponsorWalletOperatingScheduleRow) (stopped : ℤ)
    → valid_schedule row ≡ true
    → valid_schedule (record_sponsor_wallet_stopped stopped row) ≡ true
unfolding valid_schedule record_sponsor_wallet_stopped
stopped-valid row stopped valid = ground arith

stopped-not_after :
    (row : SponsorWalletOperatingScheduleRow) (stopped t : ℤ)
    → not_after (record_sponsor_wallet_stopped stopped row).next_start_allowed_at t
      ≡ leb_ℤ (stopped +ℤ pos 60000) t
unfolding record_sponsor_wallet_stopped
stopped-not_after row stopped t = refl

-- A window of the scheduled mode and its row, as evaluated.
pub record IsScheduled (row : SponsorWalletOperatingScheduleRow) (t through next : ℤ) : Type 0 where
  pub not_later : through ≤ℤ t
  pub next_later : t <ℤ next
  pub one_day : next ≡ through +ℤ pos day_ms
  pub local :
      modulo (div_floor through minute_ms +ℤ row.time_zone_offset_minutes) 1440
      ≡ or_else row.processing_starts_at_minute row.opens_at_minute

-- A valid row of the scheduled mode gives a window whose `eligibleThrough` is not after the
-- evaluation and shows the local minute at which processing starts, and whose next start is after
-- the evaluation, one day later.
pub evaluate-IsScheduled :
    (row : SponsorWalletOperatingScheduleRow) (t : ℤ) (source : Source)
    → row.mode ≡ scheduled
    → valid_schedule row ≡ true
    → (w : SponsorWalletOperatingWindow) × (through : ℤ) × (next : ℤ)
      × (evaluate_sponsor_wallet_operating_window row t source ≡ ok w)
      × (w.eligible_through ≡ some through)
      × (w.next_processing_starts_at ≡ some next)
      × IsScheduled row t through next
unfolding evaluate_sponsor_wallet_operating_window
evaluate-IsScheduled row t source mode valid =
    let starts = or_else row.processing_starts_at_minute row.opens_at_minute in
    let cutoff = cutoff_minute t row.time_zone_offset_minutes starts in
    let (low, high) = valid_schedule-starts row valid in
    let (past, future) = cutoff-recent t row.time_zone_offset_minutes starts in
    let w = window_of_mode row.mode row t source in
    rw valid (
      w,
      scale minute_ms cutoff,
      scale minute_ms (cutoff +ℤ pos 1440),
      refl,
      ap (λ m. (window_of_mode m row t source).eligible_through) mode,
      ap (λ m. (window_of_mode m row t source).next_processing_starts_at) mode,
      record {
        not_later = past;
        next_later = future;
        one_day = omega int_laws;
        local =
            ap (λ u. modulo (u +ℤ row.time_zone_offset_minutes) 1440) (div_floor-minute cutoff)
            ∙ cutoff-local_minute t row.time_zone_offset_minutes starts low high;
      },
    )

-- Where the row cannot be read, is missing or is not valid, the wallet may neither work nor start,
-- no work is eligible, and the next start is the one of the default schedule's window.
pub fallback-closed :
    (row : Result (Option SponsorWalletOperatingScheduleRow)) (t : ℤ) (message : String)
    → read_schedule row t ≡ throw message
    → (w : SponsorWalletOperatingWindow) × (sponsor_wallet_operating_window row t ≡ ok w)
      × (w.execution_allowed ≡ false)
      × (w.start_allowed ≡ false)
      × ((accepted : DateText) → sponsor_work_is_eligible w accepted ≡ false)
      × (w.next_processing_starts_at
          ≡ (scheduled_window default_sponsor_wallet_schedule t
              configuration_unavailable).next_processing_starts_at)
unfolding sponsor_wallet_operating_window or_fallback fallback_window
    evaluate_sponsor_wallet_operating_window valid_schedule
fallback-closed row t message bad =
    let next = instant_at_local_minute-cutoff t (pos 540) (pos 120) (omega arith) (omega arith) in
    rw bad (_, refl, refl, refl, not_allowed _ refl, ap some next)

of_valid_row :
    (row : SponsorWalletOperatingScheduleRow) (t : ℤ)
    → valid_schedule row ≡ true
    → sponsor_wallet_operating_window (ok (some row)) t ≡ ok (window_of_mode row.mode row t d1)
unfolding sponsor_wallet_operating_window or_fallback read_schedule
    evaluate_sponsor_wallet_operating_window
of_valid_row row t valid = rw valid refl

-- What does not depend on the mode.
common_fields :
    (m : SponsorWalletOperatingMode) (row : SponsorWalletOperatingScheduleRow) (t : ℤ)
    → ((window_of_mode m row t d1).execution_allowed ≡ true)
      × ((window_of_mode m row t d1).mode ≡ row.mode)
      × ((window_of_mode m row t d1).start_allowed ≡ not_after row.next_start_allowed_at t)
common_fields always_on row t = (refl, refl, refl)
common_fields on_demand row t = (refl, refl, refl)
common_fields scheduled row t = (refl, refl, refl)

accepted_in_time-day :
    (m : SponsorWalletOperatingMode) (row : SponsorWalletOperatingScheduleRow) (t accepted : ℤ)
    → accepted +ℤ pos day_ms ≤ℤ t
    → accepted_in_time m (window_of_mode m row t d1).eligible_through accepted ≡ true
accepted_in_time-day always_on row t accepted early = refl
accepted_in_time-day on_demand row t accepted early = refl
accepted_in_time-day scheduled row t accepted early =
    let starts = or_else row.processing_starts_at_minute row.opens_at_minute in
    let cutoff = cutoff_minute t row.time_zone_offset_minutes starts in
    let recent = cutoff-recent t row.time_zone_offset_minutes starts in
    let reached : accepted ≤ℤ scale minute_ms cutoff = omega (int_laws, recent, early) in
    ground arith

-- In every mode, work that was accepted at least a day before the evaluation of a valid row of the
-- database is eligible.
pub sponsor_work_is_eligible-within_day :
    (row : SponsorWalletOperatingScheduleRow) (t accepted : ℤ) (w : SponsorWalletOperatingWindow)
    → sponsor_wallet_operating_window (ok (some row)) t ≡ ok w
    → valid_schedule row ≡ true
    → accepted +ℤ pos day_ms ≤ℤ t
    → sponsor_work_is_eligible w (instant accepted) ≡ true
unfolding sponsor_work_is_eligible
sponsor_work_is_eligible-within_day row t accepted w e valid early =
    let made : window_of_mode row.mode row t d1 ≡ w =
      ok-injective _ _ (sym (of_valid_row row t valid) ∙ e) in
    let fields = common_fields row.mode row t in
    let in_time = accepted_in_time-day row.mode row t accepted early in
    subst (λ x. sponsor_work_is_eligible x (instant accepted) ≡ true) made
      (rw (fields.0, fields.1) in_time)

-- After a stop the row stays valid, and a window evaluated from it lets the wallet start exactly when
-- at least 60 seconds have passed since the stop.
pub record_sponsor_wallet_stopped-cooldown :
    (row : SponsorWalletOperatingScheduleRow) (stopped t : ℤ)
    → valid_schedule row ≡ true
    → (w : SponsorWalletOperatingWindow) × (valid_schedule
          (record_sponsor_wallet_stopped stopped row)
        ≡ true)
      × (sponsor_wallet_operating_window (ok (some (record_sponsor_wallet_stopped stopped row))) t
          ≡ ok w)
      × ((w.start_allowed ≡ true) ↔ (stopped +ℤ pos 60000 ≤ℤ t))
record_sponsor_wallet_stopped-cooldown row stopped t valid =
    let still = stopped-valid row stopped valid in
    let row' = record_sponsor_wallet_stopped stopped row in
    let fields = common_fields row'.mode row' t in
    (
      window_of_mode row'.mode row' t d1,
      still,
      of_valid_row row' t still,
      subst (λ b. (b ≡ true) ↔ (stopped +ℤ pos 60000 ≤ℤ t))
          (sym (fields.2 ∙ stopped-not_after row stopped t)) (ground arith),
    )
