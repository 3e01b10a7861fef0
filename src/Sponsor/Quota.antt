-- ===== src/Sponsor/Quota.antt =====
-- sponsor-quota.ts of backend/cloudflare/proof-gateway-worker/src: the jobs that a device may have
-- sponsored on one day of the Japanese clock. The two tables are lists of their rows, and the
-- statements are what they do to them; a row of `devices` has its id as the key, and one of
-- `sponsor_quota_reservations` its job. The rows of one day are listed by their insertion. An instant is
-- one whose day has a year from 100 to 9999: outside these years `Date.UTC` reads another year or the
-- code throws, as it does for a time that is no number.
pub mod Laws
use midnight_buildathons_bac.Prelude.{
  ℕ, ◌+◌, ◌-◌, String, Bool, true, false, ◌&&◌, ◌||◌, not, Option, none, some, List, [], ◌∷◌, ◌++◌,
  map, length, if◌then◌else◌, ltb, leb, max, str_eq, is_some,
}
use midnight_buildathons_bac.Prelude.Int.{ℤ, pos, ◌+ℤ◌, ◌-ℤ◌, scale, div_floor, eqb_ℤ}
use midnight_buildathons_bac.Prelude.Results.{Result, ok, throw, ◌>>=◌, ◌>>◌, require}
use midnight_buildathons_bac.Protocol.Day.{hour_ms, day_ms}

pub record DeviceRow : Type 0 where
  pub id : String
  pub project_id : String
  pub registered : Bool
  pub sponsor_daily_limit : ℕ

-- `quota_date` is the day's number from the epoch.
pub record ReservationRow : Type 0 where
  pub device_id : String
  pub quota_date : ℤ
  pub proof_job_id : String
  pub reserved_at : ℤ

pub record Database : Type 0 where
  pub devices : List DeviceRow
  pub reservations : List ReservationRow

pub record SponsorQuotaStatus : Type 0 where
  pub quota_date : ℤ
  pub daily_limit : ℕ
  pub used : ℕ
  pub remaining : ℕ
  pub reset_at : ℤ
  pub reserved_proof_job_ids : List String

pub record SponsorQuotaReservation : Type 0 where
  pub status : SponsorQuotaStatus
  pub accepted : Bool
  pub current_proof_job_reserved : Bool

pub record SponsorQuotaWindow : Type 0 where
  pub quota_date : ℤ
  pub reset_at : ℤ
  pub retry_after_seconds : ℤ

abbrev pub jst_offset_milliseconds : ℤ
jst_offset_milliseconds = pos 32400000

abbrev pub at_least_one : ℤ → Bool
at_least_one (pos n) = leb 1 n
at_least_one _ = false

-- `Math.max(1, Math.ceil(ms / 1000))`
abbrev pub seconds_up : ℤ → ℤ
seconds_up ms = let s = div_floor (ms +ℤ pos 999) 1000 in if at_least_one s then s else pos 1

unfoldable pub sponsor_quota_window : ℤ → SponsorQuotaWindow
sponsor_quota_window now =
    let quota_date = div_floor (now +ℤ jst_offset_milliseconds) day_ms in
    let reset = scale day_ms quota_date +ℤ scale hour_ms (pos 15) in
    record {
      quota_date = quota_date;
      reset_at = reset;
      retry_after_seconds = seconds_up (reset -ℤ now);
    }

-- `WHERE id = ?1 AND project_id = ?2 AND midnight_registry_status = 'registered'`
unfoldable pub find_device : List DeviceRow → String → String → Option DeviceRow
find_device [] device_id project_id = none
find_device (d ∷ ds) device_id project_id =
    let rest = find_device ds device_id project_id in
    if str_eq d.id device_id && str_eq d.project_id project_id && d.registered then some d else rest

abbrev pub is_of_day : String → ℤ → ReservationRow → Bool
is_of_day device_id quota_date r = str_eq r.device_id device_id && eqb_ℤ r.quota_date quota_date

-- `WHERE device_id = ?1 AND quota_date = ?2`
unfoldable pub reservations_of : List ReservationRow → String → ℤ → List ReservationRow
reservations_of [] device_id quota_date = []
reservations_of (r ∷ rs) device_id quota_date =
    let rest = reservations_of rs device_id quota_date in
    if is_of_day device_id quota_date r then r ∷ rest else rest

-- `WHERE proof_job_id = ?3`
unfoldable pub find_job : List ReservationRow → String → Option ReservationRow
find_job [] job = none
find_job (r ∷ rs) job =
    let rest = find_job rs job in if str_eq r.proof_job_id job then some r else rest

unfoldable pub includes : List ReservationRow → String → Bool
includes [] job = false
includes (r ∷ rs) job = str_eq r.proof_job_id job || includes rs job

unfoldable pub read_sponsor_quota : Database → String → String → ℤ → Result SponsorQuotaStatus
read_sponsor_quota db device_id project_id now = do
  let window = sponsor_quota_window now
  device ← elim (find_device db.devices device_id project_id) [
    | none ↦ throw "Sponsor quota is not configured for this Device"
    | some d ↦ ok d
  ]
  require (leb 1 device.sponsor_daily_limit) "Sponsor quota is not configured for this Device"
  let reservations = reservations_of db.reservations device_id window.quota_date
  ok (record {
    quota_date = window.quota_date;
    daily_limit = device.sponsor_daily_limit;
    used = length reservations;
    remaining = device.sponsor_daily_limit - length reservations;
    reset_at = window.reset_at;
    reserved_proof_job_ids = map (λ r. r.proof_job_id) reservations;
  })

-- Where a row of the job is there, it is the one that EXISTS looks for, or a conflict that the second
-- WHERE refuses.
abbrev pub insert_or_keep :
    Option ReservationRow → ℕ → List ReservationRow → ReservationRow → List ReservationRow × Bool
insert_or_keep (some r) limit rows new = (rows, is_of_day new.device_id new.quota_date r)
insert_or_keep none limit rows new =
    if ltb (length (reservations_of rows new.device_id new.quota_date)) limit
    then (rows ++ (new ∷ []), true)
    else (rows, false)

-- The statement's effect: the table, and whether it returned the job.
unfoldable pub insert_for :
    Option DeviceRow → List ReservationRow → ReservationRow → List ReservationRow × Bool
insert_for none rows new = (rows, false)
insert_for (some d) rows new =
    insert_or_keep (find_job rows new.proof_job_id) d.sponsor_daily_limit rows new

unfoldable pub reserve_sponsor_quota :
    Database → String → String → String → ℤ → Database × Result SponsorQuotaReservation
reserve_sponsor_quota db device_id project_id proof_job_id now =
    let window = sponsor_quota_window now in
    let (rows, returned) =
      insert_for (find_device db.devices device_id project_id) db.reservations (record {
        device_id = device_id;
        quota_date = window.quota_date;
        proof_job_id = proof_job_id;
        reserved_at = now;
      }) in
    let db' = record db { reservations = rows } in
    (
      db',
      do
        status ← read_sponsor_quota db' device_id project_id now
        let reserved = includes (reservations_of rows device_id window.quota_date) proof_job_id
        ok (record {
          status = status;
          accepted = returned && reserved;
          current_proof_job_reserved = reserved;
        }),
    )
