-- ===== src/Gateway/Dispatch.antt =====
-- dispatchProofJobs of backend/cloudflare/proof-gateway-worker/src/jobs.ts: leases that ended are swept,
-- and the oldest waiting jobs are sent to the queue. The evaluated schedule, the readings of the clock
-- and what the queue answers are arguments.
use midnight_buildathons_bac.Prelude.{
  ℕ, String, Bool, true, false, ◌&&◌, Option, none, some, [], ◌∷◌, if◌then◌else◌, ltb, take,
}
use midnight_buildathons_bac.Prelude.Int.{ℤ, leb_ℤ}
use midnight_buildathons_bac.Prelude.Tables.{count_where, filter_where}
use midnight_buildathons_bac.Sponsor.Window.{
  SponsorWalletOperatingWindow, SponsorWalletOperatingMode, always_on, on_demand, scheduled,
}
use midnight_buildathons_bac.Gateway.Job.{ProofJobRow, Origin, device, managed_api, is_waiting}
use midnight_buildathons_bac.Gateway.Statements.{
  Jobs, has_id, expire_leases, claim_job, requeue_unsent,
}

abbrev pub dispatch_batch_size : ℕ
dispatch_batch_size = 8

-- `ORDER BY created_at ASC`; rows of one instant keep the table's order.
unfoldable pub insert_by_created : ProofJobRow → Jobs → Jobs
insert_by_created row [] = row ∷ []
insert_by_created row (r ∷ rs) =
    let rest = insert_by_created row rs in
    if leb_ℤ row.created_at r.created_at then row ∷ r ∷ rs else r ∷ rest

unfoldable pub order_by_created : Jobs → Jobs
order_by_created [] = []
order_by_created (r ∷ rs) = insert_by_created r (order_by_created rs)

abbrev is_device_origin : Origin → Bool
is_device_origin device = true
is_device_origin managed_api = false

abbrev accepted_by : Option ℤ → ℤ → Bool
accepted_by none created_at = true
accepted_by (some e) created_at = leb_ℤ created_at e

unfoldable pub can_dispatch : ℤ → Option ℤ → ProofJobRow → Bool
can_dispatch now accepted_through r =
    is_device_origin r.origin
    && is_waiting r.status
    && leb_ℤ r.available_after now
    && accepted_by accepted_through r.created_at

unfoldable pub jobs_to_dispatch : ℤ → Option ℤ → Jobs → Jobs
jobs_to_dispatch now accepted_through jobs =
    take dispatch_batch_size
      (order_by_created (filter_where (can_dispatch now accepted_through) jobs))

-- `none` is the return before any job is read.
unfoldable pub accepted_through : SponsorWalletOperatingMode → Option ℤ → Option (Option ℤ)
accepted_through always_on eligible_through = some none
accepted_through on_demand eligible_through = some none
accepted_through scheduled none = none
accepted_through scheduled (some e) = some (some e)

-- One pass of the loop over the selected jobs: `sent` says whether the queue took the message.
unfoldable pub dispatch_job : Bool → ℤ → String → Jobs → Jobs
dispatch_job sent now id jobs =
    let claimed = count_where (λ r. has_id id r && is_waiting r.status) jobs in
    if ltb claimed 1
    then jobs
    else (if sent then claim_job now id jobs else requeue_unsent now id (claim_job now id jobs))

-- The queue's answer and the clock's reading for each job.
unfoldable pub dispatch_all : (String → Bool) → (String → ℤ) → Jobs → Jobs → Jobs
dispatch_all sent clock [] jobs = jobs
dispatch_all sent clock (r ∷ rs) jobs =
    dispatch_all sent clock rs (dispatch_job (sent r.id) (clock r.id) r.id jobs)

unfoldable pub dispatch_through :
    (String → Bool) → (String → ℤ) → ℤ → Option (Option ℤ) → Jobs → Jobs
dispatch_through sent clock now none jobs = jobs
dispatch_through sent clock now (some through) jobs =
    dispatch_all sent clock (jobs_to_dispatch now through jobs) jobs

-- The challenges and sessions that the same call deletes are in other tables.
unfoldable pub dispatch_proof_jobs :
    SponsorWalletOperatingWindow → (String → Bool) → (String → ℤ) → ℤ → Jobs → Jobs
dispatch_proof_jobs schedule sent clock now jobs =
    let swept = expire_leases now jobs in
    if schedule.execution_allowed
    then dispatch_through sent clock now (accepted_through schedule.mode schedule.eligible_through)
        swept
    else swept
