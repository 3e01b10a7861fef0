-- ===== src/Gateway/Calls/Device.antt =====
-- The calls of a device in backend/cloudflare/proof-gateway-worker/src/jobs.ts: what each statement keeps,
-- they keep.
use midnight_buildathons_bac.Prelude.{
  ℕ, ◌≡◌, String, Bool, true, false, ◌&&◌, Option, none, some, List, arith, inl, inr, Bool-cases,
  ltb, leb, ◌==◌, not,
}
use midnight_buildathons_bac.Prelude.Int.{ℤ}
use midnight_buildathons_bac.Prelude.Tables.{count_where, find_where}
use midnight_buildathons_bac.Gateway.Job.{
  ProofJobRow, is_waiting, is_admitted, is_proving, is_ready,
}
use midnight_buildathons_bac.Gateway.Statements.{
  Jobs, OperatorProofLease, has_id, ends_after, of_device, admit_for_device, active_count,
}
use midnight_buildathons_bac.Gateway.Admission.{
  DevicePrincipal, DeviceAuthorization, authorize_proof_job, authorize_found, begin_proving,
  admit_found_for_device, if_changed, header_text, allowed, denied,
  admit_proof_job_for_browser_device,
}
use midnight_buildathons_bac.Protocol.Identifier.{matches_identifier}
use midnight_buildathons_bac.Gateway.Calls.{Kept}

pub not_one : (n : ℕ) → leb 1 n ≡ false → n ≡ 0
not_one n h = ground arith

module _ {Timely : ℤ → Type 0} {P : Jobs → Type 0} (k : Kept Timely P) where
  begin_proving-Kept :
      (now : ℤ) (job : ProofJobRow) (jobs : Jobs) → P jobs → P (begin_proving now job jobs).0
  unfolding begin_proving
  begin_proving-Kept now job jobs p =
      let kept = k.on_start now job.id jobs p in
      elim (Bool-cases (ltb 0 (count_where (λ r. has_id job.id r && is_ready r.status) jobs))) [
        | inl changed ↦ rw changed kept
        | inr same ↦ rw same kept
      ]

  authorize_found-Kept :
      (now : ℤ) (start : Bool) (job : Option ProofJobRow) (jobs : Jobs)
      → P jobs
      → P (authorize_found now start job jobs).0
  unfolding authorize_found
  authorize_found-Kept now start none jobs p = p
  authorize_found-Kept now start (some job) jobs p = elim (Bool-cases (is_admitted job.status)) [
    | inr early ↦ rw early p
    | inl admitted ↦ elim (Bool-cases (ends_after job.lease_expires_at now)) [
      | inr over ↦ rw (admitted, over) p
      | inl leased ↦ elim (Bool-cases (start && not (is_proving job.status))) [
        | inl begins ↦ rw (admitted, leased, begins) (begin_proving-Kept now job jobs p)
        | inr only ↦ rw (admitted, leased, only) p
      ]
    ]
  ]

  if_changed-Kept :
      (changed : Bool) (jobs : Jobs) (now : ℤ) → P jobs → P (if_changed changed jobs now).0
  if_changed-Kept true jobs now p = p
  if_changed-Kept false jobs now p = p

  pub authorize-Kept :
      (now : ℤ) (header : Option String) (principal : DevicePrincipal) (start : Bool) (jobs : Jobs)
      → P jobs
      → P (authorize_proof_job now header principal start jobs).0
  unfolding authorize_proof_job
  authorize-Kept now header principal start jobs p =
      let id = header_text header in
      elim (Bool-cases (matches_identifier id)) [
        | inr unsafe ↦ rw unsafe p
        | inl safe ↦ rw safe (
            authorize_found-Kept now start
              (find_where (of_device id principal.device_id principal.project_id) jobs) jobs p)
      ]

  admit_found_for_device-Kept :
      (leases : List OperatorProofLease) (now : ℤ) (id : String) (principal : DevicePrincipal)
      (job : Option ProofJobRow) (jobs : Jobs)
      → Timely now
      → P jobs
      → P (admit_found_for_device leases now id principal job jobs).0
  unfolding admit_found_for_device
  admit_found_for_device-Kept leases now id principal none jobs timely p = p
  admit_found_for_device-Kept leases now id principal (some job) jobs timely p =
      elim (Bool-cases (is_admitted job.status)) [
        | inl already ↦ rw already p
        | inr before ↦ elim (Bool-cases (is_waiting job.status)) [
          | inr other ↦ rw (before, other) p
          | inl waiting ↦ elim (Bool-cases (leb 1 (active_count now jobs leases))) [
            | inl full ↦ rw (before, waiting, full) p
            | inr free ↦
                rw (before, waiting, free)
                  (if_changed-Kept
                    (count_where
                        (λ r.
                          of_device id principal.device_id principal.project_id r
                          && is_waiting r.status)
                        jobs
                      == 1)
                    (admit_for_device now id principal.device_id principal.project_id jobs) now
                    (k.on_admit_device now now id principal.device_id principal.project_id leases
                      jobs timely (not_one (active_count now jobs leases) free) p))
          ]
        ]
      ]

  pub admit_browser-Kept :
      (leases : List OperatorProofLease) (now : ℤ) (authorization : DeviceAuthorization)
      (within_rate : Bool) (id : String) (jobs : Jobs)
      → Timely now
      → P jobs
      → P (admit_proof_job_for_browser_device leases now authorization within_rate id jobs).0
  unfolding admit_proof_job_for_browser_device
  admit_browser-Kept leases now (denied answer) within_rate id jobs timely p = p
  admit_browser-Kept leases now (allowed principal) false id jobs timely p = p
  admit_browser-Kept leases now (allowed principal) true id jobs timely p =
      admit_found_for_device-Kept leases now id principal
        (find_where (of_device id principal.device_id principal.project_id) jobs) jobs timely p
