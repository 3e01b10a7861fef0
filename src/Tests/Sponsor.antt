-- ===== src/Tests/Sponsor.antt =====
-- Inputs of the sponsor's modules: the default schedule, one device with two reservations a day, and a
-- lease that is free.
use midnight_buildathons_bac.Prelude.{
  ℕ, ◌<◌, ◌≡◌, ◌≢◌, ◌⊎◌, ◌↔◌, refl, String, true, false, Option, none, some, List, [], ◌∷◌, arith,
  ◌≤◌, str_eq, eq_iff, sym, ◌∙◌,
}
use midnight_buildathons_bac.Prelude.Int.{ℤ, pos, ◌+ℤ◌, ◌≤ℤ◌, ◌<ℤ◌, scale}
use midnight_buildathons_bac.Prelude.Results.{ok, throw}
use midnight_buildathons_bac.Protocol.Day.{day_ms}
use midnight_buildathons_bac.Sponsor.Window.{
  DateText, instant, SponsorWalletOperatingScheduleRow, SponsorWalletOperatingWindow, d1,
  configuration_unavailable, default_sponsor_wallet_schedule, valid_schedule, scheduled_window,
  read_schedule, evaluate_sponsor_wallet_operating_window, sponsor_wallet_operating_window,
  or_fallback, record_sponsor_wallet_stopped, sponsor_work_is_eligible,
}
use midnight_buildathons_bac.Sponsor.Window.Laws.{
  IsScheduled, evaluate-IsScheduled, fallback-closed, sponsor_work_is_eligible-within_day,
  record_sponsor_wallet_stopped-cooldown,
}
use midnight_buildathons_bac.Sponsor.Quota.{DeviceRow, find_device, sponsor_quota_window}
use midnight_buildathons_bac.Sponsor.Quota.Laws.{
  IsWithin, reserve_all, reserve_all-IsWithin, sponsor_quota_window-reset,
}
use midnight_buildathons_bac.Gateway.Job.{proof_ready, reproof_required, sponsored}
use midnight_buildathons_bac.Sponsor.Policy.{
  accept_new, conflict, device_transaction_acceptance, ready, syncing, Supervisor,
  SponsorWalletReadiness, sponsor_job_can_proceed, sponsor_wallet_can_submit,
  sponsor_wallet_is_synchronized,
}
use midnight_buildathons_bac.Sponsor.Policy.Laws.{
  device_transaction_acceptance-new, sponsor_job_can_proceed-alive,
}
use midnight_buildathons_bac.Sponsor.Lease.{
  ServerWalletWorkItem, browser_policy, LeaseRow, acquire_lease, is_free, release_lease,
}
use midnight_buildathons_bac.Sponsor.Lease.Laws.{
  Step, take, give_back, do_steps, taken, acquire_lease-exclusive,
}

abbrev schedule : SponsorWalletOperatingScheduleRow
schedule = default_sponsor_wallet_schedule

schedule_valid : valid_schedule schedule ≡ true
unfolding valid_schedule
schedule_valid = refl

evaluate-IsScheduled_example :
    (w : SponsorWalletOperatingWindow) × (through : ℤ) × (next : ℤ)
    × (evaluate_sponsor_wallet_operating_window schedule (pos 100000000) d1 ≡ ok w)
    × (w.eligible_through ≡ some through)
    × (w.next_processing_starts_at ≡ some next)
    × IsScheduled schedule (pos 100000000) through next
evaluate-IsScheduled_example = evaluate-IsScheduled schedule (pos 100000000) d1 refl schedule_valid

unreadable : read_schedule (throw "offline") (pos 100000000) ≡ throw "offline"
unfolding read_schedule
unreadable = refl

fallback-closed_example :
    (w : SponsorWalletOperatingWindow) × (sponsor_wallet_operating_window
        (throw "offline")
        (pos 100000000)
      ≡ ok w)
    × (w.execution_allowed ≡ false)
    × (w.start_allowed ≡ false)
    × ((accepted : DateText) → sponsor_work_is_eligible w accepted ≡ false)
    × (w.next_processing_starts_at
        ≡ (scheduled_window schedule
            (pos 100000000)
            configuration_unavailable).next_processing_starts_at)
fallback-closed_example = fallback-closed (throw "offline") (pos 100000000) "offline" unreadable

schedule_window :
    sponsor_wallet_operating_window (ok (some schedule)) (pos 100000000)
    ≡ ok (scheduled_window schedule (pos 100000000) d1)
unfolding sponsor_wallet_operating_window or_fallback read_schedule
    evaluate_sponsor_wallet_operating_window valid_schedule
schedule_window = refl

sponsor_work_is_eligible-within_day_example :
    sponsor_work_is_eligible (scheduled_window schedule (pos 100000000) d1) (instant (pos 1000))
    ≡ true
unfolding ◌+ℤ◌
sponsor_work_is_eligible-within_day_example =
    sponsor_work_is_eligible-within_day schedule (pos 100000000) (pos 1000)
      (scheduled_window schedule (pos 100000000) d1) schedule_window schedule_valid (omega arith)

record_sponsor_wallet_stopped-cooldown_example :
    (w : SponsorWalletOperatingWindow) × (valid_schedule
        (record_sponsor_wallet_stopped (pos 1000) schedule)
      ≡ true)
    × (sponsor_wallet_operating_window
          (ok (some (record_sponsor_wallet_stopped (pos 1000) schedule)))
          (pos 50000)
        ≡ ok w)
    × ((w.start_allowed ≡ true) ↔ (pos 1000 +ℤ pos 60000 ≤ℤ pos 50000))
record_sponsor_wallet_stopped-cooldown_example =
    record_sponsor_wallet_stopped-cooldown schedule (pos 1000) (pos 50000) schedule_valid

sponsor_quota_window-reset_example :
    (pos 100000000 <ℤ (sponsor_quota_window (pos 100000000)).reset_at)
    × ((sponsor_quota_window (pos 100000000)).reset_at ≤ℤ pos 100000000 +ℤ pos day_ms)
    × ((sponsor_quota_window (pos 100000000)).reset_at
        ≤ℤ pos 100000000 +ℤ scale 1000 (sponsor_quota_window (pos 100000000)).retry_after_seconds)
    × ((sponsor_quota_window (sponsor_quota_window (pos 100000000)).reset_at).quota_date
        ≡ (sponsor_quota_window (pos 100000000)).quota_date +ℤ pos 1)
sponsor_quota_window-reset_example = sponsor_quota_window-reset (pos 100000000)

abbrev one_device : List DeviceRow
one_device =
    record { id = "dev"; project_id = "p"; registered = true; sponsor_daily_limit = 2 } ∷ []

abbrev requests : List (String × String × String × ℤ)
requests =
    ("dev", "p", "job-1", pos 1000)
    ∷ ("dev", "p", "job-2", pos 2000)
    ∷ ("dev", "p", "job-1", pos 3000)
    ∷ ("dev", "p", "job-3", pos 4000)
    ∷ []

two_a_day :
    (device project : String) (d : DeviceRow)
    → find_device one_device device project ≡ some d
    → d.sponsor_daily_limit ≤ 2
unfolding find_device
two_a_day device project d e = ground arith

reserve_all-IsWithin_example :
    IsWithin
      (λ device. 2)
      (reserve_all
        (λ device. 2)
        (record { devices = one_device; reservations = [] })
        requests).reservations
reserve_all-IsWithin_example = reserve_all-IsWithin (λ device. 2) one_device requests two_a_day

abbrev old_hash : Option String
old_hash = some "hash-1"

device_transaction_acceptance-new_example :
    ((device_transaction_acceptance sponsored old_hash "hash-2" ≡ accept_new)
      ↔ (((sponsored ≡ proof_ready) ⊎ (sponsored ≡ reproof_required)) × (old_hash ≡ none)))
    × ((old_hash ≡ none)
        ⊎ ((old_hash ≡ some "hash-2")
            ⊎ (device_transaction_acceptance sponsored old_hash "hash-2" ≡ conflict)))
device_transaction_acceptance-new_example =
    device_transaction_acceptance-new sponsored old_hash "hash-2"

-- Texts that the test tells apart are different.
differ : (a b : String) → str_eq a b ≡ false → a ≢ b
differ a b h e = let same = (eq_iff a b).1 e in let both : true ≡ false = sym same ∙ h in cc

different_tokens : ◌≢◌ {A = String} "token-2" "token-1"
different_tokens = differ "token-2" "token-1" refl

abbrev wallet : SponsorWalletReadiness
wallet = record {
  phase = ready;
  spendable_dust_coins = some 3;
  progress_details = none;
  supervisor =
      some (record { healthy = true; wallet_process_alive = true; wallet_status_fresh = true });
}

proceeds : sponsor_job_can_proceed proof_ready wallet ≡ true
unfolding sponsor_job_can_proceed sponsor_wallet_can_submit sponsor_wallet_is_synchronized
proceeds = refl

sponsor_job_can_proceed-alive_example :
    ((wallet.supervisor ≡ none)
      ⊎ ((s : Supervisor) × (wallet.supervisor ≡ some s)
          × (s.healthy ≡ true)
          × (s.wallet_process_alive ≡ true)
          × (s.wallet_status_fresh ≡ true)))
    × ((wallet.phase ≡ ready) ⊎ ((proof_ready ≡ sponsored) × (wallet.phase ≡ syncing)))
    × ((proof_ready ≡ sponsored)
        ⊎ ((wallet.spendable_dust_coins ≡ none)
            ⊎ ((n : ℕ) × (wallet.spendable_dust_coins ≡ some n) × (0 < n))))
    × (sponsor_job_can_proceed sponsored wallet ≡ true)
sponsor_job_can_proceed-alive_example = sponsor_job_can_proceed-alive proof_ready wallet proceeds

abbrev policy_work : ServerWalletWorkItem
policy_work = record {
  kind = browser_policy;
  id = "policy-1";
  created_at = pos 0;
  sponsor_status = none;
}

abbrev free_lease : LeaseRow
free_lease = record { lease_token = none; lease_expires_at = none; work = none; updated_at = pos 0 }

first_taken :
    acquire_lease 360000 free_lease policy_work (pos 1000) "token-1"
    ≡ (taken 360000 policy_work (pos 1000) "token-1", some "token-1")
unfolding acquire_lease is_free
first_taken = refl

abbrev attempts : List Step
attempts = take policy_work (pos 2000) "token-2" ∷ give_back "token-2" (pos 3000) ∷ []

acquire_lease-exclusive_example :
    (acquire_lease 360000
        (do_steps 360000 (taken 360000 policy_work (pos 1000) "token-1") attempts)
        policy_work
        (pos 4000)
        "token-3"
      ≡ (taken 360000 policy_work (pos 1000) "token-1", none))
    × (is_free
          (release_lease
            (do_steps 360000 (taken 360000 policy_work (pos 1000) "token-1") attempts)
            "token-1"
            (pos 4000))
          (pos 4000)
        ≡ true)
unfolding ◌+ℤ◌
acquire_lease-exclusive_example =
    acquire_lease-exclusive 360000 free_lease (taken 360000 policy_work (pos 1000) "token-1")
      policy_work policy_work (pos 1000) (pos 4000) "token-1" "token-3" attempts first_taken
      (omega arith, (different_tokens, tt)) (omega arith)
