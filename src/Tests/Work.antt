-- ===== src/Tests/Work.antt =====
-- One policy operation that waits, and a call that works on it and throws.
use midnight_buildathons_bac.Prelude.{◌≡◌, ◌⊎◌, refl, String, false, none, some, [], ◌∷◌}
use midnight_buildathons_bac.Prelude.Int.{pos}
use midnight_buildathons_bac.Prelude.Results.{throw}
use midnight_buildathons_bac.Sponsor.Lease.{ServerWalletWorkItem, LeaseRow, holds}
use midnight_buildathons_bac.Sponsor.Runnable.{WorkTables, runnable}
use midnight_buildathons_bac.Sponsor.Work.{
  next_server_wallet_work, Server, Surroundings, process_next_server_wallet_work,
}
use midnight_buildathons_bac.Sponsor.Work.Laws.{
  IsFirst, Outcome, next_server_wallet_work-IsFirst, process_next_server_wallet_work-holds,
}

abbrev tables : WorkTables
tables = record {
  policy_operations =
      record { id = "policy-2"; status = "queued"; created_at = pos 20 }
      ∷ record { id = "policy-1"; status = "retrying"; created_at = pos 10 }
      ∷ [];
  device_operations = [];
  sources = [];
  runs = [];
  jobs = [];
  project_policies = [];
  threshold_policies = [];
}

abbrev address : String
address = "00000000000000000000000000000000000000000000000000000000000000ff"

next_server_wallet_work-IsFirst_example :
    ((next_server_wallet_work tables (pos 100) none address ≡ none)
      × (runnable tables (pos 100) none address ≡ []))
    ⊎ ((w : ServerWalletWorkItem) × (next_server_wallet_work tables (pos 100) none address ≡ some w)
        × IsFirst w (runnable tables (pos 100) none address))
next_server_wallet_work-IsFirst_example =
    next_server_wallet_work-IsFirst tables (pos 100) none address

abbrev free : LeaseRow
free = record { lease_token = none; lease_expires_at = none; work = none; updated_at = pos 0 }

abbrev server : Server
server = record { tables = tables; lease = free }

abbrev failing : Surroundings
failing = record {
  process_work = λ work t. (t, throw "offline");
  before_taking = λ s. s;
  before_reading = λ t. t;
  before_release = λ row. row;
}

process_next_server_wallet_work-holds_example :
    let r =
      process_next_server_wallet_work failing none address
        (pos 100)
        (pos 101)
        (pos 200)
        "token-1"
        server in
    (holds r.0.lease.lease_token "token-1" ≡ false)
    × Outcome failing none address (pos 100) (pos 101) server r
process_next_server_wallet_work-holds_example =
    process_next_server_wallet_work-holds failing none address (pos 100) (pos 101) (pos 200)
      "token-1" server refl refl
