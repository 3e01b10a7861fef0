-- ===== src/Tests/Container.antt =====
-- Inputs of the supervisor: probes that end with a success.
use midnight_buildathons_bac.Prelude.{◌≡◌, ◌↔◌, true, some, List, [], ◌∷◌}
use midnight_buildathons_bac.Prelude.Int.{pos}
use midnight_buildathons_bac.Container.Health.{
  Probe, succeeded, failed, ready, healthy, snapshot, after_probes, EndsFresh, snapshot-healthy,
}

abbrev recovered_probes : List Probe
recovered_probes =
    succeeded (record { phase = ready }) (pos 20000) ∷ failed "timeout" (pos 10000) ∷ []

snapshot-healthy_example :
    ((snapshot 30000 (after_probes recovered_probes) (some 7) true (pos 45000)).1.status ≡ healthy)
    ↔ ((true ≡ true) × EndsFresh 30000 (pos 45000) recovered_probes)
snapshot-healthy_example = snapshot-healthy 30000 recovered_probes (some 7) true (pos 45000)
