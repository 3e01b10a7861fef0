-- ===== src/Lib.antt =====
-- Verification of the measurement and sponsorship core of this repository.
--
-- The program measures temperatures on a device, attests one day of them to a contract without
-- publishing them, and has the contract calls paid by a sponsor's wallet. Seven parts are modelled.
--
-- Protocol: shared/measurement-protocol/src. `Protocol.Day` is operational-day.ts, `Protocol.Temperature`
-- temperature.ts, and the others index.ts: `Protocol.Identifier` is requireSafeIdentifier,
-- `Protocol.Policy` policyAllows, `Protocol.Extrema` the data and the loop over the records, with
-- `Prepare` (prepareDailyExtremaAttestation) and `Evaluate` (evaluatePreparedDailyExtremaHoursLocally
-- and what uses it) below it. `Slots`, `Verdict`, `Agreement` and `Prepared` hold proofs.
--
-- Collector: edge-device/sensor-collector/src. `Collector.Window` and `Collector.Anomaly` are
-- aggregation.ts, `Collector.State` the state file of collector.ts with its checks, and
-- `Collector.Loop` one turn of its loop: the measurement, the closing of the window, the outbox, the
-- saved state and the upload. It uses the window and the detector as collectOne does; the disk and what
-- the service has taken are a record that each operation passes on.
--
-- Sponsor: backend/cloudflare/proof-gateway-worker/src. `Sponsor.Window` is sponsor-operating-window.ts,
-- `Sponsor.Quota` sponsor-quota.ts, `Sponsor.Policy` sponsor-policy.ts, `Sponsor.Lease` the leases
-- and the readiness test of server-wallet-work.ts, `Sponsor.Runnable` and `Sponsor.Work` the next work and
-- the call that does it under a lease, and `Sponsor.Reconciliation` sponsor-reconciliation.ts. A
-- statement of the database is a function on the list of a table's rows, or on the one row of a table
-- that has one.
--
-- Gateway: the proof jobs of the same worker. `Gateway.Job` is a row of daily_proof_jobs,
-- `Gateway.Statements` the statements of jobs.ts, `Gateway.Dispatch` dispatchProofJobs and
-- `Gateway.Admission` the other operations of jobs.ts, which ask `Sponsor.Window` whether a job may
-- proceed. `Gateway.Calls` are runs of whole calls. `Gateway.DeadLetters` is queue-dead-letters.ts,
-- `Gateway.Recovery` reproof-recovery.ts, and `Gateway.Device` the challenge, the session and
-- the test of a request's token of device-auth.ts.
--
-- Managed: managed-source-core.ts of the same worker. `Managed.Failure` are its errors, `Managed.Endpoint`
-- validateManagedEndpoint, `Managed.Response` boundedBody and parseSourceResponse, `Managed.Summary`
-- summarize, and `Managed.Fetch` fetchFixedWindowMeasurements, whose records go to the measurement
-- protocol. `Accepted`, `Hours` and `Agreement` hold proofs.
--
-- Container: backend/cloudflare/sponsor-wallet-container/src. `Container.Health` is supervisor-health.ts,
-- whose snapshot the readiness tests of `Sponsor.Policy` read through the service, and
-- `Container.Progress` is sync-progress.ts.
--
-- Agent: edge-device/midnight-transaction-agent/src. `Agent.Lock` is execution-lock.ts, each call of it
-- one step, and `Agent.Pending` is pending-transaction.ts on the files of one job.
--
-- Conventions. A function of the source is the definition with its name in snake_case; a function that
-- throws returns `Result`. A finite double is `fin k` for k * 2 ^ -1074, so comparisons, Math.min and
-- Math.max are exact; what rounds (sums, Math.round, toFixed) is a parameter. An instant is a whole
-- number of milliseconds; the ISO texts that the source compares are in the order of the instants for
-- the years 0 to 9999. Whole numbers are not bounded: the sums that the source makes of them stay far
-- inside the safe integers. Every loop is over a list, but the two attempts of
-- the lock, which are those of the source.
--
-- Parameters: SHA-256, the commitment scheme and random bytes (`Crypto`), the calendar of `Date`
-- (`Calendar`), Math.round (`Rounding`), the arithmetic of the window (`Arithmetic`), the order and
-- equality of file names (`Names`), Date.parse, localeCompare, `new URL` and JSON.parse (`Runtime`),
-- Base64 (`Codec`), signatures (`AuthRuntime`), what a work and what others do meanwhile (`Surroundings`),
-- fresh identifiers and tokens, the clock, and the answers of the sensor, the services and the database.
--
-- Not modelled: HTTP and user interfaces, the wallet, the rest of the agent, the orchestration of
-- managed sources and of sponsored transactions, the contract and its witnesses, the dataset with its
-- Merkle tree, file system calls, statements of the database that fail, calls of the gateway that
-- interleave between two statements, and the messages of errors where they carry values.
--
-- `Prelude` has the shared names and lemmas, `Tests` runs at concrete inputs.
pub mod Prelude
pub mod Protocol
pub mod Collector
pub mod Gateway
pub mod Managed
pub mod Sponsor
pub mod Container
pub mod Agent
pub mod Tests
