-- ===== src/Lib.antt =====
-- The pacto operator: a Kubernetes controller that checks whether the services that run in a cluster
-- keep the contracts that their Pacto resources refer to. One reconciliation of a Pacto loads the
-- contract, merges the overrides, validates it, records what it says in the status, evaluates its
-- readiness, makes sure that its versions have PactoRevisions, and, where the Pacto has a target,
-- observes the Service and the workload, compares them with the contract, probes the declared
-- endpoints, and writes the status, events and metric samples.
--
-- Which file models which part:
--   Api/*                  api/v1alpha1/conditions.go, pacto_types.go, pactorevision_types.go: spec,
--                          status and revisions as records, the named constants as data types.
--   Contract               the contract library's records (not part of the repository).
--   Observer               internal/observer/runtime.go: `observe` is Observe, with a function for each
--                          kind of workload. Observer/Facts and Deployments prove what a snapshot holds, and
--                          Observer/Answers what every read returns.
--   Validator/*            internal/validator/validator.go in Check, Ports and Validate, and
--                          runtime_checks.go in RuntimeChecks and Image. The proofs: Verdict (the status
--                          of a list of checks), Coverage (which checks there are), Compliance (the
--                          single checks), Outcome (the whole validation), PortsDiff, ImageLaws.
--   Prober                 internal/prober/prober.go.
--   Metrics                internal/metrics/metrics.go: the samples that are recorded, in order.
--                          Gauges and Shown have what the gauges show.
--   Controller/*           internal/controller: Status (the writes of the status), Probes
--                          (probeEndpoints), Populate (populateContractStatus), Overrides
--                          (applyConfigurationOverrides), Revisions and Revisions/Sync (ensureRevision
--                          and syncAllRevisions), Readiness (readiness.go), Handlers
--                          (event_handler.go), Watches (SetupWithManager and
--                          resolveOCIAuth), Finish (failReconciliation, finishReconciliation),
--                          Environment, Runtime and Reconcile (Reconcile). The proofs stand in Summary,
--                          Probed, Counts, Merge, Ends (how a run ends), Complete, StatusGauge, Reference,
--                          Probes/Verdicts, Readiness/Gate, Revisions/Panics, Revisions/Ensured,
--                          Revisions/Names, Watches/Complete, Refusal/* and Cached/*
--                          (behind the loader's caches).
--   Dashboard/*            internal/dashboard: Config (config.go), Resources (resources.go), Apply (apply.go),
--                          and of reconciler.go Action (how a method ends), Deploy (the steps of an
--                          enabled dashboard), Cleanup, and Reconcile (Reconcile and Start). Objects and
--                          Cluster have the records and the client of the Kubernetes library. The
--                          proofs stand in the modules below each.
--   Command/*              cmd/main.go: the flags, the manager's options, and the ends of main. Secrets has
--                          the list of a flag; Started and Secrets/Names hold the proofs.
--   Credentials/*          internal/credentials/resolve.go. Hosts, Entries and RoundTrip hold the proofs.
--   Loader/*               internal/loader/contract.go and oci.go. The proofs: Cache and Stored (what
--                          a cache keeps), Repository (references and their repositories), Transparent and Tags
--                          (the caches of contracts and of tag lists).
--   Prelude/*, Message     shared types, tests and lemmas.
--
-- How the code is read:
--   - A function that changes the Pacto it is given returns the changed one. Events and samples are a
--     list of effects in the order in which they are written. `Reconcile` is cut at its early returns:
--     each stage is a function that ends the run or calls the next stage, and a run is the written
--     Pacto, the effects, and the result.
--   - An error is a value (`Attempt`, `Observed`, `Fetched`); a slice out of range is a panic that
--     ends the run.
--   - A text that package fmt builds is kept as the call's format and arguments (`Message`), so no
--     property depends on how it is printed. Other texts are native strings, and offsets count
--     characters where Go counts bytes: every separator is ASCII, and the cuts at a fixed length
--     (a revision's name, the hash, a digest, the prefix of a body) are of ASCII texts or only
--     tested for being empty.
--   - A Go int is an unbounded integer. Every conversion to int32 keeps its wrap-around (`int32`), and
--     the int32 counters of a summary count modulo 2^32. A duration is in nanoseconds; the intervals
--     are at most 2^31 seconds, which an int64 holds.
--   - A pointer is an option, a nil slice or map is an empty one, and a map is an association list
--     whose keys a Go map keeps distinct; a key list that the code sorts is sorted here too.
--   - The dashboard's methods are actions on the state of the cluster, which is kept when a call fails.
--     Start gets its ticks as a list, each with what others did to the cluster before it. A quantity
--     that does not parse is a panic of the method that builds the Deployment.
--   - Loops are structural recursions on their lists, so no fuel is needed.
--   - The clock is read once in a run of `Reconcile`; the loader reads it where the code does (`Times`).
--
-- Parameters: the client of the cluster and of the revisions, the condition lists of apimachinery, the
-- contract, schema and readiness libraries, the registry, the HTTP client and SHA-256. The laws that a
-- theorem needs of them are records: `IsLawful` of condition lists (Controller/Conditions) and
-- `ReadsWrites` of a client (Controller/Revisions/Ensured) and `IsCodec` of the JSON and base64 texts
-- (Credentials/Entries) and `IsLawful` of the dashboard's cluster
-- (Dashboard/Cluster); the tests fill them by concrete programs. The
-- loader and the credentials are reached through the environment of `Reconcile`, which
-- Controller/Cached fills with the loader.
--
-- Not modelled: the registration of gauges and types, the parser of the flags, log messages, and
-- generated code. Time stamps of conditions are the library's.
pub mod Prelude
pub mod Message
pub mod Contract
pub mod Api
pub mod Observer
pub mod Validator
pub mod Prober
pub mod Metrics
pub mod Credentials
pub mod Loader
pub mod Dashboard
pub mod Controller
pub mod Command
