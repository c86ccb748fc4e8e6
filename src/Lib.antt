-- ===== src/Lib.antt =====
-- The agents orchestrator: the reconciler that starts, watches and stops the workloads of agent
-- instances and sandboxes on runners, so that the runners and the records of the platform come to
-- what is wanted. A cycle compares what is desired with the workloads that are tracked
-- (internal/reconciler/diff.go), stops some (stopWorkload) and starts others (shouldStartWorkload,
-- then startWorkload), deletes the identities that no workload has and brings the role attributes of
-- the others up to date. Other loops handle the tracked workloads and volumes runner by runner
-- against what the runner reports, the sandboxes, and the metering of what was used.
--
-- The files and the code that they model:
--   Uuid                    internal/uuidutil/parse.go
--   RunnerSelect            internal/runnerselect/select.go
--   ZitiManager             internal/zitimanager/manager.go
--   Subscriber              internal/subscriber/subscriber.go
--   Assembler               internal/assembler/resources.go, llmmode.go
--   Reconciler.Records      workload_id.go, runtime_record_identity.go, and small readers of records
--   Reconciler.Diff         diff.go: ComputeActions
--   Reconciler.StartDecision  start_decision.go: shouldStartWorkload and its listings
--   Reconciler.Placement    runner_pinning.go, runners.go, and the choice of a runner in startWorkload
--   Reconciler.Identity     createIdentity, compensateIdentity, attachZitiEnrollmentToken of
--                           reconciler.go, agentGroupRoleAttributes of group_sync.go
--   Reconciler.VolumeRecords  volume_records.go, and the volume records of lifecycle_helpers.go
--   Reconciler.Start        startWorkload and buildContainers of reconciler.go
--   Reconciler.Stop         stopWorkload and stopWorkloadWithContext of reconciler.go
--   Reconciler.Runner       the calls on runners of reconciler.go, pullcredentials.go, pauseInstance
--   Reconciler.Classify     classifyStartingContainers, classifyRunningContainers of
--                           workload_reconcile.go
--   Reconciler.Workloads    handleMissingRunnerWorkload, handlePresentRunnerWorkload and
--                           failWorkloadOnRunner of workload_reconcile.go
--   Reconciler.Volumes      the handlers of one volume, and its TTL, of volume_reconcile.go
--   Reconciler.Sandbox      sandbox_reconciler.go: reconcileSandbox and what it calls
--   Reconciler.Listings     the listings of agents, workloads, volumes and runners: actual.go,
--                           identity_metadata.go, and parts of orphan.go, group_sync.go, runners.go,
--                           metering_sample.go, volume_reconcile.go
--   Reconciler.Desired      desired.go: fetchDesired, addIdleTimeoutsForWorkloads
--   Reconciler.Orphans      orphan.go: the sweep of identities
--   Reconciler.GroupRoles   group_sync.go: the handlers of membership events
--   Reconciler.Metering     metering_sample.go: sampleMetering
--   Reconciler.Cycles       reconcile of reconciler.go, reconcileWorkloads of workload_reconcile.go,
--                           reconcileVolumes of volume_reconcile.go, reconcileSandboxes of
--                           sandbox_reconciler.go
--   Reconciler.ShellSnapshot  shell_snapshot.go: the request that a snapshot sends, and its parser
-- (all but the first five under internal/reconciler/). A Go function keeps its name, in snake case.
-- Its parts are functions of their own where it branches on a reply. The child modules of a
-- component hold the lemmas and theorems about it.
--
-- State and services. The reconciler keeps its state in the records of other services. Platform
-- describes these by an environment that answers each request as it likes, in view of the trace of
-- the requests made before, so that a statement for every environment covers every behaviour of the
-- services, of the clock, and of other programs between two requests. Effect is the monad of code
-- that makes requests and may fail; the trace goes on across an error. Two readings of the clock
-- with no request between them read the same time. A handler that writes into a shared Go record
-- returns the record here.
--
-- Outside the repository, and so parameters: the generated messages (Api and Platform.Messages have
-- their fields that the program uses; a proto enum is open), uuid.Parse and uuid.New,
-- time.ParseDuration, strconv.ParseFloat, resource.ParseQuantity, rand.Int, proto.Unmarshal, and the
-- operations on float64, which stands as its bit pattern. The assembler is a request
-- of the reconciler too, and a runner's answer to a command in a container is a parameter of
-- Reconciler.ShellSnapshot. The order in which Go ranges over a map is a parameter, about which a theorem supposes
-- at most that the keys are visited, each of them and no others, or each entry once.
--
-- Numbers and bounds. A time is a count of nanoseconds since the zero time; time.Duration is a
-- signed 64-bit count, and the difference of two times saturates as time.Time.Sub does. Counters of
-- the loops are bounded by the lists that they count and are plain numbers. A loop over the pages of
-- a listing runs on fuel, the number of pages that the deadline of the cycle's context allows; out
-- of fuel it returns the error of the deadline. The service decides whether there is a next page: a
-- listing with a limit needs no more pages than its limit and one more, if the service makes
-- progress, and one without a limit as many as the service has. Statements hold for every fuel
-- unless they say how much is enough.
--
-- Not modelled: logging; the timeout of a snapshot of shells, which the stop of a sandbox has as
-- one event; the text that is put before a wrapped error and the values in an error's
-- text (an error of the program is the literal of its format); the labels that buildVolumeRecords
-- writes into a volume's spec; the tickers that run the cycles (reconcile_loops.go) and the NATS
-- consumer around the group handlers; the rest of the assembler and the dialer;
-- configuration, leader election, Kubernetes and the network. degradeThread, listAgents,
-- markSandboxWorkspaceFailed and volumeAgentInstanceID have no caller.
pub mod Prelude
pub mod Errors
pub mod Api
pub mod Platform
pub mod Effect
pub mod Uuid
pub mod RunnerSelect
pub mod Reconciler
pub mod Subscriber
pub mod ZitiManager
pub mod Assembler
pub mod Examples
