-- ===== src/Lib.antt =====
-- A model of the decisions of the PgBouncer Aurora operator: which PgBouncers run for the
-- instances of an Aurora cluster, and which of them serve the writer and the reader service. A
-- reconcile discovers the topology from rows of the database, or falls back on the stored one;
-- checks the health of the instances; plans the instances and the memberships; applies the plan
-- to Kubernetes objects and to the labels of pods; and stores a status, from which the next
-- reconcile starts.
--
-- The parts and their files:
--
--   Api, Api.Spec, Api.Status: the custom resource (api/v1alpha1/pgbounceraurora_types.go).
--   Domain: observations, health and plans (internal/domain/topology.go).
--   Planner: Plan (internal/planner/planner.go); Planner.Select, Planner.Health, Planner.Observe
--     and Planner.Stabilize hold its helpers in the order in which Plan calls them, and
--     Planner.Io its input and output. Planner.Writers, Planner.Serving, Planner.Readers,
--     Planner.Fallback, Planner.Plans, Planner.Justified, Planner.Identity and Planner.Frame hold
--     proofs.
--   Discovery, Discovery.Rows: BuildResult and Discover (internal/discovery/aurora.go);
--     Discovery.Accepted and Discovery.Metadata hold proofs.
--   Controller.Due: when discovery, a check, a removal and the next reconcile are due
--     (discoveryDue, monitorDue, removedInstanceReadyForDelete, requeueAfter in
--     internal/controller/reconciler.go, as all that follow).
--   Controller.Throttle: reconcileThrottleRemaining.
--   Controller.Cache, Controller.Cache.Source: discoveryFor, discoveryAfterFailureThreshold,
--     topologyChanged, and cachedDiscovery of internal/controller/scheduler.go.
--   Controller.Labels, Controller.Pods with its children: patchPodMembership, its two passes over
--     the pods and the tests of labels.
--   Controller.Hysteresis: instanceStatus, and rounds of checks of one instance.
--   Controller.Missing with its children: missingInstancesFor. Controller.Removal:
--     cleanupRemovedInstanceResources and deleteInstanceResources.
--   Controller.Membership, Controller.Membership.Writers, Controller.Membership.Failover,
--     Controller.Membership.Changes, Controller.Membership.Events, Controller.Membership.Sets:
--     applyWriterFailoverFastPath, shouldApplyPlan, planDesiredStateChanged, topologyEventReport.
--   Controller.Conditions, Controller.Conditions.Ready: conditionWithTransition,
--     trafficTransitionCondition, backendHealthyCondition, roleReadyCondition.
--     Controller.Summary: roleServiceSummary.
--   Controller.Restart: handleWriterChangeConnection, restartInstanceDeployments.
--   Controller.Stored, Controller.Stored.Agrees: updateStatus.
--   Controller.Zones, Controller.Zones.Policy: zoneAwareConflictCondition and
--     applyZoneAwareConflictPolicy. Controller.Reported, Controller.Reported.Degraded:
--     conditionsFor and degradedCondition.
--   Controller.Health, Controller.Health.Changed: healthFor and podReadinessChanged.
--     Controller.Apply: applyDesired and its clean-ups. Controller.Drift,
--     Controller.Drift.Agrees, Controller.Drift.Silent: cachedPlanNeedsApply. Controller.Copy,
--     Controller.Copy.Settled: copyDesired.
--   Reconcile, Reconcile.Frozen: Reconcile over the parts above.
--   Scheduler, Scheduler.Exclusion: enqueueJob, markInFlight and clearInFlight, as steps of jobs
--     that start and end in any order (internal/controller/scheduler.go). Scheduler.Watch,
--     Scheduler.Watch.Names: enqueueDueJobs and matchesWatchNames. Scheduler.Updates:
--     updateDiscoveryStatus and updateMonitorStatus; Scheduler.Updates.Cached and
--     Scheduler.Updates.Order hold proofs. Scheduler.Work, Scheduler.Work.Stored,
--     Scheduler.Work.Effects: runDiscoveryJob and runMonitorJob.
--   Monitor with its children: Check and the probe of an instance (internal/monitor/probe.go),
--     and its credentials (internal/postgres/connect.go). Monitor.Collected and Monitor.Healthy
--     hold proofs. Kubernetes: what is read of a pod.
--   RdsMetadata, RdsMetadata.Served: the resolver of metadata with its cache
--     (internal/discovery/rds.go) and the worker that refreshes it
--     (internal/controller/rds_metadata_worker.go).
--   Render.Merge, Render.Merge.Laws: mergeMap, mergeVolumes, mergedConfig
--     (internal/render/merge.go and config.go). Render.Config, Render.Config.Section:
--     PgBouncerINI and ListenPort.
--   Render.Names, Render.Names.Valid: safeDNSLabel and the names it makes
--     (internal/render/resources.go).
--   Base with its children: tests, lists, integers, texts, sorting, maps and fallible answers.
--     Samples: concrete resources. The modules called Tests run the definitions on them.
--
-- How it is modelled: a record of the source is a record with the fields in its order, a pointer
-- an option, a slice a list, a map a list with one entry for each key, and a set a list of names.
-- An int32 or int64 is its bit pattern; additions wrap around, and comparisons and tests of a
-- sign are the signed ones. An instant is a number of nanoseconds since a fixed origin; a
-- difference that would be negative is 0, which the comparisons with positive bounds cannot tell
-- apart. A loop is recursion on its list, with the state it changes as arguments; an early return
-- is a conditional. The only fuel is that of the decimal digits of a 32-bit number, and ten
-- digits are enough. Sorting by name is an insertion sort, which is stable; the source's sort is
-- not, and gives the same for names that differ.
--
-- What is a parameter: the API server for pods and deployments, with a state and with laws that a
-- patch or an update stores what it is given (Controller.Pods, Controller.Restart); deletion of
-- objects; the database, the RDS API, the hash of a value, lower case, the parsing of numbers and
-- the SHA-1 digest; for Reconcile also the drift check and the rendering of one object. The order
-- in which the workers of a health check answer is an argument too. The laws say that no one else
-- writes the same labels meanwhile. A merge patch has no conflict to retry, and an update stands
-- for the last try; the update of a status stands for the read, the change and the write that
-- succeed together.
--
-- What is not modelled: the connections and queries of probes, which are I/O; the rendering of
-- Kubernetes objects apart from their names and the configuration; the defaults of the server in
-- pod templates; the queue of reconcile requests; log lines; the status page; the start of the
-- process. A failed reconcile gives up the state that it reached. A nil resource, which Plan also
-- accepts, has no counterpart.
pub mod Base
pub mod Api
pub mod Domain
pub mod Kubernetes
pub mod Planner
pub mod Discovery
pub mod RdsMetadata
pub mod Render
pub mod Controller
pub mod Monitor
pub mod Scheduler
pub mod Reconcile
pub mod Samples
