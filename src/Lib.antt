-- ===== src/Lib.antt =====
-- Verification of the FoundationDB Kubernetes operator: the decisions that it takes about process groups.
--
-- A cluster is a list of process groups. A reconciliation marks failed process groups for removal
-- (automatic replacement), excludes them in FoundationDB, reads from the machine-readable status which
-- exclusions are complete, and then removes the process groups zone by zone. Instances of the operator in
-- several data centers share a lock in the database. Go functions are modelled as functions on immutable
-- values: a method that changes its receiver returns the new value, time.Now() is an argument, and an
-- error is a value.
--
-- The files, and the code that each models:
--   Common: the shared names; 64-bit signed integers with wrap-around (Int), Go maps as association
--     lists (Maps), slices as lists (Lists), Boolean tests (Tests), the order of texts (Order).
--   ProcessGroup: ProcessGroupStatus and its methods, api/v1beta2/foundationdbcluster_types.go. Its
--     children: Conditions, Terminating and Lifecycle (the conditions, and the life of a status as a step
--     relation, with the places of controllers/update_status.go that mark it for removal, exclude it and
--     reset its exclusion), Replacement and Window (NeedsReplacementWithConditions), Addresses (addresses
--     and lookup by ID), Exclusion (AllAddressesExcluded, and processGroupAddressesRemaining of
--     controllers/remove_process_groups.go).
--   Address: ProcessAddress, api/v1beta2/foundationdb_process_address.go.
--   Status: pkg/fdbstatus/status_checks.go, getRemainingAndExcludedFromStatus, CanSafelyRemoveFromStatus,
--     GetCoordinatorsFromStatus. Counting and Classification prove what the three maps of its loops mean.
--     Checks: the other checks of the file before the operator acts, with the fault tolerance (Tolerance)
--     and the checks for each action (Gates).
--   Removal: internal/removals/remove.go (Zones, Remaining), getProcessGroupsToRemove of
--     controllers/remove_process_groups.go and FilterBlockedRemovals of internal/buggify (Selection),
--     and of the same controller confirmRemoval (Confirmation) and getProcessesToInclude (Inclusion).
--     Evidence and Safety join them with Status, and Reconcile composes them as the controller does.
--   Replacement: internal/replacements/replace_failed_process_groups.go, with its limits by process group
--     (Limits) and by fault domain (Domains), and the reasons for a replacement (Justified).
--   Database: api/v1beta2/foundationdb_database_configuration.go, and of
--     api/v1beta2/foundationdbcluster_types.go what depends on the configuration alone. The configuration,
--     its normal form and role counts (Configuration, Roles), FailOver, the primary and the other data
--     centers (DataCenters), GetProcessCountsWithDefaults (Processes, Zones) and
--     GetNextConfigurationChange (Change; Counts and Removal on what a change keeps, Migration on a
--     series of changes, with Regions and Passing on its regions and steps).
--   Locality: internal/locality/locality.go and internal/coordinator/coordinator.go. sortLocalities
--     (Sorting); ChooseDistributedProcesses (Choice, with Counting, Rounds, Spread and Setup on its loops);
--     GetHardLimits and the choice of coordinators (Coordinators, Quorum); selectCandidates (Candidates);
--     CheckCoordinatorValidity (Validity); and their composition, selectCoordinatorsLocalities (Selected).
--   Lock: fdbclient/lock_client.go, with the keys (Keys), single transactions (Transactions), the deny
--     list (DenyList) and interleavings of several instances (Exclusive).
--   Tests: runs on small inputs, and each theorem at such an input.
--
-- What is not under the repository's control is a parameter: Go's package net (Address.Net), sort.Slice
-- (Database.Configuration.Sort), the tuple layer of the FoundationDB bindings (Lock.TupleLayer, with the
-- laws that the code relies on), the admin client's ExcludeProcesses, and
-- intstr.GetScaledValueFromIntOrPercent. So is ParseProcessAddressesFromCmdline, which is a regular
-- expression (Locality.Candidates.Parser). FoundationDB transactions are taken to run one after the other.
-- A loop over a Go map runs over a list in its order, where the iteration order of Go is arbitrary. A map that is
-- an argument is an arbitrary list, so that a theorem on it is about every order. Where the code fills a map
-- itself and the order of a loop over it matters, the order is a parameter: MapOrder for the priorities in
-- GetNextConfigurationChange, and TargetsOrder for the crash-looping containers in ReplaceFailedProcessGroups.
-- Nil and empty slices, which reflect.DeepEqual tells apart, are one list.
--
-- Fuel: only the outer loop of ChooseDistributedProcesses has it, one for each process to choose and each
-- step by which a limit can grow; each round uses up one of them, and running out is a result of its own,
-- which is proved never to come about. The loop that adds regions in GetNextConfigurationChange recurs on
-- the number of regions that are missing. All other loops are structural recursion on the list that they
-- go through.
--
-- Bounds: Go's int and int64 are 64-bit integers that wrap around. A theorem that adds or subtracts such
-- values says for which range it holds; 2^60 seconds, or process groups, is more than any cluster has.
-- The products with time.Second in NeedsReplacementWithConditions and with time.Minute in GetLockDuration are
-- taken in nanoseconds and wrap around, as in Go. Uptimes and lags, which are floating-point numbers in the
-- code, are compared only: an uptime is a whole number here, and a lag a number of milliseconds, rounded up.
-- The counts and limits of ChooseDistributedProcesses are natural numbers: no caller passes a negative one.
--
-- Not modelled: logging; the Kubernetes API and the objects made for it; the parsing of versions and of
-- addresses, whose results (UseLocalitiesForExclusion, SupportsRecoveryState) are inputs; the deletion of
-- Kubernetes resources; the text of the configure command, and the operations on process counts that use
-- reflection; the localities that come from a sidecar; the global synchronization mode; the backup and
-- restore controllers; the kubectl plugin.
pub mod Common
pub mod ProcessGroup
pub mod Lock
pub mod Address
pub mod Status
pub mod Removal
pub mod Replacement
pub mod Database
pub mod Locality
pub mod Tests
