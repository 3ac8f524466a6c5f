-- ===== src/Removal/Remaining.antt =====
-- The addresses whose exclusion is checked before a removal: processGroupIDsInStatus,
-- getAddressesToValidateBeforeRemoval and GetRemainingMap of internal/removals/remove.go, with the checks
-- of pkg/fdbstatus/status_checks.go that come before it. Uptimes are whole numbers here, in any unit.
use fdb_kubernetes_operator.Common.{
  ℕ, String, Bool, true, false, not, ◌&&◌, Option, none, some, List, [], ◌∷◌, ◌++◌, map,
  if◌then◌else◌, ◌==◌, string_eq, ltb, contains, is_empty, is_some, lookup, insert,
}
use fdb_kubernetes_operator.Common.Int.{pos}
use fdb_kubernetes_operator.Address.{Net, ProcessAddress, of_string, of_ip, address_string}
use fdb_kubernetes_operator.Status.{
  Status, StatusProcess, default_safety_checks, can_safely_remove, locality_of,
}
use fdb_kubernetes_operator.ProcessGroup.{
  ProcessGroupStatus, ProcessGroupId, is_excluded, is_marked_for_removal, is_log_process,
}
use fdb_kubernetes_operator.ProcessGroup.Exclusion.{get_exclusion_string}
use fdb_kubernetes_operator.Removal.{Cluster}

-- `ProcessSharesDC`
unfoldable pub process_shares_dc : Cluster → StatusProcess → Bool
process_shares_dc c p = if c.data_center == "" then true else c.data_center == locality_of "dcid" p

unfoldable pub ids_of_processes : Cluster → List StatusProcess → List ProcessGroupId
unfolding process_shares_dc
ids_of_processes c [] = []
ids_of_processes c (p ∷ ps) =
    let rest = ids_of_processes c ps in
    if not (process_shares_dc c p)
    then rest
    else elim (lookup "instance_id" p.locality) [ none ↦ rest | some id ↦ id ∷ rest ]

-- `processGroupIDsInStatus`, a set as the list of its members.
unfoldable pub process_group_ids_in_status : Cluster → Option Status → List ProcessGroupId
unfolding ids_of_processes
process_group_ids_in_status c none = []
process_group_ids_in_status c (some status) = ids_of_processes c status.processes

-- What the body of the loop of `getAddressesToValidateBeforeRemoval` appends for a process group.
unfoldable pub addresses_of :
    Net → Cluster → List ProcessGroupId → ProcessGroupStatus → List ProcessAddress
unfolding is_marked_for_removal is_excluded is_log_process get_exclusion_string
addresses_of net c present g =
    let ips = map (λ a. of_ip (net.parse_ip a)) g.addresses in
    let locality = of_string (get_exclusion_string g.process_group_id) in
    if not (is_marked_for_removal g)
    then []
    else if is_excluded g && contains present g.process_group_id
    then []
    else if c.use_localities_for_exclusion
    then (if not (is_log_process g.process_class) then locality ∷ [] else locality ∷ ips)
    else ips

unfoldable pub addresses_to_validate :
    Net → Cluster → List ProcessGroupId → List ProcessGroupStatus → List ProcessAddress
unfolding addresses_of
addresses_to_validate net c present [] = []
addresses_to_validate net c present (g ∷ gs) =
    addresses_of net c present g ++ addresses_to_validate net c present gs

-- `remainingMap[address.String()] = value` for each address.
unfoldable pub set_all :
    Net → Bool → List ProcessAddress → List (String × Bool) → List (String × Bool)
set_all net value [] m = m
set_all net value (a ∷ rest) m = set_all net value rest (insert (address_string net a) value m)

unfoldable pub get_addresses_to_validate_before_removal :
    Net → Cluster → Option Status → List (String × Bool) × List ProcessAddress
unfolding process_group_ids_in_status addresses_to_validate set_all
get_addresses_to_validate_before_removal net c status =
    let addresses =
      addresses_to_validate net c (process_group_ids_in_status c status) c.process_groups in
    if is_empty addresses then ([], []) else (set_all net false addresses [], addresses)

-- The version of the cluster, as far as the checks read it: `none` if it does not parse, or else
-- SupportsRecoveryState().
unfoldable pub is_up_long_enough : Option Bool → ℕ → ℕ → Bool
is_up_long_enough none since minimum = false
is_up_long_enough (some supports_recovery_state) since minimum =
    if supports_recovery_state then not (ltb since minimum) else true

-- Whether `CanSafelyExcludeProcessesWithRecoveryState` returns no error.
unfoldable pub can_safely_exclude : Option Bool → ℕ → ℕ → Status → Bool
unfolding default_safety_checks is_up_long_enough
can_safely_exclude version since minimum status =
    if is_some (default_safety_checks status (pos 10))
    then false
    else is_up_long_enough version since minimum

-- `GetRemainingMap`, where `none` is an error. The argument `exclude` is as for CanSafelyRemoveFromStatus,
-- and `safe` the result of the check before it.
unfoldable pub get_remaining_map :
    Net → (List ProcessAddress → Bool) → Bool → Cluster → Status → Option (List (String × Bool))
unfolding get_addresses_to_validate_before_removal can_safely_remove
get_remaining_map net exclude safe c status =
    let (remaining_map, addresses) = get_addresses_to_validate_before_removal net c (some status) in
    let (remaining, excluded) = can_safely_remove net exclude addresses status in
    if is_empty addresses
    then some []
    else if not safe
    then none
    else if not excluded
    then none
    else some (set_all net true remaining remaining_map)
