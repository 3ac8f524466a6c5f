-- ===== src/Tests/Reconcile.antt =====
-- A reconciliation that removes a storage process group.
use fdb_kubernetes_operator.Common.{
  ◌≡◌, inl, refl, String, Bool, true, List, [], ◌∷◌, some, none, insert,
}
use fdb_kubernetes_operator.Common.Int.{◌-ℤ◌}
use fdb_kubernetes_operator.Address.{address_string, machine_address}
use fdb_kubernetes_operator.Status.{
  get_coordinators, get_remaining_and_excluded, can_safely_remove, default_safety_checks,
  has_valid_role_information,
}
use fdb_kubernetes_operator.ProcessGroup.{
  ProcessGroupStatus, is_marked_for_removal, is_excluded, set_exclude, is_log_process,
  get_condition_time, find_condition_time,
}
use fdb_kubernetes_operator.ProcessGroup.Exclusion.{
  get_exclusion_string, process_group_addresses_remaining, all_addresses_excluded,
}
use fdb_kubernetes_operator.Removal.Zones.{
  get_zoned_removals, get_process_groups_to_remove, append_to_zone,
}
use fdb_kubernetes_operator.Removal.Zones.Choice.{removal_allowed}
use fdb_kubernetes_operator.Removal.Remaining.{
  get_remaining_map, get_addresses_to_validate_before_removal, process_group_ids_in_status,
  addresses_to_validate, addresses_of, set_all, ids_of_processes, process_shares_dc,
}
use fdb_kubernetes_operator.Removal.Evidence.{Member}
use fdb_kubernetes_operator.Removal.Selection as Selection
use fdb_kubernetes_operator.Removal.Selection.{is_removed, completed, filter_blocked_removals}
use fdb_kubernetes_operator.Removal.Reconcile.{
  Settings, reconcile, plan_removals, plan_zones, get_removal_mode,
  get_wait_between_removals_seconds,
}
use fdb_kubernetes_operator.Removal.Reconcile.Members.{reconcile-remove}
use fdb_kubernetes_operator.Tests.Removal.{one_address, at, storage_1, status_1, cluster_1, always}

abbrev defaults : Settings
defaults = record { removal_mode = ""; wait_between_removals_seconds = none }

program : Unit {0}
unfolding get_remaining_map get_addresses_to_validate_before_removal process_group_ids_in_status
    addresses_to_validate addresses_of set_all ids_of_processes process_shares_dc storage_1
    is_marked_for_removal is_excluded is_log_process get_exclusion_string address_string
    machine_address get_remaining_and_excluded can_safely_remove default_safety_checks
    has_valid_role_information process_group_addresses_remaining all_addresses_excluded
    get_zoned_removals append_to_zone insert get_process_groups_to_remove removal_allowed ◌-ℤ◌
    get_condition_time find_condition_time reconcile plan_removals plan_zones get_removal_mode
    get_wait_between_removals_seconds set_exclude Selection.get_process_groups_to_remove
    filter_blocked_removals get_coordinators
program = tt

removed_1 : ProcessGroupStatus
removed_1 = completed (at 300) storage_1

reconcile-remove_example :
    (◌≡◌ {A = Bool} true true)
    × (m : List (String × Bool)) × (get_remaining_map one_address always true cluster_1 status_1
        ≡ some m)
    × (g : ProcessGroupStatus) × Member g cluster_1.process_groups
    × (is_removed (at 300) [] m g ≡ true)
    × (removed_1 ≡ completed (at 300) g)
unfolding program removed_1
reconcile-remove_example =
    reconcile-remove one_address always true (at 300) cluster_1 defaults status_1 true true
      "foundationdb.org/unknown" (removed_1 ∷ []) [] removed_1 refl refl (inl (inl refl))
