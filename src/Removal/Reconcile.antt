-- ===== src/Removal/Reconcile.antt =====
-- One reconciliation of the removal: removeProcessGroups.reconcile of
-- controllers/remove_process_groups.go up to the deletion of resources. Whether the update of the cluster
-- succeeds and whether the status has the desired fault tolerance are arguments.
pub mod Members
use fdb_kubernetes_operator.Common.{
  String, Bool, true, false, not, ◌&&◌, ◌||◌, Option, none, some, List, [], ◌∷◌, if◌then◌else◌,
  ◌==◌, string_eq, is_empty, lookup, deref,
}
use fdb_kubernetes_operator.Common.Int.{ℤ, pos, negsuc, ltb_ℤ}
use fdb_kubernetes_operator.Address.{Net, ProcessAddress}
use fdb_kubernetes_operator.Status.{Status, get_coordinators}
use fdb_kubernetes_operator.ProcessGroup.{Instant, ProcessGroupStatus, FaultDomain}
use fdb_kubernetes_operator.Removal.{Cluster}
use fdb_kubernetes_operator.Removal.Remaining.{get_remaining_map}
use fdb_kubernetes_operator.Removal.Selection as Selection
use fdb_kubernetes_operator.Removal.Selection.{Outcome, filter_blocked_removals}
use fdb_kubernetes_operator.Removal.Zones.{
  get_zoned_removals, get_process_groups_to_remove, terminating_zone,
}
use fdb_kubernetes_operator.Removal.Zones.Choice.{removal_allowed}

-- The settings of the cluster for removals.
pub record Settings : Type 0 where
  pub removal_mode : String
  pub wait_between_removals_seconds : Option ℤ

unfoldable pub get_removal_mode : Settings → String
get_removal_mode s = if s.removal_mode == "" then "Zone" else s.removal_mode

unfoldable pub get_wait_between_removals_seconds : Settings → ℤ
get_wait_between_removals_seconds s =
    let duration = deref s.wait_between_removals_seconds (negsuc 0) in
    if ltb_ℤ duration (pos 0) then pos 60 else duration

-- How the reconciliation goes on: it fails or is queued again, it has nothing to remove, or it removes the
-- process groups of a zone, with those that are already terminating.
pub data Plan : Type 0 where
  failed needs_exclusions finished degraded : Plan
  wait : ℤ → Plan
  remove : FaultDomain → List ProcessGroupStatus → List ProcessGroupStatus → Plan

-- What follows the selection of process groups.
unfoldable pub plan_zones : Instant → Settings → Bool → List ProcessGroupStatus → Plan
unfolding get_removal_mode get_wait_between_removals_seconds
plan_zones now s tolerant gs =
    let zoned = get_zoned_removals gs in
    let mode = get_removal_mode s in
    let allowed = removal_allowed zoned.1 now.seconds (get_wait_between_removals_seconds s) in
    if is_empty gs
    then finished
    else if not tolerant
    then degraded
    else if not (mode == "All") && not allowed.1
    then wait allowed.0
    else elim (get_process_groups_to_remove mode zoned.0) [
      | none ↦ failed
      | some (zone, removals) ↦ remove zone removals (deref (lookup terminating_zone zoned.0) [])
    ]

unfoldable pub plan_removals : Instant → Cluster → Settings → Bool → Bool → Outcome → Plan
unfolding plan_zones
plan_removals now c s updated tolerant o =
    if is_empty o.to_remove
    then (if not o.all_excluded then needs_exclusions else finished)
    else if o.new_exclusions && not updated
    then failed
    else plan_zones now s tolerant (filter_blocked_removals c o.to_remove)

unfoldable pub reconcile :
    Net
    → (List ProcessAddress → Bool)
    → Bool
    → Instant
    → Cluster
    → Settings
    → Status
    → Bool
    → Bool
    → Plan
unfolding plan_removals
reconcile net exclude safe now c s status updated tolerant =
    elim (get_remaining_map net exclude safe c status) [
      | none ↦ failed
      | some m ↦ plan_removals now c s updated tolerant (
          Selection.get_process_groups_to_remove now (get_coordinators status.processes) m
            c.process_groups)
    ]
