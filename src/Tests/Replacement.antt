-- ===== src/Tests/Replacement.antt =====
-- The replacement of a process group that is missing for longer than the failure detection time.
use fdb_kubernetes_operator.Common.{
  ℕ, ◌≤◌, ◌≡◌, ◌⊎◌, refl, Bool, true, false, none, some, List, [], ◌∷◌, length, arith,
}
use fdb_kubernetes_operator.Common.Int.{pos, ◌≤ℤ◌, ◌+ℤ◌, ◌-ℤ◌}
use fdb_kubernetes_operator.ProcessGroup.{
  Instant, ProcessGroupStatus, FaultDomain, new_process_group_status, mark_for_removal,
  is_marked_for_removal, is_excluded, is_under_maintenance,
}
use fdb_kubernetes_operator.ProcessGroup.Replacement.{needs_replacement_with_conditions}
use fdb_kubernetes_operator.Replacement.{
  TargetsOrder, Cluster, groups_after, replace_failed_process_groups, crash_loop_groups, ignored,
  start_of, replace_loop, times_of, node_taint_replacements_allowed, in_flight_loop,
  get_replacement_information, removal_allowed, verdict_of, advance, change,
}
use fdb_kubernetes_operator.Replacement.Limits.{in_flight, replace_failed_process_groups-in_flight}
use fdb_kubernetes_operator.Replacement.Domains.{Covered, replace_failed_process_groups-Covered}
use fdb_kubernetes_operator.Replacement.Justified.{
  Justified, replaced, replace_failed_process_groups-Justified,
}

abbrev at : ℕ → Instant
at n = record { seconds = pos n; nanos = 0 }

-- The entries in the order in which they were put into the map.
abbrev first_put : TargetsOrder
first_put m = m

abbrev storage_1 : ProcessGroupStatus
unfolding new_process_group_status
storage_1 = new_process_group_status (at 100) "storage-1" "storage" ("10.0.0.1" ∷ [])

abbrev storage_2 : ProcessGroupStatus
unfolding new_process_group_status
storage_2 = new_process_group_status (at 100) "storage-2" "storage" ("10.0.0.2" ∷ [])

abbrev by_domain : Bool → Cluster
by_domain b = record {
  enabled = none;
  max_concurrent_replacements = none;
  fault_domain_based_replacements = some b;
  failure_detection_time_seconds = none;
  taint_replacement_time_seconds = none;
  taint_replacement_options = [];
  max_tainted = λ n. some (pos 1);
  crash_loop_containers = [];
  use_localities_for_exclusion = true;
  maintenance_zone = "";
  process_groups = storage_1 ∷ storage_2 ∷ [];
}

program : Unit {0}
unfolding replace_failed_process_groups crash_loop_groups ignored start_of replace_loop times_of
    node_taint_replacements_allowed in_flight_loop get_replacement_information removal_allowed
    verdict_of advance change mark_for_removal is_marked_for_removal is_excluded
    is_under_maintenance needs_replacement_with_conditions ◌-ℤ◌ ◌+ℤ◌ storage_1 storage_2
program = tt

-- Both are due, and one is replaced.
one_at_a_time :
    groups_after first_put (at 8000) (by_domain false) true
    ≡ replaced (at 8000) (by_domain false) storage_1 ∷ storage_2 ∷ []
unfolding program
one_at_a_time = refl

replace_failed_process_groups-in_flight_example :
    (in_flight (groups_after first_put (at 8000) (by_domain false) true) ≤ 0)
    ⊎ (pos (in_flight (groups_after first_put (at 8000) (by_domain false) true)) ≤ℤ pos 1)
unfolding program
replace_failed_process_groups-in_flight_example =
    replace_failed_process_groups-in_flight first_put (at 8000) (by_domain false) true refl
      (omega arith, omega arith) (omega arith)

replace_failed_process_groups-Covered_example :
    (domains : List FaultDomain) × Covered domains
      (groups_after first_put (at 8000) (by_domain true) true)
    × ((length domains ≤ 0) ⊎ (pos (length domains) ≤ℤ pos 1))
unfolding program
replace_failed_process_groups-Covered_example =
    replace_failed_process_groups-Covered first_put (at 8000) (by_domain true) true refl

replace_failed_process_groups-Justified_example :
    Justified
      (at 8000)
      (by_domain false)
      true
      (storage_1 ∷ storage_2 ∷ [])
      (groups_after first_put (at 8000) (by_domain false) true)
replace_failed_process_groups-Justified_example =
    replace_failed_process_groups-Justified first_put (at 8000) (by_domain false) true
