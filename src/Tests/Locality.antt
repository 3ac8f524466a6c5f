-- ===== src/Tests/Locality.antt =====
-- The choice of coordinators among processes in five zones, and over three data centers.
use fdb_kubernetes_operator.Common.{◌≡◌, refl, String, [], ◌∷◌, none, some, insert, count_if, Bool}
use fdb_kubernetes_operator.Common.Int.{ℤ, pos, ◌+ℤ◌}
use fdb_kubernetes_operator.Address.{of_string}
use fdb_kubernetes_operator.Database.Configuration.{
  RoleCounts, Configuration, Sort, desired_coordinator_count, desired_configuration,
}
use fdb_kubernetes_operator.Database.DataCenters.{primary_dc_id}
use fdb_kubernetes_operator.Locality.{Info}
use fdb_kubernetes_operator.Locality.Choice.{complete, choose_sorted}
use fdb_kubernetes_operator.Locality.Choice.Setup.{hard_limits}
use fdb_kubernetes_operator.Locality.Choice.Spread.{IsRight}
use fdb_kubernetes_operator.Locality.Coordinators.{
  choose_coordinators, choose_distributed_processes, get_hard_limits, Constraint, candidates_of,
}
use fdb_kubernetes_operator.Locality.Coordinators.Quorum.{choose_distributed_processes-IsRight}
use fdb_kubernetes_operator.Locality.Sorting.{sort_localities, IsSorted, sort_localities_lem}

-- The lists that these tests sort are in order.
abbrev sorted : Sort
sorted = record { data_centers = λ less dcs. dcs; regions = λ less rs. rs }

abbrev no_counts : RoleCounts
no_counts = record {
  storage = pos 0;
  logs = pos 0;
  proxies = pos 0;
  commit_proxies = pos 0;
  grv_proxies = pos 0;
  resolvers = pos 0;
  log_routers = pos 0;
  remote_logs = pos 0;
}

abbrev double : Configuration
double = record {
  redundancy_mode = "double";
  storage_engine = "ssd-2";
  usable_regions = pos 1;
  regions = [];
  excluded_servers = [];
  role_counts = no_counts;
  log_spill = pos 0;
  log_version = pos 0;
  storage_migration_type = none;
  perpetual_storage_wiggle = none;
  perpetual_storage_wiggle_locality = none;
  perpetual_storage_wiggle_engine = none;
}

abbrev process : String → String → ℤ → Info
process id zone priority = record {
  id = id;
  address = of_string id;
  locality_data = ("zoneid", zone) ∷ [];
  class = "log";
  priority = priority;
}

abbrev p1 : Info
p1 = process "log-1" "z1" (pos 1)

abbrev p2 : Info
p2 = process "log-2" "z1" (pos 1)

abbrev p3 : Info
p3 = process "log-3" "z2" (pos 1)

abbrev p4 : Info
p4 = process "storage-1" "z3" (pos 0)

test_choose_coordinators :
    choose_coordinators sorted double (p4 ∷ p2 ∷ p3 ∷ p1 ∷ []) ≡ some (complete (p1 ∷ p3 ∷ p4 ∷ []))
unfolding choose_coordinators choose_distributed_processes get_hard_limits desired_coordinator_count
    desired_configuration primary_dc_id choose_sorted sort_localities ◌+ℤ◌ insert
test_choose_coordinators = refl

abbrev one_per_zone : Constraint
one_per_zone = record { fields = "zoneid" ∷ []; hard_limits = ("zoneid", 1) ∷ [] }

choose_distributed_processes-IsRight_example :
    IsRight
      ("zoneid" ∷ [])
      4
      (hard_limits ("zoneid" ∷ []) 4 (("zoneid", 1) ∷ []))
      (candidates_of sorted double (p4 ∷ p2 ∷ p3 ∷ p1 ∷ []))
      (choose_distributed_processes sorted double (p4 ∷ p2 ∷ p3 ∷ p1 ∷ []) 4 one_per_zone)
choose_distributed_processes-IsRight_example =
    choose_distributed_processes-IsRight sorted double (p4 ∷ p2 ∷ p3 ∷ p1 ∷ []) 4 one_per_zone
      (refl, tt)

sort_localities_lem_example :
    IsSorted "" (sort_localities "" (p4 ∷ p2 ∷ p1 ∷ []))
    × ((t : Info → Bool)
        → count_if t (sort_localities "" (p4 ∷ p2 ∷ p1 ∷ [])) ≡ count_if t (p4 ∷ p2 ∷ p1 ∷ []))
sort_localities_lem_example = sort_localities_lem "" (p4 ∷ p2 ∷ p1 ∷ [])
