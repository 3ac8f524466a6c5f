-- ===== src/Tests/Configuration.antt =====
-- A cluster whose second region is taken out of the configuration, and its process counts.
use fdb_kubernetes_operator.Common.{
  inl, ◌≡◌, ◌⊎◌, ◌+◌, ◌^◌, refl, String, true, false, not, ◌&&◌, List, [], ◌∷◌, none, length,
  contains, All, arith, insert, string_eq, eq_iff, ◌≢◌,
}
use fdb_kubernetes_operator.Common.Int.{ℤ, pos, negsuc, pos_part, ◌<ℤ◌, ◌-ℤ◌, ◌+ℤ◌}
use fdb_kubernetes_operator.Database.{DataCenter, Region}
use fdb_kubernetes_operator.Database.Configuration.{
  RoleCounts, Configuration, role_counts_with_defaults,
}
use fdb_kubernetes_operator.Database.Configuration.Roles.{
  IsComplete, HasConfigured, filled, role_counts_with_defaults_lem,
}
use fdb_kubernetes_operator.Database.DataCenters.{
  all_data_centers, primary_dc_id, main_dcs_and_satellites, count_unique_data_centers, is_main,
}
use fdb_kubernetes_operator.Database.DataCenters.Primary.{IsPrimary, primary_dc_id-IsPrimary}
use fdb_kubernetes_operator.Database.DataCenters.Sets.{
  some_main, some_satellite, main_dcs_and_satellites_lem,
}
use fdb_kubernetes_operator.Database.Processes.{
  ProcessCounts, ClusterSpec, calculate_process_count, zone_count_of,
  get_process_counts_with_defaults, largest,
}
use fdb_kubernetes_operator.Database.Processes.Zones.{
  in_zone, in_one_zone, sum_below, calculate_process_count-sum,
}
use fdb_kubernetes_operator.Database.Change.{MapOrder, get_next_configuration_change}
use fdb_kubernetes_operator.Database.Change.Counts.{
  IsMarginal, get_next_configuration_change-IsMarginal,
}
use fdb_kubernetes_operator.Database.Change.Regions
use fdb_kubernetes_operator.Database.Change.Passing
use fdb_kubernetes_operator.Database.Change.Migration.{changes, changes-final}
use fdb_kubernetes_operator.Database.Change.Removal.{IsKept, get_next_configuration_change-IsKept}

abbrev no_counts : RoleCounts
no_counts = record {
  storage = pos 0;
  logs = pos 0;
  proxies = pos 0;
  commit_proxies = pos 0;
  grv_proxies = pos 0;
  resolvers = pos 0;
  log_routers = pos 0;
  remote_logs = pos 0;
}

abbrev data_center : String → ℤ → DataCenter
data_center id priority = record { id = id; priority = priority; satellite = pos 0 }

abbrev region : String → ℤ → Region
region id priority = record {
  data_centers = data_center id priority ∷ [];
  satellite_logs = pos 0;
  satellite_redundancy_mode = "";
}

abbrev with_regions : ℤ → List Region → Configuration
with_regions usable regions = record {
  redundancy_mode = "double";
  storage_engine = "ssd-2";
  usable_regions = usable;
  regions = regions;
  excluded_servers = [];
  role_counts = no_counts;
  log_spill = pos 0;
  log_version = pos 0;
  storage_migration_type = none;
  perpetual_storage_wiggle = none;
  perpetual_storage_wiggle_locality = none;
  perpetual_storage_wiggle_engine = none;
}

abbrev two_regions : List Region
two_regions = region "dc1" (pos 1) ∷ region "dc2" (pos 0) ∷ []

abbrev one_region : Configuration
one_region = with_regions (pos 1) (region "dc1" (pos 1) ∷ [])

-- The entries in the order in which they were put into the map.
abbrev first_put : MapOrder
first_put m = m

-- From two regions to the first alone: the second gets a negative priority, then one region is usable, then
-- the second is removed.
test_next_1 :
    get_next_configuration_change first_put (with_regions (pos 2) two_regions) one_region
    ≡ with_regions (pos 2) (region "dc1" (pos 1) ∷ region "dc2" (negsuc 0) ∷ [])
unfolding get_next_configuration_change insert ◌-ℤ◌
test_next_1 = refl

test_next_2 :
    get_next_configuration_change first_put
      (with_regions (pos 2) (region "dc1" (pos 1) ∷ region "dc2" (negsuc 0) ∷ []))
      one_region
    ≡ with_regions (pos 1) (region "dc1" (pos 1) ∷ region "dc2" (negsuc 0) ∷ [])
unfolding get_next_configuration_change insert ◌-ℤ◌
test_next_2 = refl

test_next_3 :
    get_next_configuration_change first_put
      (with_regions (pos 1) (region "dc1" (pos 1) ∷ region "dc2" (negsuc 0) ∷ []))
      one_region
    ≡ one_region
unfolding get_next_configuration_change insert ◌-ℤ◌
test_next_3 = refl

get_next_configuration_change-IsMarginal_example :
    IsMarginal
      (with_regions (pos 2) two_regions)
      (get_next_configuration_change first_put (with_regions (pos 2) two_regions) one_region)
get_next_configuration_change-IsMarginal_example =
    get_next_configuration_change-IsMarginal first_put (with_regions (pos 2) two_regions) one_region
      refl

get_next_configuration_change-IsKept_example :
    IsKept
      (with_regions (pos 2) two_regions)
      one_region
      "dc2"
      (get_next_configuration_change first_put (with_regions (pos 2) two_regions) one_region)
get_next_configuration_change-IsKept_example =
    get_next_configuration_change-IsKept first_put (with_regions (pos 2) two_regions) one_region
      "dc2" (omega arith) (omega arith) refl

primary_dc_id-IsPrimary_example :
    IsPrimary (primary_dc_id two_regions) (all_data_centers two_regions)
    ⊎ (primary_dc_id two_regions ≡ "")
      × All (λ dc. is_main dc ≡ false) (all_data_centers two_regions)
primary_dc_id-IsPrimary_example = primary_dc_id-IsPrimary two_regions (omega arith)

main_dcs_and_satellites_lem_example :
    ((k : String)
      → (contains (main_dcs_and_satellites two_regions).0 k
          ≡ some_main (all_data_centers two_regions) k)
        × (contains (main_dcs_and_satellites two_regions).1 k ≡ (
            some_satellite (all_data_centers two_regions) k
            && not (some_main (all_data_centers two_regions) k))))
    × (count_unique_data_centers two_regions
        ≡ length (main_dcs_and_satellites two_regions).0
          + length (main_dcs_and_satellites two_regions).1)
main_dcs_and_satellites_lem_example = main_dcs_and_satellites_lem two_regions

role_counts_with_defaults_lem_example :
    IsComplete (role_counts_with_defaults one_region (pos 1))
    × HasConfigured one_region.role_counts (role_counts_with_defaults one_region (pos 1))
    × (role_counts_with_defaults (filled one_region (pos 1)) (pos 1)
        ≡ role_counts_with_defaults one_region (pos 1))
role_counts_with_defaults_lem_example = role_counts_with_defaults_lem one_region (pos 1)

abbrev no_processes : ProcessCounts
no_processes = record {
  storage = pos 0;
  log = pos 0;
  stateless = pos 0;
  master = pos 0;
  cluster_controller = pos 0;
  resolution = pos 0;
  ratekeeper = pos 0;
  data_distributor = pos 0;
  grv_proxy = pos 0;
  commit_proxy = pos 0;
  proxy = pos 0;
}

-- The first of three Kubernetes clusters.
abbrev cluster : ClusterSpec
cluster = record {
  database_configuration = one_region;
  process_counts = no_processes;
  fault_domain = record {
    key = "foundationdb.org/kubernetes-cluster";
    zone_count = pos 3;
    zone_index = pos 0;
  };
  data_center = "dc1";
}

test_counts :
    get_process_counts_with_defaults cluster
    ≡ record no_processes { storage = pos 1; log = pos 2; stateless = pos 3 }
unfolding get_process_counts_with_defaults ◌+ℤ◌
test_counts = refl

small : largest (pos 0) (pos 3 ∷ []) <ℤ pos (2 ^ 61)
unfolding largest
small = omega arith

calculate_process_count-sum_example :
    sum_below (λ i. calculate_process_count (in_zone cluster i) true (pos 3 ∷ [])) 3
    ≡ pos_part (calculate_process_count (in_one_zone cluster) true (pos 3 ∷ []))
unfolding zone_count_of
calculate_process_count-sum_example =
    calculate_process_count-sum cluster true (pos 3 ∷ []) refl small

different_names : ◌≢◌ {A = String} "dc1" "dc2"
different_names h = ground (arith, (eq_iff "dc1" "dc2").1 h)

first_name : ◌≢◌ {A = String} "dc1" ""
first_name h = ground (arith, (eq_iff "dc1" "").1 h)

second_name : ◌≢◌ {A = String} "dc2" ""
second_name h = ground (arith, (eq_iff "dc2" "").1 h)

-- A region without satellites, and one with a satellite.
abbrev plain : Regions.Extras
plain = record { others = []; logs = pos 0; mode = "" }

abbrev with_satellite : Regions.Extras
with_satellite = record {
  others = record { id = "dc3"; priority = pos 2; satellite = pos 1 } ∷ [];
  logs = pos 3;
  mode = "one_satellite_double";
}

abbrev satellite_regions : List Region
satellite_regions =
    Regions.region "dc1" (pos 1) with_satellite ∷ Regions.region "dc2" (pos 0) with_satellite ∷ []

changes-final_example :
    changes
      (λ k. first_put)
      4
      (Passing.with_regions one_region (pos 2) satellite_regions)
      (Passing.with_regions one_region (pos 1) (Regions.region "dc1" (pos 1) plain ∷ []))
    ≡ Passing.with_regions one_region (pos 2) satellite_regions
changes-final_example =
    changes-final (λ k. first_put) one_region one_region "dc1" "dc2" 1 1 0 with_satellite
      with_satellite plain (λ k x y. inl refl) different_names first_name second_name (refl, tt)
      (refl, tt) tt
