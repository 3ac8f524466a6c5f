-- ===== src/Database/Processes.antt =====
-- The number of processes of each class: GetProcessCountsWithDefaults of
-- api/v1beta2/foundationdbcluster_types.go.
pub mod Zones
use fdb_kubernetes_operator.Common.{
  ℕ, ◌/◌, ◌%◌, String, Bool, true, false, not, ◌&&◌, ◌||◌, List, [], ◌∷◌, if◌then◌else◌, ◌==◌,
  string_eq, any,
}
use fdb_kubernetes_operator.Common.Int.{ℤ, pos, negsuc, pos_part, ◌+ℤ◌, ltb_ℤ, int_eq}
use fdb_kubernetes_operator.Database.{DataCenter, Region}
use fdb_kubernetes_operator.Database.Configuration.{
  Configuration, is_positive, desired_fault_tolerance, minimum_fault_domains,
  role_counts_with_defaults, are_separated_proxies_configured,
}

pub record FaultDomain : Type 0 where
  pub key : String
  pub zone_count : ℤ
  pub zone_index : ℤ

-- The process counts that the code reads and fills in; it copies the others.
pub record ProcessCounts : Type 0 where
  pub storage : ℤ
  pub log : ℤ
  pub stateless : ℤ
  pub master : ℤ
  pub cluster_controller : ℤ
  pub resolution : ℤ
  pub ratekeeper : ℤ
  pub data_distributor : ℤ
  pub grv_proxy : ℤ
  pub commit_proxy : ℤ
  pub proxy : ℤ

-- What the code reads of the specification of a FoundationDBCluster.
pub record ClusterSpec : Type 0 where
  pub database_configuration : Configuration
  pub process_counts : ProcessCounts
  pub fault_domain : FaultDomain
  pub data_center : String

unfoldable pub calculate_process_count_from_role : ℤ → List ℤ → ℤ
calculate_process_count_from_role count alternatives =
    if any is_positive alternatives then pos 0 else if ltb_ℤ count (pos 0) then pos 0 else count

-- The loop for the largest of the counts.
unfoldable pub largest : ℤ → List ℤ → ℤ
largest count [] = count
largest count (c ∷ cs) = largest (if ltb_ℤ count c then c else count) cs

-- The number of Kubernetes clusters in the data center.
unfoldable pub zone_count_of : ClusterSpec → ℤ
unfolding desired_fault_tolerance minimum_fault_domains
zone_count_of spec =
    let mode = spec.database_configuration.redundancy_mode in
    if ltb_ℤ spec.fault_domain.zone_count (pos 1)
    then minimum_fault_domains mode +ℤ desired_fault_tolerance mode
    else spec.fault_domain.zone_count

-- The share of the Kubernetes cluster with an index in a positive count.
unfoldable pub split_count : ℕ → ℤ → ℕ → ℤ
split_count zones index count =
    if ltb_ℤ index (pos (count % zones)) then pos (count / zones) +ℤ pos 1 else pos (count / zones)

unfoldable pub calculate_process_count : ClusterSpec → Bool → List ℤ → ℤ
unfolding largest zone_count_of split_count desired_fault_tolerance
calculate_process_count spec add_fault_tolerance counts =
    let count = largest (pos 0) counts in
    let total =
      if add_fault_tolerance
      then count +ℤ desired_fault_tolerance spec.database_configuration.redundancy_mode
      else count in
    if ltb_ℤ spec.fault_domain.zone_index (pos 0)
    then negsuc 0
    else if is_positive count
    then if spec.fault_domain.key == "foundationdb.org/kubernetes-cluster"
      then split_count (pos_part (zone_count_of spec)) spec.fault_domain.zone_index (pos_part total)
      else total
    else negsuc 0

pub record Placement : Type 0 where
  pub is_satellite : Bool
  pub is_main : Bool
  pub satellite_logs : ℤ

unfoldable pub place_in_region : String → ℤ → Placement → List DataCenter → Placement
place_in_region id logs p [] = p
place_in_region id logs p (dc ∷ dcs) =
    place_in_region id logs
      (if dc.id == id
        then if dc.satellite == pos 0 then record p { is_main = true } else record p {
          is_satellite = true;
          satellite_logs = if ltb_ℤ p.satellite_logs logs then logs else p.satellite_logs;
        }
        else p)
      dcs

unfoldable pub place : String → Placement → List Region → Placement
unfolding place_in_region
place id p [] = p
place id p (r ∷ rs) = place id (place_in_region id r.satellite_logs p r.data_centers) rs

-- The processes without a state that the primary data center needs.
unfoldable pub primary_stateless_count : ClusterSpec → ℤ
unfolding calculate_process_count_from_role role_counts_with_defaults desired_fault_tolerance
primary_stateless_count spec =
    let c = spec.process_counts in
    let roles =
      role_counts_with_defaults spec.database_configuration
        (desired_fault_tolerance spec.database_configuration.redundancy_mode) in
    let from = calculate_process_count_from_role in
    let common =
      from (pos 1) (c.master ∷ [])
      +ℤ from (pos 1) (c.cluster_controller ∷ [])
      +ℤ from roles.resolvers (c.resolution ∷ [])
      +ℤ (from (pos 1) (c.ratekeeper ∷ []) +ℤ from (pos 1) (c.data_distributor ∷ [])) in
    if are_separated_proxies_configured spec.database_configuration
    then common
      +ℤ from roles.grv_proxies (c.grv_proxy ∷ [])
      +ℤ from roles.commit_proxies (c.commit_proxy ∷ [])
    else common +ℤ from roles.proxies (c.proxy ∷ [])

-- The counts with the defaults for the classes of storage, log and stateless processes.
unfoldable pub fill_counts : ClusterSpec → ℤ → ProcessCounts
unfolding calculate_process_count calculate_process_count_from_role primary_stateless_count
    role_counts_with_defaults
fill_counts spec satellite_logs =
    let c = spec.process_counts in
    let roles =
      role_counts_with_defaults spec.database_configuration
        (desired_fault_tolerance spec.database_configuration.redundancy_mode) in
    let from = calculate_process_count_from_role in
    record c {
      storage =
          if c.storage == pos 0
          then calculate_process_count spec false (roles.storage ∷ [])
          else c.storage;
      log =
          if c.log == pos 0
          then calculate_process_count spec true (
              from (roles.logs +ℤ satellite_logs) (c.log ∷ [])
              ∷ from roles.remote_logs (c.log ∷ [])
              ∷ [])
          else c.log;
      stateless =
          if c.stateless == pos 0
          then calculate_process_count spec true
              (primary_stateless_count spec ∷ from roles.log_routers [] ∷ [])
          else c.stateless;
    }

unfoldable pub get_process_counts_with_defaults : ClusterSpec → ProcessCounts
unfolding place fill_counts
get_process_counts_with_defaults spec =
    let p =
      place spec.data_center
        (record { is_satellite = false; is_main = false; satellite_logs = pos 0 })
        spec.database_configuration.regions in
    if p.is_satellite && not p.is_main && spec.process_counts.log == pos 0
    then record spec.process_counts { log = pos 1 +ℤ p.satellite_logs }
    else fill_counts spec p.satellite_logs
