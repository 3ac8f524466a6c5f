-- ===== src/Database/Configuration.antt =====
-- The database configuration, its defaults and its normal form: DatabaseConfiguration of
-- api/v1beta2/foundationdb_database_configuration.go, with DesiredDatabaseConfiguration of
-- api/v1beta2/foundationdbcluster_types.go. sort.Slice is the parameter Sort.
pub mod Roles
use fdb_kubernetes_operator.Common.{
  ◌≡◌, refl, String, Bool, true, false, not, ◌&&◌, ◌||◌, Option, none, some, List, [], ◌∷◌, map,
  if◌then◌else◌, ◌==◌, string_eq,
}
use fdb_kubernetes_operator.Common.Int.{ℤ, pos, negsuc, ◌+ℤ◌, ltb_ℤ, int_eq}
use fdb_kubernetes_operator.Common.Order.{is_less}
use fdb_kubernetes_operator.Database.{DataCenter, Region}

pub record RoleCounts : Type 0 where
  pub storage : ℤ
  pub logs : ℤ
  pub proxies : ℤ
  pub commit_proxies : ℤ
  pub grv_proxies : ℤ
  pub resolvers : ℤ
  pub log_routers : ℤ
  pub remote_logs : ℤ

pub record Configuration : Type 0 where
  pub redundancy_mode : String
  pub storage_engine : String
  pub usable_regions : ℤ
  pub regions : List Region
  pub excluded_servers : List String
  pub role_counts : RoleCounts
  pub log_spill : ℤ
  pub log_version : ℤ
  pub storage_migration_type : Option String
  pub perpetual_storage_wiggle : Option ℤ
  pub perpetual_storage_wiggle_locality : Option String
  pub perpetual_storage_wiggle_engine : Option String

-- sort.Slice at the two types it is called at, with the test whether one element is less than another.
pub record Sort : Type 0 where
  pub data_centers : (DataCenter → DataCenter → Bool) → List DataCenter → List DataCenter
  pub regions : (Region → Region → Bool) → List Region → List Region

unfoldable pub desired_fault_tolerance : String → ℤ
desired_fault_tolerance mode =
    if mode == "single"
    then pos 0
    else if mode == "double" || mode == ""
    then pos 1
    else if mode == "triple" || mode == "three_data_hall"
    then pos 2
    else pos 0

unfoldable pub minimum_fault_domains : String → ℤ
minimum_fault_domains mode =
    if mode == "single"
    then pos 1
    else if mode == "double" || mode == ""
    then pos 2
    else if mode == "triple" || mode == "three_data_hall"
    then pos 3
    else pos 1

unfoldable pub default_log_count : String → ℤ
default_log_count mode = if mode == "three_data_hall" then pos 4 else pos 3

abbrev pub is_positive : ℤ → Bool
is_positive n = ltb_ℤ (pos 0) n

abbrev pub are_separated_proxies_configured : Configuration → Bool
are_separated_proxies_configured c =
    is_positive c.role_counts.grv_proxies || is_positive c.role_counts.commit_proxies

-- A count, or a default where it is 0.
abbrev pub or_default : ℤ → ℤ → ℤ
or_default n default = if n == pos 0 then default else n

abbrev pub default_proxies : RoleCounts → RoleCounts
default_proxies r =
    if r.commit_proxies == pos 0 && r.grv_proxies == pos 0 && r.proxies == pos 0
    then record r { proxies = pos 3 }
    else if r.proxies == pos 0
    then record r {
      grv_proxies = or_default r.grv_proxies (pos 1);
      commit_proxies = or_default r.commit_proxies (pos 2);
    }
    else r

-- GetRoleCountsWithDefaults of the configuration.
unfoldable pub role_counts_with_defaults : Configuration → ℤ → RoleCounts
unfolding default_log_count
role_counts_with_defaults c fault_tolerance =
    let r = c.role_counts in
    let logs = or_default r.logs (default_log_count c.redundancy_mode) in
    let p = default_proxies (
      if are_separated_proxies_configured c
      then record r { proxies = pos 0 }
      else record r { grv_proxies = pos 0; commit_proxies = pos 0 }) in
    let remote = if ltb_ℤ (pos 1) c.usable_regions then logs else negsuc 0 in
    record {
      storage = or_default r.storage (fault_tolerance +ℤ fault_tolerance +ℤ pos 1);
      logs = logs;
      proxies = p.proxies;
      commit_proxies = p.commit_proxies;
      grv_proxies = p.grv_proxies;
      resolvers = or_default r.resolvers (pos 1);
      log_routers = or_default r.log_routers remote;
      remote_logs = or_default r.remote_logs remote;
    }

abbrev pub data_center_less : DataCenter → DataCenter → Bool
data_center_less a b =
    if not (a.satellite == b.satellite)
    then ltb_ℤ a.satellite b.satellite
    else if not (a.priority == b.priority)
    then ltb_ℤ b.priority a.priority
    else is_less a.id b.id

unfoldable pub main_data_center : List DataCenter → String × ℤ
main_data_center [] = ("", negsuc 0)
main_data_center (dc ∷ dcs) =
    if dc.satellite == pos 0 then (dc.id, dc.priority) else main_data_center dcs

abbrev pub region_less : Region → Region → Bool
region_less a b =
    let l = main_data_center a.data_centers in
    let r = main_data_center b.data_centers in
    if not (l.1 == r.1) then ltb_ℤ r.1 l.1 else is_less l.0 r.0

abbrev pub sort_region : Sort → Region → Region
sort_region sort r = record r { data_centers = sort.data_centers data_center_less r.data_centers }

-- A field that the specification leaves unset is cleared.
abbrev pub clear_unset {ℓ} : {A : Type ℓ} → Option A → Option A → Option A
clear_unset none value = none
clear_unset (some x) value = value

abbrev pub normal_proxies : Configuration → RoleCounts → RoleCounts
normal_proxies spec r =
    if are_separated_proxies_configured spec
    then record r { proxies = pos 0 }
    else record r { grv_proxies = pos 0; commit_proxies = pos 0 }

-- ClearUnsetDatabaseConfigurationKnobs, for the configuration that the specification asks for.
unfoldable pub clear_unset_knobs : Configuration → Configuration → Configuration
clear_unset_knobs spec c = record c {
  excluded_servers = [];
  log_version = if spec.log_version == pos 0 then pos 0 else c.log_version;
  log_spill = if spec.log_spill == pos 0 then pos 0 else c.log_spill;
  storage_migration_type = clear_unset spec.storage_migration_type c.storage_migration_type;
  perpetual_storage_wiggle_locality =
      clear_unset spec.perpetual_storage_wiggle_locality c.perpetual_storage_wiggle_locality;
  perpetual_storage_wiggle_engine =
      clear_unset spec.perpetual_storage_wiggle_engine c.perpetual_storage_wiggle_engine;
  perpetual_storage_wiggle = clear_unset spec.perpetual_storage_wiggle c.perpetual_storage_wiggle;
  role_counts = normal_proxies spec c.role_counts;
}

-- NormalizeConfiguration, for the configuration that the specification asks for.
unfoldable pub normalize_configuration : Sort → Configuration → Configuration → Configuration
unfolding clear_unset_knobs main_data_center
normalize_configuration sort spec c = clear_unset_knobs spec (record c {
  role_counts = normal_proxies spec (record c.role_counts {
    remote_logs = or_default c.role_counts.remote_logs (negsuc 0);
    log_routers = or_default c.role_counts.log_routers (negsuc 0);
  });
  usable_regions = if ltb_ℤ c.usable_regions (pos 1) then pos 1 else c.usable_regions;
  redundancy_mode = if c.redundancy_mode == "" then "double" else c.redundancy_mode;
  storage_engine = if c.storage_engine == "" then "ssd-2" else c.storage_engine;
  regions = sort.regions region_less (map (sort_region sort) c.regions);
})

-- DesiredDatabaseConfiguration of a cluster with this configuration in its specification.
unfoldable pub desired_configuration : Sort → Configuration → Configuration
unfolding normalize_configuration role_counts_with_defaults desired_fault_tolerance
desired_configuration sort spec =
    let c = normalize_configuration sort spec spec in
    record c {
      role_counts =
          record (role_counts_with_defaults spec (desired_fault_tolerance spec.redundancy_mode)) {
            storage = pos 0;
          };
      storage_engine =
          if c.storage_engine == "ssd"
          then "ssd-2"
          else if c.storage_engine == "memory"
          then "memory-2"
          else c.storage_engine;
    }

-- DesiredCoordinatorCount of a cluster with this configuration.
unfoldable pub desired_coordinator_count : Configuration → ℤ
unfolding desired_fault_tolerance minimum_fault_domains
desired_coordinator_count c =
    if ltb_ℤ (pos 1) c.usable_regions || c.redundancy_mode == "three_data_hall"
    then pos 9
    else minimum_fault_domains c.redundancy_mode +ℤ desired_fault_tolerance c.redundancy_mode
