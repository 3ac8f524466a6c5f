-- ===== src/Tests/Coordinators.antt =====
-- The selection of coordinators from the status of a cluster with four log processes.
use fdb_kubernetes_operator.Common.{
  ◌≡◌, ◌≤◌, ◌<◌, ◌*◌, ◌⊎◌, inl, refl, String, Bool, true, false, List, [], ◌∷◌, none, some, length,
  any, All, insert, arith,
}
use fdb_kubernetes_operator.Common.Int.{pos, pos_part, ◌+ℤ◌, ◌<ℤ◌, ◌≤ℤ◌, IsSmall}
use fdb_kubernetes_operator.Address.{Net, ProcessAddress, address_string}
use fdb_kubernetes_operator.Database.Configuration.{
  Configuration, Sort, desired_coordinator_count, desired_configuration,
}
use fdb_kubernetes_operator.Locality.{Info}
use fdb_kubernetes_operator.Locality.Candidates.{
  Parser, Process, Cluster, candidate_priority, candidate_priority_lem, get_coordinator_address,
  is_outdated, get_class_candidate_priority,
}
use fdb_kubernetes_operator.Locality.Choice.{choose_sorted}
use fdb_kubernetes_operator.Locality.Sorting.{sort_localities}
use fdb_kubernetes_operator.Database.DataCenters.{primary_dc_id}
use fdb_kubernetes_operator.Locality.Choice.Counting.{share}
use fdb_kubernetes_operator.Locality.Validity.{check_coordinator_validity}
use fdb_kubernetes_operator.Locality.Validity.Checked.{
  IsValid, reports, check_coordinator_validity-IsValid,
}
use fdb_kubernetes_operator.Locality.Selected.{
  select_coordinators, select_coordinators_lem, unknown_status, address_text, IsCandidate,
}

-- Addresses that are printed as their text.
abbrev net : Net
net = record {
  parse_ip = λ s. [];
  ip_string = λ ip. "<nil>";
  join_host_port = λ h p. h;
  itoa = λ n. "";
  sort = λ l. l;
}

abbrev address : String → ProcessAddress
address s = record {
  ip_address = 10 ∷ [];
  string_address = s;
  port = pos 4501;
  flags = [];
  from_hostname = false;
}

-- A command line is the address alone.
abbrev parse : Parser
parse s = some (address s ∷ [])

abbrev sorted : Sort
sorted = record { data_centers = λ less dcs. dcs; regions = λ less rs. rs }

abbrev double : Configuration
double = record {
  redundancy_mode = "double";
  storage_engine = "ssd-2";
  usable_regions = pos 1;
  regions = [];
  excluded_servers = [];
  role_counts = record {
    storage = pos 0;
    logs = pos 0;
    proxies = pos 0;
    commit_proxies = pos 0;
    grv_proxies = pos 0;
    resolvers = pos 0;
    log_routers = pos 0;
    remote_logs = pos 0;
  };
  log_spill = pos 0;
  log_version = pos 0;
  storage_migration_type = none;
  perpetual_storage_wiggle = none;
  perpetual_storage_wiggle_locality = none;
  perpetual_storage_wiggle_engine = none;
}

abbrev cluster : Cluster
cluster = record {
  database_configuration = double;
  enable_tls = false;
  use_dns_in_cluster_file = false;
  coordinator_selection = [];
  version = "7.3.0";
  process_groups = [];
  process_groups_to_remove = [];
  process_groups_to_remove_without_exclusion = [];
}

abbrev process : String → String → Bool → Process
process id zone excluded = record {
  address = address id;
  process_class = "log";
  excluded = excluded;
  under_maintenance = false;
  locality = ("instance_id", id) ∷ ("zoneid", zone) ∷ [];
  command_line = id;
  version = "7.3.0";
}

abbrev processes : List Process
processes =
    process "log-1" "z1" false
    ∷ process "log-2" "z2" true
    ∷ process "log-3" "z2" false
    ∷ process "log-4" "z3" false
    ∷ []

abbrev info : String → String → Info
info id zone = record {
  id = id;
  address = address id;
  locality_data = ("instance_id", id) ∷ ("zoneid", zone) ∷ [];
  class = "log";
  priority = pos 1;
}

abbrev selected : List Info
selected = info "log-1" "z1" ∷ info "log-3" "z2" ∷ info "log-4" "z3" ∷ []

test_select_coordinators : select_coordinators sorted net parse cluster [] processes ≡ some selected
unfolding select_coordinators ◌+ℤ◌ insert choose_sorted sort_localities primary_dc_id
    desired_configuration address_string get_coordinator_address
test_select_coordinators = refl

zone_count : 3 ≤ pos_part (desired_coordinator_count double)
unfolding desired_coordinator_count ◌+ℤ◌
zone_count = omega arith

select_coordinators_lem_example :
    (length selected ≡ pos_part (desired_coordinator_count double))
    × (2 * share "zoneid" "z1" selected < length selected)
    × All
        (λ i.
          any
            (reports net parse cluster
              (unknown_status net cluster [] selected)
              (address_text net cluster i))
            processes
          ≡ true)
        selected
    × All (IsCandidate parse cluster [] processes) selected
select_coordinators_lem_example =
    select_coordinators_lem sorted net parse cluster [] processes selected "zoneid" "z1"
      test_select_coordinators (inl (refl, zone_count))

abbrev old_status : List (String × Bool)
old_status = ("log-1", false) ∷ ("log-3", false) ∷ ("log-4", true) ∷ []

test_check_coordinator_validity :
    check_coordinator_validity net parse cluster (("zoneid", 1) ∷ []) processes old_status
    ≡ some (true, true)
unfolding check_coordinator_validity ◌+ℤ◌ insert address_string
test_check_coordinator_validity = refl

check_coordinator_validity-IsValid_example :
    IsValid net parse cluster old_status (("zoneid", 1) ∷ []) processes
check_coordinator_validity-IsValid_example =
    check_coordinator_validity-IsValid net parse cluster old_status (("zoneid", 1) ∷ []) processes
      true (refl, tt) test_check_coordinator_validity

abbrev old : Process
old = record (process "storage-1" "z4" false) { version = "7.1.0"; process_class = "storage" }

abbrev new : Process
new = process "log-1" "z1" false

priorities-IsSmall :
    IsSmall (get_class_candidate_priority cluster old.process_class)
    × IsSmall (get_class_candidate_priority cluster new.process_class)
unfolding get_class_candidate_priority
priorities-IsSmall = omega arith

candidate_priority_lem_example :
    (is_outdated cluster new ≡ false)
      × (candidate_priority cluster old <ℤ candidate_priority cluster new)
    ⊎ (is_outdated cluster new ≡ true)
      × ((get_class_candidate_priority cluster old.process_class <ℤ pos 0)
          ⊎ (get_class_candidate_priority cluster new.process_class <ℤ pos 0)
          ⊎ (get_class_candidate_priority cluster old.process_class
              <ℤ get_class_candidate_priority cluster new.process_class)
            × (candidate_priority cluster old <ℤ candidate_priority cluster new)
          ⊎ (get_class_candidate_priority cluster new.process_class
              ≤ℤ get_class_candidate_priority cluster old.process_class)
            × (candidate_priority cluster new ≤ℤ candidate_priority cluster old))
candidate_priority_lem_example =
    candidate_priority_lem cluster old new priorities-IsSmall.0 priorities-IsSmall.1 refl
