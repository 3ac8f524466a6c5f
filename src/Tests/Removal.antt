-- ===== src/Tests/Removal.antt =====
-- The removal of a storage process group whose process is excluded and idle.
use fdb_kubernetes_operator.Common.{
  ℕ, ◌≤◌, ◌≡◌, ◌⊎◌, inl, refl, String, Bool, true, false, not, some, List, [], ◌∷◌, if◌then◌else◌,
  ◌==◌, string_eq, is_empty, is_some, length, insert, arith,
}
use fdb_kubernetes_operator.Common.Int.{pos, ◌+ℤ◌, ◌-ℤ◌, ltb_ℤ}
use fdb_kubernetes_operator.Address.{
  Net, ProcessAddress, of_ip, of_string, address_string, machine_address,
}
use fdb_kubernetes_operator.Status.{
  Status, StatusProcess, get_remaining_and_excluded, can_safely_remove, default_safety_checks,
  has_valid_role_information,
}
use fdb_kubernetes_operator.Status.Counting.{all_idle}
use fdb_kubernetes_operator.Status.Classification.{is_trusted, get_remaining_and_excluded_lem}
use fdb_kubernetes_operator.ProcessGroup.{
  Instant, ProcessGroupStatus, FaultDomain, new_process_group_status, mark_for_removal,
  is_marked_for_removal, is_excluded, is_log_process, get_condition_time, find_condition_time,
}
use fdb_kubernetes_operator.ProcessGroup.Exclusion.{
  get_exclusion_string, process_group_addresses_remaining, all_addresses_excluded,
  all_addresses_excluded_lem,
}
use fdb_kubernetes_operator.Removal.{Cluster}
use fdb_kubernetes_operator.Removal.Zones.{
  IsZoned, get_zoned_removals, get_zoned_removals-IsZoned, get_process_groups_to_remove, in_zone,
  terminating_zone, append_to_zone,
}
use fdb_kubernetes_operator.Removal.Zones.Choice.{
  get_process_groups_to_remove-Zone, removal_allowed, removal_allowed_lem,
}
use fdb_kubernetes_operator.Removal.Remaining.{
  get_remaining_map, get_addresses_to_validate_before_removal, process_group_ids_in_status,
  addresses_to_validate, addresses_of, set_all, ids_of_processes, process_shares_dc,
}
use fdb_kubernetes_operator.Removal.Selection as Selection
use fdb_kubernetes_operator.Removal.Selection.{
  is_removed, completed, get_process_groups_to_remove_lem,
}
use fdb_kubernetes_operator.Removal.Safety.{removal_safe}
use fdb_kubernetes_operator.Removal.Evidence.{Member}
use fdb_kubernetes_operator.Removal.Inclusion.{get_processes_to_include, is_gone, keys_of}
use fdb_kubernetes_operator.Removal.Inclusion.Complete.{Included, get_processes_to_include_lem}
use fdb_kubernetes_operator.Removal.Confirmation.{
  Resources, absent, any_absent, confirm_removals, confirm_removals-any_absent,
}

-- A network where texts are addresses only if they are this one.
abbrev pub one_address : Net
one_address = record {
  parse_ip = λ s. if s == "10.0.0.1" then 10 ∷ 0 ∷ 0 ∷ 1 ∷ [] else [];
  ip_string = λ ip. if is_empty ip then "<nil>" else "10.0.0.1";
  join_host_port = λ h p. h;
  itoa = λ n. "";
  sort = λ l. l;
}

abbrev pub at : ℕ → Instant
at n = record { seconds = pos n; nanos = 0 }

unfoldable pub storage_1 : ProcessGroupStatus
unfolding new_process_group_status mark_for_removal
storage_1 =
    mark_for_removal (at 200)
      (new_process_group_status (at 100) "storage-1" "storage" ("10.0.0.1" ∷ []))

abbrev pub process_1 : StatusProcess
process_1 = record {
  address = of_ip (10 ∷ 0 ∷ 0 ∷ 1 ∷ []);
  process_class = "storage";
  excluded = true;
  locality = ("instance_id", "storage-1") ∷ [];
  roles = [];
}

abbrev pub status_1 : Status
status_1 = record {
  processes = process_1 ∷ [];
  messages = [];
  active_generations = pos 1;
  database_available = true;
}

abbrev pub cluster_1 : Cluster
cluster_1 = record {
  data_center = "";
  use_localities_for_exclusion = true;
  process_groups = storage_1 ∷ [];
  block_removal = [];
}

abbrev pub always : List ProcessAddress → Bool
always xs = true

program : Unit {0}
unfolding get_remaining_map get_addresses_to_validate_before_removal process_group_ids_in_status
    addresses_to_validate addresses_of set_all ids_of_processes process_shares_dc storage_1
    is_marked_for_removal is_excluded is_log_process get_exclusion_string address_string
    machine_address get_remaining_and_excluded can_safely_remove default_safety_checks
    has_valid_role_information process_group_addresses_remaining all_addresses_excluded
    get_zoned_removals append_to_zone insert get_process_groups_to_remove removal_allowed ◌-ℤ◌ ◌+ℤ◌
    get_condition_time find_condition_time
program = tt

abbrev checked : List (String × Bool)
checked = ("locality_instance_id:storage-1", false) ∷ []

removal_safe_example :
    (is_trusted one_address status_1 ≡ true)
    × (all_idle one_address "locality_instance_id:storage-1" (process_1 ∷ []) ≡ true)
unfolding program
removal_safe_example =
    removal_safe one_address always true cluster_1 status_1 checked (at 300) [] storage_1 refl refl
      (inl refl) refl refl refl

get_remaining_and_excluded_lem_example :
    get_remaining_and_excluded one_address status_1
      (of_string "locality_instance_id:storage-1" ∷ [])
    ≡ record {
      in_progress = [];
      fully_excluded = of_string "locality_instance_id:storage-1" ∷ [];
      not_excluded = [];
      missing_in_status = [];
    }
unfolding program
get_remaining_and_excluded_lem_example =
    get_remaining_and_excluded_lem one_address status_1
      (of_string "locality_instance_id:storage-1" ∷ [])

all_addresses_excluded_lem_example :
    ((all_addresses_excluded (at 300) storage_1 checked).0 ≡ true)
    × (is_some (all_addresses_excluded (at 300) storage_1 checked).1 ≡ false)
unfolding program
all_addresses_excluded_lem_example = all_addresses_excluded_lem (at 300) storage_1 checked

get_process_groups_to_remove_lem_example :
    let o = Selection.get_process_groups_to_remove (at 300) [] checked (storage_1 ∷ []) in
    (o.to_remove ≡ completed (at 300) storage_1 ∷ [])
    × (o.all_excluded ≡ true)
    × (o.new_exclusions ≡ true)
    × (o.process_groups ≡ completed (at 300) storage_1 ∷ [])
unfolding program
get_process_groups_to_remove_lem_example =
    get_process_groups_to_remove_lem (at 300) [] checked (storage_1 ∷ [])

get_zoned_removals-IsZoned_example :
    IsZoned (storage_1 ∷ []) (("foundationdb.org/unknown", storage_1 ∷ []) ∷ [])
unfolding program
get_zoned_removals-IsZoned_example = get_zoned_removals-IsZoned (storage_1 ∷ [])

get_process_groups_to_remove-Zone_example :
    (r : FaultDomain × List ProcessGroupStatus) × (get_process_groups_to_remove "Zone"
        (("foundationdb.org/unknown", storage_1 ∷ []) ∷ [])
      ≡ some r)
    × ((z : FaultDomain)
        → (z == terminating_zone) ≡ false
        → length (in_zone z (storage_1 ∷ [])) ≤ length r.1)
    × ((r.1 ≡ []) ⊎ ((r.1 ≡ in_zone r.0 (storage_1 ∷ [])) × ((r.0 == terminating_zone) ≡ false)))
get_process_groups_to_remove-Zone_example =
    get_process_groups_to_remove-Zone (storage_1 ∷ [])
      (("foundationdb.org/unknown", storage_1 ∷ []) ∷ []) get_zoned_removals-IsZoned_example

removal_allowed_lem_example :
    (false ≡ not (ltb_ℤ (pos 130) (pos 100 +ℤ pos 60)))
    × (◌≡◌ {A = Bool} false false → pos 130 +ℤ pos 30 ≡ pos 100 +ℤ pos 60)
unfolding program
removal_allowed_lem_example =
    removal_allowed_lem (pos 100) (pos 130) (pos 60) (omega arith, omega arith)
      (omega arith, omega arith) (omega arith, omega arith)

abbrev storage_1_gone : List (String × Bool)
storage_1_gone = ("storage-1", true) ∷ []

get_processes_to_include_lem_example :
    let r =
      get_processes_to_include one_address
        (storage_1 ∷ [])
        storage_1_gone
        (of_string "locality_instance_id:storage-1" ∷ [])
        []
        [] in
    (r.1 ≡ [])
    × ((g : ProcessGroupStatus)
        → Member g (storage_1 ∷ [])
        → is_gone storage_1_gone g ≡ true
        → (g.process_class == "test") ≡ false
        → Included one_address
            (keys_of one_address (of_string "locality_instance_id:storage-1" ∷ []))
            g
            r.0.to_include)
unfolding program
get_processes_to_include_lem_example =
    get_processes_to_include_lem one_address (storage_1 ∷ []) storage_1_gone
      (of_string "locality_instance_id:storage-1" ∷ []) [] []

abbrev nothing_left : Resources
nothing_left = record {
  process_group_id = "storage-1";
  pod = absent;
  pvc = absent;
  service = absent;
}

confirm_removals-any_absent_example : any_absent "storage-1" (nothing_left ∷ []) ≡ true
unfolding confirm_removals insert
confirm_removals-any_absent_example =
    confirm_removals-any_absent (nothing_left ∷ []) "storage-1" refl
