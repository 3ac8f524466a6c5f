-- ===== src/Locality/Candidates.antt =====
-- The candidates for coordinators: selectCandidates and GetCoordinatorAddress of
-- internal/coordinator/coordinator.go, InfoForProcess of internal/locality/locality.go, and what they ask of a
-- cluster, of api/v1beta2/foundationdbcluster_types.go. The parsing of a command line is the parameter
-- Parser.
use text.Mathlib.Text.{starts_with}
use fdb_kubernetes_operator.Common.{
  arith, ◌≡◌, ◌⊎◌, String, Bool, true, false, not, ◌&&◌, ◌||◌, Option, none, some, List, [], ◌∷◌,
  if◌then◌else◌, ◌==◌, string_eq, contains, any, is_empty, is_some, lookup, deref,
}
use fdb_kubernetes_operator.Common.Int.{ℤ, min_int, pos, ◌+ℤ◌, ltb_ℤ, IsSmall, ◌<ℤ◌, ◌≤ℤ◌}
use fdb_kubernetes_operator.Address.{ProcessAddress, of_string}
use fdb_kubernetes_operator.ProcessGroup.{
  ProcessClassName, ProcessGroupId, ProcessGroupStatus, is_stateful, is_log_process,
  is_marked_for_removal,
}
use fdb_kubernetes_operator.Database.Configuration.{Configuration}
use fdb_kubernetes_operator.Locality.{Info}

-- ParseProcessAddressesFromCmdline, where `none` is an error.
abbrev pub Parser : Type 0
Parser = String → Option (List ProcessAddress)

-- A process of the status.
pub record Process : Type 0 where
  pub address : ProcessAddress
  pub process_class : ProcessClassName
  pub excluded : Bool
  pub under_maintenance : Bool
  pub locality : List (String × String)
  pub command_line : String
  pub version : String

-- What the code reads of a FoundationDBCluster. The field for UseDNSInClusterFile() holds its result.
pub record Cluster : Type 0 where
  pub database_configuration : Configuration
  pub enable_tls : Bool
  pub use_dns_in_cluster_file : Bool
  pub coordinator_selection : List (ProcessClassName × ℤ)
  pub version : String
  pub process_groups : List ProcessGroupStatus
  pub process_groups_to_remove : List ProcessGroupId
  pub process_groups_to_remove_without_exclusion : List ProcessGroupId

unfoldable pub is_eligible_as_candidate : Cluster → ProcessClassName → Bool
unfolding is_stateful
is_eligible_as_candidate c class =
    is_stateful class
    && (is_empty c.coordinator_selection || any (λ s. class == s.0) c.coordinator_selection)

unfoldable pub get_class_candidate_priority : Cluster → ProcessClassName → ℤ
unfolding is_log_process
get_class_candidate_priority c class =
    deref (lookup class c.coordinator_selection) (if is_log_process class then pos 1 else pos 0)

unfoldable pub process_group_is_being_removed : Cluster → ProcessGroupId → Bool
unfolding is_marked_for_removal
process_group_is_being_removed c id =
    not (id == "")
    && (any (λ g. g.process_group_id == id && is_marked_for_removal g) c.process_groups
        || contains c.process_groups_to_remove id
        || contains c.process_groups_to_remove_without_exclusion id)

-- `address.Flags["tls"] == mainContainerTLS`
abbrev pub matches_tls : Bool → ProcessAddress → Bool
matches_tls tls a = let flag = deref (lookup "tls" a.flags) false in if tls then flag else not flag

-- The loop that takes the first address with the right flag, or the empty address.
unfoldable pub first_address : Bool → List ProcessAddress → ProcessAddress
first_address tls [] = of_string ""
first_address tls (a ∷ as_) = if matches_tls tls a then a else first_address tls as_

abbrev pub locality_of : String → Process → String
locality_of key p = deref (lookup key p.locality) ""

unfoldable pub info_for_process : Parser → Process → Bool → Option Info
unfolding first_address
info_for_process parse p tls = elim (parse p.command_line) [
  | none ↦ none
  | some addresses ↦ some (record {
    id = locality_of "instance_id" p;
    address = first_address tls addresses;
    locality_data = p.locality;
    class = p.process_class;
    priority = pos 0;
  })
]

-- The tests for which the loop goes on to the next process.
unfoldable pub is_skipped : Cluster → List (ProcessGroupId × ℤ) → Process → Bool
unfolding is_eligible_as_candidate process_group_is_being_removed
is_skipped c pending p =
    p.excluded
    || p.under_maintenance
    || not (is_eligible_as_candidate c p.process_class)
    || is_empty p.locality
    || (c.use_dns_in_cluster_file && not (is_some (lookup "dns_name" p.locality)))
    || process_group_is_being_removed c (locality_of "instance_id" p)
    || is_some (lookup (locality_of "instance_id" p) pending)

-- The priority, lowered for a process whose Pod is yet to be recreated.
unfoldable pub candidate_priority : Cluster → Process → ℤ
unfolding get_class_candidate_priority
candidate_priority c p =
    let priority = get_class_candidate_priority c p.process_class in
    if not (p.version == c.version) || starts_with p.command_line "/var/"
    then if ltb_ℤ priority (pos 0) then min_int else priority +ℤ min_int
    else priority

-- `none` is an error of the parsing.
unfoldable pub select_candidates :
    Parser → Cluster → List (ProcessGroupId × ℤ) → List Process → Option (List Info)
unfolding is_skipped info_for_process candidate_priority
select_candidates parse c pending [] = some []
select_candidates parse c pending (p ∷ ps) =
    let rest = select_candidates parse c pending ps in
    if is_skipped c pending p then rest else elim (info_for_process parse p c.enable_tls) [
      | none ↦ none
      | some info ↦ elim rest [
        | none ↦ none
        | some infos ↦ some (record info { priority = candidate_priority c p } ∷ infos)
      ]
    ]

unfoldable pub get_coordinator_address : Cluster → Info → ProcessAddress
get_coordinator_address c info =
    let name = deref (lookup "dns_name" info.locality_data) "" in
    if c.use_dns_in_cluster_file && not (name == "")
    then record {
      ip_address = [];
      string_address = name;
      port = info.address.port;
      flags = info.address.flags;
      from_hostname = false;
    }
    else info.address

-- The process is about to be recreated: it runs another version, or from the shared volume.
abbrev pub is_outdated : Cluster → Process → Bool
is_outdated c p = not (p.version == c.version) || starts_with p.command_line "/var/"

-- A process that is outdated comes after every process that is not, whatever their classes, and among the outdated
-- processes those whose classes have priorities of 0 or more keep their order. The priorities are small.
pub candidate_priority_lem :
    (c : Cluster) (p q : Process)
    → IsSmall (get_class_candidate_priority c p.process_class)
    → IsSmall (get_class_candidate_priority c q.process_class)
    → is_outdated c p ≡ true
    → (is_outdated c q ≡ false) × (candidate_priority c p <ℤ candidate_priority c q)
      ⊎ (is_outdated c q ≡ true)
        × ((get_class_candidate_priority c p.process_class <ℤ pos 0)
            ⊎ (get_class_candidate_priority c q.process_class <ℤ pos 0)
            ⊎ (get_class_candidate_priority c p.process_class
                <ℤ get_class_candidate_priority c q.process_class)
              × (candidate_priority c p <ℤ candidate_priority c q)
            ⊎ (get_class_candidate_priority c q.process_class
                ≤ℤ get_class_candidate_priority c p.process_class)
              × (candidate_priority c q ≤ℤ candidate_priority c p))
unfolding candidate_priority ◌+ℤ◌
candidate_priority_lem c p q s t h = ground (arith, s, t, h)
