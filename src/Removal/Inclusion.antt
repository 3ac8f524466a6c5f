-- ===== src/Removal/Inclusion.antt =====
-- The inclusion of removed process groups: getProcessesToInclude and filterAddressesToInclude of
-- controllers/remove_process_groups.go. A map to None or to a time, of which only the keys are read, is
-- the list of its keys, and so is the map of updates, where every value is UpdateActionAdd.
pub mod Complete
use fdb_kubernetes_operator.Common.{
  ◌≡◌, ◌⊎◌, inl, inr, refl, String, Bool, true, false, not, ◌&&◌, ◌||◌, Option, none, some, List,
  [], ◌∷◌, ◌++◌, map, if◌then◌else◌, ◌==◌, string_eq, contains, is_empty, select, lookup, deref,
  arith, Bool-cases, eq_iff, All, subst, sym, ap,
}
use fdb_kubernetes_operator.Address.{Net, ProcessAddress, of_string, of_ip, address_string}
use fdb_kubernetes_operator.ProcessGroup.{
  ProcessGroupStatus, ProcessGroupId, is_marked_for_removal, is_log_process, class_test,
}
use fdb_kubernetes_operator.ProcessGroup.Exclusion.{get_exclusion_string}

-- The keys of `excludedServersMap`.
abbrev pub keys_of : Net → List ProcessAddress → List String
keys_of net servers = map (address_string net) servers

unfoldable pub filter_addresses_to_include :
    Net → List ProcessAddress → List ProcessAddress → List ProcessAddress
filter_addresses_to_include net to_include excluded =
    select (λ a. contains (keys_of net excluded) (address_string net a)) to_include

-- The variables that the loop over the process groups fills.
pub record Inclusion : Type 0 where
  pub to_include : List ProcessAddress
  pub updates : List ProcessGroupId

abbrev add_update : List ProcessGroupId → ProcessGroupId → List ProcessGroupId → List ProcessGroupId
add_update ready id updates =
    if contains ready id then updates else if contains updates id then updates else id ∷ updates

-- Marked for removal, and confirmed as removed.
abbrev pub is_gone : List (ProcessGroupId × Bool) → ProcessGroupStatus → Bool
is_gone removed g = is_marked_for_removal g && deref (lookup g.process_group_id removed) false

module _ (net : Net) (excluded : List String) (ready : List ProcessGroupId) where
  -- The body of the loop over the addresses, on what is included so far and whether any was found.
  unfoldable pub include_address : ProcessGroupStatus → Inclusion × Bool → String → Inclusion × Bool
  unfolding is_log_process
  include_address g (s, found) a =
      let added = s.to_include ++ of_ip (net.parse_ip a) ∷ [] in
      if found && is_log_process g.process_class
      then (record s { to_include = added }, found)
      else if contains excluded a
      then (
        record { to_include = added; updates = add_update ready g.process_group_id s.updates },
        true,
      )
      else (s, found)

  unfoldable pub include_addresses :
      ProcessGroupStatus → Inclusion × Bool → List String → Inclusion × Bool
  unfolding include_address
  include_addresses g s [] = s
  include_addresses g s (a ∷ rest) = include_addresses g (include_address g s a) rest

  -- What is included for the locality of a process group.
  unfoldable pub include_locality : ProcessGroupStatus → Inclusion → Inclusion × Bool
  unfolding get_exclusion_string
  include_locality g s =
      let exclusion_string = get_exclusion_string g.process_group_id in
      if contains excluded exclusion_string
      then (
        record {
          to_include = s.to_include ++ of_string exclusion_string ∷ [];
          updates = add_update ready g.process_group_id s.updates;
        },
        true,
      )
      else (s, false)

  -- The body of the loop for a process group that was removed.
  unfoldable pub include_group : ProcessGroupStatus → Inclusion → Inclusion
  unfolding include_locality include_addresses
  include_group g s =
      if g.process_class == class_test
      then s
      else (include_addresses g (include_locality g s) g.addresses).0

  unfoldable pub include_groups :
      List (ProcessGroupId × Bool)
      → Inclusion
      → List ProcessGroupStatus
      → Inclusion × List ProcessGroupStatus
  unfolding include_group is_marked_for_removal
  include_groups removed s [] = (s, [])
  include_groups removed s (g ∷ gs) =
      let rest = include_groups removed (if is_gone removed g then include_group g s else s) gs in
      (rest.0, if is_gone removed g then rest.1 else g ∷ rest.1)

-- The addresses to include with the updates, and the process groups that are left.
unfoldable pub get_processes_to_include :
    Net
    → List ProcessGroupStatus
    → List (ProcessGroupId × Bool)
    → List ProcessAddress
    → List ProcessGroupId
    → List ProcessGroupId
    → Inclusion × List ProcessGroupStatus
unfolding include_groups
get_processes_to_include net gs removed excluded ready updates =
    let start : Inclusion = record { to_include = []; updates = updates } in
    if is_empty removed
    then (start, gs)
    else include_groups net (keys_of net excluded) ready removed start gs
