-- ===== src/Status.antt =====
-- What the operator reads from the machine-readable status: pkg/fdbstatus/status_checks.go, and the types
-- of api/v1beta2/foundationdb_status.go as far as these checks use them. A Go map that is iterated over is
-- the list of its values, in any order.
pub mod Counting
pub mod Classification
pub mod Checks
use Prim.Native.String.{◌++◌ as str_append}
use fdb_kubernetes_operator.Common.{
  ℕ, ◌+◌, ◌≡◌, String, Bool, true, false, ◌&&◌, ◌||◌, not, Option, none, some, List, [], ◌∷◌, ◌++◌,
  map, if◌then◌else◌, ◌==◌, nat_eq, string_eq, contains, is_empty, lookup, insert, deref, is_some,
}
use fdb_kubernetes_operator.Common.Int.{ℤ, pos, ltb_ℤ}
use fdb_kubernetes_operator.Address.{Net, ProcessAddress, machine_address}

pub record StatusProcess : Type 0 where
  pub address : ProcessAddress
  pub process_class : String
  pub excluded : Bool
  pub locality : List (String × String)
  pub roles : List String

pub record Status : Type 0 where
  pub processes : List StatusProcess
  pub messages : List String
  pub active_generations : ℤ
  pub database_available : Bool

-- `m[k]` for a map of strings, where a missing key reads as the empty string.
abbrev pub locality_of : String → StatusProcess → String
locality_of k p = deref (lookup k p.locality) ""

pub data StatusError : Type 0 where
  too_many_generations unavailable : StatusError

-- `DefaultSafetyChecks`, where `none` is nil.
unfoldable pub default_safety_checks : Status → ℤ → Option StatusError
default_safety_checks status maximum =
    if ltb_ℤ maximum status.active_generations
    then some too_many_generations
    else if not status.database_available
    then some unavailable
    else none

abbrev pub forbidden_status_messages : List String
forbidden_status_messages =
    "unreadable_configuration" ∷ "full_replication_timeout" ∷ "storage_servers_error"
    ∷ "log_servers_error" ∷ []

-- The loop of `clusterStatusHasValidRoleInformation`.
no_forbidden : List String → Bool
no_forbidden [] = true
no_forbidden (m ∷ ms) = if contains forbidden_status_messages m then false else no_forbidden ms

unfoldable pub has_valid_role_information : Status → Bool
unfolding no_forbidden
has_valid_role_information status = no_forbidden status.messages

pub record ExclusionStatus : Type 0 where
  pub in_progress : List ProcessAddress
  pub fully_excluded : List ProcessAddress
  pub not_excluded : List ProcessAddress
  pub missing_in_status : List ProcessAddress

-- The three maps that the loop over the processes fills; a set is the list of its members.
pub record Tally : Type 0 where
  pub not_excluded_addresses : List String
  pub fully_excluded_addresses : List (String × ℕ)
  pub visited_addresses : List (String × ℕ)

-- `m[k]++`
abbrev bump : String → List (String × ℕ) → List (String × ℕ)
bump k m = insert k (deref (lookup k m) 0 + 1) m

-- The body of the inner loop.
visit_address : List String → StatusProcess → Tally → String → Tally
visit_address verify p t a =
    let visited = record t { visited_addresses = bump a t.visited_addresses } in
    if not (contains verify a)
    then t
    else if not p.excluded
    then record visited { not_excluded_addresses = a ∷ t.not_excluded_addresses }
    else if is_empty p.roles
    then record visited { fully_excluded_addresses = bump a t.fully_excluded_addresses }
    else visited

abbrev pub locality_address : StatusProcess → String
locality_address p =
    str_append (str_append "locality_instance_id" ":") (locality_of "instance_id" p)

-- The kinds of addresses, in the order in which the last loop decides.
pub data Kind : Type 0 where
  missing not_excluded fully_excluded in_progress : Kind

-- The body of the last loop, which chooses the slice that the address is appended to.
pub kind_of : Tally → String → Kind
kind_of t a = elim (lookup a t.visited_addresses) [
  | none ↦ missing
  | some visited ↦
      if contains t.not_excluded_addresses a
      then not_excluded
      else elim (lookup a t.fully_excluded_addresses) [
        | none ↦ in_progress
        | some excluded ↦ if visited == excluded then fully_excluded else in_progress
      ]
]

append_kind : Kind → ExclusionStatus → ProcessAddress → ExclusionStatus
append_kind missing e a = record e { missing_in_status = e.missing_in_status ++ a ∷ [] }
append_kind not_excluded e a = record e { not_excluded = e.not_excluded ++ a ∷ [] }
append_kind fully_excluded e a = record e { fully_excluded = e.fully_excluded ++ a ∷ [] }
append_kind in_progress e a = record e { in_progress = e.in_progress ++ a ∷ [] }

abbrev pub nothing : ExclusionStatus
nothing = record {
  in_progress = [];
  fully_excluded = [];
  not_excluded = [];
  missing_in_status = [];
}

abbrev pub empty_tally : Tally
empty_tally = record {
  not_excluded_addresses = [];
  fully_excluded_addresses = [];
  visited_addresses = [];
}

module _ (net : Net) where
  -- The two addresses of a process.
  abbrev ip_of : StatusProcess → String
  ip_of p = net.ip_string p.address.ip_address

  pub visit_processes : List String → Tally → List StatusProcess → Tally
  unfolding visit_address
  visit_processes verify t [] = t
  visit_processes verify t (p ∷ ps) =
      visit_processes verify
        (visit_address verify p (visit_address verify p t (locality_address p)) (ip_of p)) ps

  classify : Tally → ExclusionStatus → List ProcessAddress → ExclusionStatus
  unfolding kind_of append_kind
  classify t e [] = e
  classify t e (a ∷ rest) = classify t (append_kind (kind_of t (machine_address net a)) e a) rest

  unfoldable pub get_remaining_and_excluded : Status → List ProcessAddress → ExclusionStatus
  unfolding default_safety_checks has_valid_role_information visit_processes classify
  get_remaining_and_excluded status addresses =
      if is_some (default_safety_checks status (pos 1))
      then record nothing { not_excluded = addresses }
      else if not (has_valid_role_information status)
      then record nothing { not_excluded = addresses }
      else classify
          (visit_processes (map (machine_address net) addresses) empty_tally status.processes)
          nothing addresses

  -- `CanSafelyRemoveFromStatus`. The argument `exclude` is the admin client's ExcludeProcesses, of which
  -- it counts whether it returns an error.
  unfoldable pub can_safely_remove :
      (List ProcessAddress → Bool) → List ProcessAddress → Status → List ProcessAddress × Bool
  unfolding get_remaining_and_excluded
  can_safely_remove exclude addresses status =
      let e = get_remaining_and_excluded status addresses in
      let not_safe = e.not_excluded ++ e.in_progress in
      let with_missing =
        if not (is_empty e.missing_in_status) && not (exclude e.missing_in_status)
        then not_safe ++ e.missing_in_status
        else not_safe in
      (with_missing, if not (is_empty e.fully_excluded) then exclude e.fully_excluded else true)

-- The loop over the roles of a process in `GetCoordinatorsFromStatus`.
has_coordinator_role : List String → Bool
has_coordinator_role [] = false
has_coordinator_role (r ∷ rs) = if not (r == "coordinator") then has_coordinator_role rs else true

-- The members of the set that `GetCoordinatorsFromStatus` returns.
unfoldable pub get_coordinators : List StatusProcess → List String
unfolding has_coordinator_role
get_coordinators [] = []
get_coordinators (p ∷ ps) =
    if has_coordinator_role p.roles
    then locality_of "instance_id" p ∷ get_coordinators ps
    else get_coordinators ps
