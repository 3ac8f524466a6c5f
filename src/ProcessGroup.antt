-- ===== src/ProcessGroup.antt =====
-- A process group's status: api/v1beta2/foundationdbcluster_types.go, lines 384-1056, and the process
-- classes of api/v1beta2/foundationdb_process_class.go. A method that changes its receiver returns the
-- new record. time.Now() is the argument `now`.
pub mod Conditions
pub mod Terminating
pub mod Lifecycle
pub mod Window
pub mod Replacement
pub mod Addresses
pub mod Exclusion
use fdb_kubernetes_operator.Common.{
  ℕ, ◌≤◌, ◌≡◌, String, Bool, true, false, ◌&&◌, ◌||◌, not, Option, none, some, List, [], ◌∷◌, ◌++◌,
  ltb, if◌then◌else◌, ◌==◌, nat_eq, string_eq, is_some, select, contains, lookup, insert,
}
use fdb_kubernetes_operator.Common.Int.{ℤ, pos, negsuc, ◌-ℤ◌, ltb_ℤ, int_eq}

abbrev pub FaultDomain : Type 0
FaultDomain = String

abbrev pub ProcessGroupId : Type 0
ProcessGroupId = String

abbrev pub ProcessGroupConditionType : Type 0
ProcessGroupConditionType = String

abbrev pub class_storage : String
class_storage = "storage"

abbrev pub class_log : String
class_log = "log"

abbrev pub class_transaction : String
class_transaction = "transaction"

abbrev pub class_general : String
class_general = "general"

abbrev pub class_coordinator : String
class_coordinator = "coordinator"

abbrev pub class_test : String
class_test = "test"

abbrev pub ProcessClassName : Type 0
ProcessClassName = String

unfoldable pub is_log_process : ProcessClassName → Bool
is_log_process c = c == class_log || c == class_transaction

unfoldable pub is_stateful : ProcessClassName → Bool
unfolding is_log_process
is_stateful c = c == class_storage || is_log_process c || c == class_coordinator

unfoldable pub is_transaction : ProcessClassName → Bool
is_transaction c = not (c == class_storage) && not (c == class_general)

abbrev pub missing_pod : ProcessGroupConditionType
missing_pod = "MissingPod"

abbrev pub missing_pvc : ProcessGroupConditionType
missing_pvc = "MissingPVC"

abbrev pub missing_processes : ProcessGroupConditionType
missing_processes = "MissingProcesses"

abbrev pub resources_terminating : ProcessGroupConditionType
resources_terminating = "ResourcesTerminating"

abbrev pub pod_pending : ProcessGroupConditionType
pod_pending = "PodPending"

abbrev pub node_taint_replacing : ProcessGroupConditionType
node_taint_replacing = "NodeTaintReplacing"

-- A time.Time as Unix seconds and the nanoseconds above them.
pub record Instant : Type 0 where
  pub seconds : ℤ
  pub nanos : ℕ

-- time.Time.IsZero(), January 1 of year 1, and the same through a pointer, where nil is zero too.
abbrev pub is_zero_time : Instant → Bool
is_zero_time t = t.seconds == negsuc 62135596799 && t.nanos == 0

abbrev pub is_zero : Option Instant → Bool
is_zero none = true
is_zero (some t) = is_zero_time t

pub record ProcessGroupCondition : Type 0 where
  pub condition_type : ProcessGroupConditionType
  pub timestamp : ℤ

pub record ProcessGroupStatus : Type 0 where
  pub process_group_id : ProcessGroupId
  pub process_class : ProcessClassName
  pub addresses : List String
  pub removal_timestamp : Option Instant
  pub exclusion_timestamp : Option Instant
  pub exclusion_skipped : Bool
  pub conditions : List ProcessGroupCondition
  pub fault_domain : FaultDomain
  pub machine : String

unfoldable pub is_excluded : ProcessGroupStatus → Bool
is_excluded s = not (is_zero s.exclusion_timestamp) || s.exclusion_skipped

unfoldable pub is_marked_for_removal : ProcessGroupStatus → Bool
is_marked_for_removal s = not (is_zero s.removal_timestamp)

unfoldable pub mark_for_removal : Instant → ProcessGroupStatus → ProcessGroupStatus
mark_for_removal now s =
    if not (is_zero s.removal_timestamp) then s else record s { removal_timestamp = some now }

abbrev pub has_type : ProcessGroupConditionType → ProcessGroupCondition → Bool
has_type t c = c.condition_type == t

unfoldable pub set_exclude : Instant → ProcessGroupStatus → ProcessGroupStatus
set_exclude now s = if not (is_zero s.exclusion_timestamp) then s else record s {
  exclusion_timestamp = some now;
  conditions = select (has_type resources_terminating) s.conditions;
}

unfoldable pub new_process_group_condition :
    Instant → ProcessGroupConditionType → ProcessGroupCondition
new_process_group_condition now t = record { condition_type = t; timestamp = now.seconds }

-- `GetCondition`: the loop returns the first condition of the type.
unfoldable pub find_condition :
    ProcessGroupConditionType → List ProcessGroupCondition → Option ProcessGroupCondition
find_condition t [] = none
find_condition t (c ∷ cs) = if has_type t c then some c else find_condition t cs

unfoldable pub get_condition :
    ProcessGroupConditionType → ProcessGroupStatus → Option ProcessGroupCondition
unfolding find_condition
get_condition t s = find_condition t s.conditions

-- `GetConditionTime`, by its own loop as in the source.
unfoldable pub find_condition_time :
    ProcessGroupConditionType → List ProcessGroupCondition → Option ℤ
find_condition_time t [] = none
find_condition_time t (c ∷ cs) = if has_type t c then some c.timestamp else find_condition_time t cs

unfoldable pub get_condition_time : ProcessGroupConditionType → ProcessGroupStatus → Option ℤ
unfolding find_condition_time
get_condition_time t s = find_condition_time t s.conditions

-- The first loop of `addCondition`.
abbrev pub any_of_type : ProcessGroupConditionType → List ProcessGroupCondition → Bool
any_of_type t [] = false
any_of_type t (c ∷ cs) = has_type t c || any_of_type t cs

unfoldable pub add_condition :
    Instant → ProcessGroupConditionType → ProcessGroupStatus → ProcessGroupStatus
unfolding is_marked_for_removal is_excluded new_process_group_condition
add_condition now t s =
    if any_of_type t s.conditions
    then s
    else if (is_marked_for_removal s && is_excluded s) && not (t == resources_terminating)
    then s
    else record s { conditions = s.conditions ++ new_process_group_condition now t ∷ [] }

unfoldable pub remove_condition :
    ProcessGroupConditionType → ProcessGroupStatus → ProcessGroupStatus
remove_condition t s = record s { conditions = select (λ c. not (has_type t c)) s.conditions }

unfoldable pub update_condition :
    Instant → ProcessGroupConditionType → Bool → ProcessGroupStatus → ProcessGroupStatus
unfolding add_condition remove_condition
update_condition now t set s = if set then add_condition now t s else remove_condition t s

-- The loop of `UpdateConditionTime` changes the first condition of the type, and stops.
unfoldable pub set_first_time :
    ProcessGroupConditionType → ℤ → List ProcessGroupCondition → List ProcessGroupCondition
set_first_time t new_time [] = []
set_first_time t new_time (c ∷ cs) =
    if has_type t c
    then record c { timestamp = new_time } ∷ cs
    else c ∷ set_first_time t new_time cs

unfoldable pub update_condition_time :
    ProcessGroupConditionType → ℤ → ProcessGroupStatus → ProcessGroupStatus
unfolding set_first_time
update_condition_time t new_time s = record s {
  conditions = set_first_time t new_time s.conditions;
}

unfoldable pub is_under_maintenance : FaultDomain → ProcessGroupStatus → Bool
is_under_maintenance zone s =
    if not (s.process_class == class_storage)
    then false
    else if zone == "" || s.fault_domain == ""
    then false
    else s.fault_domain == zone

unfoldable pub new_process_group_status :
    Instant → ProcessGroupId → ProcessClassName → List String → ProcessGroupStatus
unfolding is_stateful new_process_group_condition
new_process_group_status now id class addrs = record {
  process_group_id = id;
  process_class = class;
  addresses = addrs;
  removal_timestamp = none;
  exclusion_timestamp = none;
  exclusion_skipped = false;
  conditions =
      new_process_group_condition now missing_processes
      ∷ new_process_group_condition now missing_pod
      ∷ (if is_stateful class then new_process_group_condition now missing_pvc ∷ [] else []);
  fault_domain = "";
  machine = "";
}
