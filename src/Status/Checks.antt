-- ===== src/Status/Checks.antt =====
-- The checks of pkg/fdbstatus/status_checks.go that let the operator act: fault tolerance, and whether it is safe
-- to bounce, exclude, include, reconfigure, end a maintenance or change coordinators. An error is a value
-- without its text. The float64 values are numbers here: they are only compared.
pub mod Tolerance
pub mod Gates
use fdb_kubernetes_operator.Common.{
  ℕ, String, Bool, true, false, not, ◌&&◌, ◌||◌, Option, none, some, List, [], ◌∷◌, map,
  if◌then◌else◌, ◌==◌, string_eq, any, contains, is_empty, select,
}
use fdb_kubernetes_operator.Common.Int.{ℤ, pos, ◌+ℤ◌, ltb_ℤ, int_eq}
use fdb_kubernetes_operator.Address.{Net, ProcessAddress, address_string}
use fdb_kubernetes_operator.Database.Configuration.{minimum_fault_domains}
use fdb_kubernetes_operator.Status.{
  Status, StatusError, too_many_generations, unavailable, default_safety_checks,
}

pub record TeamTracker : Type 0 where
  pub primary : Bool
  pub min_replicas_remaining : ℤ

pub record LogInfo : Type 0 where
  pub log_fault_tolerance : ℤ
  pub log_replication_factor : ℤ
  pub remote_log_fault_tolerance : ℤ
  pub remote_log_replication_factor : ℤ
  pub satellite_log_fault_tolerance : ℤ
  pub satellite_log_replication_factor : ℤ

pub record Coordinator : Type 0 where
  pub address : ProcessAddress
  pub reachable : Bool

-- What the checks read of the status.
pub record Health : Type 0 where
  pub status : Status
  pub redundancy_mode : String
  pub team_trackers : List TeamTracker
  pub logs : List LogInfo
  pub coordinators : List Coordinator
  pub quorum_reachable : Bool
  pub can_clean_bounce : Option Bool
  pub recovery_state : String
  pub seconds_since_last_recovered : ℤ
  pub data_healthy : Bool
  -- The lags are floating-point seconds in the code, and milliseconds rounded up here, so that a lag is above 60.0
  -- seconds exactly if the number is above 60,000.
  pub worst_data_lag : ℤ
  pub worst_durability_lag : ℤ
  pub worst_queue_bytes_log : ℤ
  pub worst_queue_bytes_storage : ℤ

pub data CheckError : Type 0 where
  unsafe : StatusError → CheckError
  no_team_trackers no_logs : CheckError
  too_few_replicas : TeamTracker → CheckError
  log_tolerance : LogInfo → CheckError
  coordinators_unreachable quorum_unreachable : CheckError
  up_too_short no_clean_bounce not_recovered unknown_version : CheckError
  data_unhealthy forbidden_message lagging queue_too_long : CheckError

-- The checks one after the other, up to the first error.
infixr 30 ◌then_check◌
abbrev pub ◌then_check◌ : Option CheckError → Option CheckError → Option CheckError
none then_check r = r
(some e) then_check r = some e

abbrev pub fails_if : Bool → CheckError → Option CheckError
fails_if b e = if b then some e else none

-- `DoStorageServerFaultDomainCheckOnStatus`
unfoldable pub check_team_trackers : ℤ → List TeamTracker → Option CheckError
check_team_trackers minimum [] = none
check_team_trackers minimum (t ∷ ts) =
    fails_if (ltb_ℤ t.min_replicas_remaining minimum) (too_few_replicas t)
    then_check check_team_trackers minimum ts

unfoldable pub check_storage_servers : Health → Option CheckError
unfolding check_team_trackers minimum_fault_domains
check_storage_servers h =
    fails_if (is_empty h.team_trackers) no_team_trackers
    then_check check_team_trackers (minimum_fault_domains h.redundancy_mode) h.team_trackers

abbrev pub lacks_tolerance : ℤ → ℤ → Bool
lacks_tolerance tolerance factor = not (factor == pos 0) && not (tolerance +ℤ pos 1 == factor)

-- `DoLogServerFaultDomainCheckOnStatus`
unfoldable pub check_logs : List LogInfo → Option CheckError
check_logs [] = none
check_logs (l ∷ ls) =
    fails_if
      (lacks_tolerance l.log_fault_tolerance l.log_replication_factor
        || lacks_tolerance l.remote_log_fault_tolerance l.remote_log_replication_factor
        || lacks_tolerance l.satellite_log_fault_tolerance l.satellite_log_replication_factor)
      (log_tolerance l)
    then_check check_logs ls

unfoldable pub check_log_servers : Health → Option CheckError
unfolding check_logs
check_log_servers h = fails_if (is_empty h.logs) no_logs then_check check_logs h.logs

-- `DoCoordinatorFaultDomainCheckOnStatus`
unfoldable pub check_coordinators : Health → Option CheckError
check_coordinators h =
    fails_if (any (λ c. not c.reachable) h.coordinators) coordinators_unreachable
    then_check fails_if (not h.quorum_reachable) quorum_unreachable

abbrev pub passes : Option CheckError → Bool
passes none = true
passes (some e) = false

unfoldable pub has_desired_fault_tolerance : Health → Bool
unfolding check_storage_servers check_log_servers check_coordinators
has_desired_fault_tolerance h =
    h.status.database_available
    && passes (check_storage_servers h)
    && passes (check_log_servers h)
    && passes (check_coordinators h)

-- `DefaultSafetyChecks` with at most 10 active generations.
unfoldable pub default_checks : Health → Option CheckError
unfolding default_safety_checks
default_checks h = elim (default_safety_checks h.status (pos 10)) [
  | none ↦ none
  | some e ↦ some (unsafe e)
]

-- `checkIfClusterUpLongEnoughWithRecoveryState`
abbrev pub check_up_with_recovery_state : Health → ℤ → Bool → Option CheckError
check_up_with_recovery_state h minimum supports =
    fails_if (supports && ltb_ℤ h.seconds_since_last_recovered minimum) up_too_short

-- `checkIfClusterUpLongEnough`, for what the running version supports, or `none` if it is not parsed.
unfoldable pub check_up_long_enough : Health → Option Bool → ℤ → Option CheckError
check_up_long_enough h none minimum = some unknown_version
check_up_long_enough h (some supports) minimum = check_up_with_recovery_state h minimum supports

unfoldable pub can_safely_bounce_processes : ℤ → ℤ → Health → Option CheckError
unfolding default_checks
can_safely_bounce_processes current_uptime minimum_uptime h =
    default_checks h
    then_check fails_if (ltb_ℤ current_uptime minimum_uptime) up_too_short
    then_check elim h.can_clean_bounce [
      | none ↦ none
      | some clean ↦ fails_if (not clean) no_clean_bounce
    ]

abbrev pub recovery_state_allows_inclusion : Health → Bool
recovery_state_allows_inclusion h =
    h.recovery_state == "fully_recovered" || h.recovery_state == "all_logs_recruited"

unfoldable pub can_safely_exclude_or_include : Health → Option Bool → Bool → ℤ → Option CheckError
unfolding default_checks check_up_long_enough
can_safely_exclude_or_include h supports inclusion minimum =
    default_checks h
    then_check check_up_long_enough h supports minimum
    then_check fails_if (inclusion && not (recovery_state_allows_inclusion h)) not_recovered

abbrev pub maximum_data_lag : ℤ
maximum_data_lag = pos 60_000

abbrev pub maximum_queue_byte_size : ℤ
maximum_queue_byte_size = pos 262144000

-- `CheckQosStatus`
unfoldable pub check_qos_status : Health → Option CheckError
check_qos_status h =
    fails_if (ltb_ℤ maximum_data_lag h.worst_data_lag) lagging
    then_check fails_if (ltb_ℤ maximum_data_lag h.worst_durability_lag) lagging
    then_check fails_if (ltb_ℤ maximum_queue_byte_size h.worst_queue_bytes_log) queue_too_long
    then_check fails_if (ltb_ℤ maximum_queue_byte_size h.worst_queue_bytes_storage) queue_too_long

abbrev pub forbidden_configuration_change_messages : List String
forbidden_configuration_change_messages = "unreadable_configuration" ∷ []

-- `ConfigurationChangeAllowedWithMinimumUptime`
unfoldable pub configuration_change_allowed : Health → ℤ → Bool → Option CheckError
unfolding default_checks check_qos_status
configuration_change_allowed h minimum use_recovery_state =
    default_checks h
    then_check fails_if (not h.data_healthy) data_unhealthy
    then_check fails_if
        (any (λ m. contains forbidden_configuration_change_messages m) h.status.messages)
        forbidden_message
    then_check check_up_with_recovery_state h minimum use_recovery_state
    then_check check_qos_status h

unfoldable pub can_safely_remove_maintenance_mode : Health → Option CheckError
unfolding default_checks check_qos_status
can_safely_remove_maintenance_mode h = default_checks h then_check check_qos_status h

-- A coordinator of the connection string that no process of the status has as its address.
abbrev pub is_missing : Net → Health → Coordinator → Bool
is_missing net h c =
    not (any (λ p. address_string net p.address == address_string net c.address) h.status.processes)

unfoldable pub can_safely_change_coordinators :
    Net → Health → Option Bool → ℤ → ℤ → Option CheckError
unfolding default_checks check_up_long_enough
can_safely_change_coordinators net h supports minimum_missing minimum_undesired =
    if any (is_missing net h) h.coordinators
    then check_up_long_enough h supports minimum_missing
    else default_checks h then_check check_up_long_enough h supports minimum_undesired
