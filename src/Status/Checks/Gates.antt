-- ===== src/Status/Checks/Gates.antt =====
-- The checks of pkg/fdbstatus/status_checks.go before the operator acts on a cluster.
use fdb_kubernetes_operator.Common.{◌≡◌, Bool, true, false, Option, none, any, arith}
use fdb_kubernetes_operator.Common.Int.{ℤ, pos, ◌≤ℤ◌}
use fdb_kubernetes_operator.Address.{Net}
use fdb_kubernetes_operator.Status.{default_safety_checks}
use fdb_kubernetes_operator.Status.Checks.{
  Health, CheckError, default_checks, can_safely_bounce_processes, can_safely_exclude_or_include,
  configuration_change_allowed, can_safely_remove_maintenance_mode, can_safely_change_coordinators,
  is_missing,
}

-- What the operator is about to do, with the arguments of the check.
pub data Action : Type 0 where
  bounce : ℤ → ℤ → Action
  exclude_or_include : Option Bool → Bool → ℤ → Action
  change_configuration : ℤ → Bool → Action
  remove_maintenance_mode : Action
  change_coordinators : Option Bool → ℤ → ℤ → Action

-- The check for an action.
abbrev pub check_of : Net → Health → Action → Option CheckError
check_of net h (bounce current minimum) = can_safely_bounce_processes current minimum h
check_of net h (exclude_or_include supports inclusion minimum) =
    can_safely_exclude_or_include h supports inclusion minimum
check_of net h (change_configuration minimum use_recovery_state) =
    configuration_change_allowed h minimum use_recovery_state
check_of net h remove_maintenance_mode = can_safely_remove_maintenance_mode h
check_of net h (change_coordinators supports missing undesired) =
    can_safely_change_coordinators net h supports missing undesired

-- Only a missing coordinator may be replaced without the default checks.
abbrev pub is_exempt : Net → Health → Action → Bool
is_exempt net h (change_coordinators supports missing undesired) =
    any (is_missing net h) h.coordinators
is_exempt net h other = false

abbrev pub IsSafe : Health → Type 0
IsSafe h = (h.status.database_available ≡ true) × (h.status.active_generations ≤ℤ pos 10)

default_checks-IsSafe : (h : Health) → default_checks h ≡ none → IsSafe h
unfolding default_checks default_safety_checks
default_checks-IsSafe h e = ground (arith, e)

-- Whatever the operator is allowed to do, be it to bounce, exclude or include processes, to change the
-- configuration, to end a maintenance or to change coordinators, the database is available and has at most 10
-- active generations; but for the change of coordinators when one of them is missing.
pub check_of-IsSafe :
    (net : Net) (h : Health) (a : Action)
    → check_of net h a ≡ none
    → is_exempt net h a ≡ false
    → IsSafe h
unfolding can_safely_bounce_processes can_safely_exclude_or_include configuration_change_allowed
    can_safely_remove_maintenance_mode can_safely_change_coordinators
check_of-IsSafe net h (bounce current minimum) e x = default_checks-IsSafe h (ground (arith, e))
check_of-IsSafe net h (exclude_or_include supports inclusion minimum) e x =
    default_checks-IsSafe h (ground (arith, e))
check_of-IsSafe net h (change_configuration minimum use_recovery_state) e x =
    default_checks-IsSafe h (ground (arith, e))
check_of-IsSafe net h remove_maintenance_mode e x = default_checks-IsSafe h (ground (arith, e))
check_of-IsSafe net h (change_coordinators supports missing undesired) e x =
    default_checks-IsSafe h (ground (arith, e, x))
