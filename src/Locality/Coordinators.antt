-- ===== src/Locality/Coordinators.antt =====
-- The choice of processes for a cluster and of its coordinators: ChooseDistributedProcesses and GetHardLimits
-- of internal/locality/locality.go, and the call of selectCoordinatorsLocalities in
-- internal/coordinator/coordinator.go.
pub mod Quorum
use fdb_kubernetes_operator.Common.{
  ℕ, ◌+◌, ◌-◌, ◌/◌, String, Bool, Option, none, some, List, [], ◌∷◌, ◌++◌, if◌then◌else◌, ◌==◌,
  nat_eq, string_eq, is_empty,
}
use fdb_kubernetes_operator.Common.Int.{ℤ, pos, pos_part, ltb_ℤ}
use fdb_kubernetes_operator.Database.Configuration.{
  Sort, Configuration, desired_configuration, desired_coordinator_count,
}
use fdb_kubernetes_operator.Database.DataCenters.{primary_dc_id, count_unique_data_centers}
use fdb_kubernetes_operator.Locality.{Info}
use fdb_kubernetes_operator.Locality.Sorting.{sort_localities}
use fdb_kubernetes_operator.Locality.Choice.{Limits, Choice, choose_sorted}

pub record Constraint : Type 0 where
  pub fields : List String
  pub hard_limits : Limits

-- The fields by which processes are distributed.
abbrev pub fields_of : Configuration → List String → List String
fields_of spec fields =
    if is_empty fields
    then if spec.redundancy_mode == "three_data_hall"
      then "zoneid" ∷ "dcid" ∷ "data_hall" ∷ []
      else "zoneid" ∷ "dcid" ∷ []
    else fields

-- The processes in the order in which the choice goes through them.
abbrev pub candidates_of : Sort → Configuration → List Info → List Info
candidates_of sort spec ps =
    sort_localities (primary_dc_id (desired_configuration sort spec).regions) ps

unfoldable pub choose_distributed_processes :
    Sort → Configuration → List Info → ℕ → Constraint → Choice
choose_distributed_processes sort spec ps count c =
    choose_sorted (fields_of spec c.fields) count c.hard_limits (candidates_of sort spec ps)

-- `math.Ceil(float64(a) / float64(b))` for a positive b; the quotients are exact where they are whole.
abbrev pub ceil_div : ℕ → ℕ → ℕ
ceil_div a b = (a + b - 1) / b

-- `none` where the code converts a division by 0 to an int, of which Go does not say what it gives.
unfoldable pub get_hard_limits : Configuration → Option Limits
unfolding desired_coordinator_count count_unique_data_centers
get_hard_limits spec =
    if ltb_ℤ (pos 1) spec.usable_regions
    then if count_unique_data_centers spec.regions == 0
      then none
      else some (
          (
            "dcid",
            ceil_div (pos_part (desired_coordinator_count spec))
                (count_unique_data_centers spec.regions),
          )
          ∷ ("zoneid", 1)
          ∷ [])
    else if spec.redundancy_mode == "three_data_hall"
    then some (("data_hall", 3) ∷ ("zoneid", 1) ∷ [])
    else some (("zoneid", 1) ∷ [])

-- The choice of the coordinators among the candidates.
unfoldable pub choose_coordinators : Sort → Configuration → List Info → Option Choice
unfolding choose_distributed_processes get_hard_limits desired_coordinator_count
choose_coordinators sort spec ps = elim (get_hard_limits spec) [
  | none ↦ none
  | some limits ↦ some (
      choose_distributed_processes sort spec ps (pos_part (desired_coordinator_count spec))
        (record { fields = []; hard_limits = limits }))
]
