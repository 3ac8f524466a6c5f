-- ===== src/Removal/Confirmation.antt =====
-- The confirmation that the resources of a process group are gone: confirmRemoval and the second loop of
-- removeProcessGroups in controllers/remove_process_groups.go.
use fdb_kubernetes_operator.Common.{
  ◌≡◌, ◌⊎◌, inl, Bool, true, false, ◌&&◌, ◌||◌, some, List, [], ◌∷◌, ◌==◌, string_eq, lookup,
  insert, lookup-insert, arith, deref,
}
use fdb_kubernetes_operator.ProcessGroup.{ProcessGroupId}

-- What a call of the Kubernetes API finds: an error other than not found, nothing, a resource, or one that
-- has a deletion timestamp.
pub data Found : Type 0 where
  failed absent present terminating : Found

-- The resources of a process group, when they are looked at.
pub record Resources : Type 0 where
  pub process_group_id : ProcessGroupId
  pub pod : Found
  pub pvc : Found
  pub service : Found

-- The results of `confirmRemoval`: a failed call, ResourceNotDeleted, or whether it can be included.
pub data Confirmation : Type 0 where
  error not_deleted : Confirmation
  confirmed : Bool → Confirmation

-- One of the three checks of `confirmRemoval`, with what follows it for the answer so far.
unfoldable pub check_resource : Found → Bool → (Bool → Confirmation) → Confirmation
check_resource failed can_be_included next = error
check_resource absent can_be_included next = next can_be_included
check_resource present can_be_included next = not_deleted
check_resource terminating can_be_included next = next false

unfoldable pub confirm_removal : Resources → Confirmation
unfolding check_resource
confirm_removal r =
    check_resource r.pod true
      (λ a. check_resource r.pvc a (λ b. check_resource r.service b (λ c. confirmed c)))

-- The body of the loop, on the map from process groups to whether they can be included.
unfoldable pub record_confirmation :
    ProcessGroupId → Confirmation → List (ProcessGroupId × Bool) → List (ProcessGroupId × Bool)
record_confirmation id error m = m
record_confirmation id not_deleted m = insert id false m
record_confirmation id (confirmed include) m = insert id include m

unfoldable pub confirm_removals :
    List (ProcessGroupId × Bool) → List Resources → List (ProcessGroupId × Bool)
unfolding confirm_removal record_confirmation
confirm_removals m [] = m
confirm_removals m (r ∷ rs) =
    confirm_removals (record_confirmation r.process_group_id (confirm_removal r) m) rs

abbrev is_absent : Found → Bool
is_absent absent = true
is_absent _ = false

-- The process group has no resource left.
abbrev pub all_absent : Resources → Bool
all_absent r = is_absent r.pod && is_absent r.pvc && is_absent r.service

-- Some of the resources with the ID were all absent.
abbrev pub any_absent : ProcessGroupId → List Resources → Bool
any_absent id [] = false
any_absent id (r ∷ rs) = (r.process_group_id == id && all_absent r) || any_absent id rs

confirm_removal-cases :
    (r : Resources)
    → (all_absent r ≡ true) × (confirm_removal r ≡ confirmed true)
      ⊎ (all_absent r ≡ false) × ((confirm_removal r ≡ confirmed true) → ⊥)
unfolding confirm_removal
confirm_removal-cases r = ground arith

lookup-record_confirmation :
    (id k : ProcessGroupId) (c : Confirmation) (m : List (ProcessGroupId × Bool))
    → lookup k (record_confirmation id c m) ≡ some true
    → (lookup k m ≡ some true) ⊎ (id == k ≡ true) × (c ≡ confirmed true)
unfolding record_confirmation
lookup-record_confirmation id k error m h = inl h
lookup-record_confirmation id k not_deleted m h = ground (arith, lookup-insert id k false m, h)
lookup-record_confirmation id k (confirmed b) m h = ground (arith, lookup-insert id k b m, h)

lookup-confirm_removals :
    (m : List (ProcessGroupId × Bool)) (rs : List Resources) (id : ProcessGroupId)
    → lookup id (confirm_removals m rs) ≡ some true
    → (lookup id m ≡ some true) ⊎ (any_absent id rs ≡ true)
unfolding confirm_removals
lookup-confirm_removals m [] id h = inl h
lookup-confirm_removals m (r ∷ rs) id h =
    let next = record_confirmation r.process_group_id (confirm_removal r) m in
    ground (
      arith,
      lookup-confirm_removals next rs id h,
      lookup-record_confirmation r.process_group_id id (confirm_removal r) m,
      confirm_removal-cases r,
    )

-- A process group is confirmed as removed, and so may be included and leave the cluster's list, only if
-- its Pod, its PVC and its Service were all not found.
pub confirm_removals-any_absent :
    (rs : List Resources) (id : ProcessGroupId)
    → deref (lookup id (confirm_removals [] rs)) false ≡ true
    → any_absent id rs ≡ true
confirm_removals-any_absent rs id h = ground (arith, h, lookup-confirm_removals [] rs id)
