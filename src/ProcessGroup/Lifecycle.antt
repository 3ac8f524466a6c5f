-- ===== src/ProcessGroup/Lifecycle.antt =====
-- The life of a process group's status: every sequence of the operations of api/v1beta2/foundationdbcluster_types.go
-- that the controllers apply to it, from its creation, with the places of controllers/update_status.go and
-- controllers/remove_process_groups.go that decide on its exclusion.
use fdb_kubernetes_operator.Common.{
  ◌≡◌, ◌⊎◌, inl, inr, refl, ◌∙◌, String, Bool, true, false, not, ◌&&◌, ◌||◌, none, List, [], ◌∷◌,
  ◌==◌, string_eq, arith, if◌then◌else◌, Bool-cases, subst, sym, ap,
}
use fdb_kubernetes_operator.Common.Int.{ℤ}
use fdb_kubernetes_operator.ProcessGroup.{
  Instant, ProcessGroupStatus, ProcessGroupConditionType, has_type, class_test, is_zero_time,
  is_zero, is_excluded, is_marked_for_removal, mark_for_removal, update_condition,
  update_condition_time, set_exclude, new_process_group_status, new_process_group_condition,
}
use fdb_kubernetes_operator.ProcessGroup.Addresses.{add_addresses}
use fdb_kubernetes_operator.ProcessGroup.Conditions.{
  Distinct, update_condition-Distinct, set_exclude-Distinct,
}
use fdb_kubernetes_operator.ProcessGroup.Terminating.{
  OnlyTerminating, set_first_time-Distinct, select-OnlyTerminating, OnlyTerminating-select,
  OnlyTerminating-append, OnlyTerminating-set_first_time,
}
use fdb_kubernetes_operator.Removal.Selection.{
  get_process_groups_to_remove, get_process_groups_to_remove_lem, is_removed,
}

-- What validateProcessGroups does to a process group that is to be removed, at the start of its loop.
unfoldable pub remove_listed : Instant → Bool → ProcessGroupStatus → ProcessGroupStatus
unfolding mark_for_removal set_exclude
remove_listed now without_exclusion s =
    let marked = mark_for_removal now s in
    if not marked.exclusion_skipped && (without_exclusion || marked.process_class == class_test)
    then set_exclude now (record marked { exclusion_skipped = true })
    else marked

-- The reset of the exclusion by checkAndSetProcessStatus, where `excluded` is what the loop over the processes found.
unfoldable pub reset_exclusion : Bool → ProcessGroupStatus → ProcessGroupStatus
reset_exclusion excluded s =
    if not excluded && not s.exclusion_skipped && not (is_zero s.exclusion_timestamp)
    then record s { exclusion_timestamp = none }
    else s

-- One operation on the status. `collect` is the body of the loop of getProcessGroupsToRemove, `list` the start of the
-- loop of validateProcessGroups, and `skip` any assignment to the flag for skipped exclusions, which
-- checkAndSetProcessStatus and ReplaceFailedProcessGroups make.
pub data Step (s : ProcessGroupStatus) : ProcessGroupStatus → Type 0 where
  mark : (now : Instant) → is_zero_time now ≡ false → Step s (mark_for_removal now s)
  collect :
      (now : Instant) (coordinators : List String) (remaining : List (String × Bool))
      {t : ProcessGroupStatus}
      → is_zero_time now ≡ false
      → (get_process_groups_to_remove now coordinators remaining (s ∷ [])).process_groups ≡ t ∷ []
      → Step s t
  list :
      (now : Instant) (without_exclusion : Bool)
      → is_zero_time now ≡ false
      → Step s (remove_listed now without_exclusion s)
  reset : (excluded : Bool) → Step s (reset_exclusion excluded s)
  skip : (skipped : Bool) → Step s (record s { exclusion_skipped = skipped })
  update :
      (now : Instant) (t : ProcessGroupConditionType) (set : Bool)
      → Step s (update_condition now t set s)
  retime : (t : ProcessGroupConditionType) (time : ℤ) → Step s (update_condition_time t time s)
  address :
      (addresses : List String) (include_old : Bool)
      → Step s (add_addresses addresses include_old s)

pub data Reach (s : ProcessGroupStatus) : ProcessGroupStatus → Type 0 where
  here : Reach s s
  next : {t u : ProcessGroupStatus} → Reach s t → Step t u → Reach s u

-- What holds of a status at every point of its life: no condition type occurs twice, and with an
-- exclusion timestamp the process group is marked for removal and has no condition but
-- ResourcesTerminating.
pub record IsValid (s : ProcessGroupStatus) : Type 0 where
  pub distinct : Distinct s.conditions
  pub marked : is_zero s.exclusion_timestamp ≡ false → is_marked_for_removal s ≡ true
  pub terminating : is_zero s.exclusion_timestamp ≡ false → OnlyTerminating s.conditions

pub new_process_group_status-IsValid :
    (now : Instant) (id class : String) (addresses : List String)
    → IsValid (new_process_group_status now id class addresses)
unfolding new_process_group_status
new_process_group_status-IsValid now id class addresses = ground arith

update_condition-OnlyTerminating :
    (now : Instant) (t : ProcessGroupConditionType) (set : Bool) (s : ProcessGroupStatus)
    → IsValid s
    → is_zero (update_condition now t set s).exclusion_timestamp ≡ false
    → OnlyTerminating (update_condition now t set s).conditions
unfolding update_condition is_excluded new_process_group_condition
update_condition-OnlyTerminating now t true s v = ground (
  arith,
  OnlyTerminating-append s.conditions (new_process_group_condition now t),
  v.terminating,
  v.marked,
)
update_condition-OnlyTerminating now t false s v =
    ground (arith, OnlyTerminating-select (λ c. not (has_type t c)) s.conditions, v.terminating)

set_exclude-IsValid :
    (now : Instant) (s : ProcessGroupStatus)
    → is_zero_time now ≡ false
    → is_marked_for_removal s ≡ true
    → IsValid s
    → IsValid (set_exclude now s)
unfolding is_marked_for_removal set_exclude
set_exclude-IsValid now s h m v = record {
  distinct = set_exclude-Distinct now s v.distinct;
  marked = ground arith;
  terminating = ground (arith, select-OnlyTerminating s.conditions, v.terminating);
}

remove_listed-IsValid :
    (now : Instant) (without_exclusion : Bool) (s : ProcessGroupStatus)
    → is_zero_time now ≡ false
    → IsValid s
    → IsValid (remove_listed now without_exclusion s)
unfolding remove_listed mark_for_removal is_marked_for_removal set_exclude
remove_listed-IsValid now without_exclusion s h v =
    ground (arith, select-OnlyTerminating s.conditions, set_exclude-Distinct now s v.distinct)

-- The loop of getProcessGroupsToRemove sets the exclusion only for a process group that is marked for removal.
collected :
    (now : Instant) (coordinators : List String) (remaining : List (String × Bool))
    {s t : ProcessGroupStatus}
    → (get_process_groups_to_remove now coordinators remaining (s ∷ [])).process_groups ≡ t ∷ []
    → (t ≡ s) ⊎ (is_marked_for_removal s ≡ true) × (t ≡ set_exclude now s)
collected now coordinators remaining {s} e =
    let (to_remove, all, new, groups) =
      get_process_groups_to_remove_lem now coordinators remaining (s ∷ []) in
    elim (Bool-cases (is_removed now coordinators remaining s)) [
      | inl r ↦ elim (Bool-cases (is_excluded s)) [
        | inl x ↦ inl (ground (arith, e, groups, r, x))
        | inr x ↦ inr (ground (arith, r), ground (arith, e, groups, r, x))
      ]
      | inr r ↦ inl (ground (arith, e, groups, r))
    ]

pub Step-IsValid : {s t : ProcessGroupStatus} → Step s t → IsValid s → IsValid t
unfolding mark_for_removal is_marked_for_removal update_condition_time update_condition
    add_addresses is_excluded reset_exclusion
Step-IsValid {s} (mark now h) v = ground arith
Step-IsValid {s} (collect now coordinators remaining h e) v =
    elim (collected now coordinators remaining e) [
      | inl same ↦ subst IsValid (sym same) v
      | inr (m, same) ↦ subst IsValid (sym same) (set_exclude-IsValid now s h m v)
    ]
Step-IsValid {s} (list now without_exclusion h) v =
    remove_listed-IsValid now without_exclusion s h v
Step-IsValid {s} (reset excluded) v = ground arith
Step-IsValid {s} (skip skipped) v = ground arith
Step-IsValid {s} (update now t set) v = record {
  distinct = update_condition-Distinct now t set s v.distinct;
  marked = ground arith;
  terminating = update_condition-OnlyTerminating now t set s v;
}
Step-IsValid {s} (retime t time) v = record {
  distinct = set_first_time-Distinct t time s.conditions v.distinct;
  marked = ground arith;
  terminating = ground (arith, OnlyTerminating-set_first_time t time s.conditions);
}
Step-IsValid {s} (address as' include_old) v = ground arith

-- From its creation on, whatever operations of the step relation a process group's status goes through, it has no
-- condition type twice, and while it has an exclusion timestamp it is marked for removal and has no condition
-- but ResourcesTerminating.
pub Reach-IsValid :
    (now : Instant) (id class : String) (addresses : List String) {s : ProcessGroupStatus}
    → Reach (new_process_group_status now id class addresses) s
    → IsValid s
Reach-IsValid now id class addresses here = new_process_group_status-IsValid now id class addresses
Reach-IsValid now id class addresses (next r st) =
    Step-IsValid st (Reach-IsValid now id class addresses r)

Step-removal_timestamp :
    {s t : ProcessGroupStatus}
    → Step s t
    → is_marked_for_removal s ≡ true
    → t.removal_timestamp ≡ s.removal_timestamp
unfolding mark_for_removal is_marked_for_removal set_exclude update_condition_time update_condition
    add_addresses remove_listed reset_exclusion
Step-removal_timestamp (collect now coordinators remaining h e) m =
    elim (collected now coordinators remaining e) [
      | inl same ↦ ap (λ g. g.removal_timestamp) same
      | inr (marked, same) ↦ ground (arith, same)
    ]
Step-removal_timestamp _ m = ground arith

-- A removal cannot be taken back: a process group that is marked for removal keeps its removal
-- timestamp through every sequence of operations of the step relation.
pub Reach-removal_timestamp :
    {s t : ProcessGroupStatus}
    → Reach s t
    → is_marked_for_removal s ≡ true
    → t.removal_timestamp ≡ s.removal_timestamp
unfolding is_marked_for_removal
Reach-removal_timestamp here m = refl
Reach-removal_timestamp (next r st) m =
    let earlier = Reach-removal_timestamp r m in
    Step-removal_timestamp st (ground (arith, earlier, m)) ∙ earlier
