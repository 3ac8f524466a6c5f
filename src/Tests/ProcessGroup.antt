-- ===== src/Tests/ProcessGroup.antt =====
-- Runs of api/v1beta2/foundationdbcluster_types.go on a storage process group.
use fdb_kubernetes_operator.Common.{
  ℕ, ◌≡◌, refl, String, true, false, ◌||◌, ◌&&◌, NoDuplicates, none, some, [], ◌∷◌, ◌==◌, string_eq,
  arith, contains, not,
}
use fdb_kubernetes_operator.Common.Int.{pos, ◌+ℤ◌, ◌-ℤ◌, int_eq}
use fdb_kubernetes_operator.ProcessGroup.{
  Instant, ProcessGroupStatus, missing_pod, resources_terminating, get_condition_time,
  update_condition, new_process_group_status, mark_for_removal, set_exclude, is_marked_for_removal,
  is_excluded,
}
use fdb_kubernetes_operator.ProcessGroup.Exclusion.{all_addresses_excluded}
use fdb_kubernetes_operator.Removal.Selection.{get_process_groups_to_remove}
use fdb_kubernetes_operator.ProcessGroup.Lifecycle.{
  IsValid, Reach, here, next, mark, collect, reset, update, reset_exclusion, Reach-IsValid,
  Reach-removal_timestamp,
}
use fdb_kubernetes_operator.ProcessGroup.Replacement.{
  needs_replacement_with_conditions, needs_replacement_with_conditions-is_due, default_conditions,
  is_due,
}
use fdb_kubernetes_operator.ProcessGroup.Addresses.{
  mark_process_group_for_removal, mark_process_group_for_removal_lem, marked_group,
  contains_process_group_id, clean_address_list, clean_address_list_lem, add_addresses,
  contains-add_addresses,
}
use fdb_kubernetes_operator.ProcessGroup.Conditions.{get_condition_time-update_condition}

abbrev at : ℕ → Instant
at n = record { seconds = pos n; nanos = 0 }

abbrev storage_1 : ProcessGroupStatus
unfolding new_process_group_status
storage_1 = new_process_group_status (at 100) "storage-1" "storage" ("10.0.0.1" ∷ [])

abbrev removed : ProcessGroupStatus
removed =
    update_condition (at 400) resources_terminating true
      (set_exclude (at 300) (mark_for_removal (at 200) storage_1))

terminating_since : get_condition_time resources_terminating removed ≡ some (pos 400)
unfolding storage_1 update_condition set_exclude mark_for_removal get_condition_time
terminating_since = refl

not_missing : get_condition_time missing_pod removed ≡ none
unfolding storage_1 update_condition set_exclude mark_for_removal get_condition_time
not_missing = refl

-- Marked, excluded, included again by hand, and excluded once more.
removed_life : Reach storage_1 removed
unfolding mark_for_removal is_marked_for_removal set_exclude is_excluded storage_1 reset_exclusion
    get_process_groups_to_remove all_addresses_excluded get_condition_time ◌-ℤ◌
removed_life =
    next
      (next
        (next
          (next (next here (mark (at 200) refl))
            (collect (at 250) [] (("10.0.0.1", false) ∷ []) refl refl))
          (reset false))
        (collect (at 300) [] (("10.0.0.1", false) ∷ []) refl refl))
      (update (at 400) resources_terminating true)

Reach-IsValid_example : IsValid removed
unfolding storage_1
Reach-IsValid_example = Reach-IsValid (at 100) "storage-1" "storage" ("10.0.0.1" ∷ []) removed_life

marked : ProcessGroupStatus
marked = mark_for_removal (at 200) storage_1

Reach-removal_timestamp_example :
    (update_condition (at 300) missing_pod false marked).removal_timestamp
    ≡ marked.removal_timestamp
unfolding marked mark_for_removal is_marked_for_removal storage_1
Reach-removal_timestamp_example =
    Reach-removal_timestamp {s = marked} (next here (update (at 300) missing_pod false)) refl

due_example :
    ((needs_replacement_with_conditions
        (at 8000)
        (pos 7200)
        (pos 1800)
        default_conditions
        storage_1).1
      == pos 0)
    ≡ (is_marked_for_removal storage_1
        || not (is_due (at 8000) (pos 7200) (pos 1800) default_conditions storage_1.conditions))
unfolding storage_1
due_example =
    needs_replacement_with_conditions-is_due (at 8000) (pos 7200) (pos 1800) default_conditions
      storage_1 (omega arith) (omega arith) (omega arith) (omega arith)

still_recent :
    needs_replacement_with_conditions (at 7300) (pos 7200) (pos 1800) default_conditions storage_1
    ≡ ("", pos 0)
unfolding needs_replacement_with_conditions storage_1 is_marked_for_removal ◌-ℤ◌ ◌+ℤ◌
still_recent = refl

since_100 :
    needs_replacement_with_conditions (at 7301) (pos 7200) (pos 1800) default_conditions storage_1
    ≡ ("MissingProcesses", pos 100)
unfolding needs_replacement_with_conditions storage_1 is_marked_for_removal ◌-ℤ◌ ◌+ℤ◌
since_100 = refl

-- 9,223,372,037 seconds are more than a duration holds: the product wraps around, and the window starts in the future.
far_future :
    needs_replacement_with_conditions
      (at 200)
      (pos 9_223_372_037)
      (pos 1800)
      default_conditions
      storage_1
    ≡ ("MissingProcesses", pos 100)
unfolding needs_replacement_with_conditions storage_1 is_marked_for_removal ◌-ℤ◌ ◌+ℤ◌
far_future = refl

mark_process_group_for_removal_example :
    let r =
      mark_process_group_for_removal (at 500) (storage_1 ∷ []) "storage-2" "storage" "10.0.0.2" in
    (r.0 ≡ contains_process_group_id "storage-2" (storage_1 ∷ []))
    × ((g : ProcessGroupStatus) × (marked_group "storage-2" r ≡ some g)
        × (g.process_group_id ≡ "storage-2")
        × (is_marked_for_removal g ≡ true)
        × ((◌==◌ {A = String} "10.0.0.2" "" || contains g.addresses "10.0.0.2") ≡ true))
mark_process_group_for_removal_example =
    mark_process_group_for_removal_lem (at 500) (storage_1 ∷ []) "storage-2" "storage" "10.0.0.2"
      refl

get_condition_time-update_condition_example :
    get_condition_time missing_pod (update_condition (at 300) missing_pod false storage_1) ≡ none
get_condition_time-update_condition_example =
    get_condition_time-update_condition (at 300) missing_pod false storage_1 missing_pod

clean_address_list_lem_example :
    NoDuplicates (clean_address_list ("a" ∷ "" ∷ "a" ∷ []))
    × ((a : String)
        → contains (clean_address_list ("a" ∷ "" ∷ "a" ∷ [])) a
          ≡ (contains ("a" ∷ "" ∷ "a" ∷ []) a && not (a == "")))
clean_address_list_lem_example = clean_address_list_lem ("a" ∷ "" ∷ "a" ∷ [])

contains-add_addresses_example :
    contains (add_addresses ("10.0.0.2" ∷ []) true storage_1).addresses "10.0.0.2" ≡ true
unfolding storage_1
contains-add_addresses_example = contains-add_addresses ("10.0.0.2" ∷ []) true storage_1 "10.0.0.2"
