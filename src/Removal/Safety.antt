-- ===== src/Removal/Safety.antt =====
-- Why a removal is safe: getProcessGroupsToRemove of controllers/remove_process_groups.go on the map of
-- GetRemainingMap, back to the processes of the status that CanSafelyRemoveFromStatus reads.
use fdb_kubernetes_operator.Common.{
  ◌≡◌, subst, refl, String, Bool, true, false, not, ◌&&◌, Option, none, some, List, [], ◌∷◌,
  if◌then◌else◌, ◌==◌, string_eq, contains, is_empty, arith, Bool-cases, inl, inr, lookup, ap, ◌∙◌,
  sym,
}
use fdb_kubernetes_operator.Address.{Net, ProcessAddress, of_string, address_string}
use fdb_kubernetes_operator.Status.{Status, can_safely_remove}
use fdb_kubernetes_operator.Status.Classification.{is_trusted}
use fdb_kubernetes_operator.Status.Counting.{all_idle}
use fdb_kubernetes_operator.ProcessGroup.{
  Instant, ProcessGroupStatus, ProcessGroupId, is_excluded, is_marked_for_removal, is_log_process,
  class_test,
}
use fdb_kubernetes_operator.ProcessGroup.Exclusion.{
  get_exclusion_string, process_group_addresses_remaining,
}
use fdb_kubernetes_operator.Removal.{Cluster}
use fdb_kubernetes_operator.Removal.Remaining.{
  set_all, get_remaining_map, addresses_to_validate, addresses_of, process_group_ids_in_status,
  get_addresses_to_validate_before_removal,
}
use fdb_kubernetes_operator.Removal.Selection.{is_removed}
use fdb_kubernetes_operator.Removal.Evidence.{
  lookup-set_all, address_string-exclusion, Member, Occurs, Occurs-append, texts, texts-Occurs,
  can_safely_remove-all_idle,
}

get_addresses-parts :
    (net : Net) (c : Cluster) (status : Option Status)
    → let raw =
        addresses_to_validate net c (process_group_ids_in_status c status) c.process_groups in
      get_addresses_to_validate_before_removal net c status ≡ (set_all net false raw [], raw)
unfolding get_addresses_to_validate_before_removal set_all
get_addresses-parts net c status =
    on (addresses_to_validate net c (process_group_ids_in_status c status) c.process_groups)
  where
    on :
        (raw : List ProcessAddress)
        → ◌≡◌ {A = List (String × Bool) × List ProcessAddress}
            (if is_empty raw then ([], []) else (set_all net false raw [], raw))
            (set_all net false raw [], raw)
    on [] = refl
    on (x ∷ xs) = refl

lookup-remaining :
    (net : Net) (xs remaining : List ProcessAddress) (safe excluded : Bool)
    (m : List (String × Bool)) (a : ProcessAddress)
    → (if is_empty xs
        then some []
        else if not safe
        then none
        else if not excluded
        then none
        else some (set_all net true remaining (set_all net false xs [])))
      ≡ some m
    → Occurs a xs
    → lookup (address_string net a) m ≡ some (contains (texts net remaining) (address_string net a))
lookup-remaining net [] remaining safe excluded m a e o = ground arith
lookup-remaining net (x ∷ xs) remaining safe excluded m a e o =
    let k = address_string net a in
    ground (
      arith,
      e,
      lookup-set_all net true remaining (set_all net false (x ∷ xs) []) k,
      lookup-set_all net false (x ∷ xs) [] k,
      texts-Occurs net a (x ∷ xs) o,
    )

-- The map of GetRemainingMap says of each address that was checked whether it is remaining.
lookup-get_remaining_map :
    (net : Net) (exclude : List ProcessAddress → Bool) (safe : Bool) (c : Cluster) (status : Status)
    (m : List (String × Bool)) (a : ProcessAddress)
    → get_remaining_map net exclude safe c status ≡ some m
    → let xs =
        addresses_to_validate net c
          (process_group_ids_in_status c (some status))
          c.process_groups in
      Occurs a xs
      → lookup (address_string net a) m
        ≡ some (
            contains (texts net (can_safely_remove net exclude xs status).0) (address_string net a))
unfolding get_remaining_map
lookup-get_remaining_map net exclude safe c status m a e o =
    let xs =
      addresses_to_validate net c (process_group_ids_in_status c (some status)) c.process_groups in
    let (remaining, excluded) = can_safely_remove net exclude xs status in
    lookup-remaining net xs remaining safe excluded m a
      (subst
        (λ r.
          (if is_empty r.1
            then some []
            else if not safe
            then none
            else if not (can_safely_remove net exclude r.1 status).1
            then none
            else some (set_all net true (can_safely_remove net exclude r.1 status).0 r.0))
          ≡ some m)
        (get_addresses-parts net c (some status)) e)
      o

Occurs-own :
    (net : Net) (c : Cluster) (present : List ProcessGroupId) (g : ProcessGroupStatus)
    → c.use_localities_for_exclusion ≡ true
    → is_marked_for_removal g ≡ true
    → (is_excluded g && contains present g.process_group_id) ≡ false
    → Occurs (of_string (get_exclusion_string g.process_group_id)) (addresses_of net c present g)
unfolding addresses_of
Occurs-own net c present g u h n =
    rw (h, n, u)
      (elim (Bool-cases (is_log_process g.process_class)) [
        | inl e ↦ rw e (inl refl)
        | inr e ↦ rw e (inl refl)
      ])

-- The checked addresses have the exclusion string of a process group that is marked for removal, unless
-- it is flagged as excluded and has a process in the status.
Occurs-addresses_to_validate :
    (net : Net) (c : Cluster) (present : List ProcessGroupId) (g : ProcessGroupStatus)
    (gs : List ProcessGroupStatus)
    → c.use_localities_for_exclusion ≡ true
    → is_marked_for_removal g ≡ true
    → (is_excluded g && contains present g.process_group_id) ≡ false
    → Member g gs
    → Occurs
        (of_string (get_exclusion_string g.process_group_id))
        (addresses_to_validate net c present gs)
unfolding addresses_to_validate
Occurs-addresses_to_validate net c present g [] u h n o = ground arith
Occurs-addresses_to_validate net c present g (x ∷ gs) u h n (inl e) =
    Occurs-append (of_string (get_exclusion_string g.process_group_id))
      (addresses_of net c present x) (addresses_to_validate net c present gs)
      (inl (
        subst
          (λ y.
            Occurs (of_string (get_exclusion_string g.process_group_id))
              (addresses_of net c present y))
          e (Occurs-own net c present g u h n)))
Occurs-addresses_to_validate net c present g (x ∷ gs) u h n (inr o) =
    Occurs-append (of_string (get_exclusion_string g.process_group_id))
      (addresses_of net c present x) (addresses_to_validate net c present gs)
      (inr (Occurs-addresses_to_validate net c present g gs u h n o))

-- A process group that is removed is not remaining by the map.
removed-lookup :
    (m : List (String × Bool)) (now : Instant) (coordinators : List String) (g : ProcessGroupStatus)
    (b : Bool)
    → (g.process_class == class_test) ≡ false
    → is_removed now coordinators m g ≡ true
    → lookup (get_exclusion_string g.process_group_id) m ≡ some b
    → b ≡ false
unfolding process_group_addresses_remaining
removed-lookup m now coordinators g b t r e = ground (arith, t, r, e)

-- The removal is safe. A process group without the flag that it is excluded, or with the flag and no
-- process in the status, is removed only if, by a status that is trusted, every process that has its
-- locality is excluded and has no role. This is for a process group of any class but test, with
-- exclusions by locality, and for any admin client, coordinators, time and Go network functions.
pub removal_safe :
    (net : Net) (exclude : List ProcessAddress → Bool) (safe : Bool) (c : Cluster) (status : Status)
    (m : List (String × Bool)) (now : Instant) (coordinators : List String) (g : ProcessGroupStatus)
    → get_remaining_map net exclude safe c status ≡ some m
    → c.use_localities_for_exclusion ≡ true
    → Member g c.process_groups
    → (g.process_class == class_test) ≡ false
    → (is_excluded g && contains (process_group_ids_in_status c (some status)) g.process_group_id)
      ≡ false
    → is_removed now coordinators m g ≡ true
    → (is_trusted net status ≡ true)
      × (all_idle net (get_exclusion_string g.process_group_id) status.processes ≡ true)
removal_safe net exclude safe c status m now coordinators g e u o t n r =
    let present = process_group_ids_in_status c (some status) in
    let xs = addresses_to_validate net c present c.process_groups in
    let a = of_string (get_exclusion_string g.process_group_id) in
    let (p, q) = address_string-exclusion net g.process_group_id in
    let marked : is_marked_for_removal g ≡ true = ground (arith, r) in
    let occurs = Occurs-addresses_to_validate net c present g c.process_groups u marked n o in
    let found = lookup-get_remaining_map net exclude safe c status m a e occurs in
    let idle =
      can_safely_remove-all_idle net exclude xs status a occurs
        (removed-lookup m now coordinators g _ t r (ap (λ k. lookup k m) (sym p) ∙ found)) in
    (idle.0, subst (λ k. all_idle net k status.processes ≡ true) q idle.1)
