-- ===== src/Removal/Selection.antt =====
-- Which process groups are removed: getProcessGroupsToRemove of controllers/remove_process_groups.go, and
-- FilterBlockedRemovals of internal/buggify.
use fdb_kubernetes_operator.Common.{
  ◌≡◌, refl, String, Bool, true, false, not, ◌&&◌, ◌||◌, List, [], ◌∷◌, map, if◌then◌else◌, ◌==◌,
  string_eq, contains, is_empty, is_some, select, arith, Bool-cases, inl, inr, ap, ◌∙◌,
}
use fdb_kubernetes_operator.ProcessGroup.{
  Instant, ProcessGroupStatus, is_excluded, is_marked_for_removal, set_exclude, class_test,
}
use fdb_kubernetes_operator.ProcessGroup.Exclusion.{
  all_addresses_excluded, process_group_addresses_remaining, all_addresses_excluded_lem,
  has_evidence,
}
use fdb_kubernetes_operator.Removal.{Cluster}

-- The three results, and the process groups of the cluster as they are afterwards.
pub record Outcome : Type 0 where
  pub all_excluded : Bool
  pub new_exclusions : Bool
  pub to_remove : List ProcessGroupStatus
  pub process_groups : List ProcessGroupStatus

-- What becomes of a process group in the body of the loop.
pub data Decision : Type 0 where
  skip block flagged complete : Decision

decide : Instant → List String → List (String × Bool) → ProcessGroupStatus → Decision
unfolding is_marked_for_removal is_excluded all_addresses_excluded process_group_addresses_remaining
decide now coordinators remaining g =
    let (excluded, err) = all_addresses_excluded now g remaining in
    if not (is_marked_for_removal g)
    then skip
    else if contains coordinators g.process_group_id
    then block
    else if is_excluded g
    then (if process_group_addresses_remaining g remaining then block else flagged)
    else if not (g.process_class == class_test) && (not excluded || is_some err)
    then block
    else complete

apply : Instant → Decision → ProcessGroupStatus → Outcome → Outcome
unfolding set_exclude
apply now skip g rest = record rest { process_groups = g ∷ rest.process_groups }
apply now block g rest = record rest {
  all_excluded = false;
  process_groups = g ∷ rest.process_groups;
}
apply now flagged g rest = record rest {
  to_remove = g ∷ rest.to_remove;
  process_groups = g ∷ rest.process_groups;
}
apply now complete g rest = record rest {
  new_exclusions = true;
  to_remove = set_exclude now g ∷ rest.to_remove;
  process_groups = set_exclude now g ∷ rest.process_groups;
}

unfoldable pub get_process_groups_to_remove :
    Instant → List String → List (String × Bool) → List ProcessGroupStatus → Outcome
unfolding decide apply
get_process_groups_to_remove now coordinators remaining [] = record {
  all_excluded = true;
  new_exclusions = false;
  to_remove = [];
  process_groups = [];
}
get_process_groups_to_remove now coordinators remaining (g ∷ gs) =
    apply now (decide now coordinators remaining g) g
      (get_process_groups_to_remove now coordinators remaining gs)

-- The loop of `FilterBlockedRemovals`.
unfoldable pub filter_blocked_removals : Cluster → List ProcessGroupStatus → List ProcessGroupStatus
filter_blocked_removals c gs =
    if is_empty c.block_removal
    then gs
    else select (λ g. not (contains c.block_removal g.process_group_id)) gs

-- A process group is removed if it is marked for removal, is no coordinator, and: it is flagged as
-- excluded, and no address of it is remaining; or it is a tester; or there is evidence that all its
-- addresses are excluded.
abbrev pub is_removed : Instant → List String → List (String × Bool) → ProcessGroupStatus → Bool
is_removed now coordinators remaining g =
    is_marked_for_removal g
    && not (contains coordinators g.process_group_id)
    && (if is_excluded g
        then not (process_group_addresses_remaining g remaining)
        else g.process_class == class_test || has_evidence now g remaining)

-- A process group that is removed is marked as excluded, unless it is flagged already.
abbrev pub completed : Instant → ProcessGroupStatus → ProcessGroupStatus
completed now g = if is_excluded g then g else set_exclude now g

decide-removed :
    (now : Instant) (coordinators : List String) (remaining : List (String × Bool))
    (g : ProcessGroupStatus)
    → decide now coordinators remaining g ≡ (
        if not (is_marked_for_removal g)
        then skip
        else if not (is_removed now coordinators remaining g)
        then block
        else if is_excluded g
        then flagged
        else complete)
unfolding decide
decide-removed now coordinators remaining g =
    ground (arith, all_addresses_excluded_lem now g remaining)

-- The decision, from whether the process group is marked, removed and flagged.
abbrev decision : Bool → Bool → Bool → Decision
decision marked removed flag =
    if not marked then skip else if not removed then block else if flag then flagged else complete

apply-decision :
    (now : Instant) (g : ProcessGroupStatus) (rest : Outcome) (marked removed : Bool)
    → (removed ≡ true → marked ≡ true)
    → let o = apply now (decision marked removed (is_excluded g)) g rest in
      (o.to_remove ≡ (if removed then completed now g ∷ rest.to_remove else rest.to_remove))
      × (o.all_excluded ≡ (if marked && not removed then false else rest.all_excluded))
      × (o.new_exclusions ≡ (if removed && not (is_excluded g) then true else rest.new_exclusions))
      × (o.process_groups ≡ (if removed then completed now g else g) ∷ rest.process_groups)
unfolding apply
apply-decision now g rest false false h = (refl, refl, refl, refl)
apply-decision now g rest false true h = ground (arith, h)
apply-decision now g rest true false h = (refl, refl, refl, refl)
apply-decision now g rest true true h = elim (Bool-cases (is_excluded g)) [
  | inl e ↦ rw e (refl, refl, refl, refl)
  | inr e ↦ rw e (refl, refl, refl, refl)
]

module _ (now : Instant) (coordinators : List String) (remaining : List (String × Bool)) where
  abbrev removed : ProcessGroupStatus → Bool
  removed g = is_removed now coordinators remaining g

  abbrev outcome : List ProcessGroupStatus → Outcome
  outcome gs = get_process_groups_to_remove now coordinators remaining gs

  outcome-cons :
      (g : ProcessGroupStatus) (gs : List ProcessGroupStatus)
      → outcome (g ∷ gs)
        ≡ apply now (decision (is_marked_for_removal g) (removed g) (is_excluded g)) g (outcome gs)
  unfolding get_process_groups_to_remove
  outcome-cons g gs =
      ap (λ d. apply now d g (outcome gs)) (decide-removed now coordinators remaining g)

  applied :
      (g : ProcessGroupStatus) (gs : List ProcessGroupStatus)
      → let o = outcome (g ∷ gs) in
        let rest = outcome gs in
        (o.to_remove ≡ (if removed g then completed now g ∷ rest.to_remove else rest.to_remove))
        × (o.all_excluded
            ≡ (if is_marked_for_removal g && not (removed g) then false else rest.all_excluded))
        × (o.new_exclusions
            ≡ (if removed g && not (is_excluded g) then true else rest.new_exclusions))
        × (o.process_groups ≡ (if removed g then completed now g else g) ∷ rest.process_groups)
  applied g gs =
      rw (outcome-cons g gs)
        (apply-decision now g (outcome gs) (is_marked_for_removal g) (removed g) (ground arith))

  -- getProcessGroupsToRemove returns exactly those process groups, in their order, marked as excluded; it
  -- says that all are excluded exactly if it returns each process group that is marked for removal, and
  -- that there are new exclusions exactly if it returns one that was not flagged as excluded before.
  pub get_process_groups_to_remove_lem :
      (gs : List ProcessGroupStatus)
      → let o = get_process_groups_to_remove now coordinators remaining gs in
        (o.to_remove ≡ map (completed now) (select removed gs))
        × (o.all_excluded ≡ is_empty (select (λ g. is_marked_for_removal g && not (removed g)) gs))
        × (o.new_exclusions ≡ not (is_empty (select (λ g. removed g && not (is_excluded g)) gs)))
        × (o.process_groups ≡ map (λ g. if removed g then completed now g else g) gs)
  unfolding get_process_groups_to_remove
  get_process_groups_to_remove_lem [] = (refl, refl, refl, refl)
  get_process_groups_to_remove_lem (g ∷ gs) =
      let (a, b, c, d) = get_process_groups_to_remove_lem gs in
      let (p, q, r, s) = applied g gs in
      (
        p ∙ next_removed (removed g) a,
        q ∙ next_empty _ (is_marked_for_removal g && not (removed g)) b,
        r ∙ next_any _ (removed g && not (is_excluded g)) c,
        s ∙ ap (λ l. (if removed g then completed now g else g) ∷ l) d,
      )
    where
      next_removed :
          (b : Bool)
          → (outcome gs).to_remove ≡ map (completed now) (select removed gs)
          → (if b then completed now g ∷ (outcome gs).to_remove else (outcome gs).to_remove)
            ≡ map (completed now) (if b then g ∷ select removed gs else select removed gs)
      next_removed true h = ap (λ l. completed now g ∷ l) h
      next_removed false h = h

      next_empty :
          {x : Bool} (l : List ProcessGroupStatus) (b : Bool)
          → x ≡ is_empty l
          → (if b then false else x) ≡ is_empty (if b then g ∷ l else l)
      next_empty l true h = refl
      next_empty l false h = h

      next_any :
          {x : Bool} (l : List ProcessGroupStatus) (b : Bool)
          → x ≡ not (is_empty l)
          → (if b then true else x) ≡ not (is_empty (if b then g ∷ l else l))
      next_any l true h = refl
      next_any l false h = h
