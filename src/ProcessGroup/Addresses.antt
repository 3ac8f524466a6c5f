-- ===== src/ProcessGroup/Addresses.antt =====
-- The addresses of a process group, and the list operations that look groups up by their ID:
-- AddAddresses, cleanAddressList, FindProcessGroupByID, ContainsProcessGroupID,
-- MarkProcessGroupForRemoval and ProcessGroupsByProcessClass of
-- api/v1beta2/foundationdbcluster_types.go. A Go map to true is the list of its keys.
use fdb_kubernetes_operator.Common.{
  ◌≡◌, refl, String, Bool, true, false, ◌&&◌, ◌||◌, not, Option, none, some, List, [], ◌∷◌, ◌++◌,
  arith, if◌then◌else◌, ◌==◌, string_eq, contains, is_empty, NoDuplicates, contains-append,
  append-nil, append_assoc, eq_iff, select, is_some, Bool-cases, inl, inr, sym, Option-cases, ◌∙◌,
  eq_refl,
}
use mathlib.Core.Option
use fdb_kubernetes_operator.ProcessGroup.{
  Instant, ProcessGroupStatus, ProcessGroupId, ProcessClassName, is_zero_time,
  is_marked_for_removal, mark_for_removal, new_process_group_status,
}

-- The loop of `cleanAddressList`.
clean_loop : List String → List String → List String → List String
clean_loop seen result [] = result
clean_loop seen result (value ∷ rest) =
    let accepted = not (value == "") && not (contains seen value) in
    clean_loop (if accepted then value ∷ seen else seen)
      (if accepted then result ++ value ∷ [] else result) rest

unfoldable pub clean_address_list : List String → List String
unfolding clean_loop
clean_address_list addresses = clean_loop [] [] addresses

unfoldable pub add_addresses : List String → Bool → ProcessGroupStatus → ProcessGroupStatus
unfolding clean_address_list
add_addresses addresses include_old s =
    let new_addresses = select (λ a. not (a == "")) addresses in
    if not (is_empty new_addresses) && not include_old
    then record s { addresses = new_addresses }
    else if include_old
    then record s { addresses = clean_address_list (s.addresses ++ new_addresses) }
    else s

unfoldable pub find_process_group_by_id :
    ProcessGroupId → List ProcessGroupStatus → Option ProcessGroupStatus
find_process_group_by_id id [] = none
find_process_group_by_id id (g ∷ gs) =
    if g.process_group_id == id then some g else find_process_group_by_id id gs

unfoldable pub contains_process_group_id : ProcessGroupId → List ProcessGroupStatus → Bool
unfolding find_process_group_by_id
contains_process_group_id id gs = is_some (find_process_group_by_id id gs)

unfoldable pub process_groups_by_process_class :
    ProcessClassName → List ProcessGroupStatus → List ProcessGroupStatus
process_groups_by_process_class class gs = select (λ g. g.process_class == class) gs

-- The body of the loop of `MarkProcessGroupForRemoval`, at the process group with the ID.
unfoldable pub mark_with_address : Instant → String → ProcessGroupStatus → ProcessGroupStatus
unfolding mark_for_removal
mark_with_address now address g = mark_for_removal now (
    if not (contains g.addresses address) && not (address == "")
    then record g { addresses = g.addresses ++ address ∷ [] }
    else g)

-- The list afterwards, and whether a group had the ID.
unfoldable pub mark_in_list :
    Instant → ProcessGroupId → String → List ProcessGroupStatus → Bool × List ProcessGroupStatus
unfolding mark_with_address
mark_in_list now id address [] = (false, [])
mark_in_list now id address (g ∷ gs) =
    let rest = mark_in_list now id address gs in
    if not (g.process_group_id == id)
    then (rest.0, g ∷ rest.1)
    else (true, mark_with_address now address g ∷ gs)

-- The two results, and the list as it is afterwards.
unfoldable pub mark_process_group_for_removal :
    Instant
    → List ProcessGroupStatus
    → ProcessGroupId
    → ProcessClassName
    → String
    → Bool × Option ProcessGroupStatus × List ProcessGroupStatus
unfolding mark_in_list new_process_group_status
mark_process_group_for_removal now gs id class address =
    let marked = mark_in_list now id address gs in
    if marked.0 then (true, none, marked.1) else (
      false,
      some (
          mark_for_removal now
            (new_process_group_status now id class (if address == "" then [] else address ∷ []))),
      gs,
    )

-- What the loop of `cleanAddressList` adds to its result.
fresh : List String → List String → List String
fresh seen [] = []
fresh seen (x ∷ xs) =
    let accepted = not (x == "") && not (contains seen x) in
    let later = fresh (if accepted then x ∷ seen else seen) xs in
    if accepted then x ∷ later else later

clean_loop-fresh :
    (seen result xs : List String) → clean_loop seen result xs ≡ result ++ fresh seen xs
unfolding clean_loop fresh
clean_loop-fresh seen result [] = sym (append-nil result)
clean_loop-fresh seen result (x ∷ xs) = elim (Bool-cases (not (x == "") && not (contains seen x))) [
  | inl e ↦
      rw e (clean_loop-fresh (x ∷ seen) (result ++ x ∷ []) xs ∙ append_assoc result (x ∷ []) _)
  | inr e ↦ rw e (clean_loop-fresh seen result xs)
]

contains-fresh :
    (seen xs : List String) (a : String)
    → contains (fresh seen xs) a ≡ ((contains xs a && not (a == "")) && not (contains seen a))
unfolding fresh
contains-fresh seen [] a = refl
contains-fresh seen (x ∷ xs) a = ground (
  arith,
  eq_iff x a,
  eq_iff x "",
  eq_iff a "",
  contains-fresh seen xs a,
  contains-fresh (x ∷ seen) xs a,
)

fresh-NoDuplicates : (seen xs : List String) → NoDuplicates (fresh seen xs)
unfolding fresh
fresh-NoDuplicates seen [] = tt
fresh-NoDuplicates seen (x ∷ xs) = ground (
  arith,
  eq_refl x,
  fresh-NoDuplicates seen xs,
  fresh-NoDuplicates (x ∷ seen) xs,
  contains-fresh (x ∷ seen) xs x,
)

-- `cleanAddressList` keeps exactly the addresses that are not empty, each of them once.
pub clean_address_list_lem :
    (xs : List String)
    → NoDuplicates (clean_address_list xs)
      × ((a : String) → contains (clean_address_list xs) a ≡ (contains xs a && not (a == "")))
unfolding clean_address_list
clean_address_list_lem xs =
    rw (clean_loop-fresh [] [] xs)
      (fresh-NoDuplicates [] xs, λ a. ground (arith, contains-fresh [] xs a))

contains-select_nonempty :
    (xs : List String) (a : String)
    → contains (select (λ x. not (x == "")) xs) a ≡ (contains xs a && not (a == ""))
contains-select_nonempty [] a = refl
contains-select_nonempty (x ∷ xs) a =
    ground (arith, eq_iff x a, eq_iff x "", eq_iff a "", contains-select_nonempty xs a)

-- Which addresses a process group has after `AddAddresses`. With old addresses included they are the
-- old and the new ones that are not empty; otherwise the new ones that are not empty, or, if there is
-- none, the old ones.
pub contains-add_addresses :
    (addresses : List String) (include_old : Bool) (s : ProcessGroupStatus) (a : String)
    → contains (add_addresses addresses include_old s).addresses a ≡ (
        if include_old
        then (contains s.addresses a || contains addresses a) && not (a == "")
        else if is_empty (select (λ x. not (x == "")) addresses)
        then contains s.addresses a
        else contains addresses a && not (a == ""))
unfolding add_addresses
contains-add_addresses addresses true s a = ground (
  arith,
  contains-select_nonempty addresses a,
  contains-append s.addresses (select (λ x. not (x == "")) addresses) a,
  (clean_address_list_lem (s.addresses ++ select (λ x. not (x == "")) addresses)).1 a,
)
contains-add_addresses addresses false s a = ground (arith, contains-select_nonempty addresses a)

-- The process group with an ID after `MarkProcessGroupForRemoval`: the one in the list, or the new one.
abbrev pub marked_group :
    ProcessGroupId
    → Bool × Option ProcessGroupStatus × List ProcessGroupStatus
    → Option ProcessGroupStatus
marked_group id r = if r.0 then find_process_group_by_id id r.2 else r.1

mark_with_address_lem :
    (now : Instant) (address : String) (g : ProcessGroupStatus)
    → is_zero_time now ≡ false
    → ((mark_with_address now address g).process_group_id ≡ g.process_group_id)
      × (is_marked_for_removal (mark_with_address now address g) ≡ true)
      × ((address == "" || contains (mark_with_address now address g).addresses address) ≡ true)
unfolding mark_with_address is_marked_for_removal
mark_with_address_lem now address g h =
    ground (arith, eq_refl address, contains-append g.addresses (address ∷ []) address)

find-mark_in_list :
    (now : Instant) (id : ProcessGroupId) (address : String) (gs : List ProcessGroupStatus)
    → is_zero_time now ≡ false
    → ((mark_in_list now id address gs).0 ≡ is_some (find_process_group_by_id id gs))
      × (find_process_group_by_id id (mark_in_list now id address gs).1
          ≡ Option.map (mark_with_address now address) (find_process_group_by_id id gs))
unfolding mark_in_list find_process_group_by_id
find-mark_in_list now id address [] h = (refl, refl)
find-mark_in_list now id address (g ∷ gs) h =
    ground (arith, find-mark_in_list now id address gs h, mark_with_address_lem now address g h)

find-id :
    (id : ProcessGroupId) (gs : List ProcessGroupStatus) (x : ProcessGroupStatus)
    → find_process_group_by_id id gs ≡ some x
    → x.process_group_id ≡ id
unfolding find_process_group_by_id
find-id id [] x h = cc
find-id id (g ∷ gs) x h = ground (arith, eq_iff g.process_group_id id, find-id id gs x)

-- `MarkProcessGroupForRemoval` ends with a process group of the ID that is marked for removal and has
-- the address, if one was given. That group is in the list if the list had one with the ID, which the
-- first result says, and is returned otherwise.
pub mark_process_group_for_removal_lem :
    (now : Instant) (gs : List ProcessGroupStatus) (id : ProcessGroupId) (class : ProcessClassName)
    (address : String)
    → is_zero_time now ≡ false
    → let r = mark_process_group_for_removal now gs id class address in
      (r.0 ≡ contains_process_group_id id gs)
      × ((g : ProcessGroupStatus) × (marked_group id r ≡ some g)
          × (g.process_group_id ≡ id)
          × (is_marked_for_removal g ≡ true)
          × ((address == "" || contains g.addresses address) ≡ true))
unfolding mark_process_group_for_removal contains_process_group_id is_marked_for_removal
mark_process_group_for_removal_lem now gs id class address h =
    elim (Option-cases (find_process_group_by_id id gs)) [
      | inl e ↦
          let new =
            new_process_group_status now id class (if address == "" then [] else address ∷ []) in
          let (f, _) = find-mark_in_list now id address gs h in
          (
            ground (arith, f, e),
            (
              mark_for_removal now new,
              ground (arith, f, e),
              ground (arith, e),
              ground (arith, h),
              ground (arith, h, eq_refl address),
            ),
          )
      | inr (g, e) ↦
          let (f, m) = find-mark_in_list now id address gs h in
          let (i, k, a) = mark_with_address_lem now address g h in
          (
            ground (arith, f, e),
            (mark_with_address now address g, ground (arith, f, m, e), i ∙ find-id id gs g e, k, a),
          )
    ]
