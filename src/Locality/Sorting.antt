-- ===== src/Locality/Sorting.antt =====
-- sortLocalities of internal/locality/locality.go. slices.SortStableFunc is an insertion sort here: the
-- result of a stable sort depends on the comparison only.
use Prim.Native.Nat.{Ordering}
use Prim.Native.Nat.Ordering.{lt, gt}
use Prim.Native.String.{compare}
use fdb_kubernetes_operator.Common.{
  ◌≡◌, inl, inr, refl, String, Bool, true, false, not, ◌&&◌, ◌||◌, List, [], ◌∷◌, if◌then◌else◌,
  ◌==◌, string_eq, arith, Bool-cases, All, All-map, count_if, eq_iff, sym, ◌∙◌,
}
use fdb_kubernetes_operator.Common.Int.{ltb_ℤ, int_eq}
use fdb_kubernetes_operator.Common.Order.{not_gt, flip-compare, compare_trans}
use fdb_kubernetes_operator.Locality.{Info, value_of}

-- The comparison by priority and ID.
unfoldable pub compare_priority : Info → Info → Ordering
compare_priority a b =
    if a.priority == b.priority
    then compare a.id b.id
    else if ltb_ℤ b.priority a.priority
    then lt
    else gt

unfoldable pub compare_localities : String → Info → Info → Ordering
unfolding compare_priority
compare_localities primary_dc a b =
    let a_dc = value_of "dcid" a in
    let b_dc = value_of "dcid" b in
    if not (primary_dc == "") && not (a_dc == b_dc)
    then if a_dc == primary_dc then lt else if b_dc == primary_dc then gt else compare_priority a b
    else compare_priority a b

unfoldable pub insert_sorted : String → Info → List Info → List Info
unfolding compare_localities
insert_sorted dc p [] = p ∷ []
insert_sorted dc p (q ∷ qs) =
    let rest = insert_sorted dc p qs in
    if not_gt (compare_localities dc p q) then p ∷ q ∷ qs else q ∷ rest

unfoldable pub sort_localities : String → List Info → List Info
unfolding insert_sorted
sort_localities dc [] = []
sort_localities dc (p ∷ ps) = insert_sorted dc p (sort_localities dc ps)

-- Whether a process runs in the primary data center, if one is known.
abbrev pub in_primary : String → Info → Bool
in_primary dc p = not (dc == "") && value_of "dcid" p == dc

-- The order that is meant: the primary data center first, then higher priorities, then the IDs.
abbrev pub comes_before : String → Info → Info → Bool
comes_before dc a b =
    if in_primary dc a
    then not (in_primary dc b) || not_gt (compare_priority a b)
    else not (in_primary dc b) && not_gt (compare_priority a b)

not_gt-compare_localities :
    (dc : String) (a b : Info) → not_gt (compare_localities dc a b) ≡ comes_before dc a b
unfolding compare_localities
not_gt-compare_localities dc a b = ground (
  arith,
  eq_iff (value_of "dcid" a) (value_of "dcid" b),
  eq_iff (value_of "dcid" a) dc,
  eq_iff (value_of "dcid" b) dc,
)

priority_total :
    (a b : Info) → not_gt (compare_priority a b) ≡ false → not_gt (compare_priority b a) ≡ true
unfolding compare_priority
priority_total a b h = ground (arith, h, flip-compare a.id b.id)

priority_trans :
    (a b c : Info)
    → not_gt (compare_priority a b) ≡ true
    → not_gt (compare_priority b c) ≡ true
    → not_gt (compare_priority a c) ≡ true
unfolding compare_priority
priority_trans a b c h k = ground (arith, h, k, compare_trans a.id b.id c.id)

comes_before_trans :
    (dc : String) (a b c : Info)
    → comes_before dc a b ≡ true
    → comes_before dc b c ≡ true
    → comes_before dc a c ≡ true
comes_before_trans dc a b c h k = ground (arith, h, k, priority_trans a b c)

comes_before_total :
    (dc : String) (a b : Info) → comes_before dc a b ≡ false → comes_before dc b a ≡ true
comes_before_total dc a b h = ground (arith, h, priority_total a b)

abbrev pub IsSorted : String → List Info → Type 0
IsSorted dc [] = Unit {0}
IsSorted dc (p ∷ ps) = All (λ q. comes_before dc p q ≡ true) ps × IsSorted dc ps

insert_sorted-All :
    (P : Info → Type 0) (dc : String) (p : Info) (qs : List Info)
    → P p
    → All P qs
    → All P (insert_sorted dc p qs)
unfolding insert_sorted
insert_sorted-All P dc p [] h hs = (h, tt)
insert_sorted-All P dc p (q ∷ qs) h (k, ks) =
    elim (Bool-cases (not_gt (compare_localities dc p q))) [
      | inl e ↦ rw e (h, (k, ks))
      | inr e ↦ rw e (k, insert_sorted-All P dc p qs h ks)
    ]

pub sort_localities-All :
    (P : Info → Type 0) (dc : String) (ps : List Info) → All P ps → All P (sort_localities dc ps)
unfolding sort_localities
sort_localities-All P dc [] h = tt
sort_localities-All P dc (p ∷ ps) (h, hs) =
    insert_sorted-All P dc p (sort_localities dc ps) h (sort_localities-All P dc ps hs)

insert_sorted-IsSorted :
    (dc : String) (p : Info) (qs : List Info) → IsSorted dc qs → IsSorted dc (insert_sorted dc p qs)
unfolding insert_sorted
insert_sorted-IsSorted dc p [] h = (tt, tt)
insert_sorted-IsSorted dc p (q ∷ qs) (h, hs) =
    elim (Bool-cases (not_gt (compare_localities dc p q))) [
      | inl e ↦
          let first : comes_before dc p q ≡ true = sym (not_gt-compare_localities dc p q) ∙ e in
          rw e ((first, All-map (λ r h. comes_before_trans dc p q r first h) qs h), (h, hs))
      | inr e ↦
          let first : comes_before dc q p ≡ true =
            comes_before_total dc p q (sym (not_gt-compare_localities dc p q) ∙ e) in
          rw e (
            insert_sorted-All (λ r. comes_before dc q r ≡ true) dc p qs first h,
            insert_sorted-IsSorted dc p qs hs,
          )
    ]

pub sort_localities-IsSorted : (dc : String) (ps : List Info) → IsSorted dc (sort_localities dc ps)
unfolding sort_localities
sort_localities-IsSorted dc [] = tt
sort_localities-IsSorted dc (p ∷ ps) =
    insert_sorted-IsSorted dc p (sort_localities dc ps) (sort_localities-IsSorted dc ps)

insert_sorted-count_if :
    (t : Info → Bool) (dc : String) (p : Info) (qs : List Info)
    → count_if t (insert_sorted dc p qs) ≡ count_if t (p ∷ qs)
unfolding insert_sorted
insert_sorted-count_if t dc p [] = refl
insert_sorted-count_if t dc p (q ∷ qs) = ground (arith, insert_sorted-count_if t dc p qs)

pub sort_localities-count_if :
    (t : Info → Bool) (dc : String) (ps : List Info)
    → count_if t (sort_localities dc ps) ≡ count_if t ps
unfolding sort_localities
sort_localities-count_if t dc [] = refl
sort_localities-count_if t dc (p ∷ ps) =
    ground (
      arith,
      sort_localities-count_if t dc ps,
      insert_sorted-count_if t dc p (sort_localities dc ps),
    )

-- Sorting puts the processes in the order that is meant, and loses and makes up none: for every test, as many
-- processes pass it as before.
pub sort_localities_lem :
    (dc : String) (ps : List Info)
    → IsSorted dc (sort_localities dc ps)
      × ((t : Info → Bool) → count_if t (sort_localities dc ps) ≡ count_if t ps)
sort_localities_lem dc ps = (sort_localities-IsSorted dc ps, λ t. sort_localities-count_if t dc ps)
