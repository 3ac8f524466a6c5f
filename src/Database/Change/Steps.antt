-- ===== src/Database/Change/Steps.antt =====
-- GetNextConfigurationChange of api/v1beta2/foundationdb_database_configuration.go: which data centers a
-- change keeps.
use fdb_kubernetes_operator.Common.{
  ℕ, zero, suc, ◌<◌, ◌≤◌, ◌≡◌, ◌⊎◌, inl, inr, refl, sym, ap, ◌∙◌, subst, String, Bool, true, false,
  some, List, [], ◌∷◌, ◌++◌, map, if◌then◌else◌, ◌==◌, nat_eq, string_eq, length, count_if, any,
  All, arith, eq_iff, Bool-cases, Option-cases, insert, is_empty, append_assoc,
}
use fdb_kubernetes_operator.Common.Int.{ℤ, pos, negsuc, int_eq}
use fdb_kubernetes_operator.Database.{DataCenter, Region}
use fdb_kubernetes_operator.Database.DataCenters.{is_main}
use fdb_kubernetes_operator.Database.Change.Equal.{Priorities}
use fdb_kubernetes_operator.Database.Change.{
  update_satellites, add_regions, is_main_with, without_region, set_priority, get_region,
  first_main, region_to_add, MapOrder,
}

abbrev pub in_region : String → Region → Bool
in_region k r = any (is_main_with k) r.data_centers

-- The data center is a main one in some region.
abbrev pub has_main : String → List Region → Bool
has_main k regions = any (in_region k) regions

abbrev pub count_mains : List DataCenter → ℕ
count_mains dcs = count_if is_main dcs

-- A region has at most one main data center.
abbrev pub HasOneMain : Region → Type 0
HasOneMain r = count_mains r.data_centers ≤ 1

no_mains :
    (k : String) (dcs : List DataCenter) → count_mains dcs ≡ 0 → any (is_main_with k) dcs ≡ false
no_mains k [] h = refl
no_mains k (dc ∷ dcs) h = ground (arith, h, no_mains k dcs)

one_main :
    (j k : String) (dcs : List DataCenter)
    → count_mains dcs ≤ 1
    → any (is_main_with j) dcs ≡ true
    → any (is_main_with k) dcs ≡ true
    → j ≡ k
one_main j k [] h a b = absurd (ground (arith, a))
one_main j k (dc ∷ dcs) h a b = ground (
  arith,
  h,
  a,
  b,
  eq_iff dc.id j,
  eq_iff dc.id k,
  no_mains j dcs,
  no_mains k dcs,
  one_main j k dcs,
)

set_priority-keeps :
    (k id : String) (n : ℤ) (dcs new : List DataCenter)
    → set_priority id n dcs ≡ some new
    → (any (is_main_with k) new ≡ any (is_main_with k) dcs)
      × (count_mains new ≡ count_mains dcs)
      × (any (is_main_with id) dcs ≡ true)
unfolding set_priority
set_priority-keeps k id n [] new h = absurd (ground (arith, h))
set_priority-keeps k id n (dc ∷ dcs) new h = elim (Bool-cases (is_main_with id dc)) [
  | inl e ↦
      let same : record dc { priority = n } ∷ dcs ≡ new = ground (arith, h, e) in
      rw (sym same) (refl, refl, ground (arith, e))
  | inr e ↦ elim (Option-cases (set_priority id n dcs)) [
    | inl o ↦ absurd (ground (arith, h, e, o))
    | inr (rest, o) ↦
        let same : dc ∷ rest ≡ new = ground (arith, h, e, o) in
        let (a, b, c) = set_priority-keeps k id n dcs rest o in
        rw (sym same) (ground (arith, a), ground (arith, b), ground (arith, c))
  ]
]

get_region_lem :
    (final : List Region) (id : String) (n : ℤ)
    → All HasOneMain final
    → (in_region id (get_region final id n) ≡ true) × HasOneMain (get_region final id n)
unfolding get_region
get_region_lem [] id n h = (ground (arith, eq_iff id id), omega arith)
get_region_lem (r ∷ rs) id n (o, h) = elim (Option-cases (set_priority id n r.data_centers)) [
  | inl e ↦ rw (e, get_region) (get_region_lem rs id n h)
  | inr (dcs, e) ↦
      let (a, b, c) = set_priority-keeps id id n r.data_centers dcs e in
      rw (e, get_region) (a ∙ c, omega (arith, b, o))
]

first_main_lem :
    (k : String) (dcs : List DataCenter)
    → count_mains dcs ≤ 1
    → any (is_main_with k) dcs ≡ true
    → (dc : DataCenter) × (first_main dcs ≡ some dc) × (dc.id ≡ k)
unfolding first_main
first_main_lem k [] h a = absurd (ground (arith, a))
first_main_lem k (dc ∷ dcs) h a = elim (Bool-cases (is_main dc)) [
  | inl e ↦ rw e (dc, refl, ground (arith, h, a, e, eq_iff dc.id k, no_mains k dcs))
  | inr e ↦ rw e (first_main_lem k dcs (ground (arith, h, e)) (ground (arith, a, e)))
]

update_satellites-some :
    (final : List Region) (r : Region) (dc : DataCenter)
    → first_main r.data_centers ≡ some dc
    → update_satellites final r ≡ get_region final dc.id dc.priority
unfolding update_satellites
update_satellites-some final r dc e = rw (e, update_satellites) refl

update_satellites-keeps :
    (final : List Region) (k : String) (r : Region)
    → All HasOneMain final
    → HasOneMain r
    → in_region k r ≡ true
    → in_region k (update_satellites final r) ≡ true
update_satellites-keeps final k r h o a =
    let (dc, e, same) = first_main_lem k r.data_centers o a in
    rw (update_satellites-some final r dc e) (
      subst (λ id. in_region id (get_region final dc.id dc.priority) ≡ true) same
        (get_region_lem final dc.id dc.priority h).0)

update_satellites-HasOneMain :
    (final : List Region) (r : Region)
    → All HasOneMain final
    → HasOneMain r
    → HasOneMain (update_satellites final r)
unfolding update_satellites
update_satellites-HasOneMain final r h o = elim (Option-cases (first_main r.data_centers)) [
  | inl e ↦ rw (e, update_satellites) o
  | inr (dc, e) ↦
      rw (update_satellites-some final r dc e) (get_region_lem final dc.id dc.priority h).1
]

-- Step 1 keeps the main data centers.
pub satellites-keeps :
    (final : List Region) (k : String) (rs : List Region)
    → All HasOneMain final
    → All HasOneMain rs
    → has_main k rs ≡ true
    → has_main k (map (update_satellites final) rs) ≡ true
satellites-keeps final k [] h o a = a
satellites-keeps final k (r ∷ rs) h (o, os) a =
    ground (arith, a, update_satellites-keeps final k r h o, satellites-keeps final k rs h os)

pub satellites-HasOneMain :
    (final : List Region) (rs : List Region)
    → All HasOneMain final
    → All HasOneMain rs
    → All HasOneMain (map (update_satellites final) rs)
satellites-HasOneMain final [] h o = tt
satellites-HasOneMain final (r ∷ rs) h (o, os) =
    (update_satellites-HasOneMain final r h o, satellites-HasOneMain final rs h os)

-- Step 2 adds regions at the end, or changes nothing.
pub add_regions-cases :
    (order : MapOrder) (n : ℕ) (final : List Region) (next : Priorities)
    (s : List Region × Priorities)
    → (add_regions order n final next s ≡ s)
      ⊎ ((more : List Region) × ((add_regions order n final next s).0 ≡ s.0 ++ more)
          × (0 < length more))
unfolding add_regions
add_regions-cases order zero final next s = inl refl
add_regions-cases order (suc n) final next (regions, current) =
    let id = region_to_add current next "" (order next) in
    let added : List Region × Priorities = (
      regions ++ get_region final id (if is_empty regions then pos 1 else negsuc 0) ∷ [],
      insert id (if is_empty regions then pos 1 else negsuc 0) current,
    ) in
    elim (Bool-cases (id == "")) [
      | inl e ↦ inl (rw e refl)
      | inr e ↦ inr (elim (add_regions-cases order n final next added) [
        | inl same ↦ (
          get_region final id (if is_empty regions then pos 1 else negsuc 0) ∷ [],
          rw e (ap (λ (t : List Region × Priorities). t.0) same),
          omega arith,
        )
        | inr (more, same, l) ↦ (
          get_region final id (if is_empty regions then pos 1 else negsuc 0) ∷ more,
          rw e (
              same
              ∙ append_assoc regions
                  (get_region final id (if is_empty regions then pos 1 else negsuc 0) ∷ []) more),
          omega arith,
        )
      ])
    ]

-- The removal of a region loses no main data center but that of the region.
pub without_region-keeps :
    (id k : String) (rs : List Region)
    → All HasOneMain rs
    → has_main k rs ≡ true
    → has_main k (without_region id rs) ≡ false
    → id ≡ k
unfolding without_region
without_region-keeps id k [] o a b = absurd (ground (arith, a))
without_region-keeps id k (r ∷ rs) (o, os) a b = elim (Bool-cases (in_region id r)) [
  | inl e ↦ elim (Bool-cases (in_region k r)) [
    | inl f ↦ one_main id k r.data_centers o e f
    | inr f ↦ without_region-keeps id k rs os (ground (arith, a, f)) (ground (arith, b, e))
  ]
  | inr e ↦ without_region-keeps id k rs os (ground (arith, a, b, e)) (ground (arith, b, e))
]
