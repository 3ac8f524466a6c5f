-- ===== src/Database/Change/Removal.antt =====
-- GetNextConfigurationChange of api/v1beta2/foundationdb_database_configuration.go: when a change takes a main
-- data center away.
use fdb_kubernetes_operator.Common.{
  ℕ, ◌-◌, ◌<◌, ◌≡◌, ◌⊎◌, inl, inr, refl, sym, ap, ◌∙◌, subst, String, true, false, not, ◌&&◌, some,
  List, [], ◌∷◌, ◌++◌, map, if◌then◌else◌, ◌==◌, nat_eq, string_eq, length, any, any-append,
  length-append, All, arith, Bool-cases, Option-cases, lookup, is_some,
}
use fdb_kubernetes_operator.Common.Int.{pos, negsuc, ◌-ℤ◌, ◌<ℤ◌, ltb_ℤ, leb_ℤ, int_eq}
use fdb_kubernetes_operator.Database.{DataCenter, Region}
use fdb_kubernetes_operator.Database.Configuration.{Configuration}
use fdb_kubernetes_operator.Database.Change.Equal.{
  Priorities, regions_equal, priorities_equal, priority_of,
}
use fdb_kubernetes_operator.Database.Change.{
  get_next_configuration_change, change_regions, remove_negative, remove_other, set_priorities,
  remove_region, demote_region, region_priorities, update_satellites, add_regions, current_regions,
  without_region, step_priorities, demote, promote, promote_first, assign, assign_first, to_remove,
  MapOrder, is_main_with, is_alternative,
}
use fdb_kubernetes_operator.Database.Change.Steps.{
  in_region, has_main, HasOneMain, satellites-keeps, satellites-HasOneMain, add_regions-cases,
  without_region-keeps,
}

-- A function on regions that keeps their main data centers keeps those of a list of regions.
has_main-map :
    (k : String) (f : Region → Region) (rs : List Region)
    → ((r : Region) → in_region k (f r) ≡ in_region k r)
    → has_main k (map f rs) ≡ has_main k rs
has_main-map k f [] h = refl
has_main-map k f (r ∷ rs) h = ground (arith, h r, has_main-map k f rs h)

demote_data_centers_lem :
    (k id : String) (dcs : List DataCenter)
    → any
        (is_main_with k)
        (map (λ dc. if is_main_with id dc then record dc { priority = negsuc 0 } else dc) dcs)
      ≡ any (is_main_with k) dcs
demote_data_centers_lem k id [] = refl
demote_data_centers_lem k id (dc ∷ dcs) = ground (arith, demote_data_centers_lem k id dcs)

promote_first_lem :
    (k id : String) (dcs : List DataCenter)
    → any (is_main_with k) (promote_first id dcs) ≡ any (is_main_with k) dcs
unfolding promote_first
promote_first_lem k id [] = refl
promote_first_lem k id (dc ∷ dcs) = ground (arith, promote_first_lem k id dcs)

assign_first_lem :
    (k : String) (next : Priorities) (dcs : List DataCenter)
    → any (is_main_with k) (assign_first next dcs) ≡ any (is_main_with k) dcs
unfolding assign_first
assign_first_lem k next [] = refl
assign_first_lem k next (dc ∷ dcs) = ground (arith, assign_first_lem k next dcs)

-- A main data center may be removed: it is not in the final configuration, there are several regions, its
-- priority is negative, and the number of usable regions does not count its region any more.
abbrev pub IsRemovable : Configuration → Configuration → String → Type 0
IsRemovable c final k =
    (is_some (lookup k (region_priorities [] final.regions)) ≡ false)
    × (1 < length c.regions)
    × (priority_of k (region_priorities [] c.regions) <ℤ pos 0)
    × (c.usable_regions ≡ pos (length c.regions) -ℤ pos 1)

-- What becomes of a main data center: it is kept, or it may be removed, or the regions are the final ones.
abbrev pub IsKept : Configuration → Configuration → String → Configuration → Type 0
IsKept c final k next =
    (has_main k next.regions ≡ true) ⊎ IsRemovable c final k ⊎ (next.regions ≡ final.regions)

module _ (c final : Configuration) (k : String) (regions : List Region)
    (one : All HasOneMain regions) (kept : has_main k regions ≡ true)
    (same_length : length regions ≡ length c.regions) where
  abbrev result : Configuration
  result = record c { regions = regions }

  abbrev current_priorities : Priorities
  current_priorities = region_priorities [] c.regions

  abbrev final_priorities : Priorities
  final_priorities = region_priorities [] final.regions

  remove_region-IsKept :
      (id : String)
      → to_remove c final final_priorities id ≡ true
      → ltb_ℤ (priority_of id current_priorities) (pos 0) ≡ true
      → IsKept c final k (remove_region result id)
  unfolding remove_region
  remove_region-IsKept id t n =
      elim (Bool-cases (c.usable_regions == pos (length regions) -ℤ pos 1)) [
        | inr e ↦ rw (e, remove_region) (inl kept)
        | inl e ↦ elim (Bool-cases (has_main k (without_region id regions))) [
          | inl f ↦ rw (e, remove_region) (inl f)
          | inr f ↦
              let is : id ≡ k = without_region-keeps id k regions one kept f in
              inr (
                inl (
                  subst (λ j. IsRemovable c final j) is
                    (
                      ground (arith, t),
                      ground (arith, t),
                      ground (arith, n),
                      ground (arith, e, same_length),
                    )))
        ]
      ]

  remove_negative-IsKept :
      (next : Configuration) (ids : List String)
      → remove_negative c final current_priorities final_priorities result ids ≡ some next
      → IsKept c final k next
  unfolding remove_negative
  remove_negative-IsKept next [] e = absurd (ground (arith, e))
  remove_negative-IsKept next (id ∷ ids) e =
      elim (Bool-cases (
        to_remove c final final_priorities id
        && ltb_ℤ (priority_of id current_priorities) (pos 0))) [
          | inl t ↦
              let same : remove_region result id ≡ next = ground (arith, e, t) in
              subst (IsKept c final k) same
                (remove_region-IsKept id (ground (arith, t)) (ground (arith, t)))
          | inr t ↦ remove_negative-IsKept next ids (ground (arith, e, t))
        ]

  demote_region-IsKept : (id : String) → IsKept c final k (demote_region result id)
  unfolding demote_region
  demote_region-IsKept id =
      let demoted =
        has_main-map k (demote id) regions (λ r. demote_data_centers_lem k id r.data_centers) in
      let promoted =
        has_main-map k (promote id) (map (demote id) regions)
          (λ r. promote_first_lem k id r.data_centers) in
      elim (Bool-cases (any (λ r. any (is_alternative id) r.data_centers) regions)) [
        | inl e ↦ rw e (inl (demoted ∙ kept))
        | inr e ↦ rw e (inl (promoted ∙ demoted ∙ kept))
      ]

  remove_other-IsKept :
      (next : Configuration) (ids : List String)
      → remove_other c final current_priorities final_priorities result ids ≡ some next
      → IsKept c final k next
  unfolding remove_other
  remove_other-IsKept next [] e = absurd (ground (arith, e))
  remove_other-IsKept next (id ∷ ids) e =
      let priority = priority_of id current_priorities in
      elim (Bool-cases (
        to_remove c final final_priorities id
        && not (ltb_ℤ (pos 0) priority && ltb_ℤ c.usable_regions (pos 2)))) [
          | inr t ↦ remove_other-IsKept next ids (ground (arith, e, t))
          | inl t ↦ elim (Bool-cases (leb_ℤ (pos 0) priority)) [
            | inl p ↦
                let same : demote_region result id ≡ next = ground (arith, e, t, p) in
                subst (IsKept c final k) same (demote_region-IsKept id)
            | inr p ↦
                let same : remove_region result id ≡ next = ground (arith, e, t, p) in
                subst (IsKept c final k) same
                  (remove_region-IsKept id (ground (arith, t)) (ground (arith, p)))
          ]
        ]

  set_priorities-IsKept :
      (order : MapOrder)
      → IsKept c final k (set_priorities order c final current_priorities final_priorities result)
  unfolding set_priorities
  set_priorities-IsKept order =
      let p = step_priorities order current_priorities final_priorities in
      let assigned =
        has_main-map k (assign p.1) regions (λ r. assign_first_lem k p.1 r.data_centers) in
      elim (Bool-cases (priorities_equal p.0 p.1)) [
        | inl e ↦ elim (Bool-cases (c.usable_regions == final.usable_regions)) [
          | inl f ↦ rw (e, f) (inr (inr refl))
          | inr f ↦ rw (e, f) (inl kept)
        ]
        | inr e ↦ elim (Bool-cases (c.usable_regions == pos (length c.regions))) [
          | inl f ↦ rw (e, f) (inl (assigned ∙ kept))
          | inr f ↦ rw (e, f) (inl kept)
        ]
      ]

  change_regions-IsKept :
      (order : MapOrder)
      → IsKept c final k (change_regions order c final current_priorities final_priorities result)
  unfolding change_regions
  change_regions-IsKept order =
      let ids = current_regions c.regions in
      let same : (length regions == length c.regions) ≡ true = ground (arith, same_length) in
      elim (Option-cases (remove_negative c final current_priorities final_priorities result ids)) [
        | inr (next, r) ↦ rw (same, r) (remove_negative-IsKept next ids r)
        | inl r ↦
            elim (Option-cases
              (remove_other c final current_priorities final_priorities result ids)) [
                | inr (next, s) ↦ rw (same, r, s) (remove_other-IsKept next ids s)
                | inl s ↦ rw (same, r, s) (set_priorities-IsKept order)
              ]
      ]

length-map : (f : Region → Region) (rs : List Region) → length (map f rs) ≡ length rs
length-map f [] = refl
length-map f (r ∷ rs) = omega (arith, length-map f rs)

change_regions_longer :
    (order : MapOrder) (c final : Configuration) (current next : Priorities) (regions : List Region)
    → (length regions == length c.regions) ≡ false
    → change_regions order c final current next (record c { regions = regions })
      ≡ record c { regions = regions }
unfolding change_regions
change_regions_longer order c final current next regions h = rw h refl

-- What the steps after 1 and 2 keep, for the regions and priorities that these leave.
module _ (order : MapOrder) (c final : Configuration) (k : String) (one : All HasOneMain c.regions)
    (one_final : All HasOneMain final.regions) (has : has_main k c.regions ≡ true) where
  abbrev updated : List Region
  updated = map (update_satellites final.regions) c.regions

  abbrev changed : List Region × Priorities → Configuration
  changed s =
      change_regions order c final s.1 (region_priorities [] final.regions)
        (record c { regions = s.0 })

  updated_keeps : has_main k updated ≡ true
  updated_keeps = satellites-keeps final.regions k c.regions one_final one has

  unchanged-IsKept : IsKept c final k (changed (updated, region_priorities [] c.regions))
  unchanged-IsKept =
      change_regions-IsKept c final k updated
        (satellites-HasOneMain final.regions c.regions one_final one) updated_keeps
        (length-map (update_satellites final.regions) c.regions) order

  longer-IsKept :
      (s : List Region × Priorities) (more : List Region)
      → s.0 ≡ updated ++ more
      → 0 < length more
      → IsKept c final k (changed s)
  longer-IsKept s more e l =
      let longer : (length s.0 == length c.regions) ≡ false = ground (
        arith,
        l,
        ap (λ (rs : List Region). length rs) e,
        length-append updated more,
        length-map (update_satellites final.regions) c.regions,
      ) in
      rw (change_regions_longer order c final s.1 (region_priorities [] final.regions) s.0 longer) (
        inl (
          ap (has_main k) e ∙ ground (arith, updated_keeps, any-append (in_region k) updated more)))

  added-IsKept :
      (n : ℕ)
      → IsKept c final k (
          changed (
            add_regions order n final.regions
              (region_priorities [] final.regions)
              (updated, region_priorities [] c.regions)))
  added-IsKept n =
      let next = region_priorities [] final.regions in
      let start : List Region × Priorities = (updated, region_priorities [] c.regions) in
      elim (add_regions-cases order n final.regions next start) [
        | inl e ↦ subst (λ s. IsKept c final k (changed s)) (sym e) unchanged-IsKept
        | inr (more, e, l) ↦ longer-IsKept (add_regions order n final.regions next start) more e l
      ]

-- A change takes a main data center away only if the final configuration does not have it, there are several
-- regions, its priority is negative already, and the number of usable regions is already one less than the
-- number of regions; or if it puts the final regions in place at the end. This holds where each region has at
-- most one main data center, in the present configuration and in the final one.
pub get_next_configuration_change-IsKept :
    (order : MapOrder) (c final : Configuration) (k : String)
    → All HasOneMain c.regions
    → All HasOneMain final.regions
    → has_main k c.regions ≡ true
    → IsKept c final k (get_next_configuration_change order c final)
unfolding get_next_configuration_change
get_next_configuration_change-IsKept order c final k one one_final has =
    elim (Bool-cases (regions_equal c.regions final.regions)) [
      | inl e ↦ rw e (inr (inr refl))
      | inr e ↦ rw e (
          added-IsKept order c final k one one_final has
            (2 - length (map (update_satellites final.regions) c.regions)))
    ]
