-- ===== src/Database/Change/Counts.antt =====
-- GetNextConfigurationChange of api/v1beta2/foundationdb_database_configuration.go: what one change leaves
-- alone.
use fdb_kubernetes_operator.Common.{
  ◌-◌, ◌≡◌, ◌⊎◌, inl, inr, refl, String, false, not, ◌&&◌, some, List, [], ◌∷◌, map, ◌==◌, nat_eq,
  string_eq, length, arith, Bool-cases, Option-cases, subst,
}
use fdb_kubernetes_operator.Common.Int.{pos, ◌-ℤ◌, ltb_ℤ, leb_ℤ, int_eq}
use fdb_kubernetes_operator.Database.{Region}
use fdb_kubernetes_operator.Database.Configuration.{Configuration}
use fdb_kubernetes_operator.Database.Change.Equal.{
  Priorities, regions_equal, priorities_equal, priority_of,
}
use fdb_kubernetes_operator.Database.Change.{
  get_next_configuration_change, change_regions, remove_negative, remove_other, set_priorities,
  remove_region, demote_region, region_priorities, update_satellites, add_regions, current_regions,
  step_priorities, to_remove, MapOrder,
}

-- Nothing but the regions and the number of usable regions differs, and not both that number and the number
-- of regions.
abbrev pub IsMarginal : Configuration → Configuration → Type 0
IsMarginal c next =
    (next ≡ record c { regions = next.regions; usable_regions = next.usable_regions })
    × ((next.usable_regions ≡ c.usable_regions) ⊎ (length next.regions ≡ length c.regions))

module _ (c : Configuration) (regions : List Region) where
  abbrev result : Configuration
  result = record c { regions = regions }

  remove_region-IsMarginal :
      (id : String) → length regions ≡ length c.regions → IsMarginal c (remove_region result id)
  unfolding remove_region
  remove_region-IsMarginal id h =
      elim (Bool-cases (c.usable_regions == pos (length regions) -ℤ pos 1)) [
        | inl e ↦ rw e (refl, inl refl)
        | inr e ↦ rw e (refl, inr h)
      ]

  remove_negative-IsMarginal :
      (final next : Configuration) (current final_priorities : Priorities) (ids : List String)
      → length regions ≡ length c.regions
      → remove_negative c final current final_priorities result ids ≡ some next
      → IsMarginal c next
  unfolding remove_negative
  remove_negative-IsMarginal final next current final_priorities [] h e = absurd (ground (arith, e))
  remove_negative-IsMarginal final next current final_priorities (id ∷ ids) h e =
      elim (Bool-cases
        (to_remove c final final_priorities id && ltb_ℤ (priority_of id current) (pos 0))) [
          | inl t ↦
              let same : remove_region result id ≡ next = ground (arith, e, t) in
              subst (IsMarginal c) same (remove_region-IsMarginal id h)
          | inr t ↦
              remove_negative-IsMarginal final next current final_priorities ids h
                (ground (arith, e, t))
        ]

  demote_region-IsMarginal :
      (id : String) → length regions ≡ length c.regions → IsMarginal c (demote_region result id)
  unfolding demote_region
  demote_region-IsMarginal id h = (refl, inl refl)

  remove_other-IsMarginal :
      (final next : Configuration) (current final_priorities : Priorities) (ids : List String)
      → length regions ≡ length c.regions
      → remove_other c final current final_priorities result ids ≡ some next
      → IsMarginal c next
  unfolding remove_other
  remove_other-IsMarginal final next current final_priorities [] h e = absurd (ground (arith, e))
  remove_other-IsMarginal final next current final_priorities (id ∷ ids) h e =
      let priority = priority_of id current in
      elim (Bool-cases (
        to_remove c final final_priorities id
        && not (ltb_ℤ (pos 0) priority && ltb_ℤ c.usable_regions (pos 2)))) [
          | inr t ↦
              remove_other-IsMarginal final next current final_priorities ids h
                (ground (arith, e, t))
          | inl t ↦ elim (Bool-cases (leb_ℤ (pos 0) priority)) [
            | inl p ↦
                let same : demote_region result id ≡ next = ground (arith, e, t, p) in
                subst (IsMarginal c) same (demote_region-IsMarginal id h)
            | inr p ↦
                let same : remove_region result id ≡ next = ground (arith, e, t, p) in
                subst (IsMarginal c) same (remove_region-IsMarginal id h)
          ]
        ]

  set_priorities-IsMarginal :
      (order : MapOrder) (final : Configuration) (current next : Priorities)
      → length regions ≡ length c.regions
      → IsMarginal c (set_priorities order c final current next result)
  unfolding set_priorities
  set_priorities-IsMarginal order final current next h =
      let p = step_priorities order current next in
      elim (Bool-cases (priorities_equal p.0 p.1)) [
        | inl e ↦ elim (Bool-cases (c.usable_regions == final.usable_regions)) [
          | inl f ↦ rw (e, f) (refl, inl refl)
          | inr f ↦ rw (e, f) (refl, inr h)
        ]
        | inr e ↦ elim (Bool-cases (c.usable_regions == pos (length c.regions))) [
          | inl f ↦ rw (e, f) (refl, inl refl)
          | inr f ↦ rw (e, f) (refl, inr h)
        ]
      ]

  change_regions-IsMarginal :
      (order : MapOrder) (final : Configuration) (current final_priorities : Priorities)
      → IsMarginal c (change_regions order c final current final_priorities result)
  unfolding change_regions
  change_regions-IsMarginal order final current final_priorities =
      let ids = current_regions c.regions in
      elim (Bool-cases (length regions == length c.regions)) [
        | inr e ↦ rw e (refl, inl refl)
        | inl e ↦
            let h : length regions ≡ length c.regions = ground (arith, e) in
            elim (Option-cases (remove_negative c final current final_priorities result ids)) [
              | inr (next, r) ↦
                  rw (e, r) (remove_negative-IsMarginal final next current final_priorities ids h r)
              | inl r ↦
                  elim (Option-cases (remove_other c final current final_priorities result ids)) [
                    | inr (next, s) ↦
                        rw (e, r, s)
                          (remove_other-IsMarginal final next current final_priorities ids h s)
                    | inl s ↦
                        rw (e, r, s)
                          (set_priorities-IsMarginal order final current final_priorities h)
                  ]
            ]
      ]

-- As long as the regions are not the final ones, a change leaves all but the regions and the number of usable
-- regions alone, and it does not change that number and the number of regions at once.
pub get_next_configuration_change-IsMarginal :
    (order : MapOrder) (c final : Configuration)
    → regions_equal c.regions final.regions ≡ false
    → IsMarginal c (get_next_configuration_change order c final)
unfolding get_next_configuration_change
get_next_configuration_change-IsMarginal order c final h =
    let updated = map (update_satellites final.regions) c.regions in
    let added =
      add_regions order (2 - length updated) final.regions (region_priorities [] final.regions)
        (updated, region_priorities [] c.regions) in
    rw h
      (change_regions-IsMarginal c added.0 order final added.1 (region_priorities [] final.regions))
