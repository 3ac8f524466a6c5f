-- ===== src/Removal/Zones/Choice.antt =====
-- What GetProcessGroupsToRemove and RemovalAllowed of internal/removals/remove.go choose.
use fdb_kubernetes_operator.Common.{
  ◌≤◌, ◌<◌, ◌^◌, ◌≡◌, ◌⊎◌, inl, inr, refl, Bool, true, false, not, some, List, [], ◌∷◌,
  if◌then◌else◌, ◌==◌, string_eq, length, contains, NoDuplicates, lookup, deref, eq_iff, eq_refl,
  arith, Bool-cases, Option-cases, ◌∙◌, ap,
}
use fdb_kubernetes_operator.Common.Int.{
  min_int, ℤ, pos, pos_part, neg_part, ltb_ℤ, ◌≤ℤ◌, ◌-ℤ◌, ◌+ℤ◌, -ℤ_parts, +ℤ_parts, eq_of_parts,
}
use fdb_kubernetes_operator.ProcessGroup.{ProcessGroupStatus, FaultDomain}
use fdb_kubernetes_operator.Removal.Zones.{
  ZoneMap, IsZoned, get_process_groups_to_remove, first_removal, pick_zone, prefer,
  terminating_zone, in_zone, zone_of, removal_time, keys, contains-keys-lookup,
}

-- `RemovalAllowed`: the seconds to wait, and whether the removal is allowed.
unfoldable pub removal_allowed : ℤ → ℤ → ℤ → ℤ × Bool
removal_allowed last_deletion current_timestamp wait_time =
    let ts = current_timestamp -ℤ wait_time in
    if ltb_ℤ ts last_deletion then (last_deletion -ℤ ts, false) else (pos 0, true)

first_removal-length :
    (m : ZoneMap) (r : FaultDomain × List ProcessGroupStatus)
    → first_removal m ≡ some r
    → length r.1 ≡ 1
unfolding first_removal
first_removal-length [] r e = ground arith
first_removal-length ((z, []) ∷ m) r e = first_removal-length m r e
first_removal-length ((z, g ∷ gs) ∷ m) r e = ground arith

-- What the loop over the zones keeps: its result is at least what it started with, and no zone but the
-- terminating one is larger.
pick_zone-grows : (best : FaultDomain × ℤ) (m : ZoneMap) → best.1 ≤ℤ (pick_zone best m).1
unfolding pick_zone prefer
pick_zone-grows best [] = omega arith
pick_zone-grows best ((z, gs) ∷ m) =
    ground (arith, pick_zone-grows best m, pick_zone-grows (z, pos (length gs)) m)

pick_zone-largest :
    (best : FaultDomain × ℤ) (m : ZoneMap) (z : FaultDomain) (gs : List ProcessGroupStatus)
    → (z == terminating_zone) ≡ false
    → lookup z m ≡ some gs
    → pos (length gs) ≤ℤ (pick_zone best m).1
unfolding pick_zone prefer
pick_zone-largest best [] z gs n e = ground arith
pick_zone-largest best ((k, hs) ∷ m) z gs n e = elim (Bool-cases (k == z)) [
  | inl s ↦
      ground (arith, eq_iff k z, pick_zone-grows best m, pick_zone-grows (k, pos (length hs)) m)
  | inr s ↦
      ground
        (arith, pick_zone-largest best m z gs n, pick_zone-largest (k, pos (length hs)) m z gs n)
]

-- A zone of the map, other than the terminating one, with its size.
abbrev FromMap : FaultDomain × ℤ → ZoneMap → Type 0
FromMap r m =
    (gs : List ProcessGroupStatus) × (lookup r.0 m ≡ some gs)
    × (r.1 ≡ pos (length gs))
    × ((r.0 == terminating_zone) ≡ false)

FromMap-cons :
    (r : FaultDomain × ℤ) (k : FaultDomain) (hs : List ProcessGroupStatus) (m : ZoneMap)
    → contains (keys m) k ≡ false
    → FromMap r m
    → FromMap r ((k, hs) ∷ m)
FromMap-cons r k hs m a (gs, l, n, t) =
    (gs, ground (arith, eq_iff k r.0, contains-keys-lookup k m), n, t)

FromMap-head :
    (r : FaultDomain × ℤ) (k : FaultDomain) (hs : List ProcessGroupStatus) (m : ZoneMap)
    → (k == terminating_zone) ≡ false
    → r ≡ (k, pos (length hs))
    → FromMap r ((k, hs) ∷ m)
FromMap-head r k hs m t e = (hs, ground (arith, eq_refl k), ap (λ x. x.1) e, ground arith)

prefer-cases :
    (best : FaultDomain × ℤ) (k : FaultDomain) (hs : List ProcessGroupStatus)
    → (prefer best (k, hs) ≡ best)
      ⊎ ((prefer best (k, hs) ≡ (k, pos (length hs))) × ((k == terminating_zone) ≡ false))
unfolding prefer
prefer-cases best k hs = ground arith

-- The zone of the result is the first one, or one of the map.
pick_zone-source :
    (best : FaultDomain × ℤ) (m : ZoneMap)
    → NoDuplicates (keys m)
    → (pick_zone best m ≡ best) ⊎ FromMap (pick_zone best m) m
unfolding pick_zone
pick_zone-source best [] d = inl refl
pick_zone-source best ((k, hs) ∷ m) (a, d) =
    let next = pick_zone (prefer best (k, hs)) m in
    elim (pick_zone-source (prefer best (k, hs)) m d) [
      | inl e ↦ elim (prefer-cases best k hs) [
        | inl p ↦ inl (e ∙ p)
        | inr (p, t) ↦ inr (FromMap-head next k hs m t (e ∙ p))
      ]
      | inr f ↦ inr (FromMap-cons next k hs m a f)
    ]

-- The zone of the loop's result is as large as each other zone.
picked-length :
    (gs : List ProcessGroupStatus) (m : ZoneMap)
    → IsZoned gs m
    → let picked = (pick_zone ("", min_int) m).0 in
      (z : FaultDomain)
      → (z == terminating_zone) ≡ false
      → length (in_zone z gs) ≤ length (deref (lookup picked m) [])
picked-length gs m h z n = elim (Option-cases (lookup z m)) [
  | inl e ↦ ground (arith, h.slices z)
  | inr (hs, e) ↦ ground (
    arith,
    h.slices z,
    pick_zone-largest ("", min_int) m z hs n e,
    pick_zone-source ("", min_int) m h.distinct,
  )
]

picked-terminating :
    (m : ZoneMap)
    → NoDuplicates (keys m)
    → let picked = (pick_zone ("", min_int) m).0 in (picked == terminating_zone) ≡ false
picked-terminating m d = elim (pick_zone-source ("", min_int) m d) [
  | inl e ↦ ap (λ r. r.0 == terminating_zone) e
  | inr (hs, l, k, t) ↦ t
]

zone_of-empty : (g : ProcessGroupStatus) → (zone_of g == "") ≡ false
zone_of-empty g = elim (Bool-cases (ltb_ℤ (pos 0) (removal_time g))) [
  | inl e ↦ rw e refl
  | inr e ↦ rw e (elim (Bool-cases (g.fault_domain == "")) [ inl f ↦ rw f refl | inr f ↦ rw f f ])
]

-- No process group counts for the zone with the empty name.
in_zone-empty : (gs : List ProcessGroupStatus) → in_zone "" gs ≡ []
in_zone-empty [] = refl
in_zone-empty (g ∷ gs) = rw (zone_of-empty g) (in_zone-empty gs)

-- In the removal mode Zone, GetProcessGroupsToRemove never fails. What it returns holds as many process
-- groups as any zone but the terminating one, and is either empty or all process groups of one such zone.
pub get_process_groups_to_remove-Zone :
    (gs : List ProcessGroupStatus) (m : ZoneMap)
    → IsZoned gs m
    → (r : FaultDomain × List ProcessGroupStatus) × (get_process_groups_to_remove "Zone" m ≡ some r)
      × ((z : FaultDomain) → (z == terminating_zone) ≡ false → length (in_zone z gs) ≤ length r.1)
      × ((r.1 ≡ []) ⊎ ((r.1 ≡ in_zone r.0 gs) × ((r.0 == terminating_zone) ≡ false)))
unfolding get_process_groups_to_remove
get_process_groups_to_remove-Zone gs m h =
    let picked = (pick_zone ("", min_int) m).0 in
    elim (Bool-cases (picked == "")) [
      | inl e ↦ (
        ("", []),
        ground (arith, e),
        λ z n. ground (
          arith,
          picked-length gs m h z n,
          h.slices picked,
          in_zone-empty gs,
          eq_iff picked "",
          ap (λ k. in_zone k gs) {x = picked} {y = ""},
        ),
        inl refl,
      )
      | inr e ↦ (
        (picked, deref (lookup picked m) []),
        ground (arith, e),
        picked-length gs m h,
        inr (h.slices picked, picked-terminating m h.distinct),
      )
    ]

-- A number of seconds, of a point in time or of a duration, of at most 2^60.
abbrev pub IsSeconds : ℤ → Type 0
IsSeconds x = (pos_part x < 2 ^ 60) × (neg_part x < 2 ^ 60)

removal_allowed-value :
    (last now wait : ℤ)
    → IsSeconds last
    → IsSeconds now
    → IsSeconds wait
    → removal_allowed last now wait
      ≡ (if ltb_ℤ now (last +ℤ wait) then ((last +ℤ wait) -ℤ now, false) else (pos 0, true))
unfolding removal_allowed
removal_allowed-value last now wait a b c =
    let ts = now -ℤ wait in
    ground (
      arith,
      -ℤ_parts now wait,
      -ℤ_parts last ts,
      +ℤ_parts last wait,
      -ℤ_parts (last +ℤ wait) now,
      eq_of_parts (last -ℤ ts) ((last +ℤ wait) -ℤ now),
    )

-- RemovalAllowed allows a removal from the given time after the last deletion on. Before that, the number
-- of seconds that it returns is what is left: it allows the removal once they have passed. All times and
-- durations are below 2^60 seconds.
pub removal_allowed_lem :
    (last now wait : ℤ)
    → IsSeconds last
    → IsSeconds now
    → IsSeconds wait
    → ((removal_allowed last now wait).1 ≡ not (ltb_ℤ now (last +ℤ wait)))
      × ((removal_allowed last now wait).1 ≡ false
          → now +ℤ (removal_allowed last now wait).0 ≡ last +ℤ wait)
removal_allowed_lem last now wait a b c =
    let later = last +ℤ wait in
    rw (removal_allowed-value last now wait a b c) (
      ground (
        arith,
        +ℤ_parts last wait,
        -ℤ_parts later now,
        +ℤ_parts now (later -ℤ now),
        eq_of_parts (now +ℤ (later -ℤ now)) later,
      ))
