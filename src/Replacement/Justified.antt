-- ===== src/Replacement/Justified.antt =====
-- Which process groups ReplaceFailedProcessGroups of
-- internal/replacements/replace_failed_process_groups.go changes, and how.
use fdb_kubernetes_operator.Common.{
  ◌≡◌, ◌⊎◌, inl, inr, refl, Bool, true, not, ◌&&◌, ◌||◌, some, List, [], ◌∷◌, ◌==◌, string_eq,
  is_empty, arith, subst, sym,
}
use fdb_kubernetes_operator.Common.Int.{pos, int_eq}
use fdb_kubernetes_operator.ProcessGroup.{
  Instant, ProcessGroupStatus, ProcessGroupId, is_marked_for_removal, is_under_maintenance,
  mark_for_removal,
}
use fdb_kubernetes_operator.ProcessGroup.Replacement.{
  needs_replacement_with_conditions, default_conditions,
}
use fdb_kubernetes_operator.Replacement.{
  TargetsOrder, Cluster, Progress, replace, verdict_of, advance, change, replace_loop, groups_after,
  start_of, times_of,
}
use fdb_kubernetes_operator.Replacement.Limits.{Verdict-cases, groups_after-cases}

-- A replaced process group: marked for removal now, and skipping the exclusion only if it has no address
-- and exclusions are not by locality.
abbrev pub replaced : Instant → Cluster → ProcessGroupStatus → ProcessGroupStatus
replaced now c g = record g {
  removal_timestamp = some now;
  exclusion_skipped = is_empty g.addresses && not c.use_localities_for_exclusion;
}

-- A reason to replace it: it was not marked before, is not under maintenance, has a condition that asks
-- for its replacement, and skips the exclusion only if the cluster has its desired fault tolerance.
abbrev pub is_replaceable : Instant → Cluster → Bool → ProcessGroupStatus → Bool
is_replaceable now c tolerant g =
    let times = times_of c in
    let failure_time =
      (needs_replacement_with_conditions now times.failure_detection times.taint_replacement
        default_conditions g).1 in
    not (is_marked_for_removal g)
    && not (is_under_maintenance c.maintenance_zone g)
    && not (failure_time == pos 0)
    && (tolerant || not (is_empty g.addresses) || c.use_localities_for_exclusion)

-- Each process group is as before, or was replaced for such a reason.
abbrev pub Justified :
    Instant → Cluster → Bool → List ProcessGroupStatus → List ProcessGroupStatus → Type 0
Justified now c tolerant [] [] = Unit
Justified now c tolerant (g ∷ gs) (h ∷ hs) =
    ((h ≡ g) ⊎ ((h ≡ replaced now c g) × (is_replaceable now c tolerant g ≡ true)))
    × Justified now c tolerant gs hs
Justified now c tolerant _ _ = ⊥

Justified-same :
    (now : Instant) (c : Cluster) (tolerant : Bool) (gs : List ProcessGroupStatus)
    → Justified now c tolerant gs gs
Justified-same now c tolerant [] = tt
Justified-same now c tolerant (g ∷ gs) = (inl refl, Justified-same now c tolerant gs)

verdict-replace :
    (now : Instant) (c : Cluster) (tolerant : Bool) (ignore : List ProcessGroupId) (s : Progress)
    (g : ProcessGroupStatus) (b : Bool)
    → verdict_of now c tolerant ignore (times_of c) s g ≡ replace b
    → (change now (replace b) g ≡ replaced now c g) × (is_replaceable now c tolerant g ≡ true)
unfolding verdict_of change mark_for_removal is_marked_for_removal
verdict-replace now c tolerant ignore s g b e = ground (arith, e)

module _ (now : Instant) (c : Cluster) (tolerant : Bool) (ignore : List ProcessGroupId) where
  loop-Justified :
      (s : Progress) (gs : List ProcessGroupStatus)
      → Justified now c tolerant gs (replace_loop now c tolerant ignore (times_of c) s gs).1
  unfolding replace_loop change
  loop-Justified s [] = tt
  loop-Justified s (g ∷ gs) =
      let v = verdict_of now c tolerant ignore (times_of c) s g in
      let rest = loop-Justified (advance v g s) gs in
      elim (Verdict-cases v) [
        | inl e ↦ (inl (rw e refl), rest)
        | inr (inl e) ↦ (inl (rw e refl), rest)
        | inr (inr (b, e)) ↦ (inr (rw e (verdict-replace now c tolerant ignore s g b e)), rest)
      ]

-- ReplaceFailedProcessGroups keeps the list of process groups, and changes only those with a reason: they
-- are not yet marked for removal, not in the maintenance zone, and due for replacement; with no address
-- and exclusions by address, the cluster must have its desired fault tolerance. It marks them for removal
-- and changes nothing else, but that exclusion is skipped in that last case and in no other.
pub replace_failed_process_groups-Justified :
    (order : TargetsOrder) (now : Instant) (c : Cluster) (tolerant : Bool)
    → Justified now c tolerant c.process_groups (groups_after order now c tolerant)
replace_failed_process_groups-Justified order now c tolerant =
    elim (groups_after-cases order now c tolerant) [
      | inl e ↦
          subst (Justified now c tolerant c.process_groups) (sym e)
            (Justified-same now c tolerant c.process_groups)
      | inr (ignore, e) ↦
          subst (Justified now c tolerant c.process_groups) (sym e)
            (loop-Justified now c tolerant ignore (start_of c) c.process_groups)
    ]
