-- ===== src/Replacement/Domains.antt =====
-- The limit on the fault domains with replacements: removalAllowed in
-- internal/replacements/replace_failed_process_groups.go where replacements are counted by fault domain.
use fdb_kubernetes_operator.Common.{
  ℕ, suc, ◌≤◌, ◌≡◌, ◌⊎◌, inl, inr, refl, Bool, true, false, ◌||◌, List, [], ◌∷◌, if◌then◌else◌,
  ◌==◌, string_eq, contains, length, deref, arith, All, eq_iff, eq_refl, ap, subst, sym, String,
}
use fdb_kubernetes_operator.Common.Int.{ℤ, pos, ◌≤ℤ◌, int_eq}
use fdb_kubernetes_operator.ProcessGroup.{
  Instant, ProcessGroupStatus, ProcessGroupId, FaultDomain, mark_for_removal,
}
use fdb_kubernetes_operator.Replacement.{
  TargetsOrder, Cluster, Progress, limited, replace, Times, max_concurrent, is_in_flight, add_key,
  in_flight_loop, get_replacement_information, removal_allowed, verdict_of, advance, change,
  replace_loop, groups_after, start_of, times_of,
}
use fdb_kubernetes_operator.Replacement.Limits.{Verdict-cases, replace-allowed, groups_after-cases}

-- The list has the fault domain of each process group that is in flight.
abbrev pub Covered : List FaultDomain → List ProcessGroupStatus → Type 0
Covered domains gs = All (λ g. is_in_flight g ≡ true → contains domains g.fault_domain ≡ true) gs

contains-add_key :
    (s : List String) (k j : String) → contains (add_key s k) j ≡ (contains s j || k == j)
contains-add_key s k j = ground (arith, eq_iff k j)

Grows : List String → List String → Type 0
Grows s t = (k : String) → contains s k ≡ true → contains t k ≡ true

Grows-add_key : (s : List String) (k : String) → Grows s (add_key s k)
unfolding Grows
Grows-add_key s k j h = ground (arith, contains-add_key s k j, h)

in_flight_loop-Grows :
    (s : ℕ × List FaultDomain) (gs : List ProcessGroupStatus) → Grows s.1 (in_flight_loop s gs).1
unfolding in_flight_loop Grows
in_flight_loop-Grows s [] k h = h
in_flight_loop-Grows s (g ∷ gs) k h =
    in_flight_loop-Grows (if is_in_flight g then (suc s.0, add_key s.1 g.fault_domain) else s) gs k
      (ground (arith, h, contains-add_key s.1 g.fault_domain k))

in_flight_loop-Covered :
    (s : ℕ × List FaultDomain) (gs : List ProcessGroupStatus) → Covered (in_flight_loop s gs).1 gs
unfolding in_flight_loop Grows
in_flight_loop-Covered s [] = tt
in_flight_loop-Covered s (g ∷ gs) =
    let next : ℕ × List FaultDomain =
      if is_in_flight g then (suc s.0, add_key s.1 g.fault_domain) else s in
    (
      λ f. in_flight_loop-Grows next gs g.fault_domain (
          ground
            (arith, f, contains-add_key s.1 g.fault_domain g.fault_domain, eq_refl g.fault_domain)),
      in_flight_loop-Covered next gs,
    )

Covered-Grows :
    (s t : List FaultDomain) (gs : List ProcessGroupStatus)
    → Grows s t
    → Covered s gs
    → Covered t gs
unfolding Grows
Covered-Grows s t [] m h = tt
Covered-Grows s t (g ∷ gs) m (a, b) = (λ f. m g.fault_domain (a f), Covered-Grows s t gs m b)

-- With one more fault domain, the list is within the limit, or as long as before.
add_key-allowed :
    (c : Cluster) (n : ℤ) (s : List FaultDomain) (k : FaultDomain)
    → deref c.fault_domain_based_replacements false ≡ true
    → removal_allowed c n s k ≡ true
    → (length (add_key s k) ≡ length s) ⊎ (pos (length (add_key s k)) ≤ℤ max_concurrent c)
unfolding removal_allowed
add_key-allowed c n s k d h = ground (arith, d, h)

module _ (now : Instant) (c : Cluster) (tolerant : Bool) (ignore : List ProcessGroupId)
    (times : Times) where
  abbrev after : Progress → List ProcessGroupStatus → List ProcessGroupStatus
  after s gs = (replace_loop now c tolerant ignore times s gs).1

  -- The fault domains after the loop.
  Domains : Progress → List ProcessGroupStatus → Type 0
  Domains s gs =
      (domains : List FaultDomain) × Grows s.with_replacements domains
      × Covered domains (after s gs)
      × ((length domains ≤ length s.with_replacements) ⊎ (pos (length domains) ≤ℤ max_concurrent c))

  Domains-unchanged :
      (s t : Progress) (g : ProcessGroupStatus) (gs : List ProcessGroupStatus)
      → t.with_replacements ≡ s.with_replacements
      → (is_in_flight g ≡ true → contains s.with_replacements g.fault_domain ≡ true)
      → after s (g ∷ gs) ≡ g ∷ after t gs
      → Domains t gs
      → Domains s (g ∷ gs)
  unfolding Domains Grows
  Domains-unchanged s t g gs w h e (domains, grows, covered, small) = (
    domains,
    λ k i. grows k (subst (λ l. contains l k ≡ true) (sym w) i),
    subst (Covered domains) (sym e) (
      λ f. grows g.fault_domain (subst (λ l. contains l g.fault_domain ≡ true) (sym w) (h f)),
      covered,
    ),
    ground (arith, small, ap length w),
  )

  Domains-replace :
      (s t : Progress) (g g' : ProcessGroupStatus) (gs : List ProcessGroupStatus)
      → deref c.fault_domain_based_replacements false ≡ true
      → removal_allowed c s.max_replacements s.with_replacements g.fault_domain ≡ true
      → t.with_replacements ≡ add_key s.with_replacements g.fault_domain
      → g'.fault_domain ≡ g.fault_domain
      → after s (g ∷ gs) ≡ g' ∷ after t gs
      → Domains t gs
      → Domains s (g ∷ gs)
  unfolding Domains Grows
  Domains-replace s t g g' gs d a w f e (domains, grows, covered, small) =
      let has : Grows (add_key s.with_replacements g.fault_domain) domains =
        λ k i. grows k (subst (λ l. contains l k ≡ true) (sym w) i) in
      (
        domains,
        λ k i. has k (Grows-add_key s.with_replacements g.fault_domain k i),
        subst (Covered domains) (sym e) (
          λ x.
              subst (λ k. contains domains k ≡ true) (sym f)
                (has g.fault_domain (
                  ground (
                    arith,
                    contains-add_key s.with_replacements g.fault_domain g.fault_domain,
                    eq_refl g.fault_domain,
                  ))),
          covered,
        ),
        ground (
          arith,
          small,
          ap length w,
          add_key-allowed c s.max_replacements s.with_replacements g.fault_domain d a,
        ),
      )

  loop-Domains :
      deref c.fault_domain_based_replacements false ≡ true
      → (s : Progress) (gs : List ProcessGroupStatus) → Covered s.with_replacements gs
      → Domains s gs
  unfolding replace_loop advance change mark_for_removal Domains Grows
  loop-Domains d s [] h = (s.with_replacements, λ k i. i, tt, inl (omega arith))
  loop-Domains d s (g ∷ gs) (h, hs) =
      elim (Verdict-cases (verdict_of now c tolerant ignore times s g)) [
        | inl e ↦ Domains-unchanged s s g gs refl h (rw e refl) (loop-Domains d s gs hs)
        | inr (inl e) ↦
            let t = advance limited g s in
            Domains-unchanged s t g gs refl h (rw e refl) (loop-Domains d t gs hs)
        | inr (inr (b, e)) ↦
            let t = advance (replace b) g s in
            let allowed = replace-allowed now c tolerant ignore times s g b e in
            let covered =
              Covered-Grows s.with_replacements (add_key s.with_replacements g.fault_domain) gs
                (Grows-add_key s.with_replacements g.fault_domain) hs in
            Domains-replace s t g (change now (replace b) g) gs d allowed refl (ground arith)
              (rw e refl) (loop-Domains d t gs covered)
      ]

-- Where replacements are counted by fault domain, the process groups that are marked for removal and not
-- yet excluded after ReplaceFailedProcessGroups lie in a set of fault domains that is at most as large as
-- the set of their fault domains before, or has at most the cluster's maximum of concurrent replacements.
pub replace_failed_process_groups-Covered :
    (order : TargetsOrder) (now : Instant) (c : Cluster) (tolerant : Bool)
    → deref c.fault_domain_based_replacements false ≡ true
    → (domains : List FaultDomain) × Covered domains (groups_after order now c tolerant)
      × ((length domains ≤ length (in_flight_loop (0, []) c.process_groups).1)
          ⊎ (pos (length domains) ≤ℤ max_concurrent c))
unfolding Domains start_of get_replacement_information
replace_failed_process_groups-Covered order now c tolerant d =
    elim (groups_after-cases order now c tolerant) [
      | inl e ↦ (
        (in_flight_loop (0, []) c.process_groups).1,
        subst (Covered _) (sym e) (in_flight_loop-Covered (0, []) c.process_groups),
        inl (omega arith),
      )
      | inr (ignore, e) ↦
          let (domains, g, covered, small) =
            loop-Domains now c tolerant ignore (times_of c) d (start_of c) c.process_groups
              (in_flight_loop-Covered (0, []) c.process_groups) in
          (domains, subst (Covered domains) (sym e) covered, small)
    ]
