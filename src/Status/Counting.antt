-- ===== src/Status/Counting.antt =====
-- What the loops of getRemainingAndExcludedFromStatus in pkg/fdbstatus/status_checks.go count of an
-- address, and the kind that follows from the counts.
use fdb_kubernetes_operator.Common.{
  ℕ, ◌+◌, ◌≡◌, refl, String, Bool, true, false, ◌&&◌, ◌||◌, not, Option, none, some, List, [], ◌∷◌,
  if◌then◌else◌, ◌==◌, nat_eq, string_eq, ltb, contains, is_empty, lookup, deref, lookup-insert,
  eq_iff, arith, zero, suc, ◌∙◌, ap, ◌≤◌,
}
use native.Mathlib.Nat.{zero-add}
use fdb_kubernetes_operator.Address.{Net}
use fdb_kubernetes_operator.Status.{
  StatusProcess, Tally, Kind, missing, not_excluded, fully_excluded, in_progress, bump,
  visit_address, visit_processes, locality_address, ip_of, kind_of,
}

-- A counter in a map: a key that was never counted has no entry.
abbrev pub counter : ℕ → Option ℕ
counter zero = none
counter (suc n) = some (suc n)

lookup-bump :
    (k j : String) (n : ℕ) (m : List (String × ℕ))
    → lookup j m ≡ counter n
    → lookup j (bump k m) ≡ (if k == j then counter (suc n) else counter n)
lookup-bump k j zero m h =
    ground (arith, lookup-insert k j (deref (lookup k m) 0 + 1) m, eq_iff k j, h)
lookup-bump k j (suc n) m h =
    ground (arith, lookup-insert k j (deref (lookup k m) 0 + 1) m, eq_iff k j, h)

abbrev pub one_if : Bool → ℕ
one_if true = 1
one_if false = 0

-- How often an address occurs among the two addresses of each process.
module _ (net : Net) (m : String) where
  abbrev pub hits : StatusProcess → ℕ
  hits p = one_if (locality_address p == m) + one_if (ip_of net p == m)

  abbrev pub occurrences : List StatusProcess → ℕ
  occurrences [] = 0
  occurrences (p ∷ ps) = hits p + occurrences ps

  abbrev pub idle_hits : StatusProcess → ℕ
  idle_hits p = if p.excluded && is_empty p.roles then hits p else 0

  -- The same, of the processes that are excluded and have no role.
  abbrev pub idle_occurrences : List StatusProcess → ℕ
  idle_occurrences [] = 0
  idle_occurrences (p ∷ ps) = idle_hits p + idle_occurrences ps

  -- Some process with the address is not excluded.
  abbrev pub any_included : List StatusProcess → Bool
  any_included [] = false
  any_included (p ∷ ps) = (ltb 0 (hits p) && not p.excluded) || any_included ps

  -- What a tally says of the address.
  pub record Counts (t : Tally) (visited idle : ℕ) (included : Bool) : Type 0 where
    pub visits : lookup m t.visited_addresses ≡ counter visited
    pub idles : lookup m t.fully_excluded_addresses ≡ counter idle
    pub inclusion : contains t.not_excluded_addresses m ≡ included

  pub Counts-eq :
      {t : Tally} {v i v' i' : ℕ} {b b' : Bool}
      → Counts t v i b
      → v ≡ v'
      → i ≡ i'
      → b ≡ b'
      → Counts t v' i' b'
  Counts-eq c p q r = record {
    visits = c.visits ∙ ap counter p;
    idles = c.idles ∙ ap counter q;
    inclusion = c.inclusion ∙ r;
  }

  visit_address-Counts :
      (verify : List String) (p : StatusProcess) (t : Tally) (a : String) (v i : ℕ) (b : Bool)
      → contains verify m ≡ true
      → Counts t v i b
      → Counts
          (visit_address verify p t a)
          (one_if (a == m) + v)
          ((if p.excluded && is_empty p.roles then one_if (a == m) else 0) + i)
          (((a == m) && not p.excluded) || b)
  unfolding visit_address
  visit_address-Counts verify p t a v i b h c = ground (
    arith,
    eq_iff a m,
    lookup-bump a m v t.visited_addresses c.visits,
    lookup-bump a m i t.fully_excluded_addresses c.idles,
    c.inclusion,
    c.visits,
    c.idles,
  )

  pub visit_processes-Counts :
      (verify : List String) (t : Tally) (ps : List StatusProcess) (v i : ℕ) (b : Bool)
      → contains verify m ≡ true
      → Counts t v i b
      → Counts
          (visit_processes net verify t ps)
          (occurrences ps + v)
          (idle_occurrences ps + i)
          (any_included ps || b)
  unfolding visit_processes
  visit_processes-Counts verify t [] v i b h c = record {
    visits = rw zero-add c.visits;
    idles = rw zero-add c.idles;
    inclusion = c.inclusion;
  }
  visit_processes-Counts verify t (p ∷ ps) v i b h c =
      let first = visit_address-Counts verify p t (locality_address p) v i b h c in
      let second = visit_address-Counts verify p _ (ip_of net p) _ _ _ h first in
      let rest =
        visit_processes-Counts verify
          (visit_address verify p (visit_address verify p t (locality_address p)) (ip_of net p)) ps
          _ _ _ h second in
      Counts-eq rest (omega arith) (ground arith) (ground arith)

  -- Some process has the address.
  abbrev pub any_process : List StatusProcess → Bool
  any_process [] = false
  any_process (p ∷ ps) = ltb 0 (hits p) || any_process ps

  -- Every process with the address is excluded and has no role.
  abbrev pub all_idle : List StatusProcess → Bool
  all_idle [] = true
  all_idle (p ∷ ps) = (not (ltb 0 (hits p)) || (p.excluded && is_empty p.roles)) && all_idle ps

  idle_occurrences-le : (ps : List StatusProcess) → idle_occurrences ps ≤ occurrences ps
  idle_occurrences-le [] = omega arith
  idle_occurrences-le (p ∷ ps) = ground (arith, idle_occurrences-le ps)

  all_idle-occurrences :
      (ps : List StatusProcess) → (occurrences ps == idle_occurrences ps) ≡ all_idle ps
  all_idle-occurrences [] = refl
  all_idle-occurrences (p ∷ ps) = ground (arith, all_idle-occurrences ps, idle_occurrences-le ps)

  any_process-occurrences : (ps : List StatusProcess) → ltb 0 (occurrences ps) ≡ any_process ps
  any_process-occurrences [] = refl
  any_process-occurrences (p ∷ ps) = ground (arith, any_process-occurrences ps)

  -- The kind of an address by the processes that have it.
  abbrev pub kind_among : List StatusProcess → Kind
  kind_among ps =
      if not (any_process ps)
      then missing
      else if any_included ps
      then not_excluded
      else if all_idle ps
      then fully_excluded
      else in_progress

  pub kind_of-visited :
      (t : Tally) (ps : List StatusProcess)
      → Counts t (occurrences ps) (idle_occurrences ps) (any_included ps)
      → kind_of t m ≡ kind_among ps
  unfolding kind_of
  kind_of-visited t ps c = by_counts (occurrences ps) (idle_occurrences ps) refl refl
    where
      by_counts :
          (v i : ℕ) → occurrences ps ≡ v → idle_occurrences ps ≡ i → kind_of t m ≡ kind_among ps
      by_counts zero i p q =
          ground (arith, c.visits, c.idles, c.inclusion, any_process-occurrences ps, p, q)
      by_counts (suc v) zero p q = ground (
        arith,
        c.visits,
        c.idles,
        c.inclusion,
        any_process-occurrences ps,
        all_idle-occurrences ps,
        p,
        q,
      )
      by_counts (suc v) (suc i) p q = ground (
        arith,
        c.visits,
        c.idles,
        c.inclusion,
        any_process-occurrences ps,
        all_idle-occurrences ps,
        p,
        q,
      )
