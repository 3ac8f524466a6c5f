-- ===== src/Locality/Choice/Spread.antt =====
-- The result of ChooseDistributedProcesses in internal/locality/locality.go.
use fdb_kubernetes_operator.Common.{
  ℕ, zero, suc, ◌+◌, ◌-◌, ◌≤◌, ◌<◌, ◌≡◌, ◌⊎◌, inl, inr, String, true, false, not, ◌||◌, List, [],
  ◌∷◌, ◌==◌, nat_eq, string_eq, ltb, length, contains, NoDuplicates, All, Member, arith, Bool-cases,
  sym, ◌∙◌,
}
use fdb_kubernetes_operator.Locality.{Info, value_of}
use fdb_kubernetes_operator.Locality.Choice.{
  Limits, limit_of, is_eligible, Selection, pass, gap, Choice, complete, not_enough, out_of_fuel,
  choose_loop,
}
use fdb_kubernetes_operator.Locality.Choice.Counting.{Good, not_eligible, ids, share}
use fdb_kubernetes_operator.Locality.Choice.Rounds.{
  pass-length, pass-none, pass-any, pass-Good, Below, raise_limit_lem,
}

module _ (fields : List String) (count : ℕ) (hard : Limits) (ps : List Info) where
  -- Chosen processes: candidates with different IDs, and within the hard limits.
  pub record IsSpread (chosen : List Info) : Type 0 where
    pub candidates : All (λ p. Member p ps) chosen
    pub distinct : NoDuplicates (ids chosen)
    pub within : (f v : String) → contains fields f ≡ true → share f v chosen ≤ limit_of hard f

  -- The process is chosen, or with its value of some field as many are chosen as the hard limit allows.
  abbrev pub IsBlocked : List Info → Info → Type 0
  IsBlocked chosen p =
      (contains (ids chosen) p.id ≡ true)
      ⊎ ((f : String) × (contains fields f ≡ true)
          × (limit_of hard f ≤ share f (value_of f p) chosen))

  -- The result is right: as many processes as asked for, or fewer, and then no candidate can be added.
  abbrev pub IsRight : Choice → Type 0
  IsRight (complete chosen) = IsSpread chosen × (length chosen ≡ count)
  IsRight (not_enough chosen) =
      IsSpread chosen × (length chosen < count) × All (IsBlocked chosen) ps
  IsRight out_of_fuel = ⊥

  Good-IsSpread :
      (limits : Limits) (s : Selection)
      → Below limits hard fields
      → Good fields ps limits s
      → IsSpread s.chosen
  Good-IsSpread limits s b g = record {
    candidates = g.candidates;
    distinct = g.distinct;
    within = λ f v h. ground (arith, b f h, g.within f v h);
  }

  -- With the limits at the hard limits, a candidate that a pass found blocked is blocked.
  pass-IsBlocked :
      (limits : Limits) (s : Selection) (q : Info)
      → Below hard limits fields
      → Good fields ps limits s
      → (contains s.chosen_ids q.id || not (is_eligible limits s.chosen_counts q fields)) ≡ true
      → IsBlocked s.chosen q
  pass-IsBlocked limits s q b g h = elim (Bool-cases (contains s.chosen_ids q.id)) [
    | inl e ↦ inl (sym (g.known q.id) ∙ e)
    | inr e ↦
        let (f, m, l) = not_eligible limits s.chosen_counts q fields (ground (arith, h, e)) in
        inr (f, m, ground (arith, l, b f m, g.counts f (value_of f q) m))
  ]

  All-IsBlocked :
      (limits : Limits) (s : Selection) (qs : List Info)
      → Below hard limits fields
      → Good fields ps limits s
      → All
          (λ q.
            (contains s.chosen_ids q.id || not (is_eligible limits s.chosen_counts q fields))
            ≡ true)
          qs
      → All (IsBlocked s.chosen) qs
  All-IsBlocked limits s [] b g h = tt
  All-IsBlocked limits s (q ∷ qs) b g (a, h) =
      (pass-IsBlocked limits s q b g a, All-IsBlocked limits s qs b g h)

  Good-raised :
      (limits next : Limits) (s : Selection)
      → ((f : String) → limit_of limits f ≤ limit_of next f)
      → Good fields ps limits s
      → Good fields ps next s
  Good-raised limits next s h g = record {
    counts = g.counts;
    within = λ f v m. ground (arith, h f, g.within f v m);
    distinct = g.distinct;
    known = g.known;
    candidates = g.candidates;
  }

  -- Each round chooses a process or raises a limit, so the loop ends within the fuel.
  pub loop-IsRight :
      (n : ℕ) (limits : Limits) (s : Selection)
      → NoDuplicates fields
      → All (λ q. Member q ps) ps
      → Below limits hard fields
      → Good fields ps limits s
      → length s.chosen ≤ count
      → (count - length s.chosen) + gap hard limits fields < n
      → IsRight (choose_loop n fields count hard ps limits s)
  unfolding choose_loop
  loop-IsRight zero limits s d all b g l h = absurd (omega (arith, h))
  loop-IsRight (suc n) limits s d all b g l h =
      let p = pass fields count limits (s, false) ps in
      elim (Bool-cases (ltb (length s.chosen) count)) [
        | inr e ↦
            let full : length s.chosen ≡ count = ground (arith, e, l) in
            let same : (length s.chosen == count) ≡ true = ground (arith, full) in
            rw (e, same) (Good-IsSpread limits s b g, full)
        | inl e ↦
            let more : length s.chosen < count = ground (arith, e) in
            elim (Bool-cases p.1) [
              | inl any ↦
                  rw (e, any)
                    (loop-IsRight n limits p.0 d all b
                      (pass-Good fields count limits ps s false ps d all g)
                      (pass-length fields count limits s false ps more).1
                      (ground (
                        arith,
                        h,
                        more,
                        pass-any fields count limits s ps more any,
                        (pass-length fields count limits s false ps more).1,
                      )))
              | inr any ↦
                  let (same, blocked) = pass-none fields count limits s ps any in
                  elim (raise_limit_lem hard limits fields b) [
                    | inl (r, at) ↦
                        rw (e, any, r, same)
                          (Good-IsSpread limits s b g, more, All-IsBlocked limits s ps at g blocked)
                    | inr (next, r, b', less, grow) ↦
                        rw (e, any, r, same)
                          (loop-IsRight n next s d all b' (Good-raised limits next s grow g) l
                            (ground (arith, h, less)))
                  ]
            ]
      ]
