-- ===== src/Locality/Choice/Rounds.antt =====
-- One round of ChooseDistributedProcesses in internal/locality/locality.go: a pass over the candidates, or
-- a limit that is raised.
use fdb_kubernetes_operator.Common.{
  ℕ, suc, ◌≤◌, ◌<◌, ◌≡◌, ◌⊎◌, inl, inr, refl, String, Bool, true, false, not, ◌||◌, none, some,
  List, [], ◌∷◌, if◌then◌else◌, ◌==◌, nat_eq, string_eq, ltb, length, contains, insert,
  lookup-insert, length-append, NoDuplicates, All, Member, arith, eq_iff, eq_refl, Bool-cases,
}
use fdb_kubernetes_operator.Locality.{Info}
use fdb_kubernetes_operator.Locality.Choice.{
  Limits, limit_of, is_eligible, choose, Selection, pass, raise_limit, gap,
}
use fdb_kubernetes_operator.Locality.Choice.Counting.{Good, choose-Good}

module _ (fields : List String) (count : ℕ) (limits : Limits) where
  abbrev blocked : Selection → Info → Bool
  blocked s p = contains s.chosen_ids p.id || not (is_eligible limits s.chosen_counts p fields)

  pass-keeps_any :
      (s : Selection) (qs : List Info) → (pass fields count limits (s, true) qs).1 ≡ true
  unfolding pass
  pass-keeps_any s [] = refl
  pass-keeps_any s (q ∷ qs) =
      ground (arith, pass-keeps_any s qs, pass-keeps_any (choose fields q s) qs)

  choose-length :
      (s : Selection) (p : Info) → length (choose fields p s).chosen ≡ suc (length s.chosen)
  unfolding choose
  choose-length s p = ground (arith, length-append s.chosen (p ∷ []))

  -- A pass drops nothing, and stops at the count.
  pub pass-length :
      (s : Selection) (any : Bool) (qs : List Info)
      → length s.chosen < count
      → let r = pass fields count limits (s, any) qs in
        (length s.chosen ≤ length r.0.chosen) × (length r.0.chosen ≤ count)
  unfolding pass
  pass-length s any [] h = ground (arith, h)
  pass-length s any (q ∷ qs) h = elim (Bool-cases (blocked s q)) [
    | inl e ↦ rw e (pass-length s any qs h)
    | inr e ↦ rw e (elim (Bool-cases (length (choose fields q s).chosen == count)) [
      | inl f ↦ rw f (ground (arith, f, choose-length s q))
      | inr f ↦
          rw f (ground (arith, f, h, choose-length s q, pass-length (choose fields q s) true qs))
    ])
  ]

  -- A pass that chose no process found every candidate chosen before or not eligible.
  pub pass-none :
      (s : Selection) (qs : List Info)
      → (pass fields count limits (s, false) qs).1 ≡ false
      → ((pass fields count limits (s, false) qs).0 ≡ s) × All (λ q. blocked s q ≡ true) qs
  unfolding pass
  pass-none s [] h = (refl, tt)
  pass-none s (q ∷ qs) h = elim (Bool-cases (blocked s q)) [
    | inl e ↦ let (p, a) = pass-none s qs (ground (arith, h, e)) in (ground (arith, p, e), (e, a))
    | inr e ↦ absurd (ground (arith, h, e, pass-keeps_any (choose fields q s) qs))
  ]

  -- A pass that chose a process has chosen more.
  pub pass-any :
      (s : Selection) (qs : List Info)
      → length s.chosen < count
      → (pass fields count limits (s, false) qs).1 ≡ true
      → length s.chosen < length (pass fields count limits (s, false) qs).0.chosen
  unfolding pass
  pass-any s [] l h = ground (arith, h)
  pass-any s (q ∷ qs) l h = elim (Bool-cases (blocked s q)) [
    | inl e ↦ rw e (pass-any s qs l (ground (arith, h, e)))
    | inr e ↦ rw e (elim (Bool-cases (length (choose fields q s).chosen == count)) [
      | inl f ↦ rw f (ground (arith, choose-length s q))
      | inr f ↦
          rw f (ground (arith, f, l, choose-length s q, pass-length (choose fields q s) true qs))
    ])
  ]

  pub pass-Good :
      (ps : List Info) (s : Selection) (any : Bool) (qs : List Info)
      → NoDuplicates fields
      → All (λ q. Member q ps) qs
      → Good fields ps limits s
      → Good fields ps limits (pass fields count limits (s, any) qs).0
  unfolding pass
  pass-Good ps s any [] d m g = g
  pass-Good ps s any (q ∷ qs) d (m, ms) g = elim (Bool-cases (blocked s q)) [
    | inl e ↦ rw e (pass-Good ps s any qs d ms g)
    | inr e ↦
        let chosen =
          choose-Good fields ps limits s q d g m (ground (arith, e)) (ground (arith, e)) in
        rw e (elim (Bool-cases (length (choose fields q s).chosen == count)) [
          | inl f ↦ rw f chosen
          | inr f ↦ rw f (pass-Good ps (choose fields q s) true qs d ms chosen)
        ])
  ]

-- The limits of the fields are at most the hard limits.
abbrev pub Below : Limits → Limits → List String → Type 0
Below limits hard fs = (f : String) → contains fs f ≡ true → limit_of limits f ≤ limit_of hard f

raised : Limits → String → Limits
raised limits f = insert f (suc (limit_of limits f)) limits

limit_of-raised :
    (limits : Limits) (f g : String)
    → limit_of (raised limits f) g ≡ (if f == g then suc (limit_of limits g) else limit_of limits g)
unfolding raised
limit_of-raised limits f g =
    ground (arith, eq_iff f g, lookup-insert f g (suc (limit_of limits f)) limits)

-- What raise_limit raises is one limit that is below its hard limit.
raise_limit-cases :
    (hard limits : Limits) (fs : List String)
    → (raise_limit hard limits fs ≡ none) × Below hard limits fs
      ⊎ ((f : String) × (raise_limit hard limits fs ≡ some (raised limits f))
          × (contains fs f ≡ true)
          × (limit_of limits f < limit_of hard f))
unfolding raise_limit raised
raise_limit-cases hard limits [] = inl (refl, λ f m. ground (arith, m))
raise_limit-cases hard limits (f ∷ fs) = elim (raise_limit-cases hard limits fs) [
  | inl (e, b) ↦ elim (Bool-cases (ltb (limit_of limits f) (limit_of hard f))) [
    | inl l ↦ inr (f, rw (e, l) refl, ground (arith, eq_refl f), ground (arith, l))
    | inr l ↦ inl (rw (e, l) refl, λ g m. ground (arith, l, m, eq_iff f g, b g))
  ]
  | inr (g, e, m, l) ↦ inr (g, rw e refl, ground (arith, m), l)
]

gap-raised :
    (hard limits : Limits) (f : String) (fs : List String)
    → limit_of limits f < limit_of hard f
    → (gap hard (raised limits f) fs ≤ gap hard limits fs)
      × (contains fs f ≡ true → gap hard (raised limits f) fs < gap hard limits fs)
unfolding gap
gap-raised hard limits f [] l = ground arith
gap-raised hard limits f (g ∷ fs) l =
    ground
      (arith, l, eq_iff g f, eq_iff f g, limit_of-raised limits f g, gap-raised hard limits f fs l)

-- Raising a limit keeps the limits below the hard limits, and can be done only so often; if no limit can be
-- raised they are all at their hard limits.
pub raise_limit_lem :
    (hard limits : Limits) (fs : List String)
    → Below limits hard fs
    → (raise_limit hard limits fs ≡ none) × Below hard limits fs
      ⊎ ((next : Limits) × (raise_limit hard limits fs ≡ some next)
          × Below next hard fs
          × (gap hard next fs < gap hard limits fs)
          × ((f : String) → limit_of limits f ≤ limit_of next f))
raise_limit_lem hard limits fs b = elim (raise_limit-cases hard limits fs) [
  | inl e ↦ inl e
  | inr (f, e, m, l) ↦ inr (
    raised limits f,
    e,
    λ g h. ground (arith, limit_of-raised limits f g, l, eq_iff f g, b g h),
    (gap-raised hard limits f fs l).1 m,
    λ g. ground (arith, limit_of-raised limits f g),
  )
]
