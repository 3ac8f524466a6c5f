-- ===== src/Locality/Choice/Counting.antt =====
-- What the loops of ChooseDistributedProcesses in internal/locality/locality.go keep of the counts, the
-- limits and the chosen processes.
use fdb_kubernetes_operator.Common.{
  ℕ, suc, ◌+◌, ◌≤◌, ◌<◌, ◌≡◌, inl, inr, refl, String, Bool, true, false, ◌&&◌, List, [], ◌∷◌, ◌++◌,
  if◌then◌else◌, ◌==◌, nat_eq, string_eq, leb, contains, lookup, insert, deref, lookup-insert,
  count_if, count_if-append, contains-append, NoDuplicates, All, All-append, Member, map, arith,
  eq_iff, eq_refl, Bool-cases, subst, sym, ap, ◌∙◌,
}
use fdb_kubernetes_operator.Locality.{Info, value_of}
use fdb_kubernetes_operator.Locality.Choice.{
  Counts, Limits, count_of, limit_of, add_count, count_process, is_eligible, choose, Selection,
}

pub count_of-add_count :
    (c : Counts) (f g v w : String)
    → count_of (add_count c f v) g w
      ≡ (if (f == g) && (v == w) then suc (count_of c g w) else count_of c g w)
unfolding add_count
count_of-add_count c f g v w = ground (
  arith,
  eq_iff f g,
  eq_iff v w,
  lookup-insert f g (insert v (suc (count_of c f v)) (deref (lookup f c) [])) c,
  lookup-insert v w (suc (count_of c f v)) (deref (lookup f c) []),
)

abbrev has_value : String → String → Info → Bool
has_value f v p = value_of f p == v

abbrev one_if : Bool → ℕ
one_if b = if b then 1 else 0

-- The counts after a process: one more for each of the fields, at the value of the process.
count_of-count_process :
    (c : Counts) (p : Info) (fs : List String) (g w : String)
    → NoDuplicates fs
    → count_of (count_process c p fs) g w
      ≡ one_if (contains fs g && has_value g w p) + count_of c g w
unfolding count_process
count_of-count_process c p [] g w d = omega arith
count_of-count_process c p (f ∷ fs) g w (n, d) = ground (
  arith,
  n,
  eq_iff f g,
  count_of-count_process (add_count c f (value_of f p)) p fs g w d,
  count_of-add_count c f g (value_of f p) w,
)

eligible-lt :
    (limits : Limits) (c : Counts) (p : Info) (fs : List String) (f : String)
    → is_eligible limits c p fs ≡ true
    → contains fs f ≡ true
    → count_of c f (value_of f p) < limit_of limits f
unfolding is_eligible
eligible-lt limits c p [] f h m = ground (arith, m)
eligible-lt limits c p (g ∷ fs) f h m =
    ground (arith, eq_iff g f, h, m, eligible-lt limits c p fs f)

pub not_eligible :
    (limits : Limits) (c : Counts) (p : Info) (fs : List String)
    → is_eligible limits c p fs ≡ false
    → (f : String) × (contains fs f ≡ true) × (limit_of limits f ≤ count_of c f (value_of f p))
unfolding is_eligible
not_eligible limits c p [] h = ground (arith, h)
not_eligible limits c p (g ∷ fs) h =
    elim (Bool-cases (leb (limit_of limits g) (count_of c g (value_of g p)))) [
      | inl e ↦ (g, ground (arith, eq_refl g), ground (arith, e))
      | inr e ↦
          let (f, m, l) = not_eligible limits c p fs (ground (arith, h, e)) in
          (f, ground (arith, m), l)
    ]

abbrev pub ids : List Info → List String
ids ps = map (λ p. p.id) ps

ids-append : (ps qs : List Info) → ids (ps ++ qs) ≡ ids ps ++ ids qs
ids-append [] qs = refl
ids-append (p ∷ ps) qs = ap (λ l. p.id ∷ l) (ids-append ps qs)

NoDuplicates-snoc :
    (xs : List String) (x : String)
    → NoDuplicates xs
    → contains xs x ≡ false
    → NoDuplicates (xs ++ x ∷ [])
NoDuplicates-snoc [] x d n = (refl, tt)
NoDuplicates-snoc (y ∷ xs) x (a, d) n = (
  ground (arith, a, n, contains-append xs (x ∷ []) y, eq_iff x y, eq_iff y x),
  NoDuplicates-snoc xs x d (ground (arith, n)),
)

-- How many of the processes have the value of the field.
abbrev pub share : String → String → List Info → ℕ
share f v chosen = count_if (has_value f v) chosen

module _ (fields : List String) (ps : List Info) where
  -- What holds between the rounds: the counts are those of the chosen processes, which are within the
  -- limits, are candidates, and have different IDs.
  pub record Good (limits : Limits) (s : Selection) : Type 0 where
    pub counts :
        (f v : String)
        → contains fields f ≡ true
        → count_of s.chosen_counts f v ≡ share f v s.chosen
    pub within : (f v : String) → contains fields f ≡ true → share f v s.chosen ≤ limit_of limits f
    pub distinct : NoDuplicates (ids s.chosen)
    pub known : (k : String) → contains s.chosen_ids k ≡ contains (ids s.chosen) k
    pub candidates : All (λ p. Member p ps) s.chosen

  pub choose-Good :
      (limits : Limits) (s : Selection) (p : Info)
      → NoDuplicates fields
      → Good limits s
      → Member p ps
      → contains s.chosen_ids p.id ≡ false
      → is_eligible limits s.chosen_counts p fields ≡ true
      → Good limits (choose fields p s)
  unfolding choose
  choose-Good limits s p d g m new e = record {
    counts = λ f v h. ground (
      arith,
      h,
      g.counts f v h,
      count_of-count_process s.chosen_counts p fields f v d,
      count_if-append (has_value f v) s.chosen (p ∷ []),
    );
    within = λ f v h. ground (
      arith,
      g.counts f v h,
      g.within f v h,
      eq_iff (value_of f p) v,
      eligible-lt limits s.chosen_counts p fields f e h,
      count_if-append (has_value f v) s.chosen (p ∷ []),
    );
    distinct =
        subst NoDuplicates (sym (ids-append s.chosen (p ∷ [])))
          (NoDuplicates-snoc (ids s.chosen) p.id g.distinct (sym (g.known p.id) ∙ new));
    known = λ k. ground (
      arith,
      g.known k,
      ap (λ l. contains l k) (ids-append s.chosen (p ∷ [])),
      contains-append (ids s.chosen) (p.id ∷ []) k,
    );
    candidates = All-append (λ q. Member q ps) s.chosen (p ∷ []) g.candidates (m, tt);
  }
