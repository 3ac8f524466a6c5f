-- ===== src/Locality/Choice/Setup.antt =====
-- The limits and counts that ChooseDistributedProcesses in internal/locality/locality.go starts from, and
-- its result.
use fdb_kubernetes_operator.Common.{
  ℕ, zero, suc, ◌+◌, ◌<◌, ◌≡◌, inl, inr, refl, String, true, List, [], ◌∷◌, if◌then◌else◌, ◌==◌,
  nat_eq, string_eq, contains, insert, lookup-insert, NoDuplicates, All, Member, arith, eq_iff,
}
use fdb_kubernetes_operator.Locality.{Info}
use fdb_kubernetes_operator.Locality.Choice.{
  Counts, Limits, count_of, limit_of, Selection, gap, choose_loop, choose_sorted, set_limits,
  set_hard_limits, set_counts,
}
use fdb_kubernetes_operator.Locality.Choice.Counting.{Good}
use fdb_kubernetes_operator.Locality.Choice.Spread.{IsRight, loop-IsRight}

-- The hard limit that holds: what is asked for, or the count if nothing is.
abbrev pub effective_limit : ℕ → Limits → String → ℕ
effective_limit count hard f = if limit_of hard f == 0 then count else limit_of hard f

limit_of-insert :
    (f g : String) (n : ℕ) (limits : Limits)
    → limit_of (insert f n limits) g ≡ (if f == g then n else limit_of limits g)
limit_of-insert f g n limits = ground (arith, eq_iff f g, lookup-insert f g n limits)

limit_of-set_hard_limits :
    (count : ℕ) (hard : Limits) (fs : List String) (g : String)
    → limit_of (set_hard_limits count hard fs) g
      ≡ (if contains fs g then effective_limit count hard g else limit_of hard g)
unfolding set_hard_limits
limit_of-set_hard_limits count hard [] g = refl
limit_of-set_hard_limits count hard (f ∷ fs) g = ground (
  arith,
  eq_iff f g,
  limit_of-insert f g count hard,
  limit_of-set_hard_limits count hard fs g,
  limit_of-set_hard_limits count (insert f count hard) fs g,
)

limit_of-set_limits :
    (limits : Limits) (fs : List String) (g : String)
    → limit_of (set_limits limits fs) g ≡ (if contains fs g then 1 else limit_of limits g)
unfolding set_limits
limit_of-set_limits limits [] g = refl
limit_of-set_limits limits (f ∷ fs) g =
    ground (
      arith,
      eq_iff f g,
      limit_of-insert f g 1 limits,
      limit_of-set_limits (insert f 1 limits) fs g,
    )

pub count_of-set_counts :
    (counts : Counts) (fs : List String) (g v : String)
    → count_of counts g v ≡ 0
    → count_of (set_counts counts fs) g v ≡ 0
unfolding set_counts
count_of-set_counts counts [] g v h = h
count_of-set_counts counts (f ∷ fs) g v h =
    count_of-set_counts (insert f [] counts) fs g v
      (ground (arith, h, eq_iff f g, lookup-insert {V = List (String × ℕ)} f g [] counts))

abbrev start : List String → Selection
start fields = record { chosen = []; chosen_ids = []; chosen_counts = set_counts [] fields }

start-Good :
    (fields : List String) (ps : List Info) (limits : Limits) → Good fields ps limits (start fields)
start-Good fields ps limits = record {
  counts = λ f v h. count_of-set_counts [] fields f v refl;
  within = λ f v h. omega arith;
  distinct = tt;
  known = λ k. refl;
  candidates = tt;
}

All-Member :
    (ps qs : List Info) → ((p : Info) → Member p qs → Member p ps) → All (λ q. Member q ps) qs
All-Member ps [] h = tt
All-Member ps (q ∷ qs) h = (h q (inl refl), All-Member ps qs (λ p m. h p (inr m)))

-- The hard limits as the loop sees them.
abbrev pub hard_limits : List String → ℕ → Limits → Limits
hard_limits fields count limits = set_hard_limits count limits fields

pub limit_of-hard_limits :
    (fields : List String) (count : ℕ) (limits : Limits) (f : String)
    → contains fields f ≡ true
    → limit_of (hard_limits fields count limits) f ≡ effective_limit count limits f
limit_of-hard_limits fields count limits f h =
    ground (arith, h, limit_of-set_hard_limits count limits fields f)

choose_sorted_suc :
    (fields : List String) (count : ℕ) (limits : Limits) (ps : List Info)
    → NoDuplicates fields
    → 0 < count
    → IsRight fields count
        (hard_limits fields count limits)
        ps
        (choose_sorted fields count limits ps)
unfolding choose_sorted
choose_sorted_suc fields count limits ps d h =
    loop-IsRight fields count (hard_limits fields count limits) ps
      (suc (count + gap (hard_limits fields count limits) (set_limits [] fields) fields))
      (set_limits [] fields) (start fields) d (All-Member ps ps (λ p m. m))
      (λ f m.
        ground (
          arith,
          h,
          m,
          limit_of-set_limits [] fields f,
          limit_of-hard_limits fields count limits f,
        ))
      (start-Good fields ps (set_limits [] fields)) (omega arith) (omega arith)

pub choose_sorted-IsRight :
    (fields : List String) (count : ℕ) (limits : Limits) (ps : List Info)
    → NoDuplicates fields
    → IsRight fields count
        (hard_limits fields count limits)
        ps
        (choose_sorted fields count limits ps)
unfolding choose_sorted choose_loop
choose_sorted-IsRight fields zero limits ps d =
    (record { candidates = tt; distinct = tt; within = λ f v h. omega arith }, refl)
choose_sorted-IsRight fields (suc count) limits ps d =
    choose_sorted_suc fields (suc count) limits ps d (omega arith)
