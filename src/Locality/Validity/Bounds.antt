-- ===== src/Locality/Validity/Bounds.antt =====
-- The counts, limits and states that CheckCoordinatorValidity of internal/locality/locality.go compares.
use fdb_kubernetes_operator.Common.{
  ℕ, ◌+◌, ◌≤◌, ◌≡◌, inl, inr, String, Bool, true, ◌&&◌, some, List, [], ◌∷◌, if◌then◌else◌, ◌==◌,
  string_eq, nat_eq, is_some, lookup, deref, contains, NoDuplicates, arith, eq_iff, Bool-cases,
}
use fdb_kubernetes_operator.Common.Int.{int_eq}
use fdb_kubernetes_operator.Locality.Candidates.{Process, locality_of}
use fdb_kubernetes_operator.Locality.Choice.{Counts, Limits, count_of, add_count}
use fdb_kubernetes_operator.Locality.Choice.Counting.{count_of-add_count}
use fdb_kubernetes_operator.Locality.Validity.{
  limited_fields, count_localities, within_limit, counts_of, within_limits, all_healthy,
}

-- The process has a value of a locality.
abbrev pub has_locality : String → String → Process → Bool
has_locality f v p = is_some (lookup f p.locality) && locality_of f p == v

pub count_of-count_localities :
    (c : Counts) (p : Process) (fs : List String) (g w : String)
    → NoDuplicates fs
    → count_of (count_localities c p fs) g w
      ≡ (if contains fs g && has_locality g w p then 1 else 0) + count_of c g w
unfolding count_localities
count_of-count_localities c p [] g w d = omega arith
count_of-count_localities c p (f ∷ fs) g w (n, d) =
    elim (Bool-cases (is_some (lookup f p.locality))) [
      | inl e ↦ rw e (
          ground (
            arith,
            n,
            e,
            eq_iff f g,
            count_of-count_localities (add_count c f (locality_of f p)) p fs g w d,
            count_of-add_count c f g (locality_of f p) w,
          ))
      | inr e ↦ rw e (ground (arith, n, e, eq_iff f g, count_of-count_localities c p fs g w d))
    ]

within_limit_lem :
    (limit : ℕ) (m : List (String × ℕ)) (v : String)
    → within_limit limit m ≡ true
    → deref (lookup v m) 0 ≤ limit
unfolding within_limit
within_limit_lem limit [] v h = omega arith
within_limit_lem limit ((k, n) ∷ m) v h = ground (arith, h, within_limit_lem limit m v)

pub within_limits_lem :
    (counts : Counts) (limits : Limits) (f : String) (limit : ℕ) (v : String)
    → within_limits counts limits ≡ true
    → lookup f limits ≡ some limit
    → count_of counts f v ≤ limit
unfolding within_limits
within_limits_lem counts [] f limit v h e = absurd (ground (arith, e))
within_limits_lem counts ((g, n) ∷ limits) f limit v h e = ground (
  arith,
  h,
  e,
  eq_iff g f,
  within_limit_lem n (counts_of counts g) v,
  within_limits_lem counts limits f limit v,
)

pub contains-limited_fields :
    (limits : Limits) (f : String) (limit : ℕ)
    → lookup f limits ≡ some limit
    → contains (limited_fields limits) f ≡ true
contains-limited_fields [] f limit e = absurd (ground (arith, e))
contains-limited_fields ((g, n) ∷ limits) f limit e =
    ground (arith, e, contains-limited_fields limits f limit)

pub all_healthy_lem :
    (m : List (String × Bool)) (k : String)
    → all_healthy m ≡ true
    → is_some (lookup k m) ≡ true
    → lookup k m ≡ some true
unfolding all_healthy
all_healthy_lem [] k h e = absurd (ground (arith, e))
all_healthy_lem ((j, b) ∷ m) k h e = ground (arith, h, e, all_healthy_lem m k)
