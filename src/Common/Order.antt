-- ===== src/Common/Order.antt =====
-- The order of texts: cmp.Compare of Go on strings.
use Prim.Native.Nat.{ℕ, Ordering, compare as compare_ℕ}
use Prim.Native.Nat.Ordering.{lt, eq, gt}
use Prim.Native.Char.{code}
use Prim.Native.String.compare
use Prim.Native.String.{String, compare, then}
use mathlib.Core.Path.{◌≡◌, refl, ◌∙◌, sym, ap}
use mathlib.Core.Logic.{◌⊎◌, inl, inr}
use mathlib.Core.Bool.{Bool, true, false, not, ◌&&◌}
use native.Mathlib.Omega.{arith}

abbrev pub flip : Ordering → Ordering
flip lt = gt
flip eq = eq
flip gt = lt

abbrev pub not_gt : Ordering → Bool
not_gt gt = false
not_gt _ = true

flip-compare_ℕ : (a b : ℕ) → compare_ℕ b a ≡ flip (compare_ℕ a b)
flip-compare_ℕ a b = ground arith

flip-then : (o r : Ordering) → flip (then o r) ≡ then (flip o) (flip r)
flip-then lt r = refl
flip-then eq r = refl
flip-then gt r = refl

pub flip-compare : (s t : String) → compare t s ≡ flip (compare s t)
flip-compare String.[] String.[] = rw compare.nil-nil refl
flip-compare String.[] (String.◌∷◌ d t) = rw (compare.nil-cons d t, compare.cons-nil d t) refl
flip-compare (String.◌∷◌ c s) String.[] = rw (compare.nil-cons c s, compare.cons-nil c s) refl
flip-compare (String.◌∷◌ c s) (String.◌∷◌ d t) =
    rw
      (
        compare.cons-cons c d s t,
        compare.cons-cons d c t s,
        flip-compare_ℕ (code c) (code d),
        flip-compare s t,
      )
      (sym (flip-then (compare_ℕ (code c) (code d)) (compare s t)))

not_gt-then : (o r : Ordering) → not_gt (then o r) ≡ true → (o ≡ lt) ⊎ (o ≡ eq) × (not_gt r ≡ true)
not_gt-then lt r h = inl refl
not_gt-then eq r h = inr (refl, h)
not_gt-then gt r h = ground (arith, h)

pub compare_trans :
    (s t u : String)
    → not_gt (compare s t) ≡ true
    → not_gt (compare t u) ≡ true
    → not_gt (compare s u) ≡ true
compare_trans String.[] t String.[] h k = refl
compare_trans String.[] t (String.◌∷◌ e u) h k = rw (compare.nil-cons e u) refl
compare_trans (String.◌∷◌ c s) String.[] u h k = ground (arith, h, compare.cons-nil c s)
compare_trans (String.◌∷◌ c s) (String.◌∷◌ d t) String.[] h k =
    ground (arith, k, compare.cons-nil d t)
compare_trans (String.◌∷◌ c s) (String.◌∷◌ d t) (String.◌∷◌ e u) h k = ground (
  arith,
  compare.cons-cons c e s u,
  not_gt-then (compare_ℕ (code c) (code d)) (compare s t)
      (ap not_gt (sym (compare.cons-cons c d s t)) ∙ h),
  not_gt-then (compare_ℕ (code d) (code e)) (compare t u)
      (ap not_gt (sym (compare.cons-cons d e t u)) ∙ k),
  compare_trans s t u,
)

-- `s < t`
abbrev pub is_less : String → String → Bool
is_less s t = not_gt (compare s t) && not (not_gt (compare t s))
