-- ===== src/Database/DataCenters/Primary.antt =====
-- GetPrimaryDCID of api/v1beta2/foundationdb_database_configuration.go.
use fdb_kubernetes_operator.Common.{
  ◌≡◌, ◌⊎◌, inl, inr, refl, sym, ap, ◌∙◌, String, true, false, ◌&&◌, List, [], ◌∷◌, ◌++◌,
  if◌then◌else◌, All, Member, arith, Bool-cases,
}
use fdb_kubernetes_operator.Common.Int.{ℤ, min_int, ltb_ℤ, ◌≤ℤ◌, ◌<ℤ◌}
use fdb_kubernetes_operator.Database.{DataCenter, Region}
use fdb_kubernetes_operator.Database.DataCenters.{
  is_main, all_data_centers, primary_of_data_centers, primary_of_regions, primary_dc_id,
}

-- The main data centers have at most this priority.
abbrev AtMost : ℤ → List DataCenter → Type 0
AtMost n dcs = All (λ dc. is_main dc ≡ true → dc.priority ≤ℤ n) dcs

-- The ID is that of a main data center that no other one exceeds in priority.
pub record IsPrimary (id : String) (dcs : List DataCenter) : Type 0 where
  pub dc : DataCenter
  pub member : Member dc dcs
  pub main : is_main dc ≡ true
  pub same_id : id ≡ dc.id
  pub highest : AtMost dc.priority dcs

abbrev Best : String × ℤ → List DataCenter → String × ℤ → Type 0
Best best dcs r =
    (r ≡ best) × AtMost best.1 dcs
    ⊎ ((dc : DataCenter) × Member dc dcs
        × (is_main dc ≡ true)
        × (r ≡ (dc.id, dc.priority))
        × (best.1 <ℤ dc.priority)
        × AtMost dc.priority dcs)

primary_of_data_centers-append :
    (best : String × ℤ) (xs ys : List DataCenter)
    → primary_of_data_centers best (xs ++ ys)
      ≡ primary_of_data_centers (primary_of_data_centers best xs) ys
unfolding primary_of_data_centers
primary_of_data_centers-append best [] ys = refl
primary_of_data_centers-append best (x ∷ xs) ys =
    primary_of_data_centers-append
      (if is_main x && ltb_ℤ best.1 x.priority then (x.id, x.priority) else best) xs ys

primary_of_regions-all :
    (best : String × ℤ) (rs : List Region)
    → primary_of_regions best rs ≡ primary_of_data_centers best (all_data_centers rs)
unfolding primary_of_regions primary_of_data_centers
primary_of_regions-all best [] = refl
primary_of_regions-all best (r ∷ rs) =
    primary_of_regions-all (primary_of_data_centers best r.data_centers) rs
    ∙ sym (primary_of_data_centers-append best r.data_centers (all_data_centers rs))

primary_of_data_centers-Best :
    (best : String × ℤ) (dcs : List DataCenter) → Best best dcs (primary_of_data_centers best dcs)
unfolding primary_of_data_centers
primary_of_data_centers-Best best [] = inl (refl, tt)
primary_of_data_centers-Best best (x ∷ dcs) =
    elim (Bool-cases (is_main x && ltb_ℤ best.1 x.priority)) [
      | inl e ↦ rw e (elim (primary_of_data_centers-Best (x.id, x.priority) dcs) [
        | inl (r, a) ↦
            inr (x, inl refl, ground (arith, e), r, ground (arith, e), ((λ m. omega arith), a))
        | inr (dc, m, main, r, l, a) ↦
            inr (dc, inr m, main, r, ground (arith, e, l), ((λ m. ground (arith, l)), a))
      ])
      | inr e ↦ rw e (elim (primary_of_data_centers-Best best dcs) [
        | inl (r, a) ↦ inl (r, ((λ m. ground (arith, e, m)), a))
        | inr (dc, m, main, r, l, a) ↦
            inr (dc, inr m, main, r, l, ((λ m. ground (arith, e, m, l)), a))
      ])
    ]

no_main :
    (dcs : List DataCenter)
    → All (λ dc. min_int <ℤ dc.priority) dcs
    → AtMost min_int dcs
    → All (λ dc. is_main dc ≡ false) dcs
no_main [] h a = tt
no_main (x ∷ dcs) (l, h) (m, a) = (
  elim (Bool-cases (is_main x)) [ inl e ↦ absurd (omega (arith, l, m e)) | inr e ↦ e ],
  no_main dcs h a,
)

-- The primary data center is a main data center with the highest priority of all main data centers of the
-- regions. Without a main data center it is the empty text. The priorities are above the least int.
pub primary_dc_id-IsPrimary :
    (regions : List Region)
    → All (λ dc. min_int <ℤ dc.priority) (all_data_centers regions)
    → IsPrimary (primary_dc_id regions) (all_data_centers regions)
      ⊎ (primary_dc_id regions ≡ "") × All (λ dc. is_main dc ≡ false) (all_data_centers regions)
unfolding primary_dc_id
primary_dc_id-IsPrimary regions h =
    let same = ap (λ (r : String × ℤ). r.0) (primary_of_regions-all ("", min_int) regions) in
    elim (primary_of_data_centers-Best ("", min_int) (all_data_centers regions)) [
      | inl (r, a) ↦
          inr (same ∙ ap (λ (r : String × ℤ). r.0) r, no_main (all_data_centers regions) h a)
      | inr (dc, m, main, r, l, a) ↦ inl (record {
        dc = dc;
        member = m;
        main = main;
        same_id = same ∙ ap (λ (r : String × ℤ). r.0) r;
        highest = a;
      })
    ]
