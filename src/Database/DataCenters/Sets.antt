-- ===== src/Database/DataCenters/Sets.antt =====
-- GetMainDCsAndSatellites and CountUniqueDataCenters of
-- api/v1beta2/foundationdb_database_configuration.go.
use fdb_kubernetes_operator.Common.{
  ◌+◌, ◌≡◌, refl, sym, String, Bool, not, ◌&&◌, ◌||◌, List, [], ◌∷◌, ◌++◌, if◌then◌else◌, ◌==◌,
  string_eq, length, contains, any, any-append, append-nil, append_assoc, NoDuplicates, arith,
  eq_iff,
}
use fdb_kubernetes_operator.Database.{DataCenter, Region}
use fdb_kubernetes_operator.Database.DataCenters.{
  is_main, all_data_centers, add_id, delete_id, sets_of_data_centers, sets_of_regions,
  main_dcs_and_satellites, ids_of_data_centers, ids_of_regions, count_unique_data_centers,
}

contains-delete_id :
    (k j : String) (keys : List String)
    → contains (delete_id k keys) j ≡ (not (k == j) && contains keys j)
unfolding delete_id
contains-delete_id k j [] = ground (arith, eq_iff k j)
contains-delete_id k j (i ∷ keys) =
    ground (arith, eq_iff i k, eq_iff i j, eq_iff k j, contains-delete_id k j keys)

delete_id-NoDuplicates :
    (k : String) (keys : List String) → NoDuplicates keys → NoDuplicates (delete_id k keys)
unfolding delete_id
delete_id-NoDuplicates k [] d = tt
delete_id-NoDuplicates k (i ∷ keys) (n, d) =
    ground (arith, n, contains-delete_id k i keys, delete_id-NoDuplicates k keys d)

length-delete_id :
    (k : String) (keys : List String)
    → NoDuplicates keys
    → length (delete_id k keys) + (if contains keys k then 1 else 0) ≡ length keys
unfolding delete_id
length-delete_id k [] d = refl
length-delete_id k (i ∷ keys) (n, d) = ground (arith, n, eq_iff i k, length-delete_id k keys d)

abbrev pub some_main : List DataCenter → String → Bool
some_main dcs k = any (λ dc. is_main dc && dc.id == k) dcs

abbrev pub some_satellite : List DataCenter → String → Bool
some_satellite dcs k = any (λ dc. not (is_main dc) && dc.id == k) dcs

-- What the loops keep, when they have gone through these data centers.
record Divided (dcs : List DataCenter) (s : List String × List String) (ids : List String)
    : Type 0 where
  mains : (k : String) → contains s.0 k ≡ some_main dcs k
  satellites : (k : String) → contains s.1 k ≡ (some_satellite dcs k && not (some_main dcs k))
  all : (k : String) → contains ids k ≡ (contains s.0 k || contains s.1 k)
  size : length ids ≡ length s.0 + length s.1
  no_duplicates : NoDuplicates s.1

abbrev step : List String × List String → DataCenter → List String × List String
step s dc =
    if is_main dc
    then (add_id dc.id s.0, delete_id dc.id s.1)
    else if contains s.0 dc.id
    then s
    else (s.0, add_id dc.id s.1)

some_main-snoc :
    (dcs : List DataCenter) (dc : DataCenter) (k : String)
    → some_main (dcs ++ dc ∷ []) k ≡ (some_main dcs k || (is_main dc && dc.id == k))
some_main-snoc dcs dc k =
    ground (arith, any-append (λ (d : DataCenter). is_main d && d.id == k) dcs (dc ∷ []))

some_satellite-snoc :
    (dcs : List DataCenter) (dc : DataCenter) (k : String)
    → some_satellite (dcs ++ dc ∷ []) k ≡ (some_satellite dcs k || (not (is_main dc) && dc.id == k))
some_satellite-snoc dcs dc k =
    ground (arith, any-append (λ (d : DataCenter). not (is_main d) && d.id == k) dcs (dc ∷ []))

step-Divided :
    (dcs : List DataCenter) (dc : DataCenter) (s : List String × List String) (ids : List String)
    → Divided dcs s ids
    → Divided (dcs ++ dc ∷ []) (step s dc) (add_id dc.id ids)
step-Divided dcs dc s ids d = record {
  mains = λ k. ground (arith, some_main-snoc dcs dc k, d.mains k, d.mains dc.id, eq_iff dc.id k);
  satellites = λ k. ground (
    arith,
    some_main-snoc dcs dc k,
    some_satellite-snoc dcs dc k,
    d.mains k,
    d.mains dc.id,
    d.satellites k,
    contains-delete_id dc.id k s.1,
    eq_iff dc.id k,
  );
  all = λ k. ground (arith, d.all k, d.all dc.id, contains-delete_id dc.id k s.1, eq_iff dc.id k);
  size = ground (
    arith,
    d.size,
    d.all dc.id,
    d.mains dc.id,
    d.satellites dc.id,
    length-delete_id dc.id s.1 d.no_duplicates,
  );
  no_duplicates = ground (arith, d.no_duplicates, delete_id-NoDuplicates dc.id s.1 d.no_duplicates);
}

loop-Divided :
    (dcs rest : List DataCenter) (s : List String × List String) (ids : List String)
    → Divided dcs s ids
    → Divided (dcs ++ rest) (sets_of_data_centers s rest) (ids_of_data_centers ids rest)
unfolding sets_of_data_centers ids_of_data_centers
loop-Divided dcs [] s ids d = rw (append-nil dcs) d
loop-Divided dcs (dc ∷ rest) s ids d = rw (sym (append_assoc dcs (dc ∷ []) rest)) (
    loop-Divided (dcs ++ dc ∷ []) rest (step s dc) (add_id dc.id ids) (step-Divided dcs dc s ids d))

regions-Divided :
    (dcs : List DataCenter) (rs : List Region) (s : List String × List String) (ids : List String)
    → Divided dcs s ids
    → Divided (dcs ++ all_data_centers rs) (sets_of_regions s rs) (ids_of_regions ids rs)
unfolding sets_of_regions ids_of_regions
regions-Divided dcs [] s ids d = rw (append-nil dcs) d
regions-Divided dcs (r ∷ rs) s ids d =
    rw (sym (append_assoc dcs r.data_centers (all_data_centers rs))) (
      regions-Divided (dcs ++ r.data_centers) rs (sets_of_data_centers s r.data_centers)
        (ids_of_data_centers ids r.data_centers) (loop-Divided dcs r.data_centers s ids d))

start-Divided : Divided [] ([], []) []
start-Divided = record {
  mains = λ k. refl;
  satellites = λ k. refl;
  all = λ k. refl;
  size = refl;
  no_duplicates = tt;
}

-- The main data centers are the IDs that some data center has as a main one, in whatever region it stands;
-- the satellites are the IDs that occur as satellites only. So no ID is in both sets, and
-- CountUniqueDataCenters counts the one set and the other.
pub main_dcs_and_satellites_lem :
    (regions : List Region)
    → let sets = main_dcs_and_satellites regions in
      let dcs = all_data_centers regions in
      ((k : String)
        → (contains sets.0 k ≡ some_main dcs k)
          × (contains sets.1 k ≡ (some_satellite dcs k && not (some_main dcs k))))
      × (count_unique_data_centers regions ≡ length sets.0 + length sets.1)
unfolding count_unique_data_centers
main_dcs_and_satellites_lem regions =
    let d = regions-Divided [] regions ([], []) [] start-Divided in
    (λ k. (d.mains k, d.satellites k), d.size)
