-- ===== src/Lock/DenyList.antt =====
-- What UpdateDenyList of the lock client does to the deny list and to the lock.
use text.Mathlib.Text.{starts_with}
use fdb_kubernetes_operator.Common.{
  ◌≡◌, refl, String, Bool, true, false, not, none, some, List, [], ◌∷◌, arith, if◌then◌else◌, ◌==◌,
  string_eq, is_some, lookup, lookup-insert, lookup-delete, eq_iff, eq_refl, contains, All,
}
use fdb_kubernetes_operator.Common.Int.{int_eq}
use fdb_kubernetes_operator.Lock.Keys.{
  lock_key, get_deny_list_key, lock_key-ne-deny_list_key, get_deny_list_key-injective,
  deny_list_prefix, starts_with-deny_list_key,
}
use fdb_kubernetes_operator.Lock.{
  TupleLayer, Client, Database, read_lock, is_denied, apply_entry, apply_entries, update_deny_list,
  get_deny_list,
}
use fdb_kubernetes_operator.Lock.Transactions.{current_lock}

module _ (layer : TupleLayer) where
  open layer use {of_text}

  -- Each key of the deny list holds the identifier that it is for, as UpdateDenyList writes it.
  abbrev pub DenyListIsValid : Client → Database layer → Type 0
  DenyListIsValid c db =
      All
        (λ kv.
          starts_with kv.0 (deny_list_prefix c.prefix) ≡ true
          → kv.0 ≡ get_deny_list_key c.prefix (layer.to_text kv.1))
        db

  contains-get_deny_list :
      (c : Client) (db : Database layer) (id : String)
      → DenyListIsValid c db
      → contains (get_deny_list layer c db) id ≡ is_denied layer c db id
  unfolding get_deny_list is_denied
  contains-get_deny_list c [] id v = refl
  contains-get_deny_list c ((k, b) ∷ db) id v = ground (
    arith,
    contains-get_deny_list c db id v.1,
    v.0,
    eq_iff k (get_deny_list_key c.prefix id),
    eq_iff (layer.to_text b) id,
    starts_with-deny_list_key c.prefix id,
    get_deny_list_key-injective c.prefix (layer.to_text b) id,
  )

  is_denied-apply_entry :
      (c : Client) (denied : List String) (db : Database layer) (id j : String) (allow : Bool)
      → contains denied id ≡ is_denied layer c db id
      → is_denied layer c (apply_entry layer c denied db (id, allow)) j
        ≡ (if id == j then not allow else is_denied layer c db j)
  unfolding apply_entry is_denied
  is_denied-apply_entry c denied db id j true h = ground (
    arith,
    lookup-delete (get_deny_list_key c.prefix id) (get_deny_list_key c.prefix j) db,
    eq_iff (get_deny_list_key c.prefix id) (get_deny_list_key c.prefix j),
    eq_iff id j,
    get_deny_list_key-injective c.prefix id j,
  )
  is_denied-apply_entry c denied db id j false h = ground (
    arith,
    lookup-insert (get_deny_list_key c.prefix id) (get_deny_list_key c.prefix j) (of_text id) db,
    eq_iff (get_deny_list_key c.prefix id) (get_deny_list_key c.prefix j),
    eq_iff id j,
    get_deny_list_key-injective c.prefix id j,
  )

  -- No identifier has two entries.
  abbrev pub DistinctEntries : List (String × Bool) → Type 0
  DistinctEntries [] = Unit {0}
  DistinctEntries ((id, allow) ∷ es) = (lookup id es ≡ none) × DistinctEntries es

  is_denied-apply_entries :
      (c : Client) (denied : List String) (db : Database layer) (es : List (String × Bool))
      (j : String)
      → DistinctEntries es
      → ((id : String)
          → is_some (lookup id es) ≡ true
          → contains denied id ≡ is_denied layer c db id)
      → is_denied layer c (apply_entries layer c denied db es) j
        ≡ (elim (lookup j es) [ none ↦ is_denied layer c db j | some allow ↦ not allow ])
  unfolding apply_entries
  is_denied-apply_entries c denied db [] j d h = refl
  is_denied-apply_entries c denied db ((id, allow) ∷ es) j d h =
      let step = λ (k : String).
        is_denied-apply_entry c denied db id k allow (h id (ground (arith, eq_refl id))) in
      ground (
        arith,
        step j,
        eq_iff id j,
        d,
        is_denied-apply_entries c denied (apply_entry layer c denied db (id, allow)) es j d.1
            (λ k e. ground (arith, step k, h k, eq_iff id k, d.0, e)),
      )

  -- After UpdateDenyList with a list of entries an instance with an entry is denied exactly if its entry
  -- does not allow it, and an instance with no entry is denied exactly if it was before.
  pub is_denied-update_deny_list :
      (c : Client) (entries : List (String × Bool)) (db : Database layer) (id : String)
      → DenyListIsValid c db
      → DistinctEntries entries
      → is_denied layer c (update_deny_list layer c entries db) id
        ≡ (elim (lookup id entries) [ none ↦ is_denied layer c db id | some allow ↦ not allow ])
  unfolding update_deny_list
  is_denied-update_deny_list c entries db id v d =
      is_denied-apply_entries c (get_deny_list layer c db) db entries id d
        (λ k _. contains-get_deny_list c db k v)

  read_lock-apply_entries :
      (c : Client) (denied : List String) (db : Database layer) (es : List (String × Bool))
      → read_lock layer c (apply_entries layer c denied db es) ≡ read_lock layer c db
  unfolding apply_entries read_lock
  read_lock-apply_entries c denied db [] = refl
  read_lock-apply_entries c denied db ((id, allow) ∷ es) = ground (
    arith,
    read_lock-apply_entries c denied (apply_entry layer c denied db (id, allow)) es,
    lookup-delete (get_deny_list_key c.prefix id) (lock_key c.prefix) db,
    lookup-insert (get_deny_list_key c.prefix id) (lock_key c.prefix) (of_text id) db,
    eq_iff (get_deny_list_key c.prefix id) (lock_key c.prefix),
    lock_key-ne-deny_list_key c.prefix id,
  )

  -- The lock is untouched by updates of the deny list.
  pub current_lock-update_deny_list :
      (c : Client) (entries : List (String × Bool)) (db : Database layer)
      → current_lock layer c (update_deny_list layer c entries db) ≡ current_lock layer c db
  unfolding update_deny_list
  current_lock-update_deny_list c entries db =
      rw (read_lock-apply_entries c (get_deny_list layer c db) db entries, current_lock)
