-- ===== src/Lock/Exclusive.antt =====
-- Operator instances that share a database, as interleavings of their transactions under one clock.
use fdb_kubernetes_operator.Common.{
  ◌≡◌, String, Bool, false, Option, none, some, List, arith, if◌then◌else◌, ◌==◌, string_eq,
  Bool-cases, inl, inr, eq_iff, sym, ◌∙◌,
}
use fdb_kubernetes_operator.Common.Int.{ℤ, pos, ◌+ℤ◌, ◌≤ℤ◌, int_eq}
use fdb_kubernetes_operator.ProcessGroup.{Instant}
use fdb_kubernetes_operator.Lock.{
  TupleLayer, Client, ok, Database, is_denied, take_lock, release_lock, update_deny_list,
}
use fdb_kubernetes_operator.Lock.Transactions.{
  current_lock, take_lock_taken, is_denied-take_lock, release_lock_lem, current_lock_prefix,
  is_denied_prefix, is_denied-release_lock,
}
use fdb_kubernetes_operator.Lock.DenyList.{current_lock-update_deny_list}

module _ (layer : TupleLayer) where
  -- The database, the clock, and for each operator instance the end of the lock that it holds as far as
  -- it knows: what its last TakeLock returned, unless it has released the lock or was denied since.
  pub record System : Type 0 where
    pub db : Database layer
    pub now : Instant
    pub lease : String → Option ℤ

  abbrev set_lease : (String → Option ℤ) → String → Option ℤ → String → Option ℤ
  set_lease f id v j = if id == j then v else f j

  -- Denying an instance ends its lease.
  abbrev revoke : Client → Database layer → (String → Option ℤ) → String → Option ℤ
  revoke c db f j = if is_denied layer c db j then none else f j

  -- One transaction of an instance that shares the prefix, or the passing of time. An instance that is on
  -- the deny list takes no lock.
  pub data Step (prefix : String) (s : System) : System → Type 0 where
    wait : (now : Instant) → s.now.seconds ≤ℤ now.seconds → Step prefix s (record s { now = now })
    take :
        (c : Client) (db : Database layer)
        → c.prefix ≡ prefix
        → c.disable_locks ≡ false
        → is_denied layer c s.db c.owner_id ≡ false
        → take_lock layer c s.now s.db ≡ ok db
        → Step prefix s (record s {
          db = db;
          lease = set_lease s.lease c.owner_id (some (s.now.seconds +ℤ c.duration));
        })
    release :
        (c : Client) (db : Database layer)
        → c.prefix ≡ prefix
        → c.disable_locks ≡ false
        → release_lock layer c s.now s.db ≡ ok db
        → Step prefix s (record s { db = db; lease = set_lease s.lease c.owner_id none })
    deny :
        (c : Client) (entries : List (String × Bool))
        → c.prefix ≡ prefix
        → Step prefix s (record s {
          db = update_deny_list layer c entries s.db;
          lease = revoke c (update_deny_list layer c entries s.db) s.lease;
        })

  pub data Reach (prefix : String) (s : System) : System → Type 0 where
    here : Reach prefix s s
    next : {t u : System} → Reach prefix s t → Step prefix t u → Reach prefix s u

  -- The view of the database through any client with the prefix.
  abbrev viewer : String → Client
  viewer prefix = record { prefix = prefix; owner_id = ""; duration = pos 0; disable_locks = false }

  -- An instance with a lease that has not run out is not denied, and its lock is the one in the database.
  pub record Inv (prefix : String) (s : System) : Type 0 where
    pub allowed :
        (id : String) (e : ℤ)
        → s.lease id ≡ some e
        → is_denied layer (viewer prefix) s.db id ≡ false
    pub held :
        (id : String) (e : ℤ)
        → s.lease id ≡ some e
        → s.now.seconds ≤ℤ e
        → (start : ℤ) × (current_lock layer (viewer prefix) s.db
            ≡ some (record { owner = id; start = start; end = e }))

  module _ {prefix : String} {s : System} (v : Inv prefix s) where
    take-held :
        (c : Client) (db : Database layer) (id : String) (e : ℤ)
        → c.prefix ≡ prefix
        → c.disable_locks ≡ false
        → take_lock layer c s.now s.db ≡ ok db
        → set_lease s.lease c.owner_id (some (s.now.seconds +ℤ c.duration)) id ≡ some e
        → s.now.seconds ≤ℤ e
        → (start : ℤ) × (current_lock layer (viewer prefix) db
            ≡ some (record { owner = id; start = start; end = e }))
    take-held c db id e same on h l live =
        let ((start, new), before) = take_lock_taken layer c s.now s.db db on h in
        elim (Bool-cases (c.owner_id == id)) [
          | inl own ↦ (
            start,
            ground (
              arith,
              own,
              eq_iff c.owner_id id,
              l,
              new,
              current_lock_prefix layer c (viewer prefix) db (sym same),
            ),
          )
          | inr other ↦
              let (start', old) = v.held id e (ground (arith, other, l)) live in
              absurd (
                ground (
                  arith,
                  other,
                  l,
                  live,
                  old,
                  before,
                  eq_iff id c.owner_id,
                  eq_iff c.owner_id id,
                  v.allowed id e,
                  current_lock_prefix layer c (viewer prefix) s.db (sym same),
                  is_denied_prefix layer c (viewer prefix) s.db id (sym same),
                ))
        ]

    release-held :
        (c : Client) (db : Database layer) (id : String) (e : ℤ)
        → c.prefix ≡ prefix
        → c.disable_locks ≡ false
        → release_lock layer c s.now s.db ≡ ok db
        → set_lease s.lease c.owner_id none id ≡ some e
        → s.now.seconds ≤ℤ e
        → (start : ℤ) × (current_lock layer (viewer prefix) db
            ≡ some (record { owner = id; start = start; end = e }))
    release-held c db id e same on h l live = elim (Bool-cases (c.owner_id == id)) [
      | inl own ↦ absurd (ground (arith, own, l))
      | inr other ↦
          let (start, old) = v.held id e (ground (arith, other, l)) live in
          let seen = current_lock_prefix layer c (viewer prefix) s.db (sym same) in
          let (after, _) = release_lock_lem layer c s.now s.db db _ on (sym seen ∙ old) h in
          (start, ground (arith, other, old, after, eq_iff id c.owner_id, eq_iff c.owner_id id))
    ]

    deny-held :
        (c : Client) (entries : List (String × Bool)) (id : String) (e : ℤ)
        → c.prefix ≡ prefix
        → revoke c (update_deny_list layer c entries s.db) s.lease id ≡ some e
        → s.now.seconds ≤ℤ e
        → (start : ℤ) × (current_lock layer (viewer prefix) (update_deny_list layer c entries s.db)
            ≡ some (record { owner = id; start = start; end = e }))
    deny-held c entries id e same l live =
        let (start, old) = v.held id e (ground (arith, l)) live in
        (
          start,
          current_lock_prefix layer c (viewer prefix) (update_deny_list layer c entries s.db)
                (sym same)
              ∙ current_lock-update_deny_list layer c entries s.db
              ∙ sym (current_lock_prefix layer c (viewer prefix) s.db (sym same))
              ∙ old,
        )

    release-allowed :
        (c : Client) (db : Database layer) (id : String)
        → c.prefix ≡ prefix
        → c.disable_locks ≡ false
        → release_lock layer c s.now s.db ≡ ok db
        → is_denied layer c db id ≡ is_denied layer c s.db id
    release-allowed c db id same on h = is_denied-release_lock layer c s.now s.db db id h

  lease_allowed :
      (prefix : String) (s : System)
      → Inv prefix s
      → (c : Client) (id : String) (e end : ℤ) → c.prefix ≡ prefix
      → is_denied layer c s.db c.owner_id ≡ false
      → set_lease s.lease c.owner_id (some end) id ≡ some e
      → is_denied layer (viewer prefix) s.db id ≡ false
  lease_allowed prefix s v c id e end same free l = elim (Bool-cases (c.owner_id == id)) [
    | inl own ↦
        rw (← (eq_iff c.owner_id id).0 own)
          (is_denied_prefix layer c (viewer prefix) s.db c.owner_id (sym same) ∙ free)
    | inr other ↦ v.allowed id e (ground (arith, other, l))
  ]

  start-Inv : (prefix : String) (s : System) → ((id : String) → s.lease id ≡ none) → Inv prefix s
  start-Inv prefix s empty = record {
    allowed = λ id e l. cc (empty id);
    held = λ id e l live. absurd (cc (empty id));
  }

  Step-Inv : {prefix : String} {s t : System} → Step prefix s t → Inv prefix s → Inv prefix t
  Step-Inv (wait now le) v = record {
    allowed = v.allowed;
    held = λ id e l live. v.held id e l (omega (arith, le, live));
  }
  Step-Inv {prefix} {s} (take c db same on free h) v = record {
    allowed = λ id e l.
        is_denied_prefix layer c (viewer prefix) db id (sym same)
        ∙ is_denied-take_lock layer c s.now s.db db id h
        ∙ sym (is_denied_prefix layer c (viewer prefix) s.db id (sym same))
        ∙ lease_allowed prefix s v c id e (s.now.seconds +ℤ c.duration) same free l;
    held = λ id e. take-held v c db id e same on h;
  }
  Step-Inv {prefix} {s} (release c db same on h) v = record {
    allowed = λ id e l.
        is_denied_prefix layer c (viewer prefix) db id (sym same)
        ∙ release-allowed v c db id same on h
        ∙ sym (is_denied_prefix layer c (viewer prefix) s.db id (sym same))
        ∙ v.allowed id e (ground (arith, l));
    held = λ id e. release-held v c db id e same on h;
  }
  Step-Inv {prefix} {s} (deny c entries same) v = record {
    allowed = λ id e l.
        is_denied_prefix layer c (viewer prefix) (update_deny_list layer c entries s.db) id
          (sym same)
        ∙ ground (arith, l);
    held = λ id e. deny-held v c entries id e same;
  }

  Reach-Inv : {prefix : String} {s t : System} → Reach prefix s t → Inv prefix s → Inv prefix t
  Reach-Inv here v = v
  Reach-Inv (next r st) v = Step-Inv st (Reach-Inv r v)

  -- Mutual exclusion. From a state in which no instance has a lease, through every interleaving of
  -- TakeLock by instances that are not on the deny list, ReleaseLock, UpdateDenyList and the passing of
  -- time, two instances with one key prefix never have leases at once: where both have one that has not
  -- run out, they are the same.
  pub mutual_exclusion :
      {prefix : String} {s t : System}
      → ((id : String) → s.lease id ≡ none)
      → Reach prefix s t
      → (a b : String) (ea eb : ℤ) → t.lease a ≡ some ea
      → t.lease b ≡ some eb
      → t.now.seconds ≤ℤ ea
      → t.now.seconds ≤ℤ eb
      → a ≡ b
  mutual_exclusion {prefix} {s} {t} empty r a b ea eb la lb live_a live_b =
      let v = Reach-Inv r (start-Inv prefix s empty) in
      let (_, ha) = v.held a ea la live_a in let (_, hb) = v.held b eb lb live_b in cc (ha, hb)
