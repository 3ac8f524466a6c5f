-- ===== src/Lock/Keys.antt =====
-- The keys of the lock client and the lock options of a cluster: getDenyListKey, the lock key and the
-- prefixes of fdbclient/lock_client.go, and GetLockPrefix, GetLockDuration, GetLockID and ShouldUseLocks of
-- api/v1beta2/foundationdbcluster_types.go.
use Prim.Native.Char.{Char, code}
use Prim.Native.String.{◌++◌}
use text.Mathlib.Text.{starts_with}
use text.Mathlib.TextPositions.{starts_with-append}
use text.Mathlib.TextLemmas.{
  append_cancel_left, append_assoc, cons-append, head-eq_of_cons-eq, tail-eq_of_cons-eq,
}
use fdb_kubernetes_operator.Common.{
  ℕ, ◌+◌, ◌*◌, ◌≡◌, ap, ◌∙◌, String, Bool, true, ◌||◌, not, Option, none, some, arith,
  if◌then◌else◌, ◌==◌, string_eq, ltb, deref,
}
use fdb_kubernetes_operator.Common.Int.{ℤ, pos, negsuc, ltb_ℤ, wrap64}

-- The parts of the cluster's spec that the locks depend on.
pub record LockSpec : Type 0 where
  pub disable_locks : Option Bool
  pub lock_key_prefix : String
  pub lock_duration_minutes : Option ℤ
  pub process_group_id_prefix : String
  pub zone_count : ℤ
  pub region_count : ℕ
  pub redundancy_mode : String

unfoldable pub should_use_locks : LockSpec → Bool
should_use_locks s = elim s.disable_locks [
  | some disabled ↦ not disabled
  | none ↦
      (ltb_ℤ (pos 1) s.zone_count || ltb 1 s.region_count) || s.redundancy_mode == "three_data_hall"
]

-- The default begins with the bytes 0xff and 0x02, which stand outside of the texts of the model.
unfoldable pub get_lock_prefix : String → LockSpec → String
get_lock_prefix default_prefix s =
    if not (s.lock_key_prefix == "") then s.lock_key_prefix else default_prefix

-- `time.Duration(n) * time.Minute`, nanoseconds in an int64 that wraps around.
abbrev minutes : ℤ → ℤ
minutes (pos n) = wrap64 (pos (n * 60_000_000_000))
minutes (negsuc n) = wrap64 (negsuc (n * 60_000_000_000 + 59_999_999_999))

-- The duration, in nanoseconds.
unfoldable pub get_lock_duration : LockSpec → ℤ
get_lock_duration s = minutes (deref s.lock_duration_minutes (pos 10))

unfoldable pub get_lock_id : LockSpec → String
get_lock_id s = s.process_group_id_prefix

unfoldable pub lock_key : String → String
lock_key prefix = prefix ++ "/global"

unfoldable pub deny_list_prefix : String → String
deny_list_prefix prefix = prefix ++ "/denyList/"

unfoldable pub get_deny_list_key : String → String → String
unfolding deny_list_prefix
get_deny_list_key prefix id = deny_list_prefix prefix ++ id

unfoldable pub upgrades_prefix : String → String
upgrades_prefix prefix = prefix ++ "/upgrades/"

unfoldable pub upgrade_key : String → String → String → String
unfolding upgrades_prefix
upgrade_key prefix version id = ((upgrades_prefix prefix ++ version) ++ "/") ++ id

global_not_deny : (s : String) → "/global" ≡ "/denyList/" ++ s → ⊥
global_not_deny s e = absurd (omega (arith, ap code first))
  where
    rest : "global" ≡ "denyList/" ++ s
    rest = tail-eq_of_cons-eq {x = "/"} {y = "/"} (e ∙ cons-append "/" "denyList/" s)

    first : ◌≡◌ {A = Char} "g" "d"
    first = head-eq_of_cons-eq {xs = "lobal"} (rest ∙ cons-append "d" "enyList/" s)

-- The lock key is no key of the deny list.
pub lock_key-ne-deny_list_key :
    (prefix id : String) → lock_key prefix ≡ get_deny_list_key prefix id → ⊥
unfolding lock_key get_deny_list_key
lock_key-ne-deny_list_key prefix id e = global_not_deny id (
    append_cancel_left prefix "/global" ("/denyList/" ++ id)
      (e ∙ append_assoc prefix "/denyList/" id))

-- Two identifiers have two keys.
pub get_deny_list_key-injective :
    (prefix a b : String) → get_deny_list_key prefix a ≡ get_deny_list_key prefix b → a ≡ b
unfolding get_deny_list_key
get_deny_list_key-injective prefix a b e = append_cancel_left (prefix ++ "/denyList/") a b e

-- The keys of the deny list are in its range.
pub starts_with-deny_list_key :
    (prefix id : String)
    → starts_with (get_deny_list_key prefix id) (deny_list_prefix prefix) ≡ true
unfolding get_deny_list_key
starts_with-deny_list_key prefix id = starts_with-append (deny_list_prefix prefix) id
