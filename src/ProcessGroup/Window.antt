-- ===== src/ProcessGroup/Window.antt =====
-- Where a window of time ends in the past: the expressions time.Now().Add(-d).Unix() of NeedsReplacementWithConditions in
-- api/v1beta2/foundationdbcluster_types.go. A time.Duration is a number of nanoseconds in an int64, and wraps around.
use fdb_kubernetes_operator.Common.{
  ℕ, zero, suc, ◌+◌, ◌-◌, ◌*◌, ◌/◌, ◌≤◌, ◌<◌, ltb, ◌≡◌, arith, if◌then◌else◌,
}
use fdb_kubernetes_operator.Common.Int.{ℤ, pos, negsuc, wrap64, pos_part, neg_part, ◌+ℤ◌, ◌-ℤ◌}
use fdb_kubernetes_operator.ProcessGroup.{Instant}

-- `time.Duration(n) * time.Second`
abbrev duration_of : ℤ → ℤ
duration_of (pos n) = wrap64 (pos (n * 1_000_000_000))
duration_of (negsuc n) = wrap64 (negsuc (n * 1_000_000_000 + 999_999_999))

-- The whole seconds, rounded down, of a duration and the nanoseconds of a point in time.
abbrev whole_seconds : ℕ → ℤ → ℤ
whole_seconds nanos (pos n) = pos ((n + nanos) / 1_000_000_000)
whole_seconds nanos (negsuc n) =
    if ltb n nanos
    then pos ((nanos - n - 1) / 1_000_000_000)
    else negsuc ((n - nanos) / 1_000_000_000)

-- `time.Now().Add(-1 * time.Duration(t) * time.Second).Unix()`
unfoldable pub window_start : Instant → ℤ → ℤ
unfolding ◌-ℤ◌
window_start now t = now.seconds +ℤ whole_seconds now.nanos (duration_of (pos 0 -ℤ t))

-- A number of seconds that fits into a time.Duration: 292 years.
abbrev pub IsDuration : ℤ → Type 0
IsDuration t = (pos_part t ≤ 9_223_372_036) × (neg_part t ≤ 9_223_372_036)

pub window_start_lem :
    (now : Instant) (t : ℤ)
    → now.nanos < 1_000_000_000
    → IsDuration t
    → window_start now t ≡ now.seconds -ℤ t
unfolding window_start ◌-ℤ◌ ◌+ℤ◌
window_start_lem now (pos zero) h d = ground (arith, h)
window_start_lem now (pos (suc k)) h d = ground (arith, h, d)
window_start_lem now (negsuc k) h d = ground (arith, h, d)
