-- ===== src/Database/Configuration/Roles.antt =====
-- GetRoleCountsWithDefaults of api/v1beta2/foundationdb_database_configuration.go.
use fdb_kubernetes_operator.Common.{
  ◌≡◌, ◌≢◌, ◌⊎◌, inl, inr, ◌∙◌, true, false, string_eq, arith, Bool-cases,
}
use fdb_kubernetes_operator.Common.Int.{ℤ, pos, negsuc, ◌+ℤ◌, int_eq}
use fdb_kubernetes_operator.Database.Configuration.{
  RoleCounts, Configuration, role_counts_with_defaults, default_log_count,
  are_separated_proxies_configured,
}

-- Either the old proxies alone are asked for, or GRV and commit proxies and not the old ones.
abbrev pub HasProxies : RoleCounts → Type 0
HasProxies r =
    (r.proxies ≢ pos 0) × (r.grv_proxies ≡ pos 0) × (r.commit_proxies ≡ pos 0)
    ⊎ (r.proxies ≡ pos 0) × (r.grv_proxies ≢ pos 0) × (r.commit_proxies ≢ pos 0)

-- Every role has a count that is set: a number of processes, or -1 for none.
abbrev pub IsComplete : RoleCounts → Type 0
IsComplete r =
    (r.storage ≢ pos 0)
    × (r.logs ≢ pos 0)
    × (r.resolvers ≢ pos 0)
    × (r.remote_logs ≢ pos 0)
    × (r.log_routers ≢ pos 0)
    × HasProxies r

proxies_separated :
    (c : Configuration) (n : ℤ)
    → are_separated_proxies_configured c ≡ true
    → HasProxies (role_counts_with_defaults c n)
unfolding role_counts_with_defaults
proxies_separated c n e = ground (arith, e)

proxies_joined :
    (c : Configuration) (n : ℤ)
    → are_separated_proxies_configured c ≡ false
    → HasProxies (role_counts_with_defaults c n)
unfolding role_counts_with_defaults
proxies_joined c n e = ground (arith, e)

-- 2n + 1 is odd, with the wrap-around too.
odd : (n : ℤ) → n +ℤ n +ℤ pos 1 ≢ pos 0
unfolding ◌+ℤ◌
odd (pos n) = ground arith
odd (negsuc n) = ground arith

storage_set : (c : Configuration) (n : ℤ) → (role_counts_with_defaults c n).storage ≢ pos 0
unfolding role_counts_with_defaults
storage_set c n = ground (arith, odd n)

-- The counts that are configured.
abbrev pub HasConfigured : RoleCounts → RoleCounts → Type 0
HasConfigured old r =
    ((old.storage ≡ pos 0) ⊎ (r.storage ≡ old.storage))
    × ((old.logs ≡ pos 0) ⊎ (r.logs ≡ old.logs))
    × ((old.resolvers ≡ pos 0) ⊎ (r.resolvers ≡ old.resolvers))
    × ((old.log_routers ≡ pos 0) ⊎ (r.log_routers ≡ old.log_routers))
    × ((old.remote_logs ≡ pos 0) ⊎ (r.remote_logs ≡ old.remote_logs))

counts_kept :
    (c : Configuration) (n : ℤ) → HasConfigured c.role_counts (role_counts_with_defaults c n)
unfolding role_counts_with_defaults
counts_kept c n = ground arith

others_set :
    (c : Configuration) (n : ℤ)
    → let r = role_counts_with_defaults c n in
      (r.logs ≢ pos 0) × (r.resolvers ≢ pos 0) × (r.remote_logs ≢ pos 0) × (r.log_routers ≢ pos 0)
unfolding role_counts_with_defaults default_log_count
others_set c n = ground arith

-- The configuration with its role counts filled in.
abbrev pub filled : Configuration → ℤ → Configuration
filled c n = record c { role_counts = role_counts_with_defaults c n }

separated_filled :
    (c : Configuration) (n : ℤ)
    → are_separated_proxies_configured (filled c n) ≡ are_separated_proxies_configured c
unfolding role_counts_with_defaults
separated_filled c n = elim (Bool-cases (are_separated_proxies_configured c)) [
  | inl e ↦ ground (arith, e)
  | inr e ↦ ground (arith, e)
]

abbrev HasSameProxies : RoleCounts → RoleCounts → Type 0
HasSameProxies s r =
    (s.proxies ≡ r.proxies)
    × (s.grv_proxies ≡ r.grv_proxies)
    × (s.commit_proxies ≡ r.commit_proxies)

proxies_kept_separated :
    (d : Configuration) (n : ℤ)
    → are_separated_proxies_configured d ≡ true
    → HasProxies d.role_counts
    → HasSameProxies (role_counts_with_defaults d n) d.role_counts
unfolding role_counts_with_defaults
proxies_kept_separated d n e (inl (p, g, c)) = absurd (ground (arith, e, g, c))
proxies_kept_separated d n e (inr (p, g, c)) = ground (arith, e, p, g, c)

proxies_kept_joined :
    (d : Configuration) (n : ℤ)
    → are_separated_proxies_configured d ≡ false
    → HasProxies d.role_counts
    → (d.role_counts.proxies ≡ pos 0) ⊎ HasSameProxies (role_counts_with_defaults d n) d.role_counts
unfolding role_counts_with_defaults
proxies_kept_joined d n e (inl (p, g, c)) = inr (ground (arith, e, p, g, c))
proxies_kept_joined d n e (inr (p, g, c)) = inl p

proxies_set :
    (c : Configuration) (n : ℤ)
    → are_separated_proxies_configured c ≡ false
    → (role_counts_with_defaults c n).proxies ≢ pos 0
unfolding role_counts_with_defaults
proxies_set c n e = ground (arith, e)

proxies_again :
    (c : Configuration) (n : ℤ)
    → HasSameProxies (role_counts_with_defaults (filled c n) n) (role_counts_with_defaults c n)
proxies_again c n = elim (Bool-cases (are_separated_proxies_configured c)) [
  | inl e ↦
      proxies_kept_separated (filled c n) n (separated_filled c n ∙ e) (proxies_separated c n e)
  | inr e ↦
      elim (proxies_kept_joined (filled c n) n (separated_filled c n ∙ e) (proxies_joined c n e)) [
        | inl p ↦ absurd (proxies_set c n e p)
        | inr s ↦ s
      ]
]

others_again :
    (c : Configuration) (n : ℤ)
    → let r = role_counts_with_defaults c n in
      let s = role_counts_with_defaults (filled c n) n in
      (s.storage ≡ r.storage)
      × (s.logs ≡ r.logs)
      × (s.resolvers ≡ r.resolvers)
      × (s.log_routers ≡ r.log_routers)
      × (s.remote_logs ≡ r.remote_logs)
unfolding role_counts_with_defaults default_log_count
others_again c n = ground arith

-- GetRoleCountsWithDefaults sets a count for every role, storage included, with either the old proxies or GRV and
-- commit proxies; it keeps the counts of storage, logs, resolvers, log routers and remote logs that are
-- configured, and changes nothing when it is asked again for the counts that it returned.
pub role_counts_with_defaults_lem :
    (c : Configuration) (n : ℤ)
    → IsComplete (role_counts_with_defaults c n)
      × HasConfigured c.role_counts (role_counts_with_defaults c n)
      × (role_counts_with_defaults (filled c n) n ≡ role_counts_with_defaults c n)
role_counts_with_defaults_lem c n =
    let (a, b, d, e) = others_set c n in
    let proxies : HasProxies (role_counts_with_defaults c n) =
      elim (Bool-cases (are_separated_proxies_configured c)) [
        | inl h ↦ proxies_separated c n h
        | inr h ↦ proxies_joined c n h
      ] in
    (
      (storage_set c n, a, b, d, e, proxies),
      counts_kept c n,
      ground (arith, proxies_again c n, others_again c n),
    )
