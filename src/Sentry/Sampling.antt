-- ===== src/Sentry/Sampling.antt =====
-- How often a hit of a banned address is logged.
use gofaxserver.Prelude.{
  ℕ, ◌+◌, ◌≤◌, String, ◌&&◌, Option, none, some, List, [], ◌∷◌, arith, eq_iff, if◌then◌else◌, ◌==◌,
  Eq_nat, Eq_text,
}
use gofaxserver.Sentry.State.{IpSentry, should_log_blocked, SentryEnv}
use gofaxserver.Prelude.Map.{find_key, find_key-put}
use gofaxserver.Sentry.Config.{blocked_log_sample_interval}

-- When the hits of an address are logged, among hits of any addresses.
unfoldable pub log_times : String → List (SentryEnv × String) → IpSentry → List ℕ
log_times ip [] s = []
log_times ip ((env, j) ∷ hits) s =
    let rest = log_times ip hits (should_log_blocked env j s).1 in
    if j == ip && (should_log_blocked env j s).0 then env.now ∷ rest else rest

-- Each time is at least the interval after the one before.
abbrev pub IsSpacedAfter : Option ℕ → List ℕ → Type 0
IsSpacedAfter last [] = Unit
IsSpacedAfter none (t ∷ ts) = IsSpacedAfter (some t) ts
IsSpacedAfter (some u) (t ∷ ts) = (u + blocked_log_sample_interval ≤ t) × IsSpacedAfter (some t) ts

-- Whatever the clock does, two log lines about one blocked address are at least the sampling
-- interval of 5 minutes apart, and the first is so after the last one that the state remembers.
pub log_times-IsSpacedAfter :
    (ip : String) (hits : List (SentryEnv × String)) (s : IpSentry)
    → IsSpacedAfter (find_key ip s.last_log) (log_times ip hits s)
unfolding log_times should_log_blocked
log_times-IsSpacedAfter ip [] s = tt
log_times-IsSpacedAfter ip ((env, j) ∷ hits) s =
    let next = (should_log_blocked env j s).1 in
    ground (
      arith,
      eq_iff j ip,
      find_key-put j ip env.now s.last_log,
      log_times-IsSpacedAfter ip hits next,
    )
