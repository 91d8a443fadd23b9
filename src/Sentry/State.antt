-- ===== src/Sentry/State.antt =====
-- The state of the sentry and its queries (IPSentry, IsWhitelisted, IsBanned, ShouldLogBlocked and
-- Metrics of gofaxserver/ipsentry.go). Each call takes one reading of the clock, and is one step.
use gofaxserver.Prelude.{
  ℕ, suc, ◌-◌, String, Bool, true, false, ◌||◌, not, Option, none, some, List, [], ◌∷◌, ltb,
  if◌then◌else◌, ◌==◌, Eq_nat, Eq_text, length, is_some,
}
use gofaxserver.Registry.{Registry, fs_gateway_acl}
use gofaxserver.Prelude.Map.{Map, find_key, put}
use gofaxserver.Sentry.Config.{SecurityConfig, blocked_log_sample_interval}

-- The row's key is left out: the table has one row for each address.
pub record BlockedIp : Type 0 where
  pub ip : String
  pub reason : String
  pub source : String
  pub fail_count : ℕ
  pub offense_count : ℕ
  pub banned_at : ℕ
  pub expires_at : Option ℕ
  pub active : Bool
  pub unbanned_at : Option ℕ
  pub unban_reason : String

-- A call of the firewall back end that succeeded.
pub data FirewallCall : Type 0 where
  bans : String → Option ℕ → FirewallCall
  unbans : String → FirewallCall
  syncs : List BlockedIp → FirewallCall

-- `rows` is the table of bans, nothing if the server has no database; `calls` are the calls that
-- the firewall carried out, the latest first, those of earlier runs at the end.
pub record IpSentry : Type 0 where
  pub failures : Map String (List ℕ)
  pub banned : Map String BlockedIp
  pub last_log : Map String ℕ
  pub offenses : Map String ℕ
  pub whitelist_nets : List String
  pub whitelist_ips : List String
  pub rows : Option (Map String BlockedIp)
  pub calls : List FirewallCall
  pub failures_seen : ℕ
  pub blocked_hits : ℕ
  pub bans_created : ℕ
  pub bans_expired : ℕ
  pub reconcile_unbans : ℕ
  pub manual_bans : ℕ
  pub manual_unbans : ℕ
  pub enforce_errors : ℕ
  pub whitelist_skipped : ℕ

-- What the sentry takes from outside while one of its calls runs: the clock, package net, the
-- settings, the registry, the firewall and the database. An address is represented by the text that
-- its String method returns, a network by its notation. `ban_rule` and `unban_rule` say whether the
-- firewall accepts a change, `sync_rules` counts the errors of Sync, and the last three whether a
-- query or a write of the table succeeds.
pub record SentryEnv : Type 0 where
  pub now : ℕ
  pub config : SecurityConfig
  pub registry : Registry
  pub parse_duration : String → Option ℕ
  pub parse_ip : String → Option String
  pub parse_cidr : String → Option String
  pub net_contains : String → String → Bool
  pub failure_reason : ℕ → ℕ → String
  pub ban_rule : String → Option ℕ → Bool
  pub unban_rule : String → Bool
  pub sync_rules : List BlockedIp → ℕ
  pub finds_row : String → Bool
  pub writes_row : BlockedIp → Bool
  pub updates_row : String → Bool

unfoldable pub any_text : (String → Bool) → List String → Bool
any_text p [] = false
any_text p (x ∷ xs) = p x || any_text p xs

-- t.Before(now)
abbrev pub is_past : ℕ → Option ℕ → Bool
is_past now none = false
is_past now (some t) = ltb t now

module _ (env : SentryEnv) where
  -- IsWhitelisted
  unfoldable pub is_whitelisted : String → IpSentry → Bool
  is_whitelisted ip s = elim (env.parse_ip ip) [
    | none ↦ false
    | some parsed ↦
        any_text (λ x. x == parsed) s.whitelist_ips
        || any_text (λ n. env.net_contains n parsed) s.whitelist_nets
  ]

  -- IsBanned
  unfoldable pub is_banned : String → IpSentry → Bool
  is_banned ip s = elim (find_key ip s.banned) [
    | none ↦ false
    | some b ↦ not (is_past env.now b.expires_at)
  ]

  -- Whether fsGatewayACL finds a gateway for the address.
  abbrev pub is_gateway_address : String → Bool
  is_gateway_address ip = is_some (fs_gateway_acl ip env.registry)

  abbrev logged_lately : Option ℕ → Bool
  logged_lately none = false
  logged_lately (some last) = ltb (env.now - last) blocked_log_sample_interval

  -- ShouldLogBlocked
  unfoldable pub should_log_blocked : String → IpSentry → Bool × IpSentry
  should_log_blocked ip s =
      let hit : IpSentry = record s { blocked_hits = suc s.blocked_hits } in
      if logged_lately (find_key ip s.last_log)
      then (false, hit)
      else (true, record hit { last_log = put ip env.now s.last_log })

-- The numbers of SentryMetrics, as Metrics reads them.
pub record SentryMetrics : Type 0 where
  pub active_bans : ℕ
  pub tracked_ips : ℕ
  pub failures_seen : ℕ
  pub blocked_hits : ℕ
  pub bans_created : ℕ
  pub bans_expired : ℕ
  pub reconcile_unbans : ℕ
  pub manual_bans : ℕ
  pub manual_unbans : ℕ
  pub enforce_errors : ℕ
  pub whitelist_skipped : ℕ

unfoldable pub metrics : IpSentry → SentryMetrics
metrics s = record {
  active_bans = length s.banned;
  tracked_ips = length s.failures;
  failures_seen = s.failures_seen;
  blocked_hits = s.blocked_hits;
  bans_created = s.bans_created;
  bans_expired = s.bans_expired;
  reconcile_unbans = s.reconcile_unbans;
  manual_bans = s.manual_bans;
  manual_unbans = s.manual_unbans;
  enforce_errors = s.enforce_errors;
  whitelist_skipped = s.whitelist_skipped;
}
