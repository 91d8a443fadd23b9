-- ===== src/Sentry/Janitor.antt =====
-- The start of the sentry, and what it does from time to time (newIPSentry, Reconcile and
-- janitorTick of gofaxserver/ipsentry.go).
use gofaxserver.Prelude.{
  suc, ◌+◌, String, Bool, not, Option, none, some, List, [], ◌∷◌, ◌++◌, map, if◌then◌else◌, ◌==◌,
  Eq_nat, Eq_text, keep,
}
use gofaxserver.Sentry.Bans.{enforce, unban_ip}
use gofaxserver.Prelude.Map.{Map, put}
use gofaxserver.Sentry.State.{
  FirewallCall, is_gateway_address, is_past, is_whitelisted, BlockedIp, IpSentry, SentryEnv, syncs,
}

module _ (env : SentryEnv) where
  -- One round of the loop of Reconcile.
  unfoldable pub reconcile_ip : String → IpSentry → IpSentry
  reconcile_ip ip s =
      let counted : IpSentry = record s { reconcile_unbans = suc s.reconcile_unbans } in
      if is_whitelisted env ip s
      then unban_ip env ip "whitelisted" counted
      else if is_gateway_address env ip
      then unban_ip env ip "now-matches-endpoint-acl" counted
      else s

  unfoldable pub reconcile_from : List String → IpSentry → IpSentry
  reconcile_from [] s = s
  reconcile_from (ip ∷ ips) s = reconcile_from ips (reconcile_ip ip s)

  abbrev pub banned_ips : Map String BlockedIp → List String
  banned_ips m = map (λ e. e.0) m

  -- Reconcile
  unfoldable pub reconcile : IpSentry → IpSentry
  reconcile s = reconcile_from (banned_ips s.banned) s

  abbrev is_over : String × BlockedIp → Bool
  is_over e = is_past env.now e.1.expires_at

  -- The addresses of the bans that are over, as the records have them, and the other bans.
  unfoldable pub expired_ips : Map String BlockedIp → List String
  expired_ips m = map (λ e. e.1.ip) (keep is_over m)

  unfoldable pub active_bans_of : Map String BlockedIp → List BlockedIp
  active_bans_of m = map (λ e. e.1) (keep (λ e. not (is_over e)) m)

  unfoldable pub expire_from : List String → IpSentry → IpSentry
  expire_from [] s = s
  expire_from (ip ∷ ips) s =
      expire_from ips (unban_ip env ip "expired" (record s { bans_expired = suc s.bans_expired }))

  -- backend.Sync
  unfoldable pub sync : List BlockedIp → IpSentry → IpSentry
  sync active s =
      let errs = env.sync_rules active in
      if errs == 0
      then record s { calls = syncs active ∷ s.calls }
      else record s { enforce_errors = s.enforce_errors + errs }

  -- janitorTick
  unfoldable pub janitor_tick : IpSentry → IpSentry
  janitor_tick s = reconcile (sync (active_bans_of s.banned) (expire_from (expired_ips s.banned) s))

  -- The entries of the whitelist that are networks, and those that are single addresses.
  unfoldable pub load_whitelist : List String → IpSentry → IpSentry
  load_whitelist [] s = s
  load_whitelist (cidr ∷ cidrs) s = load_whitelist cidrs (elim (env.parse_cidr cidr) [
    | some n ↦ record s { whitelist_nets = s.whitelist_nets ++ n ∷ [] }
    | none ↦ elim (env.parse_ip cidr) [
      | some parsed ↦ record s { whitelist_ips = s.whitelist_ips ++ parsed ∷ [] }
      | none ↦ s
    ]
  ])

  -- One round of the loop of newIPSentry over the active rows.
  unfoldable pub reapply : BlockedIp → IpSentry → IpSentry
  reapply row s =
      if is_past env.now row.expires_at
      then unban_ip env row.ip "expired-during-downtime" s
      else let enforced = enforce env row.ip row.expires_at s in
        record enforced { banned = put row.ip row enforced.banned }

  unfoldable pub reapply_all : List BlockedIp → IpSentry → IpSentry
  reapply_all [] s = s
  reapply_all (row ∷ rows) s = reapply_all rows (reapply row s)

  abbrev pub active_rows : Option (Map String BlockedIp) → List BlockedIp
  active_rows none = []
  active_rows (some table) = map (λ e. e.1) (keep (λ e. e.1.active) table)

  -- The sentry before it has read anything. The firewall keeps its rules over a restart: what it
  -- still blocks is given by the calls of earlier runs.
  abbrev pub empty_sentry : Option (Map String BlockedIp) → List FirewallCall → IpSentry
  empty_sentry rows left = record {
    failures = [];
    banned = [];
    last_log = [];
    offenses = [];
    whitelist_nets = [];
    whitelist_ips = [];
    rows = rows;
    calls = left;
    failures_seen = 0;
    blocked_hits = 0;
    bans_created = 0;
    bans_expired = 0;
    reconcile_unbans = 0;
    manual_bans = 0;
    manual_unbans = 0;
    enforce_errors = 0;
    whitelist_skipped = 0;
  }

  -- newIPSentry, when the sentry is enabled and its back end is known: `boots` says whether
  -- Bootstrap succeeds, `loads` whether the query for the active rows does.
  unfoldable pub new_ip_sentry :
      Bool → Bool → Option (Map String BlockedIp) → List FirewallCall → IpSentry
  new_ip_sentry boots loads rows left =
      let listed = load_whitelist env.config.whitelist_cidrs (empty_sentry rows left) in
      let booted : IpSentry = record listed { enforce_errors = if boots then 0 else 1 } in
      reapply_all (if loads then active_rows rows else []) booted
