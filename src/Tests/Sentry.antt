-- ===== src/Tests/Sentry.antt =====
-- The sentry on a few addresses, one of them a gateway's.
use gofaxserver.Prelude.{
  ℕ, suc, ◌*◌, ◌≤◌, String, ◌≡◌, refl, ◌↔◌, ◌⊎◌, true, false, ◌||◌, Option, none, some, List, [],
  ◌∷◌, if◌then◌else◌, ◌==◌, Eq_nat, Eq_text, length, is_some,
}
use gofaxserver.Monitor.{refresh-fs_gateway_acl, refresh_gateway_acl_resolution}
use gofaxserver.Inbound.Admitting.{admit-janitor_tick}
use gofaxserver.Prelude.Text.{after_colon, before_colon}
use gofaxserver.Inbound.{unauthorized, forbidden, admitted, admit}
use gofaxserver.Sentry.Escalation.{record_failure-Escalates, Escalates}
use gofaxserver.Sentry.Threshold.{record_failure_iff}
use gofaxserver.Sentry.Firewall.Runs.{Reach-Mirrors}
use gofaxserver.Sentry.Release.{janitor_tick_lem, is_released, has_past}
use gofaxserver.Sentry.Firewall.{Mirrors, IsReliable}
use gofaxserver.Sentry.Sampling.{log_times}
use gofaxserver.Sentry.Manual.{fail_all-unbanned, fail_all, ban_manual-Answers, Answers}
use gofaxserver.Sentry.Bans.{
  failures_of, next_offense, save_row, enforce, impose, ban_ip, recent, ban_manual, count_failure,
  record_failure,
}
use gofaxserver.Sentry.Janitor.{
  reapply, reapply_all, load_whitelist, janitor_tick, empty_sentry, new_ip_sentry,
}
use gofaxserver.Registry.{fs_gateway_acl, Registry}
use gofaxserver.Prelude.Map.{delete, put, Map, find_key}
use gofaxserver.Sentry.State.{
  bans, FirewallCall, is_gateway_address, any_text, SentryEnv, IpSentry, BlockedIp, is_banned,
  is_whitelisted, should_log_blocked,
}
use gofaxserver.Sentry.Config.{readable, durations, SecurityConfig, second}
use gofaxserver.Sentry.Steps.{starts, steps, fails}

abbrev gateways : Registry
gateways = record {
  tenants = [];
  tenant_numbers = [];
  tenant_endpoints = [];
  number_endpoints = [];
  endpoints = [];
  gateway_endpoints_acl = "gw1:10.0.0.1" ∷ [];
  gateway_acl_resolved = [];
  upstream_fs_gateways = [];
}

abbrev settings : SecurityConfig
settings = record {
  fail_threshold = 2;
  fail_window = "1m";
  ban_durations = "10m" ∷ [];
  whitelist_cidrs = "10.0.0.9" ∷ [];
}

abbrev duration_of : String → Option ℕ
duration_of s = if s == "1m" then some 60 else if s == "10m" then some 600 else none

abbrev at : ℕ → SentryEnv
at t = record {
  now = t;
  config = settings;
  registry = gateways;
  parse_duration = duration_of;
  parse_ip = λ s. some s;
  parse_cidr = λ s. none;
  net_contains = λ n a. false;
  failure_reason = λ n w. "failures";
  ban_rule = λ a x. true;
  unban_rule = λ a. true;
  sync_rules = λ bs. 0;
  finds_row = λ a. true;
  writes_row = λ b. true;
  updates_row = λ a. true;
}

abbrev ban_row : String → ℕ → BlockedIp
ban_row ip until = record {
  ip = ip;
  reason = "";
  source = "auto";
  fail_count = 2;
  offense_count = 1;
  banned_at = 0;
  expires_at = some until;
  active = true;
  unbanned_at = none;
  unban_reason = "";
}

abbrev table : Map String BlockedIp
table = ("10.0.0.7", ban_row "10.0.0.7" 500) ∷ ("10.0.0.8", ban_row "10.0.0.8" 900) ∷ []

-- An earlier run blocked an address of which no row is left.
abbrev leftover : List FirewallCall
leftover = bans "10.0.0.6" none ∷ []

abbrev started : IpSentry
started = new_ip_sentry (at 100) true true (some table) leftover

abbrev failed_once : IpSentry
failed_once = record (empty_sentry (at 0) none []) { failures = ("10.0.0.5", 80 ∷ []) ∷ [] }

record_failure_iff_example :
    (is_banned (at 100) "10.0.0.5" (record_failure (at 100) "10.0.0.5" failed_once) ≡ true) ↔ (
      (is_gateway_address (at 100) "10.0.0.5" ≡ false)
      × (2 ≤ suc (length (recent (at 100) (80 ∷ [])))))
unfolding is_whitelisted any_text find_key
record_failure_iff_example = record_failure_iff (at 100) "10.0.0.5" failed_once refl refl refl

record_failure-Escalates_example :
    Escalates (at 100) "10.0.0.5" [] (record_failure (at 100) "10.0.0.5" failed_once)
unfolding find_key is_banned record_failure count_failure ban_ip impose is_whitelisted any_text
    fs_gateway_acl put delete enforce save_row next_offense failures_of durations readable
record_failure-Escalates_example =
    record_failure-Escalates (at 100) "10.0.0.5" failed_once refl refl

janitor_tick_lem_example : find_key "10.0.0.7" (janitor_tick (at 600) started).banned ≡ (
    if has_past 600 (find_key "10.0.0.7" started.banned) || is_released (at 600) "10.0.0.7" started
    then none
    else find_key "10.0.0.7" started.banned)
janitor_tick_lem_example =
    janitor_tick_lem (at 600) started "10.0.0.7"
      (starts (at 100) true true (some table) leftover tt)

ban_manual-Answers_example :
    Answers
      (at 100)
      "10.0.0.8"
      (some 50)
      started
      (ban_manual (at 100) "10.0.0.8" "noise" (some 50) started).0
      (ban_manual (at 100) "10.0.0.8" "noise" (some 50) started).1
ban_manual-Answers_example = ban_manual-Answers (at 100) "10.0.0.8" "noise" (some 50) started

fail_all-unbanned_example :
    is_banned (at 600) "10.0.0.7" (fail_all (at 510 ∷ at 520 ∷ at 530 ∷ []) "10.0.0.7" started)
    ≡ false
unfolding find_key new_ip_sentry load_whitelist reapply_all reapply enforce put
fail_all-unbanned_example =
    fail_all-unbanned (at 510 ∷ at 520 ∷ at 530 ∷ []) (at 600) "10.0.0.7" started
      (ban_row "10.0.0.7" 500) (starts (at 100) true true (some table) leftover tt) refl refl

abbrev hits : List (SentryEnv × String)
hits = (at 1, "10.0.0.7") ∷ (at 2, "10.0.0.7") ∷ (at (600 * second), "10.0.0.7") ∷ []

logged_twice : log_times "10.0.0.7" hits (empty_sentry (at 0) none []) ≡ 1 ∷ 600 * second ∷ []
unfolding log_times should_log_blocked find_key put
logged_twice = refl

abbrev reliable : (t : ℕ) → IsReliable (at t)
reliable t = record { bans_all = λ a x. refl; unbans_all = λ a. refl }

abbrev after_failure : IpSentry
after_failure = record_failure (at 200) "10.0.0.5" started

Reach-Mirrors_example : Mirrors leftover after_failure.calls after_failure.banned
Reach-Mirrors_example = Reach-Mirrors (
    steps (starts (at 100) true true (some table) leftover (reliable 100))
      (fails (at 200) "10.0.0.5" started (reliable 200)))

admit-janitor_tick_example :
    ((gateway : String) × (fs_gateway_acl "10.0.0.1" gateways ≡ some gateway)
      × (admit (at 600) "10.0.0.1" (janitor_tick (at 600) started)
          ≡ (admitted (before_colon gateway), janitor_tick (at 600) started)))
    ⊎ ((is_gateway_address (at 600) "10.0.0.1" ≡ false)
        × (((admit (at 600) "10.0.0.1" (janitor_tick (at 600) started)).0 ≡ forbidden)
            ⊎ ((admit (at 600) "10.0.0.1" (janitor_tick (at 600) started)).0 ≡ unauthorized)))
admit-janitor_tick_example =
    admit-janitor_tick (at 600) "10.0.0.1" started
      (starts (at 100) true true (some table) leftover tt)

abbrev named : Registry
named = record gateways {
  gateway_endpoints_acl = "gw2:fax.example" ∷ [];
  gateway_acl_resolved = ("gw2:fax.example", "10.0.0.2" ∷ []) ∷ [];
}

refresh-fs_gateway_acl_example :
    is_some
      (fs_gateway_acl "10.0.0.2" (refresh_gateway_acl_resolution (λ s. false) (λ h. none) named))
    ≡ true
unfolding find_key after_colon
refresh-fs_gateway_acl_example =
    refresh-fs_gateway_acl (λ s. false) (λ h. none) named "gw2:fax.example" "10.0.0.2"
      ("10.0.0.2" ∷ []) refl refl refl refl
