-- ===== src/Sentry/Firewall/Runs.antt =====
-- The calls of the sentry, on the firewall and the cache together.
use gofaxserver.Prelude.{
  ℕ, suc, String, ◌≡◌, refl, ap, ◌∙◌, inr, Bool, false, Option, none, some, List, [], ◌∷◌, arith,
  eq_iff, ◌==◌, Eq_nat, Eq_text, first_such, All,
}
use gofaxserver.Sentry.Release.{expire_from-find_key, has_past, any_equal-expired_ips}
use gofaxserver.Sentry.Start.{Reach-IsTidy}
use gofaxserver.Sentry.Tidy.{enforce-banned, IsTidy}
use gofaxserver.Sentry.Janitor.{
  empty_sentry, new_ip_sentry, reapply, expired_ips, load_whitelist, reapply_all, reconcile,
  janitor_tick, sync, reconcile_ip, active_bans_of, expire_from, reconcile_from,
}
use gofaxserver.Sentry.Bans.{
  save_row, enforce, first_row, timed_record, unban_manually, unban_ip, ban_manual, remember,
  ban_ip_permanent,
}
use gofaxserver.Prelude.Map.{HasUniqueKeys, Map, find_key, put}
use gofaxserver.Sentry.Steps.{
  started_with, Step, fails, bans_manually, unbans_manually, reconciles, ticks, logs, Reach, starts,
  steps,
}
use gofaxserver.Sentry.State.{
  FirewallCall, should_log_blocked, is_past, IpSentry, BlockedIp, SentryEnv,
}
use gofaxserver.Sentry.Firewall.{
  Mirrors-ban, enforce-calls, Mirrors-same, record_failure-Mirrors, Mirrors-sync, Mirrors-unban,
  kept_ban, Mirrors, IsReliable,
}

abbrev Alike : List FirewallCall → IpSentry → Type 0
Alike left s = Mirrors left s.calls s.banned

ban_ip_permanent-Alike :
    (env : SentryEnv) (ip reason : String) (s : IpSentry) {left : List FirewallCall}
    → IsReliable env
    → Alike left s
    → Alike left (ban_ip_permanent env ip reason s)
unfolding ban_ip_permanent
ban_ip_permanent-Alike env ip reason s ok h = kept_ban env (first_row env ip s) _ s ok h

timed-Alike :
    (env : SentryEnv) (ip reason : String) (d : ℕ) (prev : Option BlockedIp) (s : IpSentry)
    {left : List FirewallCall}
    → IsReliable env
    → Alike left s
    → Alike left (
        remember env (timed_record env ip reason d prev) (
          enforce env ip
            (timed_record env ip reason d prev).expires_at
            (save_row env prev (timed_record env ip reason d prev) s)))
timed-Alike env ip reason d none s ok h = kept_ban env none _ s ok h
timed-Alike env ip reason d (some p) s ok h = kept_ban env (some p) _ s ok h

ban_manual-Alike :
    (env : SentryEnv) (ip reason : String) (duration : Option ℕ) (s : IpSentry)
    {left : List FirewallCall}
    → IsReliable env
    → Alike left s
    → Alike left (ban_manual env ip reason duration s).1
unfolding ban_manual
ban_manual-Alike env ip reason none s ok h =
    ground (arith, ban_ip_permanent-Alike env ip reason s ok h)
ban_manual-Alike env ip reason (some d) s ok h =
    let prev = first_row env ip s in
    ground (
      arith,
      ok.bans_all ip (timed_record env ip reason d prev).expires_at,
      timed-Alike env ip reason d prev s ok h,
    )

unban_ip-Alike :
    (env : SentryEnv) (ip reason : String) (s : IpSentry) {left : List FirewallCall}
    → IsReliable env
    → Alike left s
    → Alike left (unban_ip env ip reason s)
unfolding unban_ip
unban_ip-Alike env ip reason s ok h =
    rw (unban_ip, ok.unbans_all ip) (Mirrors-unban ip s.calls s.banned h)

unban_manually-Alike :
    (env : SentryEnv) (ip : String) (s : IpSentry) {left : List FirewallCall}
    → IsReliable env
    → Alike left s
    → Alike left (unban_manually env ip s).1
unfolding unban_manually
unban_manually-Alike env ip s ok h =
    ground (
      arith,
      unban_ip-Alike env ip "manual" (record s { manual_unbans = suc s.manual_unbans }) ok h,
    )

reconcile_from-Alike :
    (env : SentryEnv) (ips : List String) (s : IpSentry) {left : List FirewallCall}
    → IsReliable env
    → Alike left s
    → Alike left (reconcile_from env ips s)
unfolding reconcile_from reconcile_ip
reconcile_from-Alike env [] s ok h = h
reconcile_from-Alike env (ip ∷ ips) s {left} ok h =
    let counted : IpSentry = record s { reconcile_unbans = suc s.reconcile_unbans } in
    let next : Alike left (reconcile_ip env ip s) = ground (
      arith,
      unban_ip-Alike env ip "whitelisted" counted ok h,
      unban_ip-Alike env ip "now-matches-endpoint-acl" counted ok h,
    ) in
    reconcile_from-Alike env ips (reconcile_ip env ip s) ok next

expire_from-Alike :
    (env : SentryEnv) (ips : List String) (s : IpSentry) {left : List FirewallCall}
    → IsReliable env
    → Alike left s
    → Alike left (expire_from env ips s)
unfolding expire_from
expire_from-Alike env [] s ok h = h
expire_from-Alike env (ip ∷ ips) s ok h =
    expire_from-Alike env ips _ ok (unban_ip-Alike env ip "expired" _ ok h)

-- The bans that Sync asserts are those of the cache that are not over.
absent-active_bans_of :
    (env : SentryEnv) (ip : String) (m : Map String BlockedIp)
    → All (λ e. e.1.ip ≡ e.0) m
    → find_key ip m ≡ none
    → first_such (λ b. b.ip == ip) (active_bans_of env m) ≡ none
unfolding active_bans_of find_key
absent-active_bans_of env ip [] h e = refl
absent-active_bans_of env ip ((k, b) ∷ m) (at_k, h) e =
    ground (arith, absent-active_bans_of env ip m h)

active_bans_of_lem :
    (env : SentryEnv) (ip : String) (m : Map String BlockedIp) (b : BlockedIp)
    → HasUniqueKeys m
    → All (λ e. e.1.ip ≡ e.0) m
    → first_such (λ b'. b'.ip == ip) (active_bans_of env m) ≡ some b
    → (find_key ip m ≡ some b) × (is_past env.now b.expires_at ≡ false)
unfolding active_bans_of find_key
active_bans_of_lem env ip [] b u h e = absurd cc
active_bans_of_lem env ip ((k, c) ∷ m) b (fresh, u) (at_k, h) e =
    ground (arith, eq_iff k ip, active_bans_of_lem env ip m b u h, absent-active_bans_of env ip m h)

sync-Alike :
    (env : SentryEnv) (active : List BlockedIp) (s : IpSentry) {left : List FirewallCall}
    → ((ip : String) (b : BlockedIp)
        → first_such (λ b'. b'.ip == ip) active ≡ some b
        → find_key ip s.banned ≡ some b)
    → Alike left s
    → Alike left (sync env active s)
unfolding sync
sync-Alike env active s listed h = ground (arith, Mirrors-sync active s.calls s.banned listed h)

janitor_tick-Alike :
    (env : SentryEnv) (s : IpSentry) {left : List FirewallCall}
    → IsReliable env
    → IsTidy s.banned
    → Alike left s
    → Alike left (janitor_tick env s)
unfolding janitor_tick reconcile
janitor_tick-Alike env s ok tidy h =
    let ips = expired_ips env s.banned in
    let expired = expire_from env ips s in
    let listed : (ip : String) (b : BlockedIp)
        → first_such (λ b'. b'.ip == ip) (active_bans_of env s.banned) ≡ some b
        → find_key ip expired.banned ≡ some b =
      λ ip b e.
        let (found, ahead) = active_bans_of_lem env ip s.banned b tidy.unique tidy.filed e in
        let over =
          any_equal-expired_ips env ip s.banned tidy.unique tidy.filed
          ∙ ap (has_past env.now) found
          ∙ ahead in
        expire_from-find_key env ips ip s ∙ rw over found in
    reconcile_from-Alike env _ (sync env (active_bans_of env s.banned) expired) ok (
      sync-Alike env (active_bans_of env s.banned) expired listed
        (expire_from-Alike env ips s ok h))

Step-Alike :
    {s t : IpSentry} {left : List FirewallCall}
    → Step IsReliable s t
    → IsTidy s.banned
    → Alike left s
    → Alike left t
unfolding reconcile should_log_blocked
Step-Alike (fails env ip s ok) tidy h = record_failure-Mirrors env ip s ok h
Step-Alike (bans_manually env ip reason d s ok) tidy h = ban_manual-Alike env ip reason d s ok h
Step-Alike (unbans_manually env ip s ok) tidy h = unban_manually-Alike env ip s ok h
Step-Alike (reconciles env s ok) tidy h = reconcile_from-Alike env _ s ok h
Step-Alike (ticks env s ok) tidy h = janitor_tick-Alike env s ok tidy h
Step-Alike (logs env ip s ok) tidy h = ground arith

reapply-Alike :
    (env : SentryEnv) (row : BlockedIp) (s : IpSentry) {left : List FirewallCall}
    → IsReliable env
    → Alike left s
    → Alike left (reapply env row s)
unfolding reapply
reapply-Alike env row s {left} ok h =
    let enforced = enforce env row.ip row.expires_at s in
    let applied : IpSentry = record enforced { banned = put row.ip row enforced.banned } in
    let again : Alike left applied =
      Mirrors-same applied _ _ (enforce-calls env row.ip row.expires_at s ok)
        (ap (put row.ip row) (enforce-banned env row.ip row.expires_at s))
        (Mirrors-ban row s.calls s.banned h) in
    ground (arith, again, unban_ip-Alike env row.ip "expired-during-downtime" s ok h)

reapply_all-Alike :
    (env : SentryEnv) (rows : List BlockedIp) (s : IpSentry) {left : List FirewallCall}
    → IsReliable env
    → Alike left s
    → Alike left (reapply_all env rows s)
unfolding reapply_all
reapply_all-Alike env [] s ok h = h
reapply_all-Alike env (row ∷ rows) s ok h =
    reapply_all-Alike env rows _ ok (reapply-Alike env row s ok h)

load_whitelist-Alike :
    (env : SentryEnv) (cidrs : List String) (s : IpSentry) {left : List FirewallCall}
    → Alike left s
    → Alike left (load_whitelist env cidrs s)
unfolding load_whitelist
load_whitelist-Alike env [] s h = h
load_whitelist-Alike env (c ∷ cs) s h = load_whitelist-Alike env cs _ (ground (arith, h))

new_ip_sentry-Alike :
    (env : SentryEnv) (boots loads : Bool) (rows : Option (Map String BlockedIp))
    (left : List FirewallCall)
    → IsReliable env
    → Alike left (new_ip_sentry env boots loads rows left)
unfolding new_ip_sentry find_key
new_ip_sentry-Alike env boots loads rows left ok =
    let nothing : Mirrors left left [] = record { blocks = λ ip. inr refl } in
    reapply_all-Alike env _ _ ok
      (load_whitelist-Alike env env.config.whitelist_cidrs (empty_sentry env rows left) nothing)

-- If the firewall carries out every ban and every release, then at any moment after the start of the
-- sentry, whatever calls of it ran and whatever the firewall still blocked from earlier runs, the
-- firewall blocks every address that has a ban in the cache, until that ban ends, and an address that
-- has no ban in the cache is either not blocked or blocked just as it was before the start.
pub Reach-Mirrors :
    {s : IpSentry} (r : Reach IsReliable s) → Mirrors (started_with r) s.calls s.banned
Reach-Mirrors (starts env boots loads rows left ok) =
    new_ip_sentry-Alike env boots loads rows left ok
Reach-Mirrors (steps r step) = Step-Alike step (Reach-IsTidy r) (Reach-Mirrors r)
