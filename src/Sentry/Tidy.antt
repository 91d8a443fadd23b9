-- ===== src/Sentry/Tidy.antt =====
-- The bans in the cache: what every call of the sentry keeps of them.
use gofaxserver.Prelude.{
  ℕ, suc, String, ◌≡◌, refl, sym, ◌∙◌, subst, true, Option, none, some, List, [], ◌∷◌, ◌++◌, arith,
  Eq_text, length, All,
}
use gofaxserver.Sentry.Steps.{ticks, reconciles, unbans_manually, bans_manually, fails, Step}
use gofaxserver.Sentry.Janitor.{
  active_bans_of, expired_ips, reconcile_ip, reconcile, janitor_tick, sync, expire_from,
  reconcile_from,
}
use gofaxserver.Sentry.Bans.{
  unban_manually, ban_manual, ban_ip_permanent, timed_record, first_row, next_offense, failures_of,
  recent, auto_record, unban_ip, record_failure, count_failure, ban_ip, impose, save_row, enforce,
}
use gofaxserver.Sentry.State.{should_log_blocked, IpSentry, SentryEnv, BlockedIp}
use gofaxserver.Prelude.Map.{
  find_key, or_nil, Map, put, delete, HasUniqueKeys, put-HasUniqueKeys, delete-HasUniqueKeys,
  put-All, delete-All,
}
use gofaxserver.Sentry.Steps.{fails, bans_manually, unbans_manually, reconciles, ticks, logs}
use gofaxserver.Sentry.Config.{window}

-- Each address has one ban, which is filed under it and active.
pub record IsTidy (m : Map String BlockedIp) : Type 0 where
  pub unique : HasUniqueKeys m
  pub filed : All (λ e. e.1.ip ≡ e.0) m
  pub all_active : All (λ e. e.1.active ≡ true) m

pub put-IsTidy :
    (rec : BlockedIp) (m : Map String BlockedIp)
    → rec.active ≡ true
    → IsTidy m
    → IsTidy (put rec.ip rec m)
put-IsTidy rec m live h = record {
  unique = put-HasUniqueKeys rec.ip rec m h.unique;
  filed = put-All (λ e. e.1.ip ≡ e.0) rec.ip rec m refl h.filed;
  all_active = put-All (λ e. e.1.active ≡ true) rec.ip rec m live h.all_active;
}

delete-IsTidy : (ip : String) (m : Map String BlockedIp) → IsTidy m → IsTidy (delete ip m)
delete-IsTidy ip m h = record {
  unique = delete-HasUniqueKeys ip m h.unique;
  filed = delete-All (λ e. e.1.ip ≡ e.0) ip m h.filed;
  all_active = delete-All (λ e. e.1.active ≡ true) ip m h.all_active;
}

pub enforce-banned :
    (env : SentryEnv) (ip : String) (x : Option ℕ) (s : IpSentry)
    → (enforce env ip x s).banned ≡ s.banned
unfolding enforce
enforce-banned env ip x s = ground arith

pub save_row-banned :
    (env : SentryEnv) (prev : Option BlockedIp) (rec : BlockedIp) (s : IpSentry)
    → (save_row env prev rec s).banned ≡ s.banned
unfolding save_row
save_row-banned env prev rec s = ground arith

impose-IsTidy :
    (env : SentryEnv) (ip source reason : String) (n : ℕ) (s : IpSentry)
    → IsTidy s.banned
    → IsTidy (impose env ip source reason n s).banned
unfolding impose
impose-IsTidy env ip source reason n s h =
    let rec = auto_record env ip source reason (failures_of env ip n s) (next_offense env ip s) in
    let counted : IpSentry = record s { offenses = put ip (next_offense env ip s) s.offenses } in
    let enforced = enforce env ip rec.expires_at counted in
    put-IsTidy rec _ refl (
      subst IsTidy
        (sym (
          save_row-banned env (first_row env ip enforced) rec enforced
          ∙ enforce-banned env ip rec.expires_at counted))
        h)

ban_ip-IsTidy :
    (env : SentryEnv) (ip source reason : String) (n : ℕ) (s : IpSentry)
    → IsTidy s.banned
    → IsTidy (ban_ip env ip source reason n s).banned
unfolding ban_ip
ban_ip-IsTidy env ip source reason n s h = ground (arith, impose-IsTidy env ip source reason n s h)

count_failure-IsTidy :
    (env : SentryEnv) (ip : String) (s : IpSentry)
    → IsTidy s.banned
    → IsTidy (count_failure env ip s).banned
unfolding count_failure
count_failure-IsTidy env ip s h =
    let kept = recent env (or_nil (find_key ip s.failures)) ++ env.now ∷ [] in
    let counted : IpSentry = record s { failures = put ip kept s.failures } in
    let reason = env.failure_reason (length kept) (window env.parse_duration env.config) in
    ground (arith, ban_ip-IsTidy env ip "auto" reason (length kept) counted h)

pub record_failure-IsTidy :
    (env : SentryEnv) (ip : String) (s : IpSentry)
    → IsTidy s.banned
    → IsTidy (record_failure env ip s).banned
unfolding record_failure
record_failure-IsTidy env ip s h =
    let seen : IpSentry = record s { failures_seen = suc s.failures_seen } in
    ground (arith, count_failure-IsTidy env ip seen h)

pub unban_ip-IsTidy :
    (env : SentryEnv) (ip reason : String) (s : IpSentry)
    → IsTidy s.banned
    → IsTidy (unban_ip env ip reason s).banned
unfolding unban_ip
unban_ip-IsTidy env ip reason s h = ground (arith, delete-IsTidy ip s.banned h)

timed_record-active :
    (env : SentryEnv) (ip reason : String) (d : ℕ) (prev : Option BlockedIp)
    → (timed_record env ip reason d prev).active ≡ true
timed_record-active env ip reason d none = refl
timed_record-active env ip reason d (some p) = refl

ban_ip_permanent-IsTidy :
    (env : SentryEnv) (ip reason : String) (s : IpSentry)
    → IsTidy s.banned
    → IsTidy (ban_ip_permanent env ip reason s).banned
unfolding ban_ip_permanent
ban_ip_permanent-IsTidy env ip reason s h = put-IsTidy _ _ refl (
    subst IsTidy (sym (enforce-banned env ip none _ ∙ save_row-banned env (first_row env ip s) _ s))
      h)

ban_manual-IsTidy :
    (env : SentryEnv) (ip reason : String) (duration : Option ℕ) (s : IpSentry)
    → IsTidy s.banned
    → IsTidy (ban_manual env ip reason duration s).1.banned
unfolding ban_manual
ban_manual-IsTidy env ip reason none s h = ground (arith, ban_ip_permanent-IsTidy env ip reason s h)
ban_manual-IsTidy env ip reason (some d) s h =
    let prev = first_row env ip s in
    let rec = timed_record env ip reason d prev in
    let saved = save_row env prev rec s in
    let same = enforce-banned env ip rec.expires_at saved ∙ save_row-banned env prev rec s in
    let h' = subst IsTidy (sym same) h in
    ground (arith, h', put-IsTidy rec _ (timed_record-active env ip reason d prev) h')

unban_manually-IsTidy :
    (env : SentryEnv) (ip : String) (s : IpSentry)
    → IsTidy s.banned
    → IsTidy (unban_manually env ip s).1.banned
unfolding unban_manually
unban_manually-IsTidy env ip s h =
    ground
      (arith, unban_ip-IsTidy env ip "manual" (record s { manual_unbans = suc s.manual_unbans }) h)

reconcile_from-IsTidy :
    (env : SentryEnv) (ips : List String) (s : IpSentry)
    → IsTidy s.banned
    → IsTidy (reconcile_from env ips s).banned
unfolding reconcile_from reconcile_ip
reconcile_from-IsTidy env [] s h = h
reconcile_from-IsTidy env (ip ∷ ips) s h =
    let counted : IpSentry = record s { reconcile_unbans = suc s.reconcile_unbans } in
    let next : IsTidy (reconcile_ip env ip s).banned = ground (
      arith,
      unban_ip-IsTidy env ip "whitelisted" counted h,
      unban_ip-IsTidy env ip "now-matches-endpoint-acl" counted h,
    ) in
    reconcile_from-IsTidy env ips (reconcile_ip env ip s) next

expire_from-IsTidy :
    (env : SentryEnv) (ips : List String) (s : IpSentry)
    → IsTidy s.banned
    → IsTidy (expire_from env ips s).banned
unfolding expire_from
expire_from-IsTidy env [] s h = h
expire_from-IsTidy env (ip ∷ ips) s h =
    expire_from-IsTidy env ips _ (unban_ip-IsTidy env ip "expired" _ h)

pub sync-banned :
    (env : SentryEnv) (active : List BlockedIp) (s : IpSentry)
    → (sync env active s).banned ≡ s.banned
unfolding sync
sync-banned env active s = ground arith

janitor_tick-IsTidy :
    (env : SentryEnv) (s : IpSentry) → IsTidy s.banned → IsTidy (janitor_tick env s).banned
unfolding janitor_tick reconcile
janitor_tick-IsTidy env s h =
    let expired = expire_from env (expired_ips env s.banned) s in
    let h' = expire_from-IsTidy env (expired_ips env s.banned) s h in
    reconcile_from-IsTidy env _ (sync env (active_bans_of env s.banned) expired)
      (subst IsTidy (sym (sync-banned env (active_bans_of env s.banned) expired)) h')

pub Step-IsTidy :
    {P : SentryEnv → Type 0} {s t : IpSentry} → Step P s t → IsTidy s.banned → IsTidy t.banned
unfolding reconcile should_log_blocked
Step-IsTidy (fails env ip s p) h = record_failure-IsTidy env ip s h
Step-IsTidy (bans_manually env ip reason d s p) h = ban_manual-IsTidy env ip reason d s h
Step-IsTidy (unbans_manually env ip s p) h = unban_manually-IsTidy env ip s h
Step-IsTidy (reconciles env s p) h = reconcile_from-IsTidy env _ s h
Step-IsTidy (ticks env s p) h = janitor_tick-IsTidy env s h
Step-IsTidy (logs env ip s p) h = ground arith
