-- ===== src/Sentry/Start.antt =====
-- The bans in the cache of a sentry that was started, and of what it comes to.
use gofaxserver.Prelude.{
  String, ◌≡◌, refl, sym, subst, inl, inr, Bool, true, Option, none, some, List, [], ◌∷◌, ◌++◌, map,
  arith, if◌then◌else◌, Bool-cases, Option-cases, keep, All,
}
use gofaxserver.Sentry.State.{FirewallCall, IpSentry, SentryEnv, BlockedIp}
use gofaxserver.Sentry.Janitor.{
  empty_sentry, active_rows, new_ip_sentry, load_whitelist, reapply_all, reapply,
}
use gofaxserver.Prelude.Map.{Map}
use gofaxserver.Sentry.Steps.{Reach, starts, steps}
use gofaxserver.Sentry.Tidy.{IsTidy, Step-IsTidy, enforce-banned, put-IsTidy, unban_ip-IsTidy}

reapply-IsTidy :
    (env : SentryEnv) (row : BlockedIp) (s : IpSentry)
    → row.active ≡ true
    → IsTidy s.banned
    → IsTidy (reapply env row s).banned
unfolding reapply
reapply-IsTidy env row s live h =
    let h' = subst IsTidy (sym (enforce-banned env row.ip row.expires_at s)) h in
    ground
      (arith, put-IsTidy row _ live h', unban_ip-IsTidy env row.ip "expired-during-downtime" s h)

reapply_all-IsTidy :
    (env : SentryEnv) (rows : List BlockedIp) (s : IpSentry)
    → All (λ r. r.active ≡ true) rows
    → IsTidy s.banned
    → IsTidy (reapply_all env rows s).banned
unfolding reapply_all
reapply_all-IsTidy env [] s live h = h
reapply_all-IsTidy env (r ∷ rows) s (live, lives) h =
    reapply_all-IsTidy env rows _ lives (reapply-IsTidy env r s live h)

load_whitelist-banned :
    (env : SentryEnv) (cidrs : List String) (s : IpSentry)
    → (load_whitelist env cidrs s).banned ≡ s.banned
unfolding load_whitelist
load_whitelist-banned env [] s = refl
load_whitelist-banned env (c ∷ cs) s = elim (Option-cases (env.parse_cidr c)) [
  | inr (n, e) ↦
      rw (load_whitelist, e)
        (load_whitelist-banned env cs (record s { whitelist_nets = s.whitelist_nets ++ n ∷ [] }))
  | inl e ↦ elim (Option-cases (env.parse_ip c)) [
    | inr (a, e') ↦
        rw (load_whitelist, e, e')
          (load_whitelist-banned env cs (record s { whitelist_ips = s.whitelist_ips ++ a ∷ [] }))
    | inl e' ↦ rw (load_whitelist, e, e') (load_whitelist-banned env cs s)
  ]
]

keep_active :
    (m : Map String BlockedIp)
    → All (λ r. r.active ≡ true) (map (λ e. e.1) (keep (λ e. e.1.active) m))
keep_active [] = tt
keep_active ((k, b) ∷ m) = ground (arith, keep_active m)

active_rows-active :
    (env : SentryEnv) (rows : Option (Map String BlockedIp))
    → All (λ r. r.active ≡ true) (active_rows env rows)
active_rows-active env none = tt
active_rows-active env (some table) = keep_active table

pub new_ip_sentry-IsTidy :
    (env : SentryEnv) (boots loads : Bool) (rows : Option (Map String BlockedIp))
    (left : List FirewallCall)
    → IsTidy (new_ip_sentry env boots loads rows left).banned
unfolding new_ip_sentry
new_ip_sentry-IsTidy env boots loads rows left =
    let nothing : IsTidy [] = record { unique = tt; filed = tt; all_active = tt } in
    let listed =
      load_whitelist-banned env env.config.whitelist_cidrs (empty_sentry env rows left) in
    let live : All (λ r. r.active ≡ true) (if loads then active_rows env rows else []) =
      elim (Bool-cases loads) [ inl e ↦ rw e (active_rows-active env rows) | inr e ↦ rw e tt ] in
    reapply_all-IsTidy env _ _ live (subst IsTidy (sym listed) nothing)

pub Reach-IsTidy : {P : SentryEnv → Type 0} {s : IpSentry} → Reach P s → IsTidy s.banned
Reach-IsTidy (starts env boots loads rows left p) = new_ip_sentry-IsTidy env boots loads rows left
Reach-IsTidy (steps r step) = Step-IsTidy step (Reach-IsTidy r)
