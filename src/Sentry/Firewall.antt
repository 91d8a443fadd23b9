-- ===== src/Sentry/Firewall.antt =====
-- What the firewall blocks, by the calls that it carried out, beside the bans in the cache.
pub mod Runs
use gofaxserver.Prelude.{
  ℕ, suc, String, ◌≡◌, refl, sym, ap, ◌∙◌, subst, ◌⊎◌, inl, inr, true, Option, none, some, List, [],
  ◌∷◌, ◌++◌, arith, if◌then◌else◌, ◌==◌, Eq_nat, Eq_text, Bool-cases, Option-cases, length,
  first_such,
}
use gofaxserver.Sentry.Config.{window}
use gofaxserver.Sentry.Tidy.{save_row-banned, enforce-banned}
use gofaxserver.Sentry.Bans.{
  first_row, recent, next_offense, ban_ip, failures_of, count_failure, auto_record, timed_record,
  remember, record_failure, impose, enforce, save_row,
}
use gofaxserver.Prelude.Map.{or_nil, Map, put, delete, find_key, find_key-put, find_key-delete}
use gofaxserver.Sentry.State.{bans, unbans, syncs, IpSentry, BlockedIp, FirewallCall, SentryEnv}

-- Until when the firewall blocks an address after these calls, if it blocks it.
unfoldable pub blocked_by : List FirewallCall → String → Option (Option ℕ)
blocked_by [] ip = none
blocked_by (bans j x ∷ cs) ip = let rest = blocked_by cs ip in if j == ip then some x else rest
blocked_by (unbans j ∷ cs) ip = let rest = blocked_by cs ip in if j == ip then none else rest
blocked_by (syncs bs ∷ cs) ip =
    let rest = blocked_by cs ip in
    elim (first_such (λ b. b.ip == ip) bs) [ some b ↦ some b.expires_at | none ↦ rest ]

-- An address with a ban is blocked until the ban ends, and one without a ban is not blocked or is
-- blocked as it was by the calls of earlier runs.
abbrev pub Agrees : Option (Option ℕ) → Option (Option ℕ) → Option BlockedIp → Type 0
Agrees before after none = (after ≡ none) ⊎ (after ≡ before)
Agrees before after (some b) = after ≡ some b.expires_at

Agrees-of :
    (before : Option (Option ℕ)) {x : Option (Option ℕ)} {b : Option BlockedIp}
    (y : Option (Option ℕ)) (c : Option BlockedIp)
    → x ≡ y
    → b ≡ c
    → Agrees before y c
    → Agrees before x b
Agrees-of before y c e f h = rw (e, f) h

-- The firewall, after these calls, and the cache, when it kept `left` from earlier runs.
pub record Mirrors (left cs : List FirewallCall) (m : Map String BlockedIp) : Type 0 where
  pub blocks : (ip : String) → Agrees (blocked_by left ip) (blocked_by cs ip) (find_key ip m)

-- The firewall carries out every ban and every release.
pub record IsReliable (env : SentryEnv) : Type 0 where
  pub bans_all : (ip : String) (x : Option ℕ) → env.ban_rule ip x ≡ true
  pub unbans_all : (ip : String) → env.unban_rule ip ≡ true

pub Mirrors-ban :
    (rec : BlockedIp) {left : List FirewallCall} (cs : List FirewallCall) (m : Map String BlockedIp)
    → Mirrors left cs m
    → Mirrors left (bans rec.ip rec.expires_at ∷ cs) (put rec.ip rec m)
unfolding blocked_by
Mirrors-ban rec {left} cs m h = record {
  blocks = λ ip. elim (Bool-cases (rec.ip == ip)) [
    | inl e ↦
        Agrees-of (blocked_by left ip) (some rec.expires_at) (some rec) (rw (blocked_by, e) refl)
          (rw (find_key-put rec.ip ip rec m, e) refl) refl
    | inr e ↦
        Agrees-of (blocked_by left ip) (blocked_by cs ip) (find_key ip m) (rw (blocked_by, e) refl)
          (rw (find_key-put rec.ip ip rec m, e) refl) (h.blocks ip)
  ];
}

pub Mirrors-unban :
    (j : String) {left : List FirewallCall} (cs : List FirewallCall) (m : Map String BlockedIp)
    → Mirrors left cs m
    → Mirrors left (unbans j ∷ cs) (delete j m)
unfolding blocked_by
Mirrors-unban j {left} cs m h = record {
  blocks = λ ip. elim (Bool-cases (j == ip)) [
    | inl e ↦
        Agrees-of (blocked_by left ip) none none (rw (blocked_by, e) refl)
          (rw (find_key-delete j ip m, e) refl) (inl refl)
    | inr e ↦
        Agrees-of (blocked_by left ip) (blocked_by cs ip) (find_key ip m) (rw (blocked_by, e) refl)
          (rw (find_key-delete j ip m, e) refl) (h.blocks ip)
  ];
}

pub Mirrors-sync :
    (bs : List BlockedIp) {left : List FirewallCall} (cs : List FirewallCall)
    (m : Map String BlockedIp)
    → ((ip : String) (b : BlockedIp)
        → first_such (λ b'. b'.ip == ip) bs ≡ some b
        → find_key ip m ≡ some b)
    → Mirrors left cs m
    → Mirrors left (syncs bs ∷ cs) m
unfolding blocked_by
Mirrors-sync bs {left} cs m listed h = record {
  blocks = λ ip. elim (Option-cases (first_such (λ b'. b'.ip == ip) bs)) [
    | inl e ↦
        Agrees-of (blocked_by left ip) (blocked_by cs ip) (find_key ip m) (rw (blocked_by, e) refl)
          refl (h.blocks ip)
    | inr (b, e) ↦
        Agrees-of (blocked_by left ip) (some b.expires_at) (some b) (rw (blocked_by, e) refl)
          (listed ip b e) refl
  ];
}

-- The same calls and the same bans in another state.
pub Mirrors-same :
    (s : IpSentry) {left : List FirewallCall} (cs : List FirewallCall) (m : Map String BlockedIp)
    → s.calls ≡ cs
    → s.banned ≡ m
    → Mirrors left cs m
    → Mirrors left s.calls s.banned
Mirrors-same s {left} cs m e f h =
    subst (λ c. Mirrors left c s.banned) (sym e) (subst (λ b. Mirrors left cs b) (sym f) h)

save_row-calls :
    (env : SentryEnv) (prev : Option BlockedIp) (rec : BlockedIp) (s : IpSentry)
    → (save_row env prev rec s).calls ≡ s.calls
unfolding save_row
save_row-calls env prev rec s = ground arith

pub enforce-calls :
    (env : SentryEnv) (ip : String) (x : Option ℕ) (s : IpSentry)
    → IsReliable env
    → (enforce env ip x s).calls ≡ bans ip x ∷ s.calls
unfolding enforce
enforce-calls env ip x s ok = ground (arith, ok.bans_all ip x)

impose-Mirrors :
    (env : SentryEnv) (ip source reason : String) (n : ℕ) (s : IpSentry) {left : List FirewallCall}
    → IsReliable env
    → Mirrors left s.calls s.banned
    → Mirrors left (impose env ip source reason n s).calls (impose env ip source reason n s).banned
unfolding impose
impose-Mirrors env ip source reason n s ok h =
    let rec = auto_record env ip source reason (failures_of env ip n s) (next_offense env ip s) in
    let counted : IpSentry = record s { offenses = put ip (next_offense env ip s) s.offenses } in
    let enforced = enforce env ip rec.expires_at counted in
    let prev = first_row env ip enforced in
    let same =
      save_row-banned env prev rec enforced ∙ enforce-banned env ip rec.expires_at counted in
    Mirrors-same (impose env ip source reason n s) _ _
      (save_row-calls env prev rec enforced ∙ enforce-calls env ip rec.expires_at counted ok)
      (ap (put ip rec) same) (Mirrors-ban rec s.calls s.banned h)

pub record_failure-Mirrors :
    (env : SentryEnv) (ip : String) (s : IpSentry) {left : List FirewallCall}
    → IsReliable env
    → Mirrors left s.calls s.banned
    → Mirrors left (record_failure env ip s).calls (record_failure env ip s).banned
unfolding record_failure count_failure ban_ip
record_failure-Mirrors env ip s ok h =
    let seen : IpSentry = record s { failures_seen = suc s.failures_seen } in
    let kept = recent env (or_nil (find_key ip s.failures)) ++ env.now ∷ [] in
    let counted : IpSentry = record seen { failures = put ip kept s.failures } in
    let reason = env.failure_reason (length kept) (window env.parse_duration env.config) in
    ground (arith, impose-Mirrors env ip "auto" reason (length kept) counted ok h)

-- A manual ban: first the row, then the firewall, then the cache.
pub kept_ban :
    (env : SentryEnv) (prev : Option BlockedIp) (rec : BlockedIp) (s : IpSentry)
    {left : List FirewallCall}
    → IsReliable env
    → Mirrors left s.calls s.banned
    → Mirrors left
        (remember env rec (enforce env rec.ip rec.expires_at (save_row env prev rec s))).calls
        (remember env rec (enforce env rec.ip rec.expires_at (save_row env prev rec s))).banned
kept_ban env prev rec s ok h =
    let saved = save_row env prev rec s in
    let enforced = enforce env rec.ip rec.expires_at saved in
    let same = enforce-banned env rec.ip rec.expires_at saved ∙ save_row-banned env prev rec s in
    Mirrors-same (remember env rec enforced) _ _
      (enforce-calls env rec.ip rec.expires_at saved ok
        ∙ ap (λ cs. bans rec.ip rec.expires_at ∷ cs) (save_row-calls env prev rec s))
      (ap (put rec.ip rec) same) (Mirrors-ban rec s.calls s.banned h)
