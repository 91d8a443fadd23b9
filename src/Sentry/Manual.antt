-- ===== src/Sentry/Manual.antt =====
-- Bans by hand, and bans that are over but still in the cache.
use gofaxserver.Prelude.{
  ℕ, ◌+◌, String, ◌≡◌, refl, ap, ◌∙◌, inl, inr, true, false, not, Option, none, some, List, [], ◌∷◌,
  arith, eq_iff, Eq_text, Bool-cases, is_some,
}
use gofaxserver.Sentry.Tidy.{save_row-banned, enforce-banned}
use gofaxserver.Sentry.Threshold.{is_banned-put}
use gofaxserver.Sentry.Start.{Reach-IsTidy}
use gofaxserver.Sentry.Steps.{AnyEnv, Reach}
use gofaxserver.Sentry.Bans.{
  save_row, first_row, ban_ip_permanent, remember, timed_record, ban_ip, BanError, count_failure,
  record_failure, ban_manual,
}
use gofaxserver.Sentry.State.{is_past, BlockedIp, is_whitelisted, IpSentry, is_banned, SentryEnv}
use gofaxserver.Sentry.Bans.{invalid_address, whitelisted, already_banned, firewall_failed}
use gofaxserver.Prelude.Map.{Map, find_key-put, find_key, find_key-All, put}

-- When a manual ban for a while ends; one for good does not.
abbrev pub until : ℕ → Option ℕ → Option ℕ
until now none = none
until now (some d) = some (now + d)

-- The cache has a ban of the address that ends when it was asked to.
abbrev pub HasBan : SentryEnv → String → Option ℕ → Map String BlockedIp → Type 0
HasBan env ip duration m =
    (b : BlockedIp) × (find_key ip m ≡ some b)
    × (b.active ≡ true)
    × (b.expires_at ≡ until env.now duration)

-- What BanManual has to have done, by the error that it returns, from the state before.
abbrev pub Answers : SentryEnv → String → Option ℕ → IpSentry → Option BanError → IpSentry → Type 0
Answers env ip duration s none t =
    (is_some (env.parse_ip ip) ≡ true)
    × (is_whitelisted env ip s ≡ false)
    × (is_banned env ip s ≡ false)
    × (is_banned env ip t ≡ true)
    × HasBan env ip duration t.banned
Answers env ip duration s (some invalid_address) t = (is_some (env.parse_ip ip) ≡ false) × (t ≡ s)
Answers env ip duration s (some whitelisted) t = (is_whitelisted env ip s ≡ true) × (t ≡ s)
Answers env ip duration s (some already_banned) t = (is_banned env ip s ≡ true) × (t ≡ s)
Answers env ip duration s (some firewall_failed) t =
    ((d : ℕ) × (duration ≡ some d) × (env.ban_rule ip (some (env.now + d)) ≡ false))
    × (t.banned ≡ s.banned)

timed_record_lem :
    (env : SentryEnv) (ip reason : String) (d : ℕ) (prev : Option BlockedIp)
    → ((timed_record env ip reason d prev).expires_at ≡ some (env.now + d))
      × ((timed_record env ip reason d prev).ip ≡ ip)
      × ((timed_record env ip reason d prev).active ≡ true)
timed_record_lem env ip reason d none = (refl, refl, refl)
timed_record_lem env ip reason d (some p) = (refl, refl, refl)

remember-banned :
    (env : SentryEnv) (ip : String) (rec : BlockedIp) (s : IpSentry)
    → rec.ip ≡ ip
    → is_past env.now rec.expires_at ≡ false
    → is_banned env ip (remember env rec s) ≡ true
remember-banned env ip rec s at_ip ahead =
    is_banned-put env ip rec s.banned (remember env rec s) (ap (λ j. put j rec s.banned) at_ip)
    ∙ ap not ahead

put-HasBan :
    (env : SentryEnv) (ip : String) (duration : Option ℕ) (rec : BlockedIp)
    (m : Map String BlockedIp)
    → rec.ip ≡ ip
    → rec.active ≡ true
    → rec.expires_at ≡ until env.now duration
    → HasBan env ip duration (put rec.ip rec m)
put-HasBan env ip duration rec m at_ip live ends =
    let found : find_key ip (put rec.ip rec m) ≡ some rec =
      find_key-put rec.ip ip rec m ∙ rw ((eq_iff rec.ip ip).1 at_ip) refl in
    (rec, found, live, ends)

-- The part of BanManual that follows its guards.
imposed :
    (env : SentryEnv) (ip reason : String) (duration : Option ℕ) (s : IpSentry)
    → is_some (env.parse_ip ip) ≡ true
    → is_whitelisted env ip s ≡ false
    → is_banned env ip s ≡ false
    → Answers env ip duration s
        (ban_manual env ip reason duration s).0
        (ban_manual env ip reason duration s).1
unfolding ban_manual ban_ip_permanent
imposed env ip reason none s valid ordinary free =
    rw (ban_manual, valid, ordinary, free)
      (
        valid,
        ordinary,
        free,
        remember-banned env ip _ _ refl refl,
        put-HasBan env ip none _ _ refl refl refl,
      )
imposed env ip reason (some d) s valid ordinary free =
    let prev = first_row env ip s in
    let rec = timed_record env ip reason d prev in
    let (ends, at_ip, live) = timed_record_lem env ip reason d prev in
    let saved = save_row env prev rec s in
    let ahead : is_past env.now rec.expires_at ≡ false = rw ends (ground arith) in
    let same = enforce-banned env ip rec.expires_at saved ∙ save_row-banned env prev rec s in
    elim (Bool-cases (env.ban_rule ip rec.expires_at)) [
      | inl e ↦
          rw (ban_manual, valid, ordinary, free, e)
            (
              valid,
              ordinary,
              free,
              remember-banned env ip rec _ at_ip ahead,
              put-HasBan env ip (some d) rec _ at_ip live ends,
            )
      | inr e ↦
          let e' : env.ban_rule ip (some (env.now + d)) ≡ false = rw⁻¹ ends e in
          rw (ban_manual, valid, ordinary, free, e) ((d, refl, e'), same)
    ]

-- BanManual returns an error when the address is not valid, when it is whitelisted and when it is
-- banned, with the state as it was, and when the firewall refuses a ban for a while, with the bans in
-- the cache as they were; it returns no error only if none of the first three is so, and then the
-- address is banned, with an active ban in the cache that ends after the duration, or never if none
-- is given. A ban for good is made even if the firewall refuses it.
pub ban_manual-Answers :
    (env : SentryEnv) (ip reason : String) (duration : Option ℕ) (s : IpSentry)
    → Answers env ip duration s
        (ban_manual env ip reason duration s).0
        (ban_manual env ip reason duration s).1
unfolding ban_manual
ban_manual-Answers env ip reason duration s = elim (Bool-cases (is_some (env.parse_ip ip))) [
  | inr invalid ↦ rw (ban_manual, invalid) (invalid, refl)
  | inl valid ↦ elim (Bool-cases (is_whitelisted env ip s)) [
    | inl listed ↦ rw (ban_manual, valid, listed) (listed, refl)
    | inr ordinary ↦ elim (Bool-cases (is_banned env ip s)) [
      | inl already ↦ rw (ban_manual, valid, ordinary, already) (already, refl)
      | inr free ↦ imposed env ip reason duration s valid ordinary free
    ]
  ]
]

abbrev pub fail_all : List SentryEnv → String → IpSentry → IpSentry
fail_all [] ip s = s
fail_all (env ∷ envs) ip s = fail_all envs ip (record_failure env ip s)

record_failure-cached :
    (env : SentryEnv) (ip : String) (s : IpSentry) (b : BlockedIp)
    → find_key ip s.banned ≡ some b
    → b.active ≡ true
    → (record_failure env ip s).banned ≡ s.banned
unfolding record_failure count_failure ban_ip
record_failure-cached env ip s b found live = ground (arith, found, live)

fail_all-cached :
    (envs : List SentryEnv) (ip : String) (s : IpSentry) (b : BlockedIp)
    → find_key ip s.banned ≡ some b
    → b.active ≡ true
    → find_key ip (fail_all envs ip s).banned ≡ some b
fail_all-cached [] ip s b found live = found
fail_all-cached (env ∷ envs) ip s b found live =
    let same = record_failure-cached env ip s b found live in
    fail_all-cached envs ip (record_failure env ip s) b (ap (find_key ip) same ∙ found) live

-- At any moment of a run, an address whose ban is over but still in the cache is not banned again by
-- failed calls, however many there are before the janitor comes.
pub fail_all-unbanned :
    (envs : List SentryEnv) (env : SentryEnv) (ip : String) (s : IpSentry) (b : BlockedIp)
    → Reach AnyEnv s
    → find_key ip s.banned ≡ some b
    → is_past env.now b.expires_at ≡ true
    → is_banned env ip (fail_all envs ip s) ≡ false
unfolding is_banned
fail_all-unbanned envs env ip s b r found over =
    let live =
      find_key-All (λ e. e.1.active ≡ true) ip b s.banned (Reach-IsTidy r).all_active found in
    rw (is_banned, fail_all-cached envs ip s b found live, over) refl
