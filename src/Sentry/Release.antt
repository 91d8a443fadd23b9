-- ===== src/Sentry/Release.antt =====
-- What the janitor releases.
use gofaxserver.Prelude.{
  ℕ, suc, String, ◌≡◌, refl, ap, ◌∙◌, inl, inr, Bool, false, ◌&&◌, ◌||◌, Option, none, some, List,
  [], ◌∷◌, arith, eq_iff, if◌then◌else◌, ◌==◌, Eq_nat, Eq_text, Bool-cases, is_some, All,
}
use gofaxserver.Sentry.Tidy.{sync-banned}
use gofaxserver.Sentry.Start.{Reach-IsTidy}
use gofaxserver.Sentry.Steps.{AnyEnv, Reach}
use gofaxserver.Registry.{any_equal}
use gofaxserver.Sentry.Janitor.{
  banned_ips, active_bans_of, sync, reconcile, janitor_tick, expired_ips, expire_from, reconcile_ip,
  reconcile_from,
}
use gofaxserver.Prelude.Map.{HasUniqueKeys, Map, find_key, find_key-delete}
use gofaxserver.Sentry.State.{
  is_past, is_gateway_address, is_whitelisted, BlockedIp, IpSentry, SentryEnv,
}
use gofaxserver.Sentry.Bans.{unban_ip}

unban_ip-find_key :
    (env : SentryEnv) (ip reason j : String) (s : IpSentry)
    → find_key j (unban_ip env ip reason s).banned ≡ (if ip == j then none else find_key j s.banned)
unfolding unban_ip
unban_ip-find_key env ip reason j s = elim (Bool-cases (env.unban_rule ip)) [
  | inl e ↦ rw (unban_ip, e) (find_key-delete ip j s.banned)
  | inr e ↦ rw (unban_ip, e) (find_key-delete ip j s.banned)
]

-- Whether the sentry lets an address go.
abbrev pub is_released : SentryEnv → String → IpSentry → Bool
is_released env ip s = is_whitelisted env ip s || is_gateway_address env ip

unban_ip-is_whitelisted :
    (env : SentryEnv) (ip reason j : String) (s : IpSentry)
    → is_whitelisted env j (unban_ip env ip reason s) ≡ is_whitelisted env j s
unfolding unban_ip is_whitelisted
unban_ip-is_whitelisted env ip reason j s = elim (Bool-cases (env.unban_rule ip)) [
  | inl e ↦ rw (unban_ip, e) refl
  | inr e ↦ rw (unban_ip, e) refl
]

is_whitelisted-counted :
    (env : SentryEnv) (j : String) (n : ℕ) (s : IpSentry)
    → is_whitelisted env j (record s { reconcile_unbans = n }) ≡ is_whitelisted env j s
unfolding is_whitelisted
is_whitelisted-counted env j n s = refl

reconcile_ip-is_whitelisted :
    (env : SentryEnv) (ip j : String) (s : IpSentry)
    → is_whitelisted env j (reconcile_ip env ip s) ≡ is_whitelisted env j s
unfolding reconcile_ip
reconcile_ip-is_whitelisted env ip j s =
    let counted : IpSentry = record s { reconcile_unbans = suc s.reconcile_unbans } in
    let same = is_whitelisted-counted env j (suc s.reconcile_unbans) s in
    elim (Bool-cases (is_whitelisted env ip s)) [
      | inl e ↦ rw (reconcile_ip, e) (unban_ip-is_whitelisted env ip _ j counted ∙ same)
      | inr e ↦ elim (Bool-cases (is_gateway_address env ip)) [
        | inl g ↦ rw (reconcile_ip, e, g) (unban_ip-is_whitelisted env ip _ j counted ∙ same)
        | inr g ↦ rw (reconcile_ip, e, g) refl
      ]
    ]

reconcile_ip-find_key :
    (env : SentryEnv) (ip j : String) (s : IpSentry)
    → find_key j (reconcile_ip env ip s).banned
      ≡ (if ip == j && is_released env j s then none else find_key j s.banned)
unfolding reconcile_ip
reconcile_ip-find_key env ip j s =
    let counted : IpSentry = record s { reconcile_unbans = suc s.reconcile_unbans } in
    ground (
      arith,
      eq_iff ip j,
      unban_ip-find_key env ip "whitelisted" j counted,
      unban_ip-find_key env ip "now-matches-endpoint-acl" j counted,
    )

reconcile_from-find_key :
    (env : SentryEnv) (ips : List String) (j : String) (s : IpSentry)
    → find_key j (reconcile_from env ips s).banned
      ≡ (if any_equal j ips && is_released env j s then none else find_key j s.banned)
unfolding reconcile_from
reconcile_from-find_key env [] j s = refl
reconcile_from-find_key env (ip ∷ ips) j s =
    let next = reconcile_ip env ip s in
    ground (
      arith,
      reconcile_from-find_key env ips j next,
      reconcile_ip-find_key env ip j s,
      reconcile_ip-is_whitelisted env ip j s,
    )

pub expire_from-find_key :
    (env : SentryEnv) (ips : List String) (j : String) (s : IpSentry)
    → find_key j (expire_from env ips s).banned
      ≡ (if any_equal j ips then none else find_key j s.banned)
unfolding expire_from
expire_from-find_key env [] j s = refl
expire_from-find_key env (ip ∷ ips) j s =
    let counted : IpSentry = record s { bans_expired = suc s.bans_expired } in
    let next = unban_ip env ip "expired" counted in
    ground
      (arith, expire_from-find_key env ips j next, unban_ip-find_key env ip "expired" j counted)

any_equal-banned_ips :
    (env : SentryEnv) (j : String) (m : Map String BlockedIp)
    → any_equal j (banned_ips env m) ≡ is_some (find_key j m)
unfolding find_key
any_equal-banned_ips env j [] = refl
any_equal-banned_ips env j ((k, b) ∷ m) = ground (arith, any_equal-banned_ips env j m)

-- Whether an address has a ban that is over.
abbrev pub has_past : ℕ → Option BlockedIp → Bool
has_past now none = false
has_past now (some b) = is_past now b.expires_at

absent-expired_ips :
    (env : SentryEnv) (j : String) (m : Map String BlockedIp)
    → All (λ e. e.1.ip ≡ e.0) m
    → find_key j m ≡ none
    → any_equal j (expired_ips env m) ≡ false
unfolding expired_ips find_key
absent-expired_ips env j [] h e = refl
absent-expired_ips env j ((k, b) ∷ m) (at_k, h) e = ground (arith, absent-expired_ips env j m h)

pub any_equal-expired_ips :
    (env : SentryEnv) (j : String) (m : Map String BlockedIp)
    → HasUniqueKeys m
    → All (λ e. e.1.ip ≡ e.0) m
    → any_equal j (expired_ips env m) ≡ has_past env.now (find_key j m)
unfolding expired_ips find_key
any_equal-expired_ips env j [] u h = refl
any_equal-expired_ips env j ((k, b) ∷ m) (fresh, u) (at_k, h) =
    ground (arith, eq_iff k j, any_equal-expired_ips env j m u h, absent-expired_ips env j m h)

is_whitelisted-expired :
    (env : SentryEnv) (j : String) (n : ℕ) (s : IpSentry)
    → is_whitelisted env j (record s { bans_expired = n }) ≡ is_whitelisted env j s
unfolding is_whitelisted
is_whitelisted-expired env j n s = refl

sync-is_whitelisted :
    (env : SentryEnv) (j : String) (active : List BlockedIp) (s : IpSentry)
    → is_whitelisted env j (sync env active s) ≡ is_whitelisted env j s
unfolding sync is_whitelisted
sync-is_whitelisted env j active s = elim (Bool-cases (env.sync_rules active == 0)) [
  | inl e ↦ rw (sync, e) refl
  | inr e ↦ rw (sync, e) refl
]

expire_from-is_whitelisted :
    (env : SentryEnv) (ips : List String) (j : String) (s : IpSentry)
    → is_whitelisted env j (expire_from env ips s) ≡ is_whitelisted env j s
unfolding expire_from
expire_from-is_whitelisted env [] j s = refl
expire_from-is_whitelisted env (ip ∷ ips) j s =
    let counted : IpSentry = record s { bans_expired = suc s.bans_expired } in
    expire_from-is_whitelisted env ips j (unban_ip env ip "expired" counted)
    ∙ unban_ip-is_whitelisted env ip "expired" j counted
    ∙ is_whitelisted-expired env j (suc s.bans_expired) s

-- After janitorTick, at any moment of a run, an address is banned just if it was, and its ban is
-- not over, and it is neither whitelisted nor let in by a gateway's ACL; its ban is the same.
pub janitor_tick_lem :
    (env : SentryEnv) (s : IpSentry) (j : String)
    → Reach AnyEnv s
    → find_key j (janitor_tick env s).banned ≡ (
        if has_past env.now (find_key j s.banned) || is_released env j s
        then none
        else find_key j s.banned)
unfolding janitor_tick reconcile
janitor_tick_lem env s j r =
    let tidy = Reach-IsTidy r in
    let ips = expired_ips env s.banned in
    let active = active_bans_of env s.banned in
    let expired = expire_from env ips s in
    let synced = sync env active expired in
    ground (
      arith,
      reconcile_from-find_key env (banned_ips env synced.banned) j synced,
      any_equal-banned_ips env j synced.banned,
      ap (λ (m : Map String BlockedIp). find_key j m) (sync-banned env active expired),
      expire_from-find_key env ips j s,
      any_equal-expired_ips env j s.banned tidy.unique tidy.filed,
      sync-is_whitelisted env j active expired,
      expire_from-is_whitelisted env ips j s,
    )
