-- ===== src/Sentry/Threshold.antt =====
-- When a failed call gets its address banned.
use gofaxserver.Prelude.{
  ℕ, suc, ◌-◌, ◌≤◌, String, ◌≡◌, refl, sym, ap, ◌∙◌, ◌↔◌, inl, inr, true, false, ◌&&◌, not, none,
  List, [], ◌∷◌, ◌++◌, arith, leb, Eq_text, beq_refl, Bool-cases, Option-cases, length, is_some,
  length-append,
}
use gofaxserver.Sentry.Config.{durations, threshold}
use gofaxserver.Sentry.Bans.{
  next_offense, failures_of, count_failure, ban_ip, auto_record, recent, element, expiry,
  record_failure, impose,
}
use gofaxserver.Sentry.State.{
  is_gateway_address, is_banned, is_whitelisted, BlockedIp, IpSentry, SentryEnv, is_past,
}
use gofaxserver.Prelude.Map.{Map, find_key, put, find_key-put, or_nil}

-- A new ban is in force when it is made.
expiry-ahead : (now offense : ℕ) (ds : List ℕ) → is_past now (expiry now offense ds) ≡ false
expiry-ahead now offense ds = elim (Option-cases (element (offense - 1) ds)) [
  | inl e ↦ rw (expiry, e) refl
  | inr (d, e) ↦ rw (expiry, e) (ground arith)
]

pub is_banned-put :
    (env : SentryEnv) (ip : String) (rec : BlockedIp) (m : Map String BlockedIp) (s : IpSentry)
    → s.banned ≡ put ip rec m
    → is_banned env ip s ≡ not (is_past env.now rec.expires_at)
unfolding is_banned
is_banned-put env ip rec m s e = rw (is_banned, e, find_key-put ip ip rec m, beq_refl ip) refl

pub is_banned-none :
    (env : SentryEnv) (ip : String) (s : IpSentry)
    → find_key ip s.banned ≡ none
    → is_banned env ip s ≡ false
unfolding is_banned
is_banned-none env ip s free = rw (is_banned, free) refl

pub impose-banned :
    (env : SentryEnv) (ip source reason : String) (n : ℕ) (s : IpSentry)
    → is_banned env ip (impose env ip source reason n s) ≡ true
unfolding impose
impose-banned env ip source reason n s =
    let rec = auto_record env ip source reason (failures_of env ip n s) (next_offense env ip s) in
    let after = impose env ip source reason n s in
    is_banned-put env ip rec _ after refl
    ∙ ap not
        (expiry-ahead env.now (next_offense env ip s) (durations env.parse_duration env.config))

-- What banIP does at an address that has no ban in the cache.
ban_ip-free :
    (env : SentryEnv) (ip source reason : String) (n : ℕ) (s : IpSentry)
    → find_key ip s.banned ≡ none
    → is_banned env ip (ban_ip env ip source reason n s) ≡ not (is_gateway_address env ip)
unfolding ban_ip
ban_ip-free env ip source reason n s free = elim (Bool-cases (is_gateway_address env ip)) [
  | inl let_in ↦ rw (ban_ip, let_in) (is_banned-none env ip _ free)
  | inr stranger ↦ rw (ban_ip, stranger, free) (impose-banned env ip source reason n s)
]

length-snoc : (xs : List ℕ) (x : ℕ) → length (xs ++ x ∷ []) ≡ suc (length xs)
length-snoc xs x = omega (arith, length-append xs (x ∷ []))

count_failure_lem :
    (env : SentryEnv) (ip : String) (s : IpSentry)
    → find_key ip s.banned ≡ none
    → is_banned env ip (count_failure env ip s) ≡ (
        leb (threshold env.config) (suc (length (recent env (or_nil (find_key ip s.failures)))))
        && not (is_gateway_address env ip))
unfolding count_failure
count_failure_lem env ip s free =
    let kept = recent env (or_nil (find_key ip s.failures)) ++ env.now ∷ [] in
    let many =
      ap (leb (threshold env.config))
        (length-snoc (recent env (or_nil (find_key ip s.failures))) env.now) in
    elim (Bool-cases (leb (threshold env.config) (length kept))) [
      | inl reached ↦
          rw (count_failure, reached)
            (ban_ip-free env ip "auto" _ _ _ free
              ∙ ap (λ b. b && not (is_gateway_address env ip)) (sym reached ∙ many))
      | inr below ↦
          rw (count_failure, below)
            (is_banned-none env ip _ free
              ∙ ap (λ b. b && not (is_gateway_address env ip)) (sym below ∙ many))
    ]

-- RecordFailure at a valid address that is neither whitelisted nor has a ban in the cache bans it
-- just when no gateway's ACL lets the address in and the failures of the window, with this one,
-- reach the threshold.
pub record_failure_iff :
    (env : SentryEnv) (ip : String) (s : IpSentry)
    → is_some (env.parse_ip ip) ≡ true
    → is_whitelisted env ip s ≡ false
    → find_key ip s.banned ≡ none
    → (is_banned env ip (record_failure env ip s) ≡ true) ↔ (
        (is_gateway_address env ip ≡ false)
        × (threshold env.config ≤ suc (length (recent env (or_nil (find_key ip s.failures))))))
unfolding record_failure is_whitelisted
record_failure_iff env ip s valid ordinary free =
    let seen : IpSentry = record s { failures_seen = suc s.failures_seen } in
    let guarded : is_banned env ip (record_failure env ip s)
        ≡ is_banned env ip (count_failure env ip seen) =
      rw (record_failure, valid, ordinary, is_banned-none env ip seen free) refl in
    ground (arith, guarded, count_failure_lem env ip seen free)
