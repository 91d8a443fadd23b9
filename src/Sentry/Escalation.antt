-- ===== src/Sentry/Escalation.antt =====
-- How the bans of an address grow.
use gofaxserver.Prelude.{
  ℕ, zero, suc, ◌+◌, ◌-◌, ◌≤◌, ◌<◌, String, ◌≡◌, refl, ap, ◌∙◌, ◌⊎◌, inl, inr, true, Option, none,
  some, List, [], ◌∷◌, ◌++◌, arith, Eq_text, beq_refl, Option-cases, length,
}
use gofaxserver.Sentry.Threshold.{is_banned-none}
use gofaxserver.Sentry.Config.{window, durations}
use gofaxserver.Sentry.Bans.{
  recent, ban_ip, count_failure, first_row, record_failure, element, save_row, enforce,
  next_offense, expiry, failures_of, or_zero, auto_record, impose,
}
use gofaxserver.Sentry.State.{is_banned, BlockedIp, IpSentry, SentryEnv}
use gofaxserver.Prelude.Map.{or_nil, Map, find_key, find_key-put, put}

-- How long a ban for an offense, counted from 1, lasts by a ladder.
abbrev pub Lasts : ℕ → ℕ → List ℕ → Option ℕ → Type 0
Lasts now offense ds expires =
    ((shorter : List ℕ) × (d : ℕ) × (longer : List ℕ) × (ds ≡ shorter ++ d ∷ longer)
      × (offense ≡ suc (length shorter))
      × (expires ≡ some (now + d)))
    ⊎ ((length ds < offense) × (expires ≡ none))

-- The address has a ban for a higher offense than was counted before, the offense that is counted
-- now. The ladder has as many durations before the one that the ban lasts as there are offenses
-- before this one; past the end of the ladder the ban does not end.
pub record Escalates (env : SentryEnv) (ip : String) (before : Map String ℕ) (t : IpSentry)
    : Type 0 where
  pub ban : BlockedIp
  pub found : find_key ip t.banned ≡ some ban
  pub counted : find_key ip t.offenses ≡ some ban.offense_count
  pub higher : or_zero (find_key ip before) < ban.offense_count
  pub lasts :
      Lasts env.now ban.offense_count (durations env.parse_duration env.config) ban.expires_at

element-split :
    (k : ℕ) (ds : List ℕ) (d : ℕ)
    → element k ds ≡ some d
    → (shorter : List ℕ) × (longer : List ℕ) × (ds ≡ shorter ++ d ∷ longer) × (length shorter ≡ k)
element-split k [] d e = absurd cc
element-split zero (c ∷ ds) d e = ([], ds, (let f : c ≡ d = cc in rw f refl), refl)
element-split (suc k) (c ∷ ds) d e =
    let (shorter, longer, f, n) = element-split k ds d e in
    (c ∷ shorter, longer, ap (λ l. c ∷ l) f, ap suc n)

element-past : (k : ℕ) (ds : List ℕ) → element k ds ≡ none → length ds ≤ k
element-past k [] e = omega arith
element-past zero (d ∷ ds) e = absurd cc
element-past (suc k) (d ∷ ds) e = omega (arith, element-past k ds e)

expiry-Lasts :
    (now offense : ℕ) (ds : List ℕ) → 0 < offense → Lasts now offense ds (expiry now offense ds)
expiry-Lasts now offense ds positive = elim (Option-cases (element (offense - 1) ds)) [
  | inl e ↦
      let h = element-past (offense - 1) ds e in
      inr (omega (arith, h, positive), rw (expiry, e) refl)
  | inr (d, e) ↦
      let (shorter, longer, f, n) = element-split (offense - 1) ds d e in
      inl (shorter, d, longer, f, omega (arith, n, positive), rw (expiry, e) refl)
]

next_offense-higher :
    (env : SentryEnv) (ip : String) (s : IpSentry)
    → or_zero (find_key ip s.offenses) < next_offense env ip s
unfolding next_offense
next_offense-higher env ip s = ground arith

enforce-offenses :
    (env : SentryEnv) (ip : String) (x : Option ℕ) (s : IpSentry)
    → (enforce env ip x s).offenses ≡ s.offenses
unfolding enforce
enforce-offenses env ip x s = ground arith

save_row-offenses :
    (env : SentryEnv) (prev : Option BlockedIp) (rec : BlockedIp) (s : IpSentry)
    → (save_row env prev rec s).offenses ≡ s.offenses
unfolding save_row
save_row-offenses env prev rec s = ground arith

impose-Escalates :
    (env : SentryEnv) (ip source reason : String) (n : ℕ) (s : IpSentry)
    → Escalates env ip s.offenses (impose env ip source reason n s)
unfolding impose
impose-Escalates env ip source reason n s =
    let offense = next_offense env ip s in
    let rec = auto_record env ip source reason (failures_of env ip n s) offense in
    let counted : IpSentry = record s { offenses = put ip offense s.offenses } in
    let enforced = enforce env ip rec.expires_at counted in
    let saved = save_row env (first_row env ip enforced) rec enforced in
    let same =
      save_row-offenses env (first_row env ip enforced) rec enforced
      ∙ enforce-offenses env ip rec.expires_at counted in
    record {
      ban = rec;
      found = rw (find_key-put ip ip rec saved.banned, beq_refl ip) refl;
      counted =
          ap (find_key ip) same ∙ rw (find_key-put ip ip offense s.offenses, beq_refl ip) refl;
      higher = next_offense-higher env ip s;
      lasts =
          expiry-Lasts env.now offense (durations env.parse_duration env.config)
            (omega (arith, next_offense-higher env ip s));
    }

-- A failed call bans its address or leaves the cache.
record_failure-cases :
    (env : SentryEnv) (ip : String) (s : IpSentry)
    → Escalates env ip s.offenses (record_failure env ip s)
      ⊎ ((record_failure env ip s).banned ≡ s.banned)
unfolding record_failure count_failure ban_ip
record_failure-cases env ip s =
    let seen : IpSentry = record s { failures_seen = suc s.failures_seen } in
    let kept = recent env (or_nil (find_key ip s.failures)) ++ env.now ∷ [] in
    let counted : IpSentry = record seen { failures = put ip kept s.failures } in
    let reason = env.failure_reason (length kept) (window env.parse_duration env.config) in
    ground (arith, impose-Escalates env ip "auto" reason (length kept) counted)

-- A failed call that gets an address banned counts a higher offense of the address than before; the
-- ban for the n-th offense lasts as long as the n-th duration of the ladder says, and does not end if
-- the ladder has fewer than n durations.
pub record_failure-Escalates :
    (env : SentryEnv) (ip : String) (s : IpSentry)
    → find_key ip s.banned ≡ none
    → is_banned env ip (record_failure env ip s) ≡ true
    → Escalates env ip s.offenses (record_failure env ip s)
record_failure-Escalates env ip s free banned = elim (record_failure-cases env ip s) [
  | inl higher ↦ higher
  | inr same ↦
      let no = is_banned-none env ip (record_failure env ip s) (ap (find_key ip) same ∙ free) in
      absurd cc
]
