-- ===== src/Sentry/Bans.antt =====
-- How addresses are banned and released (RecordFailure, banIP, BanManual, banIPPermanent, UnbanIP
-- and unbanIP of gofaxserver/ipsentry.go).
use gofaxserver.Prelude.{
  ℕ, zero, suc, ◌+◌, ◌-◌, String, Bool, true, false, ◌&&◌, ◌||◌, not, Option, none, some, List, [],
  ◌∷◌, ◌++◌, ltb, leb, if◌then◌else◌, ◌==◌, Eq_nat, Eq_text, length, is_some, keep,
}
use gofaxserver.Prelude.Map.{Map, find_key, put, delete, or_nil}
use gofaxserver.Sentry.Config.{threshold, window, durations}
use gofaxserver.Sentry.State.{
  is_banned, is_whitelisted, is_gateway_address, BlockedIp, IpSentry, SentryEnv, bans, unbans,
}

-- The element at an index, from 0.
abbrev pub element : ℕ → List ℕ → Option ℕ
element k [] = none
element zero (d ∷ ds) = some d
element (suc k) (d ∷ ds) = element k ds

-- When a ban for this offense ends: the offense counts from 1, and past the ladder it never does.
abbrev pub expiry : ℕ → ℕ → List ℕ → Option ℕ
expiry now offense ds = elim (element (offense - 1) ds) [ none ↦ none | some d ↦ some (now + d) ]

abbrev pub or_zero : Option ℕ → ℕ
or_zero none = 0
or_zero (some n) = n

abbrev pub max_nat : ℕ → ℕ → ℕ
max_nat a b = if ltb a b then b else a

-- What BanManual refuses, in the order of its tests.
pub data BanError : Type 0 where
  invalid_address : BanError
  whitelisted : BanError
  already_banned : BanError
  firewall_failed : BanError

module _ (env : SentryEnv) where
  -- backend.Ban, an error of which is counted
  unfoldable pub enforce : String → Option ℕ → IpSentry → IpSentry
  enforce ip expires s =
      if env.ban_rule ip expires
      then record s { calls = bans ip expires ∷ s.calls }
      else record s { enforce_errors = suc s.enforce_errors }

  -- DB.Where("ip = ?", ip).First(&prev)
  abbrev pub first_row : String → IpSentry → Option BlockedIp
  first_row ip s = elim s.rows [
    | none ↦ none
    | some table ↦ if env.finds_row ip then find_key ip table else none
  ]

  -- DB.Save of a row that was found, or else DB.Create, which the unique index stops if there is one
  unfoldable pub save_row : Option BlockedIp → BlockedIp → IpSentry → IpSentry
  save_row prev rec s = elim s.rows [
    | none ↦ s
    | some table ↦
        if env.writes_row rec && (is_some prev || not (is_some (find_key rec.ip table)))
        then record s { rows = some (put rec.ip rec table) }
        else s
  ]

  -- The offense that a new ban is for.
  unfoldable pub next_offense : String → IpSentry → ℕ
  next_offense ip s =
      let counted = suc (or_zero (find_key ip s.offenses)) in
      elim (first_row ip s) [
        | none ↦ counted
        | some prev ↦ max_nat counted (suc prev.offense_count)
      ]

  unfoldable pub failures_of : String → ℕ → IpSentry → ℕ
  failures_of ip fail_count s = elim (first_row ip s) [
    | none ↦ fail_count
    | some prev ↦ max_nat fail_count prev.fail_count
  ]

  abbrev pub auto_record : String → String → String → ℕ → ℕ → BlockedIp
  auto_record ip source reason fail_count offense = record {
    ip = ip;
    reason = reason;
    source = source;
    fail_count = fail_count;
    offense_count = offense;
    banned_at = env.now;
    expires_at = expiry env.now offense (durations env.parse_duration env.config);
    active = true;
    unbanned_at = none;
    unban_reason = "";
  }

  abbrev pub holds_active : Option BlockedIp → Bool
  holds_active none = false
  holds_active (some b) = b.active

  -- The part of banIP that follows its guards.
  unfoldable pub impose : String → String → String → ℕ → IpSentry → IpSentry
  impose ip source reason fail_count s =
      let offense = next_offense ip s in
      let rec = auto_record ip source reason (failures_of ip fail_count s) offense in
      let counted : IpSentry = record s { offenses = put ip offense s.offenses } in
      let enforced = enforce ip rec.expires_at counted in
      let saved = save_row (first_row ip enforced) rec enforced in
      record saved {
        banned = put ip rec saved.banned;
        failures = delete ip saved.failures;
        bans_created = suc saved.bans_created;
        manual_bans = if source == "manual" then suc saved.manual_bans else saved.manual_bans;
      }

  -- banIP
  unfoldable pub ban_ip : String → String → String → ℕ → IpSentry → IpSentry
  ban_ip ip source reason fail_count s =
      if is_gateway_address env ip
      then record s { whitelist_skipped = suc s.whitelist_skipped }
      else if holds_active (find_key ip s.banned)
      then s
      else impose ip source reason fail_count s

  abbrev pub recent : List ℕ → List ℕ
  recent ts = keep (λ t. ltb (env.now - t) (window env.parse_duration env.config)) ts

  -- The part of RecordFailure that follows its guards.
  unfoldable pub count_failure : String → IpSentry → IpSentry
  count_failure ip s =
      let kept = recent (or_nil (find_key ip s.failures)) ++ env.now ∷ [] in
      let counted : IpSentry = record s { failures = put ip kept s.failures } in
      let count = length kept in
      let reason = env.failure_reason count (window env.parse_duration env.config) in
      if leb (threshold env.config) count then ban_ip ip "auto" reason count counted else counted

  -- RecordFailure
  unfoldable pub record_failure : String → IpSentry → IpSentry
  record_failure ip s =
      let seen : IpSentry = record s { failures_seen = suc s.failures_seen } in
      if not (is_some (env.parse_ip ip))
      then s
      else if is_whitelisted env ip seen
      then record seen { whitelist_skipped = suc seen.whitelist_skipped }
      else if is_banned env ip seen
      then seen
      else count_failure ip seen

  abbrev manual_record : String → String → ℕ → ℕ → Option ℕ → BlockedIp
  manual_record ip reason fail_count offense expires = record {
    ip = ip;
    reason = reason;
    source = "manual";
    fail_count = fail_count;
    offense_count = offense;
    banned_at = env.now;
    expires_at = expires;
    active = true;
    unbanned_at = none;
    unban_reason = "";
  }

  abbrev pub remember : BlockedIp → IpSentry → IpSentry
  remember rec s = record s {
    banned = put rec.ip rec s.banned;
    bans_created = suc s.bans_created;
    manual_bans = suc s.manual_bans;
  }

  -- banIPPermanent
  unfoldable pub ban_ip_permanent : String → String → IpSentry → IpSentry
  ban_ip_permanent ip reason s =
      let offense = suc (length (durations env.parse_duration env.config)) in
      let prev = first_row ip s in
      let fails : ℕ = elim prev [ none ↦ 0 | some p ↦ p.fail_count ] in
      let rec = manual_record ip reason fails offense none in
      remember rec (enforce ip none (save_row prev rec s))

  -- The record of a manual ban for a while: it counts as one more offense than the row has.
  abbrev pub timed_record : String → String → ℕ → Option BlockedIp → BlockedIp
  timed_record ip reason duration none = manual_record ip reason 0 1 (some (env.now + duration))
  timed_record ip reason duration (some prev) =
      manual_record ip reason prev.fail_count (suc prev.offense_count) (some (env.now + duration))

  -- BanManual; a duration of nothing means for good
  unfoldable pub ban_manual : String → String → Option ℕ → IpSentry → Option BanError × IpSentry
  ban_manual ip reason duration s =
      if not (is_some (env.parse_ip ip))
      then (some invalid_address, s)
      else if is_whitelisted env ip s
      then (some whitelisted, s)
      else if is_banned env ip s
      then (some already_banned, s)
      else (elim duration [
        | none ↦ (none, ban_ip_permanent ip reason s)
        | some d ↦
            let prev = first_row ip s in
            let rec = timed_record ip reason d prev in
            let enforced = enforce ip rec.expires_at (save_row prev rec s) in
            if env.ban_rule ip rec.expires_at
            then (none, remember rec enforced)
            else (some firewall_failed, enforced)
      ])

  -- UPDATE ... WHERE ip = ? AND active = true
  abbrev pub closed : String → BlockedIp → BlockedIp
  closed reason b =
      if b.active
      then record b { active = false; unbanned_at = some env.now; unban_reason = reason }
      else b

  unfoldable pub close_row :
      String → String → Option (Map String BlockedIp) → Option (Map String BlockedIp)
  close_row ip reason none = none
  close_row ip reason (some table) = elim (find_key ip table) [
    | none ↦ some table
    | some b ↦ if env.updates_row ip then some (put ip (closed reason b) table) else some table
  ]

  -- unbanIP
  unfoldable pub unban_ip : String → String → IpSentry → IpSentry
  unban_ip ip reason s =
      let released : IpSentry =
        if env.unban_rule ip
        then record s { calls = unbans ip ∷ s.calls }
        else record s { enforce_errors = suc s.enforce_errors } in
      let gone : IpSentry = record released {
        banned = delete ip released.banned;
        failures = delete ip released.failures;
      } in
      record gone { rows = close_row ip reason gone.rows }

  -- UnbanIP
  unfoldable pub unban_manually : String → IpSentry → Bool × IpSentry
  unban_manually ip s =
      if not (is_banned env ip s)
      then (false, s)
      else (true, unban_ip ip "manual" (record s { manual_unbans = suc s.manual_unbans }))
