-- ===== src/Sentry/Steps.antt =====
-- The calls of the sentry as steps, each in surroundings of its own, and what they can lead to.
use gofaxserver.Prelude.{ℕ, String, Bool, Option, List}
use gofaxserver.Prelude.Map.{Map}
use gofaxserver.Sentry.State.{FirewallCall, BlockedIp, IpSentry, SentryEnv, should_log_blocked}
use gofaxserver.Sentry.Bans.{record_failure, ban_manual, unban_manually}
use gofaxserver.Sentry.Janitor.{reconcile, janitor_tick, new_ip_sentry}

-- One call, in surroundings that satisfy P.
pub data Step (P : SentryEnv → Type 0) : IpSentry → IpSentry → Type 0 where
  fails :
      (env : SentryEnv) (ip : String) (s : IpSentry) → P env → Step P s (record_failure env ip s)
  bans_manually :
      (env : SentryEnv) (ip reason : String) (duration : Option ℕ) (s : IpSentry)
      → P env
      → Step P s (ban_manual env ip reason duration s).1
  unbans_manually :
      (env : SentryEnv) (ip : String) (s : IpSentry) → P env → Step P s (unban_manually env ip s).1
  reconciles : (env : SentryEnv) (s : IpSentry) → P env → Step P s (reconcile env s)
  ticks : (env : SentryEnv) (s : IpSentry) → P env → Step P s (janitor_tick env s)
  logs :
      (env : SentryEnv) (ip : String) (s : IpSentry)
      → P env
      → Step P s (should_log_blocked env ip s).1

-- What a sentry that was started on some table of bans can come to, with the calls of earlier runs
-- of which the firewall still keeps the rules.
pub data Reach (P : SentryEnv → Type 0) : IpSentry → Type 0 where
  starts :
      (env : SentryEnv) (boots loads : Bool) (rows : Option (Map String BlockedIp))
      (left : List FirewallCall)
      → P env
      → Reach P (new_ip_sentry env boots loads rows left)
  steps : {s t : IpSentry} → Reach P s → Step P s t → Reach P t

-- The calls of the earlier runs.
abbrev pub started_with : {P : SentryEnv → Type 0} {s : IpSentry} → Reach P s → List FirewallCall
started_with (starts env boots loads rows left p) = left
started_with (steps r step) = started_with r

abbrev pub AnyEnv : SentryEnv → Type 0
AnyEnv env = Unit
