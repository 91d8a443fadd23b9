-- ===== src/Inbound.antt =====
-- The first decisions about an inbound call (the handler of gofaxserver/freeswitch_inbound.go, from
-- its check of the source address to the choice between reception and bridge).
pub mod Admitting
use gofaxserver.Prelude.{String, none, some, if◌then◌else◌}
use gofaxserver.Sentry.Bans.{record_failure}
use gofaxserver.Prelude.Text.{before_colon}
use gofaxserver.Registry.{fs_gateway_acl}
use gofaxserver.Sentry.State.{IpSentry, SentryEnv, is_banned, should_log_blocked}

-- The response of the handler: 403 for a banned address, 401 for one that no gateway's ACL lets in,
-- or else the name of the gateway that the call comes from.
pub data Admission : Type 0 where
  forbidden unauthorized : Admission
  admitted : String → Admission

-- The checks of the source address, and the state of the sentry after them. The sentry is enabled.
unfoldable pub admit : SentryEnv → String → IpSentry → Admission × IpSentry
admit env source_ip s =
    if is_banned env source_ip s
    then (forbidden, (should_log_blocked env source_ip s).1)
    else (elim (fs_gateway_acl source_ip env.registry) [
      | none ↦ (unauthorized, record_failure env source_ip s)
      | some ep ↦ (admitted (before_colon ep), s)
    ])
