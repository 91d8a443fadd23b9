-- ===== src/Sentry.antt =====
-- The sentry that counts failed calls per address and bans addresses at the firewall
-- (gofaxserver/ipsentry.go, and SecurityConfig of gofaxlib/config.go).
pub mod Config
pub mod State
pub mod Bans
pub mod Janitor
pub mod Steps
pub mod Threshold
pub mod Manual
pub mod Sampling
pub mod Escalation
pub mod Release
pub mod Tidy
pub mod Firewall
pub mod Start
use gofaxserver.Prelude.{}
