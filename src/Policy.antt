-- ===== src/Policy.antt =====
-- The fax policy engine, gofaxserver/faxpolicy.go: rules, their resolution for one call, learning
-- from outcomes, the flip-flop state of a pair of numbers.
pub mod Rules
pub mod Resolve
pub mod Signature
pub mod Learning
pub mod Pairs
use gofaxserver.Prelude.{}
