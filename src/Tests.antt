-- ===== src/Tests.antt =====
-- Runs of the theorems on concrete inputs.
mod Policy
mod Table
mod Tracker
mod Queue
mod Registry
mod Sentry
mod Router
mod Results
mod Events
mod Notify
mod Portal
use gofaxserver.Prelude.{}
