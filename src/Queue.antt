-- ===== src/Queue.antt =====
-- The queue, gofaxserver/queue.go: endpoint groups in order of priority, attempts with retries, the
-- two kinds of delivery, and the notification at the end.
pub mod Groups
pub mod Retry
pub mod Outside
pub mod Attempts
pub mod Delivery
pub mod Process
use gofaxserver.Prelude.{}
