-- ===== src/Sender.antt =====
-- internal/sender: the send pipeline.
pub mod Policy
pub mod Retry
pub mod Classify
pub mod Replies
pub mod Results
pub mod Attempts
pub mod Health
pub mod Circuit
pub mod Process
pub mod Outcomes
pub mod Suppression
