-- ===== src/Bounce.antt =====
-- internal/bounce: what happens to the mail in a bounce mailbox after it is parsed.
pub mod Types
pub mod Handle
pub mod Effects
pub mod Ends
pub mod Redelivery
pub mod Listed
pub mod Retained
