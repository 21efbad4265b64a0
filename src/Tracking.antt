-- ===== src/Tracking.antt =====
-- internal/tracking: of the links and addresses that carry a delivery's identifier, the envelope
-- sender is modelled.
pub mod Verp
