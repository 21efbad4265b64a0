-- ===== src/Dnscheck.antt =====
-- internal/dnscheck: the diagnostic checks of a sending domain. Of them the SPF check is modelled.
pub mod Address
pub mod Terms
pub mod Spf
pub mod Budget
pub mod Memo
pub mod Ends
pub mod Verdicts
