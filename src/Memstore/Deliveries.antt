-- ===== src/Memstore/Deliveries.antt =====
-- store/memstore/delivery.go: the delivery repository, one child for each group of operations.
pub mod Rows
pub mod Claim
pub mod Insert
pub mod Complete
pub mod Bulk
pub mod Valid
pub mod Chosen
pub mod Leases
pub mod Order
pub mod Fencing
pub mod Marking
pub mod Ingest
pub mod Progress
pub mod Recovery
pub mod Removal
pub mod History
pub mod Settled
