-- ===== src/Pir.antt =====
-- The private market on the provider: provider/gateway/pir (access to leases) and
-- provider/pirgate (the allocation gate).
pub mod Hex
pub mod Envelope
pub mod Book
pub mod Access
pub mod Gate
pub mod Serve
