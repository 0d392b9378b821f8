-- ===== src/Manifest.antt =====
-- provider/manifest: what a tenant's manifest must be before it is deployed, who keeps it, and what
-- becomes of a lease that gets none.
pub mod Proxy
pub mod Manager
pub mod Watchdog
pub mod Service
