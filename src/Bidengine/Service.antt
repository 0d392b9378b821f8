-- ===== src/Bidengine/Service.antt =====
-- provider/bidengine/service.go: the traversal of the open orders at a start, and the service that
-- keeps a monitor of each order.
pub mod Fetcher
pub mod Monitors
mod Tests
