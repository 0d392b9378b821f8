-- ===== src/Bidengine.antt =====
-- provider/bidengine: the service of orders, and one order's life, from its query to its bid and its end.
pub mod Ids
pub mod Order
pub mod Should
pub mod Service
mod Tests
