-- ===== src/Cluster.antt =====
pub mod Capacity
pub mod Hostname
pub mod Inventory
pub mod Manager
pub mod Service
pub mod Monitor
