-- ===== src/Operator.antt =====
-- provider/operator: what the operators share, and the operators of leased IPs and of hostnames.
pub mod IgnoreList
pub mod Ip
pub mod Hostnames
