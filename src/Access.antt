-- ===== src/Access.antt =====
-- Who may send requests: utils/ip_filter.py and utils/timeout.py
pub mod IpFilter
pub mod Timeout
pub mod Signer
pub mod Reloading
pub mod Blocking
mod Tests
