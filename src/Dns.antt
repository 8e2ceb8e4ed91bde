-- ===== src/Dns.antt =====
-- include/dns.h, and the test of host names in include/config.h: the answering of DNS queries.
pub mod Name
pub mod Config
pub mod Response
mod Tests
