-- ===== src/SyncClients.antt =====
-- The synchronous clients of Chapter-03, Section-01 and Section-02, and Chapter-05, Section-03: their
-- methods as the calls that they make, and what they make of the bytes that arrive.
pub mod Tcp
pub mod Udp
pub mod Ssl
