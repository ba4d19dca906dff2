-- ===== src/Proxy.antt =====
-- The proxy lab, proxy/lab.
pub mod Lru
pub mod Sbuf
pub mod Net
pub mod Tiny
pub mod Url
pub mod Doit
