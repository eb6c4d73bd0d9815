-- ===== src/Proxy.antt =====
-- internal/proxy: what the SOCKS5 and HTTP front ends share, and what is their own.
pub mod Auth
pub mod Upstream
pub mod Codes
pub mod Headers
pub mod Relay
pub mod Handle
pub mod Http
