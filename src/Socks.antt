-- ===== src/Socks.antt =====
-- SOCKS5 on the wire: the server of internal/proxy/socks5.go and the client of internal/socksdial.
pub mod Conn
pub mod Server
pub mod Client
pub mod RoundTrip
