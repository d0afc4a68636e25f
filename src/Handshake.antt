-- ===== src/Handshake.antt =====
-- What is said to a proxy server before traffic flows: src/core/pmx_socks.c,
-- src/core/pmx_http_connect.c, the handshakes of src/core/pmx_proxy.c and the blocking reads and
-- writes of src/core/pmx_net.c.
pub mod Ipv4
pub mod Socks
pub mod Base64
pub mod Http
pub mod Socket
pub mod Run
pub mod Stream
pub mod Exchange
pub mod Granted
pub mod Fragments
pub mod Tests
