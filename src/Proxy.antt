-- ===== src/Proxy.antt =====
-- proj3: a proxy, and the cache that it asks over shared memory.
pub mod Shared
pub mod Exchange
pub mod Curl
pub mod Options
pub mod Webproxy
pub mod Stopping
pub mod Room
pub mod Asking
pub mod Opening
pub mod Segments
pub mod Requests
