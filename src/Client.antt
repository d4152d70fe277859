-- ===== src/Client.antt =====
-- nat-client/src: the client.
pub mod Proxy
pub mod Socks
pub mod Bridge
pub mod Updater
pub mod Config
pub mod Mediator
pub mod Kcp
