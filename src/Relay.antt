-- ===== src/Relay.antt =====
-- The relay server, src/relay_server.rs.
pub mod Types
pub mod Lists
pub mod Cmd
pub mod Pair
pub mod Loop
