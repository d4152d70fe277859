-- ===== src/Rendezvous.antt =====
-- The rendezvous server, src/rendezvous_server.rs.
pub mod Limits
pub mod Output
pub mod Relays
pub mod Punch
pub mod Register
pub mod Udp
pub mod Tcp
pub mod Online
pub mod Cmd
pub mod Loop
pub mod Frame
