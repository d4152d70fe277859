-- ===== src/State.antt =====
-- What a rendezvous handler works on: the server's state, its environment, and the monad of its
-- fallible steps.
mod Types
mod Monad
pub use Types.*
pub use Monad.*
