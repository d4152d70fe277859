-- ===== src/Accounts.antt =====
-- Users, devices, subscriptions, orders and reset tokens: src/database.rs, src/subscription.rs,
-- src/payment.rs, src/password_reset.rs, src/api.rs.
pub mod Store
pub mod Users
pub mod Devices
pub mod Subscriptions
pub mod Tokens
pub mod Orders
pub mod Settings
pub mod IpLists
pub mod Toml
pub mod Gateways
pub mod Signup
