-- ===== src/Server.antt =====
-- crates/bridge-server: the configuration, what is assembled from it, and the webhook.
pub mod Config
pub mod Assemble
pub mod Routes
pub mod Uncut
pub mod Ready
pub mod Legacy
pub mod Admission
pub mod Spoken
