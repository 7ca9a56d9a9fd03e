-- ===== src/Tests.antt =====
-- Concrete settings, runs of the model, and the theorems applied to them.
pub mod Setting
pub mod Files
pub mod Failing
pub mod Ciphers
pub mod Services
pub mod Paths
pub mod Accounts
pub mod Clients
pub mod Servers
