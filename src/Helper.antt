-- ===== src/Helper.antt =====
-- helper: the programs that run before the JVM starts and set its environment.
pub mod Env
mod Samples
pub mod Options
pub mod Providers
pub mod Memory
pub mod Dns
pub mod TrustStore
pub mod Launched
mod Tests
