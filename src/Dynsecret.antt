-- ===== src/Dynsecret.antt =====
-- internal/dynsecret: leased credentials.
pub mod Random
pub mod Sanitize
pub mod Provider
pub mod Apply
pub mod Quoted
pub mod Username
pub mod Templates
pub mod Sql
pub mod Redis
pub mod Cassandra
pub mod Awsiam
pub mod Dispatch
