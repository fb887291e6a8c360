-- ===== src/Examples.antt =====
-- Concrete inputs: an API server, a platform and a client in memory, and the theorems at them.
mod Fixtures
mod Reconcile
mod Manager
mod Run
mod Client
mod Dynsecret
mod Platform
mod Leases
mod Username
mod Drivers
mod Providers
mod Iam
