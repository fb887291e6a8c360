-- ===== src/Controller.antt =====
-- internal/controller: the resource, the reconciler and the manager.
pub mod Types
pub mod Cluster
pub mod ApiUrl
pub mod Kube
pub mod Reconcile
pub mod Manager
