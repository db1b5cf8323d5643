-- ===== src/Support.antt =====
-- The packages that the programs share: pkg/lockfile, pkg/kubeclient, pkg/snapshot.
pub mod Lockfile
pub mod Kubeclient
pub mod Snapshot
