-- ===== src/Ipamd.antt =====
-- pkg/ipamd: the daemon that keeps the IP pools of a node. `World` has what it stands on, `Types`
-- its data; each other module is a group of its functions, with the proofs in the module below.
pub mod Types
pub mod World
pub mod Uapi
pub mod Pool
pub mod Borrow
pub mod Claims
pub mod Assign
pub mod Status
pub mod Reconcile
pub mod Server
pub mod Keyed
pub mod LogTail
pub mod Version
pub mod Boot
