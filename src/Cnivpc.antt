-- ===== src/Cnivpc.antt =====
-- cmd/cnivpc/rpc.go: the plugin. It asks the daemon over its socket, and works alone if the daemon
-- does not answer.
pub mod Plugin
pub mod Subnets
pub mod Addresses
pub mod Records
pub mod NatOutgoing
pub mod Iptables
pub mod RoutePolicy
pub mod Rps
pub mod Networking
pub mod Veth
pub mod SandboxArgs
pub mod Commands
pub mod Migration
pub mod Interfaces
