-- ===== src/Lib.antt =====
-- uk8s-cni-vpc gives the pods of a Kubernetes cluster addresses of the VPC they run in. On every node
-- the plugin (cmd/cnivpc) is called for each pod; it asks the daemon (pkg/ipamd), which keeps free
-- addresses in pools, one for each subnet, in a bolt file (pkg/database). An address that a pod has
-- left cools down before it goes back to its pool. Static addresses are kept by `vpcipclaim`
-- resources, which a controller (cmd/vip-controller) detaches. A daemon whose subnet has no address
-- left borrows one from the daemon of another node, which it finds by the `ipamd` resources that each
-- daemon writes. A fresh address is announced by ARP (pkg/arping) before it is used. The plugin then
-- sets up the devices, the routes, the rules of iptables and the set of the NAT gateway on the node.
--
-- The files, by the code that they model:
--   Prelude, Result, Step      shared names; Go's error returns; actions on a state that may fail,
--                              where what was written before an error stays written
--   Arping                     pkg/arping/datagram.go: newArpRequest, Marshal, parseArpDatagram
--   Arping/Conflict            pkg/arping/arping.go: detectIpConflictWithGratuitousArp
--   Database                   pkg/database/bolt.go: NewBolt, Put, Get, Delete, Pop, List, Count;
--                              pkg/database/database.go: PodKey, Values
--   Ipamd/Types, Ipamd/World   rpc/ipamd.proto, kubernetes/apis; the state of the daemon and what
--                              surrounds it
--   Ipamd/Uapi                 pkg/ipamd/uapi.go
--   Ipamd/Pool                 pkg/ipamd/pool.go: getPool, putIpToPool, putIpToCooldown, cooldownIP,
--                              releasePool, recycleCooldownIP, lendIP and the backups
--   Ipamd/Borrow               pkg/ipamd/pool.go: filterBorrowCandidates, borrowIP
--   Ipamd/Claims               pkg/ipamd/vpcclaim.go
--   Ipamd/Assign               pkg/ipamd/pool.go: assignPodIP, assignStaticPodIP, getPodIp;
--                              pkg/ipamd/k8s.go: podEnableStaticIP, IsPodEnableStaticIP
--   Ipamd/Status               pkg/ipamd/pool.go: updateStatus, recycleStatus, getPoolSubnetID
--   Ipamd/Reconcile            pkg/ipamd/resource.go: doReconcile, GetNodeUNILimits
--   Ipamd/Server               pkg/ipamd/rpc.go, the loop ipPoolWatermarkManager of
--                              pkg/ipamd/pool.go, migrateV1BoltDB of pkg/ipamd/svc.go
--   Host, Uapi, Iputils        the kernel's calls; pkg/uapi/meta.go, ability.go; pkg/iputils/addr.go
--   Cnivpc/Plugin              what surrounds cmd/cnivpc
--   Cnivpc/Subnets, Addresses, Records, Interfaces, Networking
--                              cmd/cnivpc/rpc.go; Networking/Routes is ensureUNIPrimaryIPRoute
--   Cnivpc/Iptables, RoutePolicy, Migration
--                              cmd/cnivpc/if.go
--   Cnivpc/NatOutgoing         cmd/cnivpc/nat_outgoing.go
--   Cnivpc/Veth, Rps           cmd/cnivpc/veth.go, runcmd.go, rps.go
--   Cnivpc/SandboxArgs, Commands
--                              cmd/cnivpc/main.go: loadSandboxArgs, cmdAdd, cmdDel
--   VipController              cmd/vip-controller: onStsUpdate, onStsDelete, onVipDelete, releaseVPCIp;
--                              VipController/Collection is vipCheckAndClean of main.go
--   Ipamd/Boot                 pkg/ipamd/svc.go: initServer; getKubeNodeLabel, uapiListUK8SCluster
--   Ipamd/LogTail, Version     pkg/ipamd/log_tail.go; parseCNIVersion, loadCNIVersion and the answer of
--                              the endpoint in pkg/ipamd/version_server.go
--   DevicePlugin               pkg/deviceplugin/deviceplugin.go
--   NodeInit                   cmd/cnivpc-init/main.go, cp.go
--   Support                    pkg/lockfile, pkg/kubeclient, pkg/snapshot
--   Ipamd/Keyed                what a start, the loop and every handler keep true of the daemon's
--                              file; the modules named Keys have a lemma for each operation, and
--                              Ipamd/Server/Old has the one for the migration
--   Step/Runs                  what a chain of actions that succeeds went through
--   Examples                   a small world to run the model in, and the theorems at its states
-- The modules below these hold the proofs, named for what they prove.
--
-- The state of the daemon (`State`) is the bolt file, the names of the open pools, and what stands
-- for the VPC service, the cluster and the host. Each of these is a parameter (`Env`, `Plugin`,
-- `Cluster`): a type of states and the calls on it, each of which may fail in any way. The state of
-- the plugin (`PluginState`) is its own bolt file, what it remembers of the metadata, and the rest of
-- the world. What is assumed of the parameters is named: `BoltLaws` is what bolt documents (a failed
-- transaction changes nothing, a bucket is a finite map), `CodecLaws` that JSON is read back, and
-- `map_order_perm` that a Go map is walked in some order. `ClusterLaws` is what the controller needs
-- of the API server: reads change no claim, an update changes one. Nothing else is assumed of the VPC
-- service, the clock or other daemons. `env.retry_on_conflict` stands for the retries of client-go.
--
-- Times are seconds as natural numbers. Sizes and watermarks are natural numbers too: the counts of
-- Go's `int` that occur are never negative. Loops over lists are structural; releasePool counts down
-- from the surplus; a detection repeats at most ten times, as the source does. The loop of
-- migrateV1BoltDB has no bound in the source (`Migrates` is that loop): here it runs on fuel, one
-- more than the number of addresses counted before. The daemon's goroutines meet in one loop that takes one event at a time,
-- so a run is a list of events. The wait for a new network interface runs for as many ticks as come
-- before its timeout, a number that the surroundings give. Go's sets and maps of texts are lists, and
-- a panic is an error like another.
--
-- The kernel is a parameter too: `NetfilterLaws`, `IpsetLaws` and `RoutingLaws` are what iptables,
-- ipset and the policy database document of one call (a rule is added first or last, an entry is
-- there afterwards, a call that fails changes nothing). A sandbox argument is split at code points.
--
-- Beside these, `RetryLaw` says that a retry on a conflict runs the same update again, `FileLaws` and
-- `FollowLaws` what reading, seeking and writing do to a log and a connection where they succeed,
-- `NodeLaws` which paths a call on the files of a node writes, and `CollectorLaws` which claims a call
-- of the collection can change. `follow` runs for a number of rounds, and the wait for a change of the
-- log for a number of signals, since the source has no bound; the blocks that `tailStartOffset` reads
-- are no more than the bytes of the file, which bounds them. The attempts at the lock are the 79999 of
-- the source.
--
-- Not modelled: the raw socket and timers of pkg/arping, logging, gRPC and HTTP, generated clients,
-- the servers of the daemon and its shutdown (Start), newLogTailHandler, the informers and queues of
-- cmd/vip-controller, the watchdog of cmd/cnivpc, its dnsconfig.go, which is a copy of Go's
-- resolver, and pkg/portmap, which is a copy of another project's plugin.
mod Prelude
pub mod Result
pub mod Step
pub mod Arping
pub mod Database
pub mod Host
pub mod Uapi
pub mod Iputils
pub mod Ipamd
pub mod Cnivpc
pub mod VipController
pub mod DevicePlugin
pub mod NodeInit
pub mod Support
mod Examples
