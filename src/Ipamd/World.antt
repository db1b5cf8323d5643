-- ===== src/Ipamd/World.antt =====
-- What pkg/ipamd stands on. `Env` is code and services outside the repository: the bolt file, the
-- VPC service behind the UCloud SDK, the Kubernetes API behind client-go, and the host (clock,
-- metadata server, ARP, gRPC to other nodes). Each has a state of its own and an operation for each
-- call that the daemon makes. `Config` is what `initServer` and the flags fix, `State` what changes.
use mathlib.Core.List.{Perm}
use uk8s_cni_vpc.Prelude.{ℕ, String, Bool, Option, List}
use uk8s_cni_vpc.Result.{ok}
use uk8s_cni_vpc.Step.{Step}
use uk8s_cni_vpc.Database.{BoltLib, BoltLaws, Codec, CodecLaws}
use uk8s_cni_vpc.Ipamd.Types.{
  PodNetwork, CooldownItem, BorrowIpRequest, IpInfo, AllocateRequest, DescribeRequest,
  DeleteRequest, MoveRequest, Ipamd, VpcIpClaim, Pod,
}

pub record Env : Type 1 where
  pub bolt : BoltLib
  pub networks : Codec bolt.Bytes PodNetwork
  pub cooldowns : Codec bolt.Bytes CooldownItem
  -- the VPC service; `vpc_client` is the making of a client with fresh credentials
  pub Cloud : Type 0
  pub vpc_client : Step Cloud (Unit {0})
  pub allocate_secondary_ip : AllocateRequest → Step Cloud IpInfo
  pub describe_secondary_ip : DescribeRequest → Step Cloud (List IpInfo)
  pub delete_secondary_ip : DeleteRequest → Step Cloud (Unit {0})
  pub move_secondary_ip_mac : MoveRequest → Step Cloud (Unit {0})
  -- the free addresses of each subnet that the answer lists
  pub describe_subnet : String → String → Step Cloud (List ℕ)
  -- the Kubernetes API
  pub Cluster : Type 0
  pub get_pod : String → String → Step Cluster Pod
  pub patch_annotations : Pod → List (String × String) → Step Cluster (Unit {0})
  pub list_pods : Step Cluster (List Pod)
  pub list_nodes : Step Cluster (List String)
  pub get_node : String → Step Cluster (Unit {0})
  pub list_ipamds : Step Cluster (List Ipamd)
  pub get_ipamd : String → Step Cluster Ipamd
  pub create_ipamd : Ipamd → Step Cluster (Unit {0})
  pub update_ipamd : Ipamd → Step Cluster (Unit {0})
  pub delete_ipamd : String → Step Cluster (Unit {0})
  pub list_claims : String → String → Step Cluster (List VpcIpClaim)
  pub get_claim : String → String → Step Cluster VpcIpClaim
  pub create_claim : VpcIpClaim → Step Cluster VpcIpClaim
  pub update_claim : VpcIpClaim → Step Cluster (Unit {0})
  -- the host
  pub Host : Type 0
  pub now : Host → ℕ × Host
  pub format_time : ℕ → String
  pub object_id_for_secondary_ip : Step Host String
  pub detect_conflict : String → Step Host Bool
  pub dial : String → Step Host (Unit {0})
  pub borrow_ip : String → BorrowIpRequest → Step Host (Option PodNetwork)
  -- `retry.RetryOnConflict` with `retry.DefaultRetry`
  pub retry_on_conflict : {S : Type 0} → Step S (Unit {0}) → Step S (Unit {0})
  -- iteration over a Go map, in an order that the language leaves open
  pub map_order : {A : Type 0} → List A → List A

pub record Config : Type 0 where
  pub node_name : String
  pub host_id : String
  pub zone_id : String
  pub availability_zone : String
  pub vpc_id : String
  pub subnet_id : String
  pub master_mac_address : String
  pub tcp_addr : String
  pub high_watermark : ℕ
  pub low_watermark : ℕ
  pub cooldown_period : ℕ
  pub calico_policy : Bool

-- `pools` are the keys of `poolDB`; a handle in it is the name of a bucket in `file`.
pub record State (env : Env) : Type 0 where
  pub file : env.bolt.File
  pub pools : List String
  pub cloud : env.Cloud
  pub cluster : env.Cluster
  pub host : env.Host

-- What the daemon relies on of its surroundings.
pub record EnvLaws (env : Env) : Type 1 where
  pub bolt : BoltLaws env.bolt
  pub networks : CodecLaws env.bolt env.networks
  pub cooldowns : CodecLaws env.bolt env.cooldowns
  pub map_order_perm : {A : Type 0} → (xs : List A) → Perm (env.map_order xs) xs

module _ ⦃env : Env⦄ where
  abbrev pub Io : Type 0 → Type 0
  Io A = Step (State env) A

  abbrev pub on_file : {A : Type 0} → Step env.bolt.File A → Io A
  on_file m s = let (r, file) = m s.file in (r, record s { file = file })

  abbrev pub on_cloud : {A : Type 0} → Step env.Cloud A → Io A
  on_cloud m s = let (r, cloud) = m s.cloud in (r, record s { cloud = cloud })

  abbrev pub on_cluster : {A : Type 0} → Step env.Cluster A → Io A
  on_cluster m s = let (r, cluster) = m s.cluster in (r, record s { cluster = cluster })

  abbrev pub on_host : {A : Type 0} → Step env.Host A → Io A
  on_host m s = let (r, host) = m s.host in (r, record s { host = host })

  abbrev pub time_now : Io ℕ
  time_now s = let (t, host) = env.now s.host in (ok t, record s { host = host })
