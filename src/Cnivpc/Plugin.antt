-- ===== src/Cnivpc/Plugin.antt =====
-- The surroundings of the plugin: its own bolt file, the daemon behind the gRPC client, the VPC
-- service, the cluster, and the node.
use uk8s_cni_vpc.Prelude.{ℕ, String, Bool, Option, List}
use uk8s_cni_vpc.Step.{Step}
use uk8s_cni_vpc.Arping.Conflict.{Event}
use uk8s_cni_vpc.Database.{BoltLib, BoltLaws, Codec, CodecLaws}
use uk8s_cni_vpc.Ipamd.Types.{
  PodNetwork, AddPodNetworkRequest, IpInfo, AllocateRequest, DescribeRequest, DeleteRequest, Pod,
}
use uk8s_cni_vpc.Host.{Ipset, Routing, Links, Namespaces, Route}
use uk8s_cni_vpc.Uapi.{UapiLib, MetaMemo}
use uk8s_cni_vpc.Iputils.{Mem}
use uk8s_cni_vpc.Cnivpc.Iptables.{Netfilter}

-- What an answer of the daemon carries beside its payload: whether its code is `CNISuccess`.
pub record Answer (A : Type 0) : Type 0 where
  pub success : Bool
  pub payload : A

-- kubernetes/apis/podnetworking/v1beta1: a PodNetworking and its specification.
pub record PodNetworking : Type 0 where
  pub name : String
  pub security_group_ids : List String
  pub subnet_ids : List String
  pub strategy : String
  pub nat_gw_outgoing_enabled : Bool

-- The clients of the API server. A pod comes with the name of its node.
pub record Kube (S : Type 0) : Type 0 where
  pub node_client : Step S (Unit {0})
  pub node_crd_client : Step S (Unit {0})
  pub get_pod : String → String → Step S (Pod × String)
  pub list_pods : String → Step S (List Pod)
  pub get_pod_networking : String → Step S PodNetworking
  pub list_pod_networkings : Step S (List PodNetworking)

-- `vpc.NetworkInterface` as far as it is read.
pub record NetworkInterface : Type 0 where
  pub interface_id : String
  pub subnet_id : String
  pub mac_address : String
  pub private_ip_set : List String
  pub gateway : String
  pub netmask : String
  pub attach_instance_id : String

-- A request for an interface: the security groups with their priorities, and whether the security
-- mode is set.
pub record CreateRequest : Type 0 where
  pub vpc_id : String
  pub subnet_id : String
  pub priority_sec_group : List (ℕ × String)
  pub security_mode : Bool

-- The requests about network interfaces. An answer carries its return code beside its payload.
-- `ticks` is the number of ticks of the ticker before the timeout.
pub record UniApi (S : Type 0) : Type 0 where
  pub create : CreateRequest → Step S (ℕ × NetworkInterface)
  pub delete : String → Step S ℕ
  pub attach : String → String → Step S ℕ
  pub describe : String → Step S (ℕ × List NetworkInterface)
  pub cpu_metadata : S → Option ℕ × S
  pub ticks : S → ℕ × S

-- `current.Result`, as far as the plugin fills it: DNS is left out.
pub record CniResult : Type 0 where
  pub address : String
  pub mask : String
  pub gateway : String
  pub mac : String
  pub sandbox : String
  pub routes : List Route

-- The request of the container runtime: the arguments, the configuration on the standard input (and
-- whether it is JSON of the right shape), and the environment variables CNI_NETNS and CNI_IFNAME.
pub record CmdArgs : Type 0 where
  pub args : String
  pub valid_config : Bool
  pub net_ns : String
  pub if_name : String

-- The port mapping plugin, a copy of another project's, and what a detection of a conflict by ARP
-- asks: `net.ParseIP`, an interface's MAC address, and the packets that its socket yields.
pub record Chained (S : Type 0) : Type 0 where
  pub portmap_add : CmdArgs → CniResult → Step S (Unit {0})
  pub portmap_del : CmdArgs → Step S (Unit {0})
  pub parse_ip : String → List ℕ
  pub arp_interface : String → Step S (List ℕ)
  pub arp_listen : String → Step S (List Event)

pub record Plugin : Type 1 where
  pub bolt : BoltLib
  pub networks : Codec bolt.Bytes PodNetwork
  pub Sys : Type 0
  -- The gRPC client of the daemon.
  pub dial : Step Sys (Unit {0})
  pub ping : Step Sys (Unit {0})
  pub support_multi_subnet : Step Sys Bool
  pub add_pod_network : AddPodNetworkRequest → Step Sys (Answer PodNetwork)
  pub del_pod_network : PodNetwork → Step Sys (Answer (Unit {0}))
  pub add_pod_network_record : PodNetwork → Step Sys (Answer (Unit {0}))
  pub del_pod_network_record : String → String → String → Step Sys (Answer (Unit {0}))
  pub get_pod_network_record : String → String → String → Step Sys (Answer (Option PodNetwork))
  pub list_pod_network_record : Step Sys (Answer (List PodNetwork))
  -- The VPC service and its client.
  pub vpc_client : Step Sys (Unit {0})
  pub allocate_secondary_ip : AllocateRequest → Step Sys IpInfo
  pub describe_secondary_ip : DescribeRequest → Step Sys (List IpInfo)
  pub delete_secondary_ip : DeleteRequest → Step Sys (Unit {0})
  pub describe_subnet : String → String → Step Sys (List ℕ)
  -- The node: the bolt file is opened under the name that the plugin knows.
  pub open_file : Step Sys (Unit {0})
  pub now : Sys → ℕ × Sys
  pub zone : String
  pub vpc_id : String
  pub subnet_id : String
  -- The parts of the node and of the services.
  pub uapi : UapiLib Sys
  pub links : Links Sys
  pub routing : Routing Sys
  pub ipset : Ipset Sys
  pub new_iptables : Step Sys (Unit {0})
  pub netfilter : Netfilter Sys
  pub kube : Kube Sys
  pub unis : UniApi Sys
  pub namespaces : Namespaces Sys
  pub chained : Chained Sys

pub record PluginState (plugin : Plugin) : Type 0 where
  pub file : plugin.bolt.File
  pub sys : plugin.Sys
  pub memo : MetaMemo

-- Documented behaviour of bolt and of JSON.
pub record PluginLaws (plugin : Plugin) : Type 1 where
  pub bolt : BoltLaws plugin.bolt
  pub networks : CodecLaws plugin.bolt plugin.networks

module _ ⦃plugin : Plugin⦄ where
  abbrev pub Act : Type 0 → Type 0
  Act A = Step (PluginState plugin) A

  abbrev pub on_sys : {A : Type 0} → Step plugin.Sys A → Act A
  on_sys m s = let (r, t) = m s.sys in (r, record s { sys = t })

  abbrev pub on_local : {A : Type 0} → Step plugin.bolt.File A → Act A
  on_local m s = let (r, f) = m s.file in (r, record s { file = f })

  abbrev pub on_mem : {A : Type 0} → Step (Mem plugin.Sys) A → Act A
  on_mem m s = let (r, (memo, t)) = m (s.memo, s.sys) in (r, record s { sys = t; memo = memo })
