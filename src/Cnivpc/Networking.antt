-- ===== src/Cnivpc/Networking.antt =====
-- cmd/cnivpc/rpc.go: which PodNetworking a pod has, and the address that it is given.
pub mod Routes
use uk8s_cni_vpc.Prelude.{
  String, Bool, true, false, not, ◌&&◌, ◌||◌, Option, none, some, List, [], ◌∷◌, ◌==◌,
  if◌then◌else◌,
}
use uk8s_cni_vpc.Result.{Result, ok, err, Error, failure, is_absent}
use uk8s_cni_vpc.Step.{Step, pure, raise, lift, try, or_else, ◌>>=◌, ◌>>◌}
use uk8s_cni_vpc.Uapi.{Ability, get_ability}
use uk8s_cni_vpc.Iputils.{get_node_address, get_master_interface}
use uk8s_cni_vpc.Ipamd.Types.{PodNetwork, AddPodNetworkRequest, Pod}
use uk8s_cni_vpc.Ipamd.Claims.{lookup, sts_enable_static_ip}
use uk8s_cni_vpc.Ipamd.Assign.{owned_by_statefulset, annotated_true}
use uk8s_cni_vpc.Cnivpc.Plugin.{
  Plugin, PluginState, Act, on_sys, on_mem, PodNetworking, NetworkInterface,
}
use uk8s_cni_vpc.Cnivpc.NatOutgoing.{
  annotation_pod_networking_disable, chosen_networking, default_pod_networking_name, text_or_empty,
}
use uk8s_cni_vpc.Cnivpc.Addresses.{
  Uni, ipamd_serves, allocate_secondary_ip_from_ipamd, allocate_secondary_ip,
}
use uk8s_cni_vpc.Cnivpc.Interfaces.{ensure_subnet_uni, is_cons}
use uk8s_cni_vpc.Cnivpc.Migration.{update_rules}
use uk8s_cni_vpc.Cnivpc.RoutePolicy.{ensure_connmark_rule}
use uk8s_cni_vpc.Cnivpc.Networking.Routes.{
  ensure_uni_primary_ip_route, ensure_master_interface_rp_filter,
}

pub record PodIpAssignment : Type 0 where
  pub network : PodNetwork
  pub from_ipamd : Bool
  pub nat_gw_outgoing_enabled : Bool

abbrev pub or_name : String → String → String
or_name name d = if name == "" then d else name

-- A missing default PodNetworking is none; a missing one that the pod names is an error.
unfoldable pub networking_answer :
    String → String → Result PodNetworking → Result (Option PodNetworking × String)
networking_answer pn_name node_name (ok networking) = ok (some networking, node_name)
networking_answer pn_name node_name (err e) =
    if is_absent e && pn_name == default_pod_networking_name
    then ok (none, node_name)
    else err (failure "failed to get podnetworking with name")

-- The checks of a PodNetworking against the abilities of the node.
unfoldable pub checked_networking :
    Ability → Option PodNetworking × String → Result (Option PodNetworking × String)
checked_networking ability (none, node_name) = ok (none, node_name)
checked_networking ability (some networking, node_name) =
    if not (is_cons networking.subnet_ids)
    then err (failure "podnetworking has no subnet")
    else if not (is_cons networking.security_group_ids) && ability.sec_group
    then err (failure "inconsistency error: node has secgroup but podnetworking config has not")
    else if ability.sec_group
    then ok (some networking, node_name)
    else ok (some (record networking { security_group_ids = [] }), node_name)

-- The request for an address at the daemon.
pub pod_request : String → String → String → String → AddPodNetworkRequest
pod_request pod_name pod_ns net_ns sandbox_id = record {
  pod_name = pod_name;
  pod_namespace = pod_ns;
  sandbox_id = sandbox_id;
  netns = net_ns;
  if_name = "";
  subnet_id = "";
  interface_id = "";
  mac_address = "";
}

abbrev pub uni_of : NetworkInterface → Uni
uni_of uni = record {
  subnet_id = uni.subnet_id;
  interface_id = uni.interface_id;
  mac_address = uni.mac_address;
}

-- `uni.PrivateIpSet[0]`, where an interface that is nil and a list that is empty panic.
unfoldable pub primary_of : Option NetworkInterface → Result (NetworkInterface × String)
primary_of none = err (failure "panic: nil interface")
primary_of (some uni) = elim uni.private_ip_set [
  | [] ↦ err (failure "panic: index out of range")
  | ip ∷ ips ↦ ok (uni, ip)
]

module _ ⦃plugin : Plugin⦄ where
  unfoldable pub config_of : Ability → Pod × String → Act (Option PodNetworking × String)
  config_of ability (pod, node_name) =
      if text_or_empty (lookup annotation_pod_networking_disable pod.annotations) == "true"
      then pure (none, node_name)
      else (do
        on_sys plugin.kube.node_crd_client
        answer ← try (on_sys (plugin.kube.get_pod_networking (chosen_networking pod)))
        found ← lift (networking_answer (chosen_networking pod) node_name answer)
        lift (checked_networking ability found))

  unfoldable pub get_pod_networking_config : String → String → Act (Option PodNetworking × String)
  get_pod_networking_config pod_name pod_ns = do
    ability ← or_else (on_sys (get_ability plugin.uapi)) "failed to get instance ability"
    (if ability.support_uni
        then (or_else (on_sys (plugin.kube.get_pod pod_name pod_ns)) "failed to get pod"
            >>= config_of ability)
        else pure (none, ""))

  unfoldable pub init_pod_networking : PodNetworking → String → Act NetworkInterface
  init_pod_networking config node_name = do
    on_sys plugin.vpc_client
    found ←
        or_else (ensure_subnet_uni config.subnet_ids config.security_group_ids config.strategy)
          "failed to ensure UNI attached"
    primary ← lift (primary_of found)
    ensure_uni_primary_ip_route primary.1 primary.0.mac_address primary.0.gateway primary.0.netmask
    node ←
        or_else (on_mem (get_node_address plugin.uapi plugin.links ""))
          "failed to get master interface addr"
    master ← on_mem (get_master_interface plugin.uapi plugin.links)
    or_else (ensure_master_interface_rp_filter master) "failed to ensure master interface rp_filter"
    on_sys plugin.new_iptables
    update_rules node.0 master node_name config.nat_gw_outgoing_enabled
    or_else (on_sys (ensure_connmark_rule plugin.routing)) "failed to ensure connmark rule"
    pure primary.0

  unfoldable pub is_pod_enable_static_ip : String → String → Act Bool
  is_pod_enable_static_ip pod_name pod_ns = on_sys (plugin.kube.get_pod pod_name pod_ns) >>= λ pod.
      pure (
        owned_by_statefulset pod.0.owners
        && annotated_true (lookup sts_enable_static_ip pod.0.annotations))

  unfoldable pub uni_if : Option PodNetworking → String → Act (Option Uni)
  uni_if none node_name = pure none
  uni_if (some config) node_name =
      init_pod_networking config node_name >>= λ uni. pure (some (uni_of uni))

  abbrev pub enabled_by : Option PodNetworking → Bool
  enabled_by none = false
  enabled_by (some config) = config.nat_gw_outgoing_enabled

  -- Whether the daemon can be asked for an address.
  unfoldable pub daemon_serves : Result (Unit {0}) → Act Bool
  daemon_serves (err e) = pure false
  daemon_serves (ok u) = ipamd_serves

  unfoldable pub assign_alone : Option Uni → String → String → String → Bool → Act PodIpAssignment
  assign_alone uni pod_name pod_ns sandbox_id enabled =
      or_else (is_pod_enable_static_ip pod_name pod_ns) "failed to check pod static ip enable"
      >>= λ static.
          (if static
            then raise (failure "pod enable static ip, but ipamd is not enabled")
            else (or_else (allocate_secondary_ip uni pod_name pod_ns sandbox_id)
                  "failed to setup secondary ip"
                >>= λ ip. pure (record {
                  network = ip;
                  from_ipamd = false;
                  nat_gw_outgoing_enabled = enabled;
                })))

  unfoldable pub assign_pod_ip : String → String → String → String → Act PodIpAssignment
  assign_pod_ip pod_name pod_ns net_ns sandbox_id = do
    or_else (on_sys plugin.kube.node_client) "failed to get node kube client"
    config ← get_pod_networking_config pod_name pod_ns
    uni ← uni_if config.0 config.1
    dialled ← try (on_sys plugin.dial)
    serves ← daemon_serves dialled
    (if serves
        then (or_else
              (allocate_secondary_ip_from_ipamd uni (pod_request pod_name pod_ns net_ns sandbox_id))
              "failed to call ipamd"
            >>= λ ip. pure (record {
              network = ip;
              from_ipamd = true;
              nat_gw_outgoing_enabled = enabled_by config.0;
            }))
        else assign_alone uni pod_name pod_ns sandbox_id (enabled_by config.0))
