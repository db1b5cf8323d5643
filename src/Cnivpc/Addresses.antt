-- ===== src/Cnivpc/Addresses.antt =====
-- cmd/cnivpc/rpc.go: addresses, from the daemon or from the VPC service.
pub mod Released
use text.Mathlib.Text.{starts_with}
use uk8s_cni_vpc.Prelude.{
  ℕ, String, Bool, true, false, Option, none, some, List, [], ◌∷◌, ◌==◌, eqb, if◌then◌else◌,
}
use uk8s_cni_vpc.Result.{Result, ok, err, Error, failure, ret_code}
use uk8s_cni_vpc.Step.{Step, pure, raise, lift, try, or_else, ◌>>=◌, ◌>>◌}
use uk8s_cni_vpc.Ipamd.Types.{PodNetwork, AddPodNetworkRequest, IpInfo, DeleteRequest}
use uk8s_cni_vpc.Cnivpc.Plugin.{Plugin, PluginState, Act, on_sys, on_mem, Answer}
use uk8s_cni_vpc.Uapi.{get_object_id_for_secondary_ip}
use uk8s_cni_vpc.Iputils.{get_node_mac_address}

abbrev pub uapi_error_ip_not_exst : ℕ
uapi_error_ip_not_exst = 58221

-- The network interface that a pod's subnet has on the node.
pub record Uni : Type 0 where
  pub subnet_id : String
  pub interface_id : String
  pub mac_address : String

abbrev pub is_some_info : List IpInfo → Bool
is_some_info [] = false
is_some_info (x ∷ xs) = true

-- A missing address counts as deleted.
abbrev pub deleted_answer : Result (Unit {0}) → Result (Unit {0})
deleted_answer (ok u) = ok tt
deleted_answer (err (ret_code n)) = if eqb n uapi_error_ip_not_exst then ok tt else err (ret_code n)
deleted_answer (err e) = err e

abbrev pub or_text : Result String → String → String
or_text (ok t) d = t
or_text (err e) d = d

module _ ⦃plugin : Plugin⦄ where
  unfoldable pub check_secondary_ip_exist : String → String → String → Act Bool
  check_secondary_ip_exist ip mac subnet = do
    on_sys plugin.vpc_client
    infos ← on_sys (
        plugin.describe_secondary_ip (record {
          ip = ip;
          mac = some mac;
          zone = some plugin.zone;
          vpc_id = plugin.vpc_id;
          subnet_id = subnet;
        }))
    pure (is_some_info infos)

  -- The object that an address is bound to, where none is recorded.
  unfoldable pub object_id : String → Act String
  object_id interface_id =
      if interface_id == ""
      then (try (on_sys (get_object_id_for_secondary_ip plugin.uapi)) >>= λ r.
          pure (or_text r plugin.uapi.instance_id))
      else pure interface_id

  unfoldable pub mac_address_of : PodNetwork → Act String
  mac_address_of pn =
      if pn.mac_address == ""
      then or_else (on_mem (get_node_mac_address plugin.uapi plugin.links ""))
          "cannot get default mac address"
      else pure pn.mac_address

  abbrev pub delete_request : PodNetwork → String → String → DeleteRequest
  delete_request pn mac object = record {
    zone = plugin.zone;
    mac = mac;
    ip = pn.vpc_ip;
    object_id = object;
    vpc_id = pn.vpc_id;
    subnet_id = pn.subnet_id;
  }

  unfoldable pub deallocate_existing : PodNetwork → String → Bool → Act (Unit {0})
  deallocate_existing pn mac exist =
      if exist
      then (on_sys plugin.vpc_client >>= λ _. object_id pn.interface_id >>= λ object.
          try (on_sys (plugin.delete_secondary_ip (delete_request pn mac object))) >>= λ answer.
          lift (deleted_answer answer))
      else pure tt

  unfoldable pub deallocate_secondary_ip : PodNetwork → Act (Unit {0})
  deallocate_secondary_ip pn = do
    mac ← mac_address_of pn
    exist ← or_else (check_secondary_ip_exist pn.vpc_ip mac pn.subnet_id) "cannot find secondary ip"
    deallocate_existing pn mac exist

  -- `enabledIpamd` and `ipamdSupportMultiSubnet`
  pub enabled_ipamd : Act Bool
  enabled_ipamd s =
      let (r, s') = on_sys plugin.ping s in elim r [ ok u ↦ (ok true, s') | err e ↦ (ok false, s') ]

  pub ipamd_support_multi_subnet : Act Bool
  ipamd_support_multi_subnet s =
      let (r, s') = on_sys plugin.support_multi_subnet s in
      elim r [ ok support ↦ (ok support, s') | err e ↦ (ok false, s') ]

  -- Whether the daemon is asked for addresses: `&&` does not ask the second question in vain.
  pub ipamd_serves : Act Bool
  ipamd_serves = do
    enabled ← enabled_ipamd
    (if enabled then ipamd_support_multi_subnet else pure false)

  pub answer_success : {A : Type 0} → Answer A → Act A
  answer_success a = if a.success then pure a.payload else raise (failure "gRPC call failed, code")

  pub deallocate_secondary_ip_from_ipamd : PodNetwork → Act (Unit {0})
  deallocate_secondary_ip_from_ipamd pn = on_sys (plugin.del_pod_network pn) >>= answer_success

  pub release_by : PodNetwork → Result (Unit {0}) → Act (Unit {0})
  release_by pn (err e) = deallocate_secondary_ip pn
  release_by pn (ok u) = ipamd_serves >>= λ serves.
      (if serves then deallocate_secondary_ip_from_ipamd pn else deallocate_secondary_ip pn)

  pub release_pod_ip : PodNetwork → Act (Unit {0})
  release_pod_ip pn = try (on_sys plugin.dial) >>= release_by pn

  pub allocate_secondary_ip_from_ipamd : Option Uni → AddPodNetworkRequest → Act PodNetwork
  allocate_secondary_ip_from_ipamd none req = on_sys (plugin.add_pod_network req) >>= answer_success
  allocate_secondary_ip_from_ipamd (some uni) req =
      on_sys (
        plugin.add_pod_network (record req {
          subnet_id = uni.subnet_id;
          interface_id = uni.interface_id;
          mac_address = uni.mac_address;
        }))
      >>= answer_success

  -- The subnet, the object and the MAC address of a new address.
  pub target_of : Option Uni → Act (String × String × String)
  target_of (some uni) = pure (uni.subnet_id, uni.interface_id, uni.mac_address)
  target_of none = do
    mac ← or_else (on_mem (get_node_mac_address plugin.uapi plugin.links "")) "failed to get addr"
    object ← object_id ""
    pure (plugin.subnet_id, object, mac)

  pub allocated_network : String → String → String → String → ℕ → IpInfo → PodNetwork
  allocated_network pod_name pod_ns sandbox_id object created info = record {
    pod_name = pod_name;
    pod_ns = pod_ns;
    pod_uid = "";
    sandbox_id = sandbox_id;
    net_ns = "";
    vpc_ip = info.ip;
    vpc_id = info.vpc_id;
    subnet_id = info.subnet_id;
    gateway = info.gateway;
    mask = info.mask;
    mac_address = info.mac;
    dedicated_uni = false;
    interface_id = (if starts_with object "uni-" then object else "");
    eip_id = "";
    create_time = created;
    recycle_time = 0;
    recycled = false;
  }

  pub allocate_secondary_ip : Option Uni → String → String → String → Act PodNetwork
  allocate_secondary_ip uni pod_name pod_ns sandbox_id = do
    on_sys plugin.vpc_client
    target ← target_of uni
    info ←
        or_else
          (on_sys (
            plugin.allocate_secondary_ip (record {
              mac = target.2;
              ip = none;
              object_id = target.1;
              zone = plugin.zone;
              vpc_id = plugin.vpc_id;
              subnet_id = target.0;
            })))
          "failed to call api"
    created ← (λ s. let (t, sys) = plugin.now s.sys in (ok t, record s { sys = sys }))
    pure (allocated_network pod_name pod_ns sandbox_id target.1 created info)
