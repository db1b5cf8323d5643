-- ===== src/Ipamd/Assign.antt =====
-- pkg/ipamd/pool.go and pkg/ipamd/k8s.go: how a pod gets an address.
pub mod Verified
pub mod Keys
use uk8s_cni_vpc.Prelude.{
  ℕ, String, Bool, true, false, not, ◌&&◌, ◌||◌, Option, none, some, List, [], ◌∷◌, ◌==◌,
  is_true_text, if◌then◌else◌,
}
use uk8s_cni_vpc.Result.{Result, ok, err, Error, failure, eof, out_of_ip, is_eof}
use uk8s_cni_vpc.Step.{Step, pure, raise, lift, try, or_else, ◌>>=◌, ◌>>◌}
use uk8s_cni_vpc.Database.{KeyValue}
use uk8s_cni_vpc.Ipamd.Types.{PodNetwork, AddPodNetworkRequest, IpInfo, VpcIpClaim, Pod}
use uk8s_cni_vpc.Ipamd.World.{Env, Config, State, Io, on_cluster, on_host, time_now}
use uk8s_cni_vpc.Ipamd.Uapi.{
  uapi_allocate_secondary_ip, check_secondary_ip_exist, uapi_delete_secondary_ip,
}
use uk8s_cni_vpc.Ipamd.Pool.{get_pool, pool_pop, put_ip_to_pool}
use uk8s_cni_vpc.Ipamd.Borrow.{borrow_ip}
use uk8s_cni_vpc.Ipamd.Claims.{
  lookup, sts_enable_static_ip, find_static_ip, local_attach, vip_to_pod_network,
  create_vpc_ip_claim_by_pod_network,
}

abbrev pub owned_by_statefulset : List (String × String) → Bool
owned_by_statefulset [] = false
owned_by_statefulset ((kind, name) ∷ owners) = kind == "StatefulSet" || owned_by_statefulset owners

abbrev pub annotated_true : Option String → Bool
annotated_true none = false
annotated_true (some val) = is_true_text val

pub convert_ip_to_pod_network : ℕ → IpInfo → String → PodNetwork
convert_ip_to_pod_network now ip iface_id = record {
  pod_name = "";
  pod_ns = "";
  pod_uid = "";
  sandbox_id = "";
  net_ns = "";
  vpc_ip = ip.ip;
  vpc_id = ip.vpc_id;
  subnet_id = ip.subnet_id;
  gateway = ip.gateway;
  mask = ip.mask;
  mac_address = ip.mac;
  dedicated_uni = false;
  interface_id = iface_id;
  eip_id = "";
  create_time = now;
  recycle_time = 0;
  recycled = false;
}

module _ ⦃env : Env⦄ ⦃config : Config⦄ where
  -- `IsPodEnableStaticIP`
  unfoldable pub is_pod_enable_static_ip : String → String → Io (Bool × Pod)
  is_pod_enable_static_ip pod_name pod_ns = do
    pod ← on_cluster (env.get_pod pod_name pod_ns)
    pure (
      owned_by_statefulset pod.owners
          && annotated_true (lookup sts_enable_static_ip pod.annotations),
      pod,
    )

  unfoldable pub pod_enable_static_ip : String → String → Io (Bool × Pod)
  pod_enable_static_ip pod_name pod_ns s =
      let (r, s') = is_pod_enable_static_ip pod_name pod_ns s in
      elim r [
        | err e ↦ (err e, s')
        | ok (false, pod) ↦ (ok (false, pod), s')
        | ok (true, pod) ↦
            (on_cluster (env.list_claims pod_ns pod_name) >>= λ _. pure (true, pod)) s'
      ]

  -- After the pool was found empty.
  pub allocated : AddPodNetworkRequest → Result IpInfo → Io PodNetwork
  allocated req (ok info) =
      time_now >>= λ now. pure (convert_ip_to_pod_network now info req.interface_id)
  allocated req (err out_of_ip) =
      or_else (borrow_ip req) "vpc out of ip, and failed to borrow from others"
  allocated req (err e) = raise e

  unfoldable pub popped_or_new : AddPodNetworkRequest → Result (KeyValue PodNetwork) → Io PodNetwork
  popped_or_new req (ok kv) = pure kv.value
  popped_or_new req (err eof) = try (uapi_allocate_secondary_ip req) >>= allocated req
  popped_or_new req (err e) = raise e

  unfoldable pub assign_pod_ip : AddPodNetworkRequest → Io PodNetwork
  assign_pod_ip req = do
    pool ← or_else (get_pool req.subnet_id true) "failed to get pool to assign ip"
    popped ← try (pool_pop pool)
    popped_or_new req popped

  -- A new static address gets a claim before it is given to the pod.
  pub assign_new_static : Pod → String → AddPodNetworkRequest → Result PodNetwork → Io PodNetwork
  assign_new_static pod sandbox_id req (err e) = raise (failure "can not get static ip")
  assign_new_static pod sandbox_id req (ok pn) = do
    now ← time_now
    let nvip : PodNetwork = record pn {
      create_time = now;
      pod_name = pod.name;
      pod_ns = pod.namespace;
      sandbox_id = sandbox_id;
    }
    create_vpc_ip_claim_by_pod_network req nvip pod
    pure nvip

  pub assign_static_found : Pod → String → AddPodNetworkRequest → Option VpcIpClaim → Io PodNetwork
  assign_static_found pod sandbox_id req (some vip) = do
    attached ← local_attach req vip sandbox_id
    now ← time_now
    pure (vip_to_pod_network now attached)
  assign_static_found pod sandbox_id req none =
      try (assign_pod_ip req) >>= assign_new_static pod sandbox_id req

  pub assign_static_pod_ip : Pod → String → AddPodNetworkRequest → Io PodNetwork
  assign_static_pod_ip pod sandbox_id req = do
    found ← find_static_ip pod.namespace pod.name
    assign_static_found pod sandbox_id req found

  unfoldable pub check_ip_conflict : String → Io (Unit {0})
  check_ip_conflict ip = do
    conflict ← or_else (on_host (env.detect_conflict ip)) "failed to detect conflict"
    (if conflict then raise (failure "ip is still in conflict after retrying") else pure tt)

  -- An address that was never used here is announced first; one in conflict is released.
  unfoldable pub check_fresh : PodNetwork → Result (Unit {0}) → Io PodNetwork
  check_fresh pn (ok u) s = (ok pn, s)
  check_fresh pn (err e) s = (err e, (uapi_delete_secondary_ip pn s).1)

  unfoldable pub checked : Bool → PodNetwork → Result Bool → Io PodNetwork
  checked enable_static pn (err e) =
      if enable_static
      then raise (failure "check ip status in vpc")
      else (put_ip_to_pool pn >>= λ _. raise (failure "check ip status in vpc"))
  checked enable_static pn (ok false) = raise (failure "ip does not exist on current node")
  checked enable_static pn (ok true) =
      if not pn.recycled && not (pn.vpc_ip == "")
      then (try (check_ip_conflict pn.vpc_ip) >>= check_fresh pn)
      else pure pn

  unfoldable pub assign_for : Bool → Pod → AddPodNetworkRequest → Io PodNetwork
  assign_for true pod req = assign_static_pod_ip pod req.sandbox_id req
  assign_for false pod req = assign_pod_ip req

  unfoldable pub get_pod_ip : AddPodNetworkRequest → Io PodNetwork
  get_pod_ip req s =
      let (enabled, s1) = pod_enable_static_ip req.pod_name req.pod_namespace s in
      elim enabled [
        | err e ↦ (err e, s1)
        | ok (enable_static, pod) ↦
            (do
              pn ← assign_for enable_static pod req
              exist ← try (check_secondary_ip_exist pn)
              checked enable_static pn exist)
              s1
      ]
