-- ===== src/Ipamd/Claims.antt =====
-- pkg/ipamd/vpcclaim.go: static addresses, kept in `vpcipclaim` resources.
pub mod Keys
use uk8s_cni_vpc.Prelude.{
  ℕ, String, concat, Bool, true, false, not, ◌&&◌, ◌||◌, Option, none, some, List, [], ◌∷◌, ◌==◌,
  if◌then◌else◌,
}
use uk8s_cni_vpc.Result.{
  Result, ok, err, Error, failure, api, is_absent, Reason, absent, forbidden, unauthorized, invalid,
  bad_request, method_not_supported,
}
use uk8s_cni_vpc.Step.{Step, pure, raise, lift, try, or_else, ◌>>=◌, ◌>>◌}
use uk8s_cni_vpc.Ipamd.Types.{PodNetwork, AddPodNetworkRequest, IpInfo, VpcIpClaim, Pod}
use uk8s_cni_vpc.Ipamd.World.{Env, Config, State, Io, on_cluster, time_now}
use uk8s_cni_vpc.Ipamd.Uapi.{
  uapi_describe_secondary_ip, uapi_allocate_specified_secondary_ip, uapi_move_secondary_ip_mac,
}
use uk8s_cni_vpc.Ipamd.Pool.{put_ip_to_pool}

abbrev pub sts_enable_static_ip : String
sts_enable_static_ip = "network.beta.kubernetes.io/ucloud-statefulset-static-ip"

abbrev pub sts_static_ip_release : String
sts_static_ip_release = "network.beta.kubernetes.io/ucloud-statefulset-ip-claim-policy"

abbrev pub lookup : String → List (String × String) → Option String
lookup k [] = none
lookup k ((j, v) ∷ m) = if j == k then some v else lookup k m

-- `m[k] = v`
abbrev pub set_key : String → String → List (String × String) → List (String × String)
set_key k v [] = (k, v) ∷ []
set_key k v ((j, w) ∷ m) = if j == k then (k, v) ∷ m else (j, w) ∷ set_key k v m

abbrev pub or_text : Option String → String → String
or_text none d = d
or_text (some t) d = t

-- `getOwnerStatefulSetName`
pub owner_statefulset_name : List (String × String) → String
owner_statefulset_name [] = ""
owner_statefulset_name ((kind, name) ∷ owners) =
    if kind == "StatefulSet" then name else owner_statefulset_name owners

-- The errors after which a claim was certainly not made.
abbrev pub is_definite : Error → Bool
is_definite (api absent) = true
is_definite (api forbidden) = true
is_definite (api unauthorized) = true
is_definite (api invalid) = true
is_definite (api bad_request) = true
is_definite (api method_not_supported) = true
is_definite _ = false

module _ ⦃env : Env⦄ ⦃config : Config⦄ where
  -- The claim as it is written back when it is attached.
  pub attached_claim : AddPodNetworkRequest → String → Result Pod → VpcIpClaim → VpcIpClaim
  attached_claim req sandbox_id (ok pod) vip = record vip {
    labels = set_key "attached" "true" vip.labels;
    finalizers = "cni-vpc-ipamd" ∷ [];
    attached = true;
    release_time = or_text (lookup sts_static_ip_release pod.annotations) "Never";
    sandbox_id = sandbox_id;
    mac = req.mac_address;
    zone = config.zone_id;
  }
  attached_claim req sandbox_id (err e) vip = record vip {
    labels = set_key "attached" "true" vip.labels;
    finalizers = "cni-vpc-ipamd" ∷ [];
    attached = true;
    release_time = "Never";
    sandbox_id = sandbox_id;
    mac = req.mac_address;
    zone = config.zone_id;
  }

  -- One round of `markVPCIpClaimAttached`.
  pub mark_attached_once : AddPodNetworkRequest → VpcIpClaim → String → Io (Unit {0})
  mark_attached_once req vip sandbox_id = do
    latest ← on_cluster (env.get_claim vip.namespace vip.name)
    pod ← try (on_cluster (env.get_pod latest.name latest.namespace))
    on_cluster (env.update_claim (attached_claim req sandbox_id pod latest))

  pub mark_vpc_ip_claim_attached : AddPodNetworkRequest → VpcIpClaim → String → Io (Unit {0})
  mark_vpc_ip_claim_attached req vip sandbox_id =
      env.retry_on_conflict (mark_attached_once req vip sandbox_id)

  pub find_static_ip : String → String → Io (Option VpcIpClaim)
  find_static_ip pod_ns pod_name s =
      let (r, s') = on_cluster (env.get_claim pod_ns pod_name) s in
      elim r [ ok vip ↦ (ok (some vip), s') | err e ↦ (if is_absent e then ok none else err e, s') ]

  -- The address that the VPC service now binds the claim's IP to. A released IP is allocated anew.
  pub previous_mac : AddPodNetworkRequest → VpcIpClaim → Result (Option IpInfo) → Io String
  previous_mac req vip (ok (some info)) = pure info.mac
  previous_mac req vip (ok none) = do
    info ← or_else (uapi_allocate_specified_secondary_ip vip.ip req) "allocate specify secondary ip"
    pure info.mac
  previous_mac req vip (err e) = pure vip.mac

  pub move_if_needed : AddPodNetworkRequest → VpcIpClaim → String → Io (Unit {0})
  move_if_needed req vip prev_mac =
      if prev_mac == req.mac_address
      then pure tt
      else or_else (uapi_move_secondary_ip_mac vip.ip prev_mac vip.subnet_id req.mac_address)
          "move secondary ip"

  pub local_attach : AddPodNetworkRequest → VpcIpClaim → String → Io VpcIpClaim
  local_attach req vip sandbox_id = do
    described ← try (uapi_describe_secondary_ip vip.ip vip.subnet_id)
    prev_mac ← previous_mac req vip described
    move_if_needed req vip prev_mac
    mark_vpc_ip_claim_attached req vip sandbox_id
    on_cluster (env.get_claim vip.namespace vip.name)

  pub vip_to_pod_network : ℕ → VpcIpClaim → PodNetwork
  vip_to_pod_network now vip = record {
    pod_name = vip.name;
    pod_ns = vip.namespace;
    pod_uid = "";
    sandbox_id = "";
    net_ns = "";
    vpc_ip = vip.ip;
    vpc_id = vip.vpc_id;
    subnet_id = vip.subnet_id;
    gateway = vip.gateway;
    mask = vip.mask;
    mac_address = vip.mac;
    dedicated_uni = false;
    interface_id = "";
    eip_id = "";
    create_time = now;
    recycle_time = 0;
    recycled = false;
  }

  pub pod_network_to_vip : ℕ → PodNetwork → VpcIpClaim
  pod_network_to_vip now pn = record {
    name = pn.pod_name;
    namespace = pn.pod_ns;
    labels = [];
    finalizers = "cni-vpc-ipamd" ∷ [];
    ip = pn.vpc_ip;
    mask = pn.mask;
    gateway = pn.gateway;
    subnet_id = pn.subnet_id;
    vpc_id = pn.vpc_id;
    attached = true;
    zone = "";
    last_detach_time = env.format_time now;
    mac = pn.mac_address;
    release_time = "Never";
    sandbox_id = "";
  }

  pub owner_labels : String → List (String × String)
  owner_labels sts = if sts == "" then [] else ("owner-statefulset", sts) ∷ []

  -- A definite refusal lets the address go back to the pool; after any other error the claim may
  -- have been made.
  pub claimed : AddPodNetworkRequest → PodNetwork → Result VpcIpClaim → Io VpcIpClaim
  claimed req pn (ok claim) = local_attach req claim pn.sandbox_id
  claimed req pn (err e) = if is_definite e then (put_ip_to_pool pn >>= λ _. raise e) else raise e

  pub create_vpc_ip_claim_by_pod_network : AddPodNetworkRequest → PodNetwork → Pod → Io VpcIpClaim
  create_vpc_ip_claim_by_pod_network req pn pod = do
    now ← time_now
    created ← try (
        on_cluster (
          env.create_claim (record (pod_network_to_vip now pn) {
            labels = owner_labels (owner_statefulset_name pod.owners);
          })))
    claimed req pn created
