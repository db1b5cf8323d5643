-- ===== src/Ipamd/Claims/Keys.antt =====
-- pkg/ipamd/vpcclaim.go: attaching a static address keeps every address under its own key.
use uk8s_cni_vpc.Prelude.{String, Option, none, some, ◌==◌, arith}
use uk8s_cni_vpc.Result.{Result, ok, err}
use uk8s_cni_vpc.Ipamd.Types.{PodNetwork, AddPodNetworkRequest, IpInfo, VpcIpClaim, Pod}
use uk8s_cni_vpc.Ipamd.World.{Env, EnvLaws, Config}
use uk8s_cni_vpc.Ipamd.Keyed.{
  Keyed, Keeps, bind-Keeps, same-Keeps, try-Keeps, or_else-Keeps, pure-Keeps, raise-Keeps,
  cluster-Keeps, time-Keeps, if-Keeps,
}
use uk8s_cni_vpc.Ipamd.Uapi.Keys.{uapi_allocate_specified-file, uapi_describe-file}
use uk8s_cni_vpc.Ipamd.Uapi.Release.{uapi_move-SameStore}
use uk8s_cni_vpc.Ipamd.Pool.Keys.{put_ip_to_pool-Keeps}
use uk8s_cni_vpc.Step.{Step}
use uk8s_cni_vpc.Ipamd.Claims.{
  is_definite, attached_claim, pod_network_to_vip, owner_labels, owner_statefulset_name,
  mark_attached_once, mark_vpc_ip_claim_attached, find_static_ip, previous_mac, move_if_needed,
  local_attach, claimed, create_vpc_ip_claim_by_pod_network,
}

-- What `retry.RetryOnConflict` does is to run its action, some number of times.
pub record RetryLaw (env : Env) : Type 1 where
  pub only_runs :
      {S : Type 0}
      → (P : S → Type 0) (m : Step S (Unit {0})) → ((s : S) → P s → P (m s).1)
      → (s : S) → P s
      → P (env.retry_on_conflict m s).1

module _ ⦃env : Env⦄ ⦃config : Config⦄ (laws : EnvLaws env) (retry : RetryLaw env) where
  mark_attached_once-Keeps :
      (req : AddPodNetworkRequest) (vip : VpcIpClaim) (sandbox : String)
      → Keeps laws (mark_attached_once req vip sandbox)
  unfolding mark_attached_once
  mark_attached_once-Keeps req vip sandbox =
      bind-Keeps laws _ _ (cluster-Keeps laws (env.get_claim vip.namespace vip.name)) λ latest.
        bind-Keeps laws _ _
          (try-Keeps laws _ (cluster-Keeps laws (env.get_pod latest.name latest.namespace)))
          λ pod. cluster-Keeps laws (env.update_claim (attached_claim req sandbox pod latest))

  mark_attached-Keeps :
      (req : AddPodNetworkRequest) (vip : VpcIpClaim) (sandbox : String)
      → Keeps laws (mark_vpc_ip_claim_attached req vip sandbox)
  unfolding mark_vpc_ip_claim_attached
  mark_attached-Keeps req vip sandbox = record {
    run =
        retry.only_runs (λ s. Keyed laws s.file) (mark_attached_once req vip sandbox)
          (mark_attached_once-Keeps req vip sandbox).run;
  }

  pub find_static_ip-Keeps : (ns name : String) → Keeps laws (find_static_ip ns name)
  unfolding find_static_ip
  find_static_ip-Keeps ns name = same-Keeps laws _ (λ s. ground arith)

  previous_mac-Keeps :
      (req : AddPodNetworkRequest) (vip : VpcIpClaim) (r : Result (Option IpInfo))
      → Keeps laws (previous_mac req vip r)
  unfolding previous_mac
  previous_mac-Keeps req vip (ok (some info)) = pure-Keeps laws _
  previous_mac-Keeps req vip (ok none) =
      bind-Keeps laws _ _
        (or_else-Keeps laws _ _ (same-Keeps laws _ (uapi_allocate_specified-file vip.ip req)))
        λ info. pure-Keeps laws _
  previous_mac-Keeps req vip (err e) = pure-Keeps laws _

  move_if_needed-Keeps :
      (req : AddPodNetworkRequest) (vip : VpcIpClaim) (mac : String)
      → Keeps laws (move_if_needed req vip mac)
  unfolding move_if_needed
  move_if_needed-Keeps req vip mac =
      if-Keeps laws (mac == req.mac_address) _ _ (pure-Keeps laws _) (
        or_else-Keeps laws _ _ (
          same-Keeps laws _
            (λ s. (uapi_move-SameStore vip.ip mac vip.subnet_id req.mac_address s).file)))

  pub local_attach-Keeps :
      (req : AddPodNetworkRequest) (vip : VpcIpClaim) (sandbox : String)
      → Keeps laws (local_attach req vip sandbox)
  unfolding local_attach
  local_attach-Keeps req vip sandbox =
      bind-Keeps laws _ _
        (try-Keeps laws _ (same-Keeps laws _ (uapi_describe-file vip.ip vip.subnet_id)))
        λ described. bind-Keeps laws _ _ (previous_mac-Keeps req vip described) λ mac.
          bind-Keeps laws _ _ (move_if_needed-Keeps req vip mac) λ _.
            bind-Keeps laws _ _ (mark_attached-Keeps req vip sandbox)
              λ _. cluster-Keeps laws (env.get_claim vip.namespace vip.name)

  claimed-Keeps :
      (req : AddPodNetworkRequest) (pn : PodNetwork) (r : Result VpcIpClaim)
      → Keeps laws (claimed req pn r)
  unfolding claimed
  claimed-Keeps req pn (ok claim) = local_attach-Keeps req claim pn.sandbox_id
  claimed-Keeps req pn (err e) =
      if-Keeps laws (is_definite e) _ _
        (bind-Keeps laws _ _ (put_ip_to_pool-Keeps laws pn) (λ _. raise-Keeps laws _))
        (raise-Keeps laws _)

  pub create_claim-Keeps :
      (req : AddPodNetworkRequest) (pn : PodNetwork) (pod : Pod)
      → Keeps laws (create_vpc_ip_claim_by_pod_network req pn pod)
  unfolding create_vpc_ip_claim_by_pod_network
  create_claim-Keeps req pn pod = bind-Keeps laws _ _ (time-Keeps laws) λ now.
      bind-Keeps laws _ _
        (try-Keeps laws _ (
          cluster-Keeps laws (
            env.create_claim (record (pod_network_to_vip now pn) {
              labels = owner_labels (owner_statefulset_name pod.owners);
            }))))
        (claimed-Keeps req pn)
