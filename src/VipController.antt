-- ===== src/VipController.antt =====
-- cmd/vip-controller: sts.go, vpcipclaim.go and releaseVPCIp of main.go. The controller detaches the
-- claims of pods that a statefulset has no more, and releases the address of a deleted claim.
pub mod Kept
pub mod Names
pub mod Collection
use Prim.Native.String
use Prim.Native.Char.{code}
use uk8s_cni_vpc.Prelude.{
  ℕ, String, Bool, true, false, not, ◌&&◌, ◌||◌, Option, none, some, List, [], ◌∷◌, ◌==◌, leb, eqb,
  is_true_text, if◌then◌else◌,
}
use uk8s_cni_vpc.Result.{Result, ok, err, Error, failure, is_absent, ret_code}
use uk8s_cni_vpc.Step.{Step, pure, raise, lift, try, or_else, ◌>>=◌, ◌>>◌}
use uk8s_cni_vpc.Ipamd.Types.{VpcIpClaim, Pod}
use uk8s_cni_vpc.Ipamd.Claims.{lookup, set_key, sts_enable_static_ip}
use uk8s_cni_vpc.Ipamd.Assign.{owned_by_statefulset}

-- The API server as the controller sees it, and what it uses of client-go, of `strconv` and of the
-- VPC service.
pub record Cluster : Type 1 where
  pub Objects : Type 0
  pub split_meta_namespace_key : String → Result (String × String)
  pub list_claims_of : String → String → Step Objects (List VpcIpClaim)
  pub get_replicas : String → String → Step Objects ℕ
  pub get_pod : String → String → Step Objects Pod
  pub get_claim : String → String → Step Objects VpcIpClaim
  pub update_claim : VpcIpClaim → Step Objects (Unit {0})
  pub formatted_now : Objects → String
  pub retry_on_conflict : Step Objects (Unit {0}) → Step Objects (Unit {0})
  pub atoi : String → Result ℕ
  pub new_client : Step Objects (Unit {0})
  pub vpc_client : Step Objects (Unit {0})
  pub delete_secondary_ip : VpcIpClaim → Step Objects (Unit {0})

-- The last part of `strings.Split(name, "-")`.
unfoldable pub has_dash : String → Bool
has_dash String.[] = false
has_dash (String.◌∷◌ c s) = eqb (code c) 45 || has_dash s

unfoldable pub last_segment : String → String
last_segment String.[] = ""
last_segment (String.◌∷◌ c s) =
    let rest = last_segment s in
    if has_dash s then rest else if eqb (code c) 45 then s else String.◌∷◌ c s

-- The pod stands in the way only if it is a running pod of a statefulset, and its annotation does
-- not switch static addresses off.
abbrev pub switched_off : Option String → Bool
switched_off none = false
switched_off (some val) = not (is_true_text val)

unfoldable pub pod_not_running : Pod → Bool
pod_not_running pod =
    not (owned_by_statefulset pod.owners)
    || (switched_off (lookup sts_enable_static_ip pod.annotations) || not pod.running)

module _ ⦃cluster : Cluster⦄ where
  abbrev pub Act : Type 0 → Type 0
  Act A = Step cluster.Objects A

  unfoldable pub ensure_static_ip_pod_not_running : String → String → Act Bool
  ensure_static_ip_pod_not_running namespace name s =
      let (r, s') = cluster.get_pod name namespace s in
      elim r [
        | ok pod ↦ (ok (pod_not_running pod), s')
        | err e ↦ ((if is_absent e then ok true else err e), s')
      ]

  pub detached_claim : String → VpcIpClaim → VpcIpClaim
  detached_claim now vip = record vip {
    labels = set_key "attached" "false" vip.labels;
    finalizers = [];
    attached = false;
    sandbox_id = "";
    last_detach_time = now;
  }

  pub mark_detached_once : VpcIpClaim → Act (Unit {0})
  mark_detached_once vip s =
      let (r, s') = cluster.get_claim vip.namespace vip.name s in
      elim r [
        | err e ↦ (err e, s')
        | ok latest ↦ cluster.update_claim (detached_claim (cluster.formatted_now s') latest) s'
      ]

  pub mark_vpc_ip_claim_detached : VpcIpClaim → Act (Unit {0})
  mark_vpc_ip_claim_detached vip = cluster.retry_on_conflict (mark_detached_once vip)

  -- A claim above the replica count; the outcome of the update is not looked at.
  pub detach_surplus : VpcIpClaim → Act (Unit {0})
  detach_surplus vip s = elim vip.attached [
    | false ↦ (ok tt, s)
    | true ↦
        let (r, s') = ensure_static_ip_pod_not_running vip.namespace vip.name s in
        elim r [
          | err e ↦ (ok tt, s')
          | ok false ↦ (ok tt, s')
          | ok true ↦ (ok tt, (mark_vpc_ip_claim_detached vip s').1)
        ]
  ]

  -- A claim whose name has no index ends the loop with an error.
  pub detach_each : ℕ → List VpcIpClaim → Act (Unit {0})
  detach_each replicas [] s = (ok tt, s)
  detach_each replicas (vip ∷ vips) s = elim (cluster.atoi (last_segment vip.name)) [
    | err e ↦ (err e, s)
    | ok idx ↦ elim (leb replicas idx) [
      | false ↦ detach_each replicas vips s
      | true ↦ detach_each replicas vips (detach_surplus vip s).1
    ]
  ]

  -- A statefulset that is gone is left to its own event.
  pub with_replicas : List VpcIpClaim → Result ℕ → Act (Unit {0})
  with_replicas vips (ok replicas) = detach_each replicas vips
  with_replicas vips (err e) = if is_absent e then pure tt else raise e

  pub on_sts_update : String → Act (Unit {0})
  on_sts_update key s = elim (cluster.split_meta_namespace_key key) [
    | err e ↦ (err e, s)
    | ok (namespace, name) ↦
        let (listed, s1) = cluster.list_claims_of namespace name s in
        elim listed [
          | err e ↦ (err e, s1)
          | ok vips ↦
              let (replicas, s2) = cluster.get_replicas namespace name s1 in
              with_replicas vips replicas s2
        ]
  ]

  pub mark_all : List VpcIpClaim → Act (Unit {0})
  mark_all [] s = (ok tt, s)
  mark_all (vip ∷ vips) s = mark_all vips (mark_vpc_ip_claim_detached vip s).1

  pub on_sts_delete : String → String → Act (Unit {0})
  on_sts_delete namespace name = do vips ← cluster.list_claims_of namespace name; mark_all vips

  abbrev pub released_answer : Result (Unit {0}) → Result (Unit {0})
  released_answer (ok u) = ok tt
  released_answer (err (ret_code n)) = if eqb n 58221 then ok tt else err (ret_code n)
  released_answer (err e) = err e

  -- A client that cannot be made counts as success.
  pub release_vpc_ip : VpcIpClaim → Act (Unit {0})
  release_vpc_ip vip s =
      let (client, s1) = cluster.new_client s in
      elim client [
        | err e ↦ (ok tt, s1)
        | ok u ↦
            (cluster.vpc_client >>= λ v.
            try (cluster.delete_secondary_ip vip) >>= λ answer. lift (released_answer answer))
              s1
      ]

  pub on_vip_delete : VpcIpClaim → Act (Unit {0})
  on_vip_delete vip s =
      let (r, s') = ensure_static_ip_pod_not_running vip.namespace vip.name s in
      elim r [
        | ok true ↦ release_vpc_ip vip s'
        | ok false ↦ (err (failure "cannot delete vip"), s')
        | err e ↦ (err (failure "cannot delete vip"), s')
      ]
