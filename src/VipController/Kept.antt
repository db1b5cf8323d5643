-- ===== src/VipController/Kept.antt =====
-- cmd/vip-controller/sts.go, `onStsUpdate`: which claims it leaves alone.
use uk8s_cni_vpc.Prelude.{
  ℕ, ◌<◌, String, ◌≡◌, refl, ◌∙◌, ◌⊎◌, inl, inr, true, false, ◌&&◌, Bool-cases, List, [], ◌∷◌, ◌==◌,
  leb, Option, arith, All,
}
use uk8s_cni_vpc.Result.{ok, Result-cases}
use uk8s_cni_vpc.Step.{Step}
use uk8s_cni_vpc.Ipamd.Types.{VpcIpClaim}
use uk8s_cni_vpc.VipController.{
  Cluster, ensure_static_ip_pod_not_running, mark_detached_once, mark_vpc_ip_claim_detached,
  detach_surplus, detach_each, with_replicas, on_sts_update, last_segment, detached_claim,
}

-- What the API server and client-go document: reads change no claim, an update changes at most the
-- claim that it names, a claim that is read has the name that was asked for, and what an attempt keeps
-- the retries keep.
pub record ClusterLaws (cluster : Cluster) : Type 1 where
  pub claim : cluster.Objects → String → String → Option VpcIpClaim
  pub list_keeps :
      (ns sts a b : String) (s : cluster.Objects)
      → claim (cluster.list_claims_of ns sts s).1 a b ≡ claim s a b
  pub replicas_keep :
      (ns sts a b : String) (s : cluster.Objects)
      → claim (cluster.get_replicas ns sts s).1 a b ≡ claim s a b
  pub pod_keeps :
      (name ns a b : String) (s : cluster.Objects)
      → claim (cluster.get_pod name ns s).1 a b ≡ claim s a b
  pub get_keeps :
      (ns name a b : String) (s : cluster.Objects)
      → claim (cluster.get_claim ns name s).1 a b ≡ claim s a b
  pub get_named :
      (ns name : String) (s : cluster.Objects) (vip : VpcIpClaim)
      → (cluster.get_claim ns name s).0 ≡ ok vip
      → (vip.namespace ≡ ns) × (vip.name ≡ name)
  pub update_other :
      (vip : VpcIpClaim) (a b : String) (s : cluster.Objects)
      → (vip.namespace == a && vip.name == b) ≡ false
      → claim (cluster.update_claim vip s).1 a b ≡ claim s a b
  pub retry_keeps :
      (P : cluster.Objects → Type 0) (m : Step cluster.Objects (Unit {0}))
      → ((s : cluster.Objects) → P s → P (m s).1)
      → (s : cluster.Objects) → P s
      → P (cluster.retry_on_conflict m s).1

module _ ⦃cluster : Cluster⦄ (laws : ClusterLaws cluster) where
  abbrev Other : VpcIpClaim → String → String → Type 0
  Other vip a b = (vip.namespace == a && vip.name == b) ≡ false

  mark_once-claim :
      (vip : VpcIpClaim) (a b : String) (s : cluster.Objects)
      → Other vip a b
      → laws.claim (mark_detached_once vip s).1 a b ≡ laws.claim s a b
  unfolding mark_detached_once detached_claim
  mark_once-claim vip a b s apart =
      elim (Result-cases (cluster.get_claim vip.namespace vip.name s).0) [
        | inr (e, bad) ↦ rw (bad, mark_detached_once) (laws.get_keeps vip.namespace vip.name a b s)
        | inl (latest, found) ↦
            let t : cluster.Objects = (cluster.get_claim vip.namespace vip.name s).1 in
            let (same_ns, same_name) = laws.get_named vip.namespace vip.name s latest found in
            rw (found, mark_detached_once)
              (laws.update_other (detached_claim (cluster.formatted_now t) latest) a b t
                  (rw (same_ns, same_name) apart)
                ∙ laws.get_keeps vip.namespace vip.name a b s)
      ]

  mark-claim :
      (vip : VpcIpClaim) (a b : String) (s : cluster.Objects)
      → Other vip a b
      → laws.claim (mark_vpc_ip_claim_detached vip s).1 a b ≡ laws.claim s a b
  unfolding mark_vpc_ip_claim_detached
  mark-claim vip a b s apart =
      laws.retry_keeps (λ t. laws.claim t a b ≡ laws.claim s a b) (mark_detached_once vip)
        (λ t h. mark_once-claim vip a b t apart ∙ h) s refl

  pub ensure-claim :
      (ns name a b : String) (s : cluster.Objects)
      → laws.claim (ensure_static_ip_pod_not_running ns name s).1 a b ≡ laws.claim s a b
  unfolding ensure_static_ip_pod_not_running
  ensure-claim ns name a b s = elim (Result-cases (cluster.get_pod name ns s).0) [
    | inl (pod, e) ↦ rw (e, ensure_static_ip_pod_not_running) (laws.pod_keeps name ns a b s)
    | inr (x, e) ↦ rw (e, ensure_static_ip_pod_not_running) (laws.pod_keeps name ns a b s)
  ]

  detach_surplus-claim :
      (vip : VpcIpClaim) (a b : String) (s : cluster.Objects)
      → Other vip a b ⊎ (vip.attached ≡ false)
      → laws.claim (detach_surplus vip s).1 a b ≡ laws.claim s a b
  unfolding detach_surplus
  detach_surplus-claim vip a b s (inr idle) = rw (idle, detach_surplus) refl
  detach_surplus-claim vip a b s (inl apart) = elim (Bool-cases vip.attached) [
    | inr idle ↦ rw (idle, detach_surplus) refl
    | inl busy ↦
        let t : cluster.Objects = (ensure_static_ip_pod_not_running vip.namespace vip.name s).1 in
        let same = ensure-claim vip.namespace vip.name a b s in
        elim (Result-cases (ensure_static_ip_pod_not_running vip.namespace vip.name s).0) [
          | inr (e, bad) ↦ rw (busy, bad, detach_surplus) same
          | inl (false, runs) ↦ rw (busy, runs, detach_surplus) same
          | inl (true, gone) ↦ rw (busy, gone, detach_surplus) (mark-claim vip a b t apart ∙ same)
        ]
  ]

  -- The claim is not this one, or is detached already, or its index is below the replica count.
  abbrev pub Safe : ℕ → String → String → VpcIpClaim → Type 0
  Safe replicas a b vip =
      ((vip.namespace == a && vip.name == b) ≡ false)
      ⊎ (vip.attached ≡ false)
      ⊎ ((idx : ℕ) × (cluster.atoi (last_segment vip.name) ≡ ok idx) × (idx < replicas))

  detach_each-claim :
      (replicas : ℕ) (vips : List VpcIpClaim) (a b : String) (s : cluster.Objects)
      → All (Safe replicas a b) vips
      → laws.claim (detach_each replicas vips s).1 a b ≡ laws.claim s a b
  unfolding detach_each
  detach_each-claim replicas [] a b s safe = refl
  detach_each-claim replicas (vip ∷ vips) a b s safe =
      elim (Result-cases (cluster.atoi (last_segment vip.name))) [
        | inr (e, bad) ↦ rw (bad, detach_each) refl
        | inl (idx, read) ↦ elim (Bool-cases (leb replicas idx)) [
          | inr below ↦ rw (read, below, detach_each) (detach_each-claim replicas vips a b s safe.1)
          | inl above ↦
              rw (read, above, detach_each)
                (detach_each-claim replicas vips a b (detach_surplus vip s).1 safe.1
                  ∙ detach_surplus-claim vip a b s (surplus idx read above))
        ]
      ]
    where
      surplus :
          (idx : ℕ)
          → cluster.atoi (last_segment vip.name) ≡ ok idx
          → leb replicas idx ≡ true
          → Other vip a b ⊎ (vip.attached ≡ false)
      surplus idx read above = elim safe.0 [
        | inl apart ↦ inl apart
        | inr (inl idle) ↦ inr idle
        | inr (inr (i, known, below)) ↦ absurd (ground arith)
      ]

  -- If the claims and the replica count of a statefulset can be read, its update leaves a claim alone
  -- that is listed as detached or has an index below the replica count, or is not listed at all,
  -- whatever happens to the claims beside it.
  pub on_sts_update-claim :
      (key ns sts a b : String) (vips : List VpcIpClaim) (replicas : ℕ) (s : cluster.Objects)
      → cluster.split_meta_namespace_key key ≡ ok (ns, sts)
      → (cluster.list_claims_of ns sts s).0 ≡ ok vips
      → (cluster.get_replicas ns sts (cluster.list_claims_of ns sts s).1).0 ≡ ok replicas
      → All (Safe replicas a b) vips
      → laws.claim (on_sts_update key s).1 a b ≡ laws.claim s a b
  unfolding on_sts_update with_replicas
  on_sts_update-claim key ns sts a b vips replicas s split listed counted safe =
      let s1 : cluster.Objects = (cluster.list_claims_of ns sts s).1 in
      let s2 : cluster.Objects = (cluster.get_replicas ns sts s1).1 in
      rw (split, listed, counted, on_sts_update)
        (detach_each-claim replicas vips a b s2 safe
          ∙ laws.replicas_keep ns sts a b s1
          ∙ laws.list_keeps ns sts a b s)
