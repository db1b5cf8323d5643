-- ===== src/VipController/Collection/Spared.antt =====
-- cmd/vip-controller/main.go, `vipCheckAndClean`: which claims it leaves alone.
use uk8s_cni_vpc.Prelude.{
  ◌+◌, ◌<◌, String, ◌≡◌, ◌≢◌, refl, sym, ◌∙◌, ◌⊎◌, inl, inr, true, false, ◌&&◌, Bool-cases, List,
  [], ◌∷◌, ◌==◌, arith, eq_iff, &&-eq-true, false≢true, is_true_text, Option, none, some,
}
use uk8s_cni_vpc.Result.{Result, ok, err, Error, is_absent, Result-cases}
use uk8s_cni_vpc.Ipamd.Types.{VpcIpClaim, Pod}
use uk8s_cni_vpc.Ipamd.Claims.{lookup, sts_enable_static_ip}
use uk8s_cni_vpc.Ipamd.Assign.{owned_by_statefulset}
use uk8s_cni_vpc.VipController.{
  Cluster, ensure_static_ip_pod_not_running, pod_not_running, switched_off,
}
use uk8s_cni_vpc.VipController.Kept.{ClusterLaws, ensure-claim}
use uk8s_cni_vpc.VipController.Collection.{
  Collector, Duration, is_over, delete_due, check_and_clean_one, check_and_clean_each,
  vip_check_and_clean,
}

-- The making of a client and the listing change no claim, a deletion at most the claim that it names.
pub record CollectorLaws ⦃cluster : Cluster⦄ (laws : ClusterLaws cluster) (collector : Collector)
    : Type 0 where
  pub crd_keeps :
      (a b : String) (s : cluster.Objects)
      → laws.claim (collector.get_crd s).1 a b ≡ laws.claim s a b
  pub client_keeps :
      (a b : String) (s : cluster.Objects)
      → laws.claim (collector.get_kube_client s).1 a b ≡ laws.claim s a b
  pub list_keeps :
      (a b : String) (s : cluster.Objects)
      → laws.claim (collector.list_detached s).1 a b ≡ laws.claim s a b
  pub delete_other :
      (ns name a b : String) (s : cluster.Objects)
      → (ns == a && name == b) ≡ false
      → laws.claim (collector.delete_claim ns name s).1 a b ≡ laws.claim s a b

module _ ⦃cluster : Cluster⦄ (laws : ClusterLaws cluster) ⦃collector : Collector⦄
    (also : CollectorLaws laws collector) where
  delete_due-claim :
      (vip : VpcIpClaim) (a b : String) (s : cluster.Objects)
      → (vip.namespace == a && vip.name == b) ≡ false
      → laws.claim (delete_due vip s).1 a b ≡ laws.claim s a b
  unfolding delete_due
  delete_due-claim vip a b s apart =
      let s1 : cluster.Objects = (collector.get_kube_client s).1 in
      let s2 : cluster.Objects = (ensure_static_ip_pod_not_running vip.namespace vip.name s1).1 in
      let same1 : laws.claim s1 a b ≡ laws.claim s a b = also.client_keeps a b s in
      let same2 : laws.claim s2 a b ≡ laws.claim s a b =
        ensure-claim laws vip.namespace vip.name a b s1 ∙ same1 in
      elim (Result-cases (collector.get_kube_client s).0) [
        | inr (e, bad) ↦ rw (bad, delete_due) same1
        | inl (u, made) ↦
            elim (Result-cases (ensure_static_ip_pod_not_running vip.namespace vip.name s1).0) [
              | inr (e, bad) ↦ rw (made, bad, delete_due) same2
              | inl (false, runs) ↦ rw (made, runs, delete_due) same2
              | inl (true, gone) ↦
                  rw (made, gone, delete_due)
                    (also.delete_other vip.namespace vip.name a b s2 apart ∙ same2)
            ]
      ]

  -- The end of the release time, counted from the detachment, is before what the clock says.
  abbrev pub Passed : VpcIpClaim → Duration → cluster.Objects → Type 0
  Passed vip release s =
      ((release.negative ≡ false)
        × (collector.parse_time vip.last_detach_time + release.seconds < collector.now s))
      ⊎ ((release.negative ≡ true)
          × (collector.parse_time vip.last_detach_time < collector.now s + release.seconds))

  -- The pod does not need its address: it is not there, or it is no pod of a statefulset, or its
  -- annotation switches static addresses off, or it does not run.
  abbrev pub Unused : Result Pod → Type 0
  Unused answer =
      ((e : Error) × (answer ≡ err e) × (is_absent e ≡ true))
      ⊎ ((pod : Pod) × (answer ≡ ok pod)
          × ((owned_by_statefulset pod.owners ≡ false)
              ⊎ ((val : String) × (lookup sts_enable_static_ip pod.annotations ≡ some val)
                  × (is_true_text val ≡ false))
              ⊎ (pod.running ≡ false)))

  -- When its turn comes, the claim has a release time that the clock has passed, and its pod does not
  -- need the address.
  abbrev pub DueAt : String → String → VpcIpClaim → cluster.Objects → Type 0
  DueAt a b vip s =
      (vip.namespace ≡ a)
      × (vip.name ≡ b)
      × (vip.release_time ≢ "Never")
      × ((release : Duration) × (collector.parse_duration vip.release_time ≡ ok release)
          × Passed vip release s)
      × Unused (cluster.get_pod vip.name vip.namespace (collector.get_kube_client s).1).0

  Passed-is_over :
      (vip : VpcIpClaim) (release : Duration) (s : cluster.Objects)
      → is_over vip release s ≡ true
      → Passed vip release s
  unfolding is_over
  Passed-is_over vip release s over = elim (Bool-cases release.negative) [
    | inl before ↦ inr (before, ground (arith, before))
    | inr later ↦ inl (later, ground (arith, later))
  ]

  pod_not_running-lem :
      (pod : Pod)
      → pod_not_running pod ≡ true
      → (owned_by_statefulset pod.owners ≡ false)
        ⊎ ((val : String) × (lookup sts_enable_static_ip pod.annotations ≡ some val)
            × (is_true_text val ≡ false))
        ⊎ (pod.running ≡ false)
  unfolding pod_not_running
  pod_not_running-lem pod h = elim (Bool-cases (owned_by_statefulset pod.owners)) [
    | inr alone ↦ inl alone
    | inl owned ↦ elim (Bool-cases pod.running) [
      | inr stopped ↦ inr (inr stopped)
      | inl runs ↦ inr (
          inl (by_text (lookup sts_enable_static_ip pod.annotations) (ground (arith, owned, runs))))
    ]
  ]
    where
      by_text :
          (o : Option String)
          → switched_off o ≡ true
          → (val : String) × (o ≡ some val) × (is_true_text val ≡ false)
      by_text none off = absurd (false≢true off)
      by_text (some val) off = (val, refl, ground arith)

  ensure-Unused :
      (namespace name : String) (s : cluster.Objects)
      → (ensure_static_ip_pod_not_running namespace name s).0 ≡ ok true
      → Unused (cluster.get_pod name namespace s).0
  unfolding ensure_static_ip_pod_not_running
  ensure-Unused namespace name s h = elim (Result-cases (cluster.get_pod name namespace s).0) [
    | inl (pod, found) ↦ inr (pod, found, pod_not_running-lem pod (ground arith))
    | inr (e, bad) ↦ inl (e, bad, ground arith)
  ]

  -- One of the claims is due in the state in which the collection comes to it.
  abbrev pub Collected : String → String → List VpcIpClaim → cluster.Objects → Type 0
  Collected a b [] s = ⊥
  Collected a b (vip ∷ vips) s = DueAt a b vip s ⊎ Collected a b vips (check_and_clean_one vip s).1

  delete_due-gone :
      (vip : VpcIpClaim) (a b : String) (s : cluster.Objects)
      → (laws.claim (delete_due vip s).1 a b ≡ laws.claim s a b)
        ⊎ ((ensure_static_ip_pod_not_running vip.namespace vip.name
              (collector.get_kube_client s).1).0
            ≡ ok true)
  unfolding delete_due
  delete_due-gone vip a b s =
      let s1 : cluster.Objects = (collector.get_kube_client s).1 in
      let s2 : cluster.Objects = (ensure_static_ip_pod_not_running vip.namespace vip.name s1).1 in
      let same1 : laws.claim s1 a b ≡ laws.claim s a b = also.client_keeps a b s in
      let same2 : laws.claim s2 a b ≡ laws.claim s a b =
        ensure-claim laws vip.namespace vip.name a b s1 ∙ same1 in
      elim (Result-cases (collector.get_kube_client s).0) [
        | inr (e, bad) ↦ inl (rw (bad, delete_due) same1)
        | inl (u, made) ↦
            elim (Result-cases (ensure_static_ip_pod_not_running vip.namespace vip.name s1).0) [
              | inr (e, bad) ↦ inl (rw (made, bad, delete_due) same2)
              | inl (false, runs) ↦ inl (rw (made, runs, delete_due) same2)
              | inl (true, gone) ↦ inr gone
            ]
      ]

  one-claim :
      (vip : VpcIpClaim) (a b : String) (s : cluster.Objects)
      → (laws.claim (check_and_clean_one vip s).1 a b ≡ laws.claim s a b) ⊎ DueAt a b vip s
  unfolding check_and_clean_one
  one-claim vip a b s = elim (Bool-cases (vip.release_time == "Never")) [
    | inl never ↦ inl (rw (never, check_and_clean_one) refl)
    | inr limited ↦ elim (Result-cases (collector.parse_duration vip.release_time)) [
      | inr (e, bad) ↦ inl (rw (limited, bad, check_and_clean_one) refl)
      | inl (release, read) ↦ elim (Bool-cases (is_over vip release s)) [
        | inr early ↦ inl (rw (limited, read, check_and_clean_one) (rw early refl))
        | inl over ↦ elim (Bool-cases (vip.namespace == a && vip.name == b)) [
          | inr apart ↦
              inl (
                rw (limited, read, check_and_clean_one)
                  (rw over (delete_due-claim vip a b s apart)))
          | inl named ↦ elim (delete_due-gone vip a b s) [
            | inl same ↦ inl (rw (limited, read, check_and_clean_one) (rw over same))
            | inr gone ↦ inr (
              (eq_iff vip.namespace a).0 (&&-eq-true (vip.namespace == a) (vip.name == b) named).0,
              (eq_iff vip.name b).0 (&&-eq-true (vip.namespace == a) (vip.name == b) named).1,
              (λ never. false≢true (sym limited ∙ (eq_iff vip.release_time "Never").1 never)),
              (release, read, Passed-is_over vip release s over),
              ensure-Unused vip.namespace vip.name (collector.get_kube_client s).1 gone,
            )
          ]
        ]
      ]
    ]
  ]

  each-claim :
      (vips : List VpcIpClaim) (a b : String) (s : cluster.Objects)
      → (laws.claim (check_and_clean_each vips s).1 a b ≡ laws.claim s a b) ⊎ Collected a b vips s
  unfolding check_and_clean_each
  each-claim [] a b s = inl refl
  each-claim (vip ∷ vips) a b s =
      let s1 : cluster.Objects = (check_and_clean_one vip s).1 in
      elim (one-claim vip a b s) [
        | inr due ↦ inr (inl due)
        | inl same ↦ elim (Result-cases (check_and_clean_one vip s).0) [
          | inr (e, bad) ↦ inl (rw (bad, check_and_clean_each) same)
          | inl (u, done) ↦ elim (each-claim vips a b s1) [
            | inl later ↦ inl (rw (done, check_and_clean_each) (later ∙ same))
            | inr collected ↦ inr (inr collected)
          ]
        ]
      ]

  -- The collection leaves a claim as it is, unless the claim is listed as detached, is not kept for
  -- ever, and when its turn comes the end of its release time is before what the clock says and its
  -- pod is not there, or is no pod of a statefulset, or has static addresses switched off, or does not
  -- run; whatever happens to the claims beside it.
  pub vip_check_and_clean-claim :
      (a b : String) (s : cluster.Objects)
      → (laws.claim (vip_check_and_clean s).1 a b ≡ laws.claim s a b)
        ⊎ (let (vips, s1) = collector.list_detached (collector.get_crd s).1 in
            Collected a b vips s1)
  unfolding vip_check_and_clean
  vip_check_and_clean-claim a b s =
      let s1 : cluster.Objects = (collector.get_crd s).1 in
      let (vips, s2) = collector.list_detached s1 in
      elim (Result-cases (collector.get_crd s).0) [
        | inr (e, bad) ↦ inl (rw (bad, vip_check_and_clean) (also.crd_keeps a b s))
        | inl (u, made) ↦ elim (each-claim vips a b s2) [
          | inr collected ↦ inr collected
          | inl same ↦ inl (
              rw (made, vip_check_and_clean) (same ∙ also.list_keeps a b s1 ∙ also.crd_keeps a b s))
        ]
      ]
