-- ===== src/VipController/Collection.antt =====
-- cmd/vip-controller/main.go, `vipCheckAndClean`: the claims whose release time is reached are deleted.
pub mod Spared
use uk8s_cni_vpc.Prelude.{
  ℕ, ◌+◌, String, Bool, true, false, not, ◌&&◌, ◌||◌, List, [], ◌∷◌, ◌==◌, ltb, if◌then◌else◌,
}
use uk8s_cni_vpc.Result.{Result, ok, err, Error, failure}
use uk8s_cni_vpc.Step.{Step}
use uk8s_cni_vpc.Ipamd.Types.{VpcIpClaim}
use uk8s_cni_vpc.VipController.{Cluster, ensure_static_ip_pod_not_running}

-- A duration of Go, which may be negative.
pub record Duration : Type 0 where
  pub negative : Bool
  pub seconds : ℕ

-- What the collection uses besides: the clients, the list of the claims with the label
-- `attached=false`, the deletion, the clock, and `time.ParseDuration` and `time.Parse`. A text that
-- is no time gives the zero time.
pub record Collector ⦃cluster : Cluster⦄ : Type 0 where
  pub get_crd : Step cluster.Objects (Unit {0})
  pub get_kube_client : Step cluster.Objects (Unit {0})
  pub list_detached : cluster.Objects → List VpcIpClaim × cluster.Objects
  pub delete_claim : String → String → Step cluster.Objects (Unit {0})
  pub now : cluster.Objects → ℕ
  pub parse_duration : String → Result Duration
  pub parse_time : String → ℕ

module _ ⦃cluster : Cluster⦄ ⦃collector : Collector⦄ where
  -- `detachTime.Add(release).Before(time.Now())`
  unfoldable pub is_over : VpcIpClaim → Duration → cluster.Objects → Bool
  is_over vip release s =
      let detached : ℕ = collector.parse_time vip.last_detach_time in
      if release.negative
      then ltb detached (collector.now s + release.seconds)
      else ltb (detached + release.seconds) (collector.now s)

  -- The claim is due. Without a client the check of the pod panics; the error of the deletion is
  -- logged.
  unfoldable pub delete_due : VpcIpClaim → Step cluster.Objects (Unit {0})
  delete_due vip s =
      let (client, s1) = collector.get_kube_client s in
      elim client [
        | err e ↦ (err (failure "panic: nil client"), s1)
        | ok u ↦
            let (r, s2) = ensure_static_ip_pod_not_running vip.namespace vip.name s1 in
            elim r [
              | err e ↦ (ok tt, s2)
              | ok false ↦ (ok tt, s2)
              | ok true ↦ (ok tt, (collector.delete_claim vip.namespace vip.name s2).1)
            ]
      ]

  unfoldable pub check_and_clean_one : VpcIpClaim → Step cluster.Objects (Unit {0})
  check_and_clean_one vip s = elim (vip.release_time == "Never") [
    | true ↦ (ok tt, s)
    | false ↦ elim (collector.parse_duration vip.release_time) [
      | err e ↦ (ok tt, s)
      | ok release ↦ elim (is_over vip release s) [ false ↦ (ok tt, s) | true ↦ delete_due vip s ]
    ]
  ]

  unfoldable pub check_and_clean_each : List VpcIpClaim → Step cluster.Objects (Unit {0})
  check_and_clean_each [] s = (ok tt, s)
  check_and_clean_each (vip ∷ vips) s =
      let (r, s1) = check_and_clean_one vip s in
      elim r [ err e ↦ (err e, s1) | ok u ↦ check_and_clean_each vips s1 ]

  -- A listing that failed is logged, and has no claims.
  unfoldable pub vip_check_and_clean : Step cluster.Objects (Unit {0})
  vip_check_and_clean s =
      let (client, s1) = collector.get_crd s in
      elim client [
        | err e ↦ (ok tt, s1)
        | ok u ↦ let (vips, s2) = collector.list_detached s1 in check_and_clean_each vips s2
      ]

-- The period of the loop in seconds: an hour if the flag is no duration, and no less than the minimum.
unfoldable pub gc_interval : ℕ → Result Duration → ℕ
gc_interval least (err e) = if ltb 3600 least then least else 3600
gc_interval least (ok duration) =
    if duration.negative || ltb duration.seconds least then least else duration.seconds
