-- ===== src/Examples/ControllerRuns.antt =====
-- The controller beside an API server with one claim.
use uk8s_cni_vpc.Prelude.{
  ℕ, String, ◌≡◌, refl, ap, inl, inr, true, false, Bool, Bool-cases, Option, none, some, [], ◌∷◌,
  ◌==◌, ◌&&◌, ◌⊎◌, eq_iff, arith, if◌then◌else◌,
}
use uk8s_cni_vpc.Result.{Result, ok, err, api, absent, failure}
use uk8s_cni_vpc.Ipamd.Types.{VpcIpClaim}
use uk8s_cni_vpc.VipController.{
  Cluster, on_sts_update, last_segment, has_dash, ensure_static_ip_pod_not_running, pod_not_running,
}
use uk8s_cni_vpc.VipController.Kept.{ClusterLaws, on_sts_update-claim}
use uk8s_cni_vpc.VipController.Collection.{
  Collector, vip_check_and_clean, check_and_clean_each, check_and_clean_one, delete_due, is_over,
}
use uk8s_cni_vpc.VipController.Collection.Spared.{
  CollectorLaws, Collected, vip_check_and_clean-claim,
}
use uk8s_cni_vpc.Examples.Toy.{toy_pod}

abbrev is_named : VpcIpClaim → String → String → Bool
is_named vip a b = vip.namespace == a && vip.name == b

abbrev claim_of : VpcIpClaim → String → String → Option VpcIpClaim
claim_of vip a b = if is_named vip a b then some vip else none

abbrev get_one : String → String → VpcIpClaim → Result VpcIpClaim × VpcIpClaim
get_one ns name vip = ((if is_named vip ns name then ok vip else err (api absent)), vip)

abbrev put_one : VpcIpClaim → VpcIpClaim → Result (Unit {0}) × VpcIpClaim
put_one new vip = (ok tt, if is_named vip new.namespace new.name then new else vip)

abbrev index_of : String → Result ℕ
index_of text = if text == "0" then ok 0 else if text == "2" then ok 2 else err (failure "atoi")

instance abbrev cluster : Cluster
cluster = record {
  Objects = VpcIpClaim;
  split_meta_namespace_key = λ key. ok ("default", "web");
  list_claims_of = λ ns sts s. (ok (s ∷ []), s);
  get_replicas = λ ns sts s. (ok 1, s);
  get_pod = λ name ns s. (ok toy_pod, s);
  get_claim = get_one;
  update_claim = put_one;
  formatted_now = λ s. "2024-01-01 00:00:00";
  retry_on_conflict = λ m. m;
  atoi = index_of;
  new_client = λ s. (ok tt, s);
  vpc_client = λ s. (ok tt, s);
  delete_secondary_ip = λ vip s. (ok tt, s);
}

pub get_one_named :
    (ns name : String) (s vip : VpcIpClaim)
    → (get_one ns name s).0 ≡ ok vip
    → (vip.namespace ≡ ns) × (vip.name ≡ name)
get_one_named ns name s vip h = elim (Bool-cases (is_named s ns name)) [
  | inr e ↦ absurd (ground arith)
  | inl e ↦
      let same : s ≡ vip = ground arith in
      ground (
        arith,
        eq_iff s.namespace ns,
        eq_iff s.name name,
        ap (λ v. v.namespace) same,
        ap (λ v. v.name) same,
      )
]

pub put_one_other :
    (new : VpcIpClaim) (a b : String) (s : VpcIpClaim)
    → is_named new a b ≡ false
    → claim_of (put_one new s).1 a b ≡ claim_of s a b
put_one_other new a b s apart = elim (Bool-cases (is_named s new.namespace new.name)) [
  | inr e ↦ rw e refl
  | inl e ↦
      let same_ns : s.namespace ≡ new.namespace =
        ground (arith, eq_iff s.namespace new.namespace) in
      let same_name : s.name ≡ new.name = ground (arith, eq_iff s.name new.name) in
      rw (e, apart, same_ns, same_name, apart) refl
]

abbrev cluster_laws : ClusterLaws cluster
cluster_laws = record {
  claim = claim_of;
  list_keeps = λ ns sts a b s. refl;
  replicas_keep = λ ns sts a b s. refl;
  pod_keeps = λ name ns a b s. refl;
  get_keeps = λ ns name a b s. refl;
  get_named = get_one_named;
  update_other = put_one_other;
  retry_keeps = λ P m keeps s h. keeps s h;
}

-- The claim of the first pod of a statefulset with one replica.
abbrev first_claim : VpcIpClaim
first_claim = record {
  name = "web-0";
  namespace = "default";
  labels = [];
  finalizers = [];
  ip = "10.0.0.9";
  mask = "255.255.0.0";
  gateway = "10.0.0.1";
  subnet_id = "subnet-1";
  vpc_id = "uvnet-1";
  attached = true;
  zone = "zone-1";
  last_detach_time = "";
  mac = "52:54:00:00:00:01";
  release_time = "Never";
  sandbox_id = "";
}

on_sts_update-claim_example :
    claim_of (on_sts_update "default/web" first_claim).1 "default" "web-0"
    ≡ claim_of first_claim "default" "web-0"
unfolding last_segment has_dash
on_sts_update-claim_example =
    on_sts_update-claim cluster_laws "default/web" "default" "web" "default" "web-0"
      (first_claim ∷ []) 1 first_claim refl refl refl (inr (inr (0, refl, omega arith)), tt)

abbrev marked : String → String → VpcIpClaim → VpcIpClaim
marked ns name s = record s { namespace = ns; name = name; finalizers = "deleted" ∷ [] }

-- An API server that marks what is deleted; durations are all thirty seconds.
instance abbrev collector : Collector
collector = record {
  get_crd = λ s. (ok tt, s);
  get_kube_client = λ s. (ok tt, s);
  list_detached = λ s. (s ∷ [], s);
  delete_claim = λ ns name s. put_one (marked ns name s) s;
  now = λ s. 40;
  parse_duration = λ text. ok (record { negative = false; seconds = 30 });
  parse_time = λ text. 0;
}

abbrev collector_laws : CollectorLaws cluster_laws collector
collector_laws = record {
  crd_keeps = λ a b s. refl;
  client_keeps = λ a b s. refl;
  list_keeps = λ a b s. refl;
  delete_other = λ ns name a b s apart. put_one_other (marked ns name s) a b s apart;
}

-- The claim was detached at 0 and is due after 30, and the clock stands at 40.
abbrev due_claim : VpcIpClaim
due_claim = record first_claim { attached = false; release_time = "30s" }

vip_check_and_clean-claim_example :
    (claim_of (vip_check_and_clean due_claim).1 "default" "web-0"
      ≡ claim_of due_claim "default" "web-0")
    ⊎ Collected cluster_laws collector_laws "default" "web-0" (due_claim ∷ []) due_claim
vip_check_and_clean-claim_example =
    vip_check_and_clean-claim cluster_laws collector_laws "default" "web-0" due_claim

-- What the collection leaves of it.
collected_claim : (vip_check_and_clean due_claim).1 ≡ marked "default" "web-0" due_claim
unfolding vip_check_and_clean check_and_clean_each check_and_clean_one delete_due is_over
    ensure_static_ip_pod_not_running pod_not_running
collected_claim = refl
