-- ===== src/Examples/ServerRuns.antt =====
-- The handlers of the daemon at concrete states.
use uk8s_cni_vpc.Prelude.{
  ℕ, String, List, none, some, ◌≡◌, ◌≢◌, ◌↔◌, ◌⊎◌, refl, true, [], ◌∷◌, All, arith,
}
use uk8s_cni_vpc.Result.{ok}
use uk8s_cni_vpc.Database
use uk8s_cni_vpc.Ipamd.Types.{PodNetwork, AddPodNetworkRequest, Ipamd, Level, dry, normal}
use uk8s_cni_vpc.Ipamd.World.{State, Env, Config}
use uk8s_cni_vpc.Ipamd.Uapi.{check_secondary_ip_exist}
use uk8s_cni_vpc.Ipamd.Pool.{pool_name, get_pool, open_pool}
use uk8s_cni_vpc.Ipamd.Pool.Sizes.{pool_size}
use uk8s_cni_vpc.Ipamd.Assign.{
  get_pod_ip, pod_enable_static_ip, is_pod_enable_static_ip, assign_for, assign_pod_ip,
  popped_or_new, checked, check_fresh, check_ip_conflict,
}
use uk8s_cni_vpc.Ipamd.Assign.Verified.{Verified, get_pod_ip-Verified}
use uk8s_cni_vpc.Ipamd.Reconcile.{orphan, scan_pods, judge_pod, do_reconcile}
use uk8s_cni_vpc.Ipamd.Reconcile.Orphans.{Owns, scan_pods-Owns}
use uk8s_cni_vpc.Ipamd.Reconcile.Survivors.{Kept, do_reconcile-Kept}
use uk8s_cni_vpc.Ipamd.Server.{
  add_pod_network_record, get_pod_network_record, success_with, fails_with, read_db_error,
  migrate_loop,
}
use uk8s_cni_vpc.Ipamd.Server.Records.{get_pod_network_record-add}
use uk8s_cni_vpc.Ipamd.Server.Migration.{Migrates, migrate_loop-enough, migrate_loop-drains}
use uk8s_cni_vpc.Examples.Toy.{toy, toy_laws, toy_config, toy_pod, toy_address, network}

instance abbrev config : Config
config = toy_config

instance abbrev env : Env
env = toy

-- The record of `web-0`, and that of an earlier pod of the same name.
abbrev of_web : PodNetwork
of_web = record toy_address { pod_name = "web-0"; pod_ns = "default"; pod_uid = "uid-1" }

abbrev of_old : PodNetwork
of_old = record of_web { pod_uid = "uid-0" }

abbrev request : AddPodNetworkRequest
request = record {
  pod_name = "web-0";
  pod_namespace = "default";
  sandbox_id = "sandbox-1";
  netns = "";
  if_name = "eth0";
  subnet_id = "subnet-1";
  interface_id = "";
  mac_address = "52:54:00:00:00:01";
}

-- Nothing is stored; one address is in the pool of `subnet-1`; one record; one address of the old pool.
abbrev start : State toy
start = record { file = none; pools = []; cloud = true; cluster = []; host = 5 }

abbrev pooled : State toy
pooled = record start {
  file = some ("cni-vpc-ip-pool-subnet-1", "uvnet-1-10.0.0.9", network toy_address);
}

abbrev recorded : State toy
recorded = record start { file = some ("cni-vpc-network", "web-0-default-", network of_web) }

-- The resources of two other nodes, the second of them dry.
abbrev resource : String → ℕ → Level → Ipamd
resource node count level = record {
  name = node;
  node = node;
  addr = "10.0.0.3:7312";
  subnet = "subnet-1";
  status = record { current = count; high = 50; low = 3; status = level };
}

abbrev resources : List Ipamd
resources = resource "node-2" 7 normal ∷ resource "node-3" 0 dry ∷ []

scan_pods-Owns_example :
    (scan_pods of_old (toy_pod ∷ []) ≡ orphan)
    ↔ (All (λ p. ¬ Owns of_old p) (toy_pod ∷ []) × ((toy_pod ∷ []) ≢ []))
scan_pods-Owns_example = scan_pods-Owns of_old (toy_pod ∷ [])

get_pod_ip-Verified_example : Verified toy_address (get_pod_ip request pooled).1
unfolding get_pod_ip pod_enable_static_ip is_pod_enable_static_ip assign_for assign_pod_ip
    popped_or_new checked check_fresh check_ip_conflict check_secondary_ip_exist get_pool open_pool
    pool_name Database.pop Database.new_bolt
get_pod_ip-Verified_example = get_pod_ip-Verified request toy_address pooled refl

do_reconcile-Kept_example : Kept toy_laws "web-0-default-" of_web (do_reconcile recorded).1
unfolding scan_pods judge_pod
do_reconcile-Kept_example =
    do_reconcile-Kept toy_laws (toy_pod ∷ []) "web-0-default-" of_web recorded refl (λ e. cc)
      (record { bytes = network of_web; stored = refl; decodes = refl })

get_pod_network_record-add_example :
    ((get_pod_network_record "web-0" "default" "" (add_pod_network_record of_web start).1).0
      ≡ ok (success_with of_web))
    ⊎ ((get_pod_network_record "web-0" "default" "" (add_pod_network_record of_web start).1).0
        ≡ ok (fails_with read_db_error))
unfolding add_pod_network_record Database.put Database.pod_key
get_pod_network_record-add_example = get_pod_network_record-add toy_laws of_web start refl

migrate_loop-enough_example :
    Migrates "cni-vpc-ip-pool-subnet-1" pooled (migrate_loop 1 "cni-vpc-ip-pool-subnet-1" pooled)
migrate_loop-enough_example =
    migrate_loop-enough toy_laws 1 "cni-vpc-ip-pool-subnet-1" pooled refl (omega arith)

migrate_loop-drains_example :
    pool_size toy_laws (migrate_loop 1 "cni-vpc-ip-pool-subnet-1" pooled).1 "cni-vpc-ip-pool" ≡ 0
unfolding migrate_loop Database.pop
migrate_loop-drains_example = migrate_loop-drains toy_laws 1 "cni-vpc-ip-pool-subnet-1" pooled refl

abbrev free : ℕ
free = 7
