-- ===== src/Ipamd/Reconcile.antt =====
-- pkg/ipamd/resource.go: the records of pods that are gone, and the number of UNIs of a node.
pub mod Orphans
pub mod Survivors
pub mod Keys
use uk8s_cni_vpc.Prelude.{
  ℕ, zero, suc, String, Bool, true, false, not, ◌&&◌, ◌||◌, Option, none, some, List, [], ◌∷◌, ◌++◌,
  ◌==◌, ltb, if◌then◌else◌,
}
use uk8s_cni_vpc.Result.{Result, ok, err, Error, failure}
use uk8s_cni_vpc.Step.{Step, pure, raise, lift, try, or_else, ◌>>=◌, ◌>>◌}
use uk8s_cni_vpc.Database
use uk8s_cni_vpc.Database.{KeyValue}
use uk8s_cni_vpc.Ipamd.Types.{PodNetwork, Pod}
use uk8s_cni_vpc.Ipamd.World.{Env, Config, State, Io, on_file, on_cluster}

abbrev pub network_db_name : String
network_db_name = "cni-vpc-network"

-- The thresholds of `GetNodeUNILimits`; `none` is a metadata server that does not answer.
pub node_uni_limits : Option ℕ → ℕ
node_uni_limits none = 1
node_uni_limits (some cpu_no) =
    if ltb 64 cpu_no
    then 15
    else if ltb 32 cpu_no
    then 12
    else if ltb 8 cpu_no
    then 8
    else if ltb 4 cpu_no
    then 4
    else if ltb 2 cpu_no
    then 3
    else 2

-- What the inner loop over the pods finds for one record.
pub data Finding : Type 0 where
  alive orphan unseen : Finding
  complete : String → Finding

unfoldable pub judge_pod : PodNetwork → Pod → Finding → Finding
judge_pod pn p next =
    if p.name == pn.pod_name && p.namespace == pn.pod_ns
    then (if p.uid == pn.pod_uid then alive else if pn.pod_uid == "" then complete p.uid else next)
    else next

-- The last pod decides that the record is an orphan; with no pod there is no last one.
unfoldable pub scan_pods : PodNetwork → List Pod → Finding
scan_pods pn [] = unseen
scan_pods pn (p ∷ []) = judge_pod pn p orphan
scan_pods pn (p ∷ q ∷ ps) = judge_pod pn p (scan_pods pn (q ∷ ps))

module _ ⦃env : Env⦄ ⦃config : Config⦄ where
  abbrev pub network_delete : String → Io (Unit {0})
  network_delete key = on_file (Database.delete env.bolt network_db_name key)

  abbrev pub network_put : String → PodNetwork → Io (Unit {0})
  network_put key pn = on_file (Database.put env.bolt env.networks network_db_name key pn)

  -- The first loop: records without a UID get the pod's, and orphans are collected.
  pub collect_orphans : List Pod → List (KeyValue PodNetwork) → Io (List (KeyValue PodNetwork))
  collect_orphans pods [] s = (ok [], s)
  collect_orphans pods (kv ∷ kvs) s = elim (scan_pods kv.value pods) [
    | alive ↦ collect_orphans pods kvs s
    | unseen ↦ collect_orphans pods kvs s
    | complete uid ↦
        collect_orphans pods kvs (network_put kv.key (record (kv.value) { pod_uid = uid }) s).1
    | orphan ↦
        let (rest, s') = collect_orphans pods kvs s in
        elim rest [ err e ↦ (err e, s') | ok found ↦ (ok (kv ∷ found), s') ]
  ]

  pub delete_orphans : List (KeyValue PodNetwork) → Io (Unit {0})
  delete_orphans [] s = (ok tt, s)
  delete_orphans (kv ∷ kvs) s = delete_orphans kvs (network_delete kv.key s).1

  pub do_reconcile : Io (Unit {0})
  do_reconcile = do
    pods ← on_cluster env.list_pods
    kvs ← on_file (Database.list env.bolt env.networks network_db_name)
    orphans ← collect_orphans pods kvs
    delete_orphans orphans
