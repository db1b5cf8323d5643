-- ===== src/Ipamd/Server.antt =====
-- pkg/ipamd/rpc.go and the loop `ipPoolWatermarkManager` of pool.go. The loop takes one event at a
-- time; `AddPodNetwork` and `DelPodNetwork` wait for their turn in it.
pub mod Deletion
pub mod Records
pub mod Migration
pub mod Old
pub mod Keys
use uk8s_cni_vpc.Prelude.{
  ℕ, zero, suc, String, Bool, true, false, not, ◌&&◌, Option, none, some, List, [], ◌∷◌, ◌==◌,
  if◌then◌else◌,
}
use uk8s_cni_vpc.Result.{Result, ok, err, Error, failure, is_ok, is_eof, not_found}
use uk8s_cni_vpc.Step.{Step, pure, raise, lift, try, or_else, ◌>>=◌, ◌>>◌}
use uk8s_cni_vpc.Database
use uk8s_cni_vpc.Database.{KeyValue, pod_key, values}
use uk8s_cni_vpc.Ipamd.Types.{PodNetwork, AddPodNetworkRequest, BorrowIpRequest, Pod}
use uk8s_cni_vpc.Ipamd.World.{Env, Config, State, Io, on_file, on_cluster}
use uk8s_cni_vpc.Ipamd.Pool.{
  cooldown_ip, recycle_cooldown_ip, watermark_tick, lend_ip, get_pool, pool_name, pool_pop,
  backup_release_secondary_ip, open_pool,
}
use uk8s_cni_vpc.Ipamd.Claims.{set_key}
use uk8s_cni_vpc.Ipamd.Assign.{get_pod_ip}
use uk8s_cni_vpc.Ipamd.Status.{update_all, recycle_status}
use uk8s_cni_vpc.Ipamd.Reconcile.{network_db_name, network_put, network_delete}

-- `CNIErrorCode`, the codes that the daemon answers with.
pub data Code : Type 0 where
  success missing_parameters allocate_secondary_ip_failure release_secondary_ip_failure : Code
  k8s_api_error write_db_error read_db_error borrow_ip_failure : Code

-- An answer: its code, its payload, and whether a gRPC error goes with it.
pub record Response (A : Type 0) : Type 0 where
  pub code : Code
  pub payload : Option A
  pub failed : Bool

abbrev pub success_with : {A : Type 0} → A → Response A
success_with a = record { code = success; payload = some a; failed = false }

abbrev pub success_empty : {A : Type 0} → Response A
success_empty = record { code = success; payload = none; failed = false }

abbrev pub fails_with : {A : Type 0} → Code → Response A
fails_with code = record { code = code; payload = none; failed = true }

abbrev pub annotation_calico_policy_pod_ip : String
annotation_calico_policy_pod_ip = "cni.projectcalico.org/podIP"

-- An event of the loop; `stop` ends it.
pub data Event : Type 0 where
  tick cooldown_tick recycle_tick stop : Event
  add : AddPodNetworkRequest → Event
  del : PodNetwork → Event

module _ ⦃env : Env⦄ ⦃config : Config⦄ where
  pub static_ip_pod_exists : PodNetwork → Io Bool
  static_ip_pod_exists pn s =
      let (r, s') = on_cluster (env.get_claim pn.pod_ns pn.pod_name) s in (ok (is_ok r), s')

  -- The defaults that the loop fills in before it looks for an address.
  pub with_defaults : AddPodNetworkRequest → AddPodNetworkRequest
  with_defaults req = record req {
    subnet_id = (if req.subnet_id == "" then config.subnet_id else req.subnet_id);
    mac_address = (if req.mac_address == "" then config.master_mac_address else req.mac_address);
  }

  pub handle_add : AddPodNetworkRequest → Io PodNetwork
  handle_add req = get_pod_ip (with_defaults req)

  -- `true` if the rest of the round is skipped: a static address is left alone.
  pub handle_del : PodNetwork → Io Bool
  handle_del pn = do
    static ← static_ip_pod_exists pn
    (if static then pure true else (cooldown_ip pn >>= λ _. pure false))

  pub refresh : State env → State env
  refresh s = (update_all (env.map_order s.pools) s).1

  -- One round of the loop.
  pub round : Event → State env → State env
  round tick s = refresh (watermark_tick (env.map_order s.pools) s).1
  round (add req) s = refresh (handle_add req s).1
  round (del pn) s =
      let (r, s') = handle_del pn s in
      elim r [ err e ↦ refresh s' | ok true ↦ s' | ok false ↦ refresh s' ]
  round cooldown_tick s = refresh (recycle_cooldown_ip s).1
  round recycle_tick s = refresh (recycle_status s).1
  round stop s = s

  pub run : List Event → State env → State env
  run [] s = s
  run (stop ∷ events) s = s
  run (event ∷ events) s = run events (round event s)

  pub set_annotation_for_calico_policy : Pod → PodNetwork → Io (Unit {0})
  set_annotation_for_calico_policy pod pn =
      if config.calico_policy
      then (on_cluster (
          env.retry_on_conflict (
            env.patch_annotations pod
              (set_key annotation_calico_policy_pod_ip pn.vpc_ip pod.annotations))))
      else pure tt

  pub annotated :
      AddPodNetworkRequest → Pod → PodNetwork → Result (Unit {0}) → Io (Response PodNetwork)
  annotated req pod pn (err e) =
      backup_release_secondary_ip pn >>= λ _. pure (fails_with allocate_secondary_ip_failure)
  annotated req pod pn (ok u) = pure (
      success_with (record pn {
        pod_name = req.pod_name;
        pod_ns = req.pod_namespace;
        sandbox_id = req.sandbox_id;
        pod_uid = pod.uid;
        net_ns = req.netns;
      }))

  pub answered : AddPodNetworkRequest → Pod → Result PodNetwork → Io (Response PodNetwork)
  answered req pod (err e) = pure (fails_with allocate_secondary_ip_failure)
  answered req pod (ok pn) = try (set_annotation_for_calico_policy pod pn) >>= annotated req pod pn

  pub add_pod_network : AddPodNetworkRequest → Io (Response PodNetwork)
  add_pod_network req s =
      let (found, s1) = on_cluster (env.get_pod req.pod_name req.pod_namespace) s in
      elim found [
        | err e ↦ (ok (fails_with k8s_api_error), s1)
        | ok pod ↦ (try (handle_add req) >>= answered req pod) s1
      ]

  -- The loop answers every deletion with success.
  pub del_pod_network : Option PodNetwork → Io (Response (Unit {0}))
  del_pod_network none s = (ok success_empty, s)
  del_pod_network (some pn) s = (ok success_empty, (handle_del pn s).1)

  unfoldable pub add_pod_network_record : PodNetwork → Io (Response (Unit {0}))
  add_pod_network_record pn s =
      let (r, s') = network_put (pod_key pn.pod_name pn.pod_ns pn.sandbox_id) pn s in
      elim r [ ok u ↦ (ok success_empty, s') | err e ↦ (ok (fails_with write_db_error), s') ]

  pub del_pod_network_record : String → String → String → Io (Response (Unit {0}))
  del_pod_network_record pod_name pod_ns sandbox_id s =
      let (r, s') = network_delete (pod_key pod_name pod_ns sandbox_id) s in
      elim r [ ok u ↦ (ok success_empty, s') | err e ↦ (ok (fails_with write_db_error), s') ]

  pub found_record : Result PodNetwork → Response PodNetwork
  found_record (ok pn) = success_with pn
  found_record (err not_found) = success_empty
  found_record (err e) = fails_with read_db_error

  pub get_pod_network_record : String → String → String → Io (Response PodNetwork)
  get_pod_network_record pod_name pod_ns sandbox_id s =
      let (r, s') =
        on_file
          (Database.get env.bolt env.networks network_db_name (pod_key pod_name pod_ns sandbox_id))
          s in
      (ok (found_record r), s')

  pub list_pod_network_record : Io (Response (List PodNetwork))
  list_pod_network_record s =
      let (r, s') = on_file (Database.list env.bolt env.networks network_db_name) s in
      elim r [
        | ok kvs ↦ (ok (success_with (values kvs)), s')
        | err e ↦ (ok (fails_with read_db_error), s')
      ]

  pub borrow_ip_response : BorrowIpRequest → Io (Response PodNetwork)
  borrow_ip_response req s =
      if req.mac_address == ""
      then (ok (fails_with missing_parameters), s)
      else if req.subnet_id == ""
      then (ok (fails_with missing_parameters), s)
      else (let (r, s') = lend_ip req s in
          elim r [
            | ok pn ↦ (ok (success_with pn), s')
            | err e ↦ (ok (fails_with borrow_ip_failure), s')
          ])

  -- `migrateV1BoltDB`: the old pool is emptied into the pool of the node's own subnet. `fuel` bounds
  -- the rounds of the loop.
  unfoldable pub migrate_loop : ℕ → String → Io (Unit {0})
  migrate_loop zero new_pool s = (err (failure "out of fuel"), s)
  migrate_loop (suc fuel) new_pool s =
      let (popped, s1) = pool_pop "cni-vpc-ip-pool" s in
      elim popped [
        | err e ↦ (if is_eof e then ok tt else err e, s1)
        | ok kv ↦
            let pn : PodNetwork = record (kv.value) {
              subnet_id = config.subnet_id;
              mac_address = config.master_mac_address;
            } in
            let (stored, s2) = on_file (Database.put env.bolt env.networks new_pool kv.key pn) s1 in
            elim stored [
              | err e ↦ (err (failure "failed to put migrated pod network"), s2)
              | ok u ↦ migrate_loop fuel new_pool s2
            ]
      ]

  pub migrate_counted : ℕ → Io (Unit {0})
  migrate_counted zero = pure tt
  migrate_counted (suc n) = do
    new_pool ← or_else (get_pool "" true) "failed to get new pool database"
    migrate_loop (suc (suc n)) new_pool

  pub migrate_v1_bolt_db : Io (Unit {0})
  migrate_v1_bolt_db = do
    old_pool ←
        or_else (on_file (Database.new_bolt env.bolt "cni-vpc-ip-pool"))
          "failed to open old pool database"
    counted ← on_file (Database.count env.bolt old_pool)
    migrate_counted counted
