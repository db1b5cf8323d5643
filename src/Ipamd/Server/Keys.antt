-- ===== src/Ipamd/Server/Keys.antt =====
-- pkg/ipamd: whatever the daemon's goroutines do, in whatever order, every address stands under its
-- own key. One step of `Move` is a start, one round of the loop, one call of a handler, or one
-- reconciliation; a run of the daemon is a sequence of steps.
use uk8s_cni_vpc.Prelude.{String, refl, inl, inr, true, false, Bool-cases, Option, none, some, ◌==◌}
use uk8s_cni_vpc.Result.{Result, ok, err, Result-cases}
use uk8s_cni_vpc.Database.{pod_key}
use uk8s_cni_vpc.Ipamd.Types.{PodNetwork, AddPodNetworkRequest, BorrowIpRequest, Pod}
use uk8s_cni_vpc.Ipamd.World.{Env, EnvLaws, Config, State, Io, on_cluster}
use uk8s_cni_vpc.Ipamd.Keyed.{
  Keyed, Keeps, record_key, bind-Keeps, same-Keeps, try-Keeps, pure-Keeps, if-Keeps,
  network_put-Keeps,
}
use uk8s_cni_vpc.Ipamd.Pool.{watermark_tick, recycle_cooldown_ip, lend_ip}
use uk8s_cni_vpc.Ipamd.Pool.Keys.{
  cooldown_ip-Keeps, recycle_cooldown_ip-Keeps, lend_ip-Keeps, watermark_tick-Keeps,
  backup_release-Keeps,
}
use uk8s_cni_vpc.Ipamd.Claims.Keys.{RetryLaw}
use uk8s_cni_vpc.Ipamd.Assign.Keys.{get_pod_ip-Keeps}
use uk8s_cni_vpc.Ipamd.Status.{recycle_status}
use uk8s_cni_vpc.Ipamd.Status.Keys.{update_all-Keeps, recycle_status-Keeps}
use uk8s_cni_vpc.Ipamd.Reconcile.{do_reconcile, network_put, network_delete}
use uk8s_cni_vpc.Ipamd.Reconcile.Keys.{do_reconcile-Keeps, network_delete-Keeps}
use uk8s_cni_vpc.Ipamd.Boot.{BootLib, init_server}
use uk8s_cni_vpc.Ipamd.Boot.Opened.{init_server-Keeps}
use uk8s_cni_vpc.Ipamd.Server.{
  Event, tick, cooldown_tick, recycle_tick, stop, add, del, static_ip_pod_exists, with_defaults,
  handle_add, handle_del, refresh, round, set_annotation_for_calico_policy, annotated, answered,
  add_pod_network, del_pod_network, add_pod_network_record, del_pod_network_record,
  borrow_ip_response, migrate_v1_bolt_db,
}
use uk8s_cni_vpc.Ipamd.Server.Old.{migrate_v1_bolt_db-Keeps}
use uk8s_cni_vpc.Step.{◌>>=◌}

-- `Start`, as far as it concerns the file: `initServer` and then `migrateV1BoltDB`, whose failure ends
-- the process.
abbrev pub start : ⦃env : Env⦄ → ⦃config : Config⦄ → BootLib → Io (Unit {0})
start lib = init_server ⦃boot = lib⦄ >>= λ booted. migrate_v1_bolt_db

-- What the daemon does: a start on the file, a round of its loop, the answer to a call, a
-- reconciliation.
pub data Move ⦃env : Env⦄ ⦃config : Config⦄ (s : State env) : State env → Type 0 where
  boot : (lib : BootLib) → Move s (start lib s).1
  loop : (e : Event) → Move s (round e s)
  add_network : (req : AddPodNetworkRequest) → Move s (add_pod_network req s).1
  del_network : (pn : Option PodNetwork) → Move s (del_pod_network pn s).1
  add_record : (pn : PodNetwork) → Move s (add_pod_network_record pn s).1
  del_record : (name ns sandbox : String) → Move s (del_pod_network_record name ns sandbox s).1
  borrow : (req : BorrowIpRequest) → Move s (borrow_ip_response req s).1
  reconcile : Move s (do_reconcile s).1

pub data Reach ⦃env : Env⦄ ⦃config : Config⦄ (s : State env) : State env → Type 0 where
  here : Reach s s
  next : {t u : State env} → Reach s t → Move t u → Reach s u

module _ ⦃env : Env⦄ ⦃config : Config⦄ (laws : EnvLaws env) where
  handle_del-Keeps : (pn : PodNetwork) → Keeps laws (handle_del pn)
  unfolding handle_del static_ip_pod_exists
  handle_del-Keeps pn =
      bind-Keeps laws (static_ip_pod_exists pn) _ (same-Keeps laws _ (λ s. refl)) λ static.
        if-Keeps laws static _ _ (pure-Keeps laws true)
          (bind-Keeps laws _ _ (cooldown_ip-Keeps laws pn) (λ _. pure-Keeps laws false))

  refresh-Keyed : (s : State env) → Keyed laws s.file → Keyed laws (refresh s).file
  unfolding refresh
  refresh-Keyed s = (update_all-Keeps laws (env.map_order s.pools)).run s

  annotation-Keeps :
      (pod : Pod) (pn : PodNetwork) → Keeps laws (set_annotation_for_calico_policy pod pn)
  unfolding set_annotation_for_calico_policy
  annotation-Keeps pod pn =
      if-Keeps laws config.calico_policy _ _ (same-Keeps laws _ (λ s. refl)) (pure-Keeps laws _)

  annotated-Keeps :
      (req : AddPodNetworkRequest) (pod : Pod) (pn : PodNetwork) (r : Result (Unit {0}))
      → Keeps laws (annotated req pod pn r)
  unfolding annotated
  annotated-Keeps req pod pn (err e) =
      bind-Keeps laws _ _ (backup_release-Keeps laws pn) (λ _. pure-Keeps laws _)
  annotated-Keeps req pod pn (ok u) = pure-Keeps laws _

  answered-Keeps :
      (req : AddPodNetworkRequest) (pod : Pod) (r : Result PodNetwork)
      → Keeps laws (answered req pod r)
  unfolding answered
  answered-Keeps req pod (err e) = pure-Keeps laws _
  answered-Keeps req pod (ok pn) =
      bind-Keeps laws _ _ (try-Keeps laws _ (annotation-Keeps pod pn)) (annotated-Keeps req pod pn)

  record-Keyed :
      (pn : PodNetwork) (s : State env)
      → Keyed laws s.file
      → Keyed laws (add_pod_network_record pn s).1.file
  unfolding add_pod_network_record
  record-Keyed pn s k =
      let after : Keyed laws (network_put (record_key pn) pn s).1.file =
        (network_put-Keeps laws (record_key pn) pn refl).run s k in
      elim (Result-cases (network_put (record_key pn) pn s).0) [
        | inl (u, done) ↦ rw (done, add_pod_network_record) after
        | inr (e, bad) ↦ rw (bad, add_pod_network_record) after
      ]

  borrow-Keyed :
      (req : BorrowIpRequest) (s : State env)
      → Keyed laws s.file
      → Keyed laws (borrow_ip_response req s).1.file
  unfolding borrow_ip_response
  borrow-Keyed req s k =
      let after : Keyed laws (lend_ip req s).1.file = (lend_ip-Keeps laws req).run s k in
      elim (Bool-cases (req.mac_address == "")) [
        | inl missing ↦ rw (missing, borrow_ip_response) k
        | inr there ↦ elim (Bool-cases (req.subnet_id == "")) [
          | inl missing ↦ rw (there, missing, borrow_ip_response) k
          | inr named ↦ elim (Result-cases (lend_ip req s).0) [
            | inl (pn, given) ↦ rw (there, named, given, borrow_ip_response) after
            | inr (e, refused) ↦ rw (there, named, refused, borrow_ip_response) after
          ]
        ]
      ]

  del_network-Keyed :
      (pn : Option PodNetwork) (s : State env)
      → Keyed laws s.file
      → Keyed laws (del_pod_network pn s).1.file
  unfolding del_pod_network
  del_network-Keyed none s k = k
  del_network-Keyed (some pn) s k = (handle_del-Keeps pn).run s k

  del_record-Keyed :
      (name ns sandbox : String) (s : State env)
      → Keyed laws s.file
      → Keyed laws (del_pod_network_record name ns sandbox s).1.file
  unfolding del_pod_network_record
  del_record-Keyed name ns sandbox s k =
      let key : String = pod_key name ns sandbox in
      let after : Keyed laws (network_delete key s).1.file =
        (network_delete-Keeps laws key).run s k in
      elim (Result-cases (network_delete key s).0) [
        | inl (u, done) ↦ rw (done, del_pod_network_record) after
        | inr (e, bad) ↦ rw (bad, del_pod_network_record) after
      ]

module _ ⦃env : Env⦄ ⦃config : Config⦄ (laws : EnvLaws env) (retry : RetryLaw env) where
  round-Keyed : (e : Event) (s : State env) → Keyed laws s.file → Keyed laws (round e s).file
  unfolding round handle_add
  round-Keyed tick s k =
      refresh-Keyed laws (watermark_tick (env.map_order s.pools) s).1
        ((watermark_tick-Keeps laws (env.map_order s.pools)).run s k)
  round-Keyed (add req) s k =
      refresh-Keyed laws (handle_add req s).1
        ((get_pod_ip-Keeps laws retry (with_defaults req)).run s k)
  round-Keyed (del pn) s k =
      let after : Keyed laws (handle_del pn s).1.file = (handle_del-Keeps laws pn).run s k in
      elim (Result-cases (handle_del pn s).0) [
        | inr (e, bad) ↦ rw (bad, round) (refresh-Keyed laws (handle_del pn s).1 after)
        | inl (true, static) ↦ rw (static, round) after
        | inl (false, cooled) ↦ rw (cooled, round) (refresh-Keyed laws (handle_del pn s).1 after)
      ]
  round-Keyed cooldown_tick s k =
      refresh-Keyed laws (recycle_cooldown_ip s).1 ((recycle_cooldown_ip-Keeps laws).run s k)
  round-Keyed recycle_tick s k =
      refresh-Keyed laws (recycle_status s).1 ((recycle_status-Keeps laws).run s k)
  round-Keyed stop s k = k

  handle_add-Keeps : (req : AddPodNetworkRequest) → Keeps laws (handle_add req)
  unfolding handle_add
  handle_add-Keeps req = get_pod_ip-Keeps laws retry (with_defaults req)

  add_pod_network-Keyed :
      (req : AddPodNetworkRequest) (s : State env)
      → Keyed laws s.file
      → Keyed laws (add_pod_network req s).1.file
  unfolding add_pod_network
  add_pod_network-Keyed req s k =
      elim (Result-cases (env.get_pod req.pod_name req.pod_namespace s.cluster).0) [
        | inr (e, bad) ↦ rw (bad, add_pod_network) k
        | inl (pod, found) ↦
            rw (found, add_pod_network)
              ((bind-Keeps laws _ _ (try-Keeps laws _ (handle_add-Keeps req))
                  (answered-Keeps laws req pod)).run
                (on_cluster (env.get_pod req.pod_name req.pod_namespace) s).1 k)
      ]

  Move-Keyed : {s t : State env} → Move s t → Keyed laws s.file → Keyed laws t.file
  Move-Keyed {s} (boot lib) k =
      (bind-Keeps laws (init_server ⦃boot = lib⦄) (λ booted. migrate_v1_bolt_db)
          (init_server-Keeps laws ⦃boot = lib⦄) (λ booted. migrate_v1_bolt_db-Keeps laws)).run
        s k
  Move-Keyed {s} (loop e) k = round-Keyed e s k
  Move-Keyed {s} (add_network req) k = add_pod_network-Keyed req s k
  Move-Keyed {s} (del_network pn) k = del_network-Keyed laws pn s k
  Move-Keyed {s} (add_record pn) k = record-Keyed laws pn s k
  Move-Keyed {s} (del_record name ns sandbox) k = del_record-Keyed laws name ns sandbox s k
  Move-Keyed {s} (borrow req) k = borrow-Keyed laws req s k
  Move-Keyed {s} reconcile k = (do_reconcile-Keeps laws).run s k

  -- Whatever the daemon's goroutines do, in whatever order, with whatever failures and however often
  -- the daemon is started again, its migration of an old file included, from a file that is `Keyed`:
  -- every address in a pool is under its own key and in the pool of its own subnet, every address that
  -- cools down or is left in the old pool is under its own key, and so is the record of every pod. An
  -- empty file is `Keyed`, and so is an old one whose addresses are under their own keys. A conflict
  -- in the cluster is retried by running the update again.
  pub Reach-Keyed : {s t : State env} → Keyed laws s.file → Reach s t → Keyed laws t.file
  Reach-Keyed k here = k
  Reach-Keyed k (next r m) = Move-Keyed m (Reach-Keyed k r)
