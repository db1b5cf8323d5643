-- ===== src/Ipamd/Boot/Opened.antt =====
-- pkg/ipamd/svc.go, `initServer`: a start keeps what stands in the file.
use uk8s_cni_vpc.Prelude.{String, refl, ◌==◌}
use uk8s_cni_vpc.Result.{Result, ok, err, failure}
use uk8s_cni_vpc.Database
use uk8s_cni_vpc.Database.Writes.{new_bolt-NoMore}
use uk8s_cni_vpc.Ipamd.World.{Env, EnvLaws, Config, on_file}
use uk8s_cni_vpc.Ipamd.Pool.{cooldown_db_name}
use uk8s_cni_vpc.Ipamd.Reconcile.{network_db_name}
use uk8s_cni_vpc.Ipamd.Keyed.{
  Keeps, bind-Keeps, same-Keeps, less-Keeps, try-Keeps, or_else-Keeps, pure-Keeps, cluster-Keeps,
  cloud-Keeps, host-Keeps, lift-Keeps, raise-Keeps, if-Keeps,
}
use uk8s_cni_vpc.Ipamd.Boot.{
  BootLib, get_kube_node_label, uapi_list_uk8s_cluster, zone_or, forget_pools, init_server,
  kube_node_label_uhost_id, kube_node_zone_key, kube_node_zone_topology_key, label_of,
  first_cluster, booted,
}

module _ ⦃env : Env⦄ ⦃config : Config⦄ (laws : EnvLaws env) ⦃boot : BootLib⦄ where
  label-Keeps : (node key : String) → Keeps laws (get_kube_node_label node key)
  unfolding get_kube_node_label
  label-Keeps node key =
      bind-Keeps laws _ _ (cluster-Keeps laws (boot.node_labels node))
        λ labels. lift-Keeps laws (label_of key labels)

  zone_or-Keeps : (node : String) (r : Result String) → Keeps laws (zone_or node r)
  unfolding zone_or
  zone_or-Keeps node (ok zone) = pure-Keeps laws zone
  zone_or-Keeps node (err e) = or_else-Keeps laws _ _ (label-Keeps node kube_node_zone_topology_key)

  list-Keeps : Keeps laws uapi_list_uk8s_cluster
  unfolding uapi_list_uk8s_cluster
  list-Keeps =
      let id = boot.getenv "UCLOUD_UK8S_CLUSTER_ID" in
      bind-Keeps laws _ _ (cloud-Keeps laws boot.uk8s_client) λ u.
        if-Keeps laws (id == "") _ _
          (raise-Keeps laws (failure "cannot get cluster id by environment var UCLOUD_REGION_ID"))
          (bind-Keeps laws _ _ (cloud-Keeps laws (boot.service_cidrs id))
            λ cidrs. lift-Keeps laws (first_cluster cidrs))

  opened-Keeps : (name : String) → Keeps laws (on_file (Database.new_bolt env.bolt name))
  opened-Keeps name = less-Keeps laws _ (λ s. new_bolt-NoMore env.bolt laws.bolt name s.file)

  -- A start of the daemon, whatever fails in it, keeps every address under its own key.
  pub init_server-Keeps : Keeps laws init_server
  unfolding init_server forget_pools
  init_server-Keeps =
      let node = boot.getenv "KUBE_NODE_NAME" in
      bind-Keeps laws _ _
        (or_else-Keeps laws _ "fatal: Cannot get k8s apiserver version"
          (cluster-Keeps laws boot.server_version))
        λ version.
          bind-Keeps laws _ _
            (or_else-Keeps laws _ "fatal: Cannot get host id for node"
              (label-Keeps node kube_node_label_uhost_id))
            λ host.
              bind-Keeps laws _ _ (try-Keeps laws _ (label-Keeps node kube_node_zone_key))
                λ by_zone. bind-Keeps laws _ _ (zone_or-Keeps node by_zone) λ zone.
                  bind-Keeps laws _ _
                    (or_else-Keeps laws _ "fatal: Cannot get node IP address"
                      (host-Keeps laws boot.node_ip))
                    λ ip.
                      bind-Keeps laws _ _
                        (or_else-Keeps laws _ "fatal: Cannot get node MAC address"
                          (host-Keeps laws boot.node_mac))
                        λ mac.
                          bind-Keeps laws _ _
                            (or_else-Keeps laws _ "fatal: Create boltdb file handler"
                              (host-Keeps laws boot.open_storage))
                            λ u.
                              bind-Keeps laws _ _
                                (or_else-Keeps laws _ "fatal: Init network database"
                                  (opened-Keeps network_db_name))
                                λ network_db.
                                  bind-Keeps laws _ _ (same-Keeps laws forget_pools (λ s. refl))
                                    λ v.
                                      bind-Keeps laws _ _
                                        (or_else-Keeps laws _ "fatal: Init cooldown database"
                                          (opened-Keeps cooldown_db_name))
                                        λ cooldown_db.
                                          bind-Keeps laws _ _ (try-Keeps laws _ list-Keeps) λ cidr.
                                            pure-Keeps laws (
                                              booted version host zone ip mac network_db cooldown_db
                                                cidr)
