-- ===== src/Ipamd/Boot.antt =====
-- pkg/ipamd/svc.go, `initServer`: what the daemon finds out before it serves, with `getKubeNodeLabel`
-- of k8s.go and `uapiListUK8SCluster` of uapi.go. `ulog.Fatalf` ends the process, and is an error here.
pub mod Opened
use uk8s_cni_vpc.Prelude.{
  ℕ, String, concat, Bool, true, false, Option, none, some, List, [], ◌∷◌, ◌==◌, if◌then◌else◌,
}
use uk8s_cni_vpc.Result.{Result, ok, err, Error, failure}
use uk8s_cni_vpc.Step.{Step, pure, raise, lift, try, or_else, ◌>>=◌, ◌>>◌}
use uk8s_cni_vpc.Database
use uk8s_cni_vpc.Ipamd.World.{Env, Config, State, Io, on_file, on_cloud, on_cluster, on_host}
use uk8s_cni_vpc.Ipamd.Pool.{cooldown_db_name}
use uk8s_cni_vpc.Ipamd.Reconcile.{network_db_name}

abbrev pub kube_node_label_uhost_id : String
kube_node_label_uhost_id = "UhostID"

abbrev pub kube_node_zone_key : String
kube_node_zone_key = "failure-domain.beta.kubernetes.io/zone"

abbrev pub kube_node_zone_topology_key : String
kube_node_zone_topology_key = "topology.kubernetes.io/zone"

abbrev pub default_listen_tcp_port : String
default_listen_tcp_port = "7312"

-- What `initServer` uses besides: the environment, where a variable that is not set is empty, the
-- version of the API server, the labels of a node, the addresses that pkg/iputils finds, `bolt.Open`,
-- the service CIDRs of the clusters with an identifier, and `net.ParseCIDR`.
pub record BootLib ⦃env : Env⦄ : Type 0 where
  pub getenv : String → String
  pub server_version : Step env.Cluster String
  pub node_labels : String → Step env.Cluster (List (String × String))
  pub node_ip : Step env.Host String
  pub node_mac : Step env.Host String
  pub open_storage : Step env.Host (Unit {0})
  pub uk8s_client : Step env.Cloud (Unit {0})
  pub service_cidrs : String → Step env.Cloud (List String)
  pub parse_cidr : String → Result String

-- The fields of the server that `initServer` sets.
pub record Booted : Type 0 where
  pub k8s_version : String
  pub host_id : String
  pub zone_id : String
  pub node_ip : String
  pub master_mac_address : String
  pub tcp_addr : String
  pub network_db : String
  pub cooldown_db : String
  pub service_cidr : Option String

-- `node.Labels[key]`, for a map with one value for each key.
unfoldable pub label_of : String → List (String × String) → Result String
label_of key [] = err (failure "cannot find label for node")
label_of key ((k, v) ∷ labels) = if k == key then ok v else label_of key labels

unfoldable pub first_cluster : List String → Result String
first_cluster [] = err (failure "UK8S ClusterSet is empty")
first_cluster (cidr ∷ cidrs) = ok cidr

module _ ⦃env : Env⦄ ⦃boot : BootLib⦄ where
  pub get_kube_node_label : String → String → Io String
  get_kube_node_label node key = do
    labels ← on_cluster (boot.node_labels node)
    lift (label_of key labels)

  -- Without the identifier of the cluster nothing is asked.
  pub uapi_list_uk8s_cluster : Io String
  uapi_list_uk8s_cluster = do
    on_cloud boot.uk8s_client
    (if boot.getenv "UCLOUD_UK8S_CLUSTER_ID" == ""
        then raise (failure "cannot get cluster id by environment var UCLOUD_REGION_ID")
        else (on_cloud (boot.service_cidrs (boot.getenv "UCLOUD_UK8S_CLUSTER_ID")) >>= λ cidrs.
            lift (first_cluster cidrs)))

  -- The zone, by the label in use or else by the older one.
  pub zone_or : String → Result String → Io String
  zone_or node (ok zone) = pure zone
  zone_or node (err e) =
      or_else (get_kube_node_label node kube_node_zone_topology_key)
        "fatal: Cannot get zone id for node"

  pub listen_address : String → String
  listen_address ip =
      if boot.getenv "LISTEN_TCP_ADDR" == ""
      then concat ip (concat ":" default_listen_tcp_port)
      else boot.getenv "LISTEN_TCP_ADDR"

  -- A CIDR that cannot be had is logged, and is nil.
  pub cidr_of : Result String → Option String
  cidr_of (err e) = none
  cidr_of (ok text) = elim (boot.parse_cidr text) [ ok cidr ↦ some cidr | err e ↦ none ]

  -- `poolDB` is a new map.
  pub forget_pools : Io (Unit {0})
  forget_pools s = (ok tt, record s { pools = [] })

  pub booted : String → String → String → String → String → String → String → Result String → Booted
  booted version host zone ip mac network_db cooldown_db cidr = record {
    k8s_version = version;
    host_id = host;
    zone_id = zone;
    node_ip = ip;
    master_mac_address = mac;
    tcp_addr = listen_address ip;
    network_db = network_db;
    cooldown_db = cooldown_db;
    service_cidr = cidr_of cidr;
  }

  pub init_server : Io Booted
  init_server = do
    let node = boot.getenv "KUBE_NODE_NAME"
    version ← or_else (on_cluster boot.server_version) "fatal: Cannot get k8s apiserver version"
    host ←
        or_else (get_kube_node_label node kube_node_label_uhost_id)
          "fatal: Cannot get host id for node"
    by_zone ← try (get_kube_node_label node kube_node_zone_key)
    zone ← zone_or node by_zone
    ip ← or_else (on_host boot.node_ip) "fatal: Cannot get node IP address"
    mac ← or_else (on_host boot.node_mac) "fatal: Cannot get node MAC address"
    or_else (on_host boot.open_storage) "fatal: Create boltdb file handler"
    network_db ←
        or_else (on_file (Database.new_bolt env.bolt network_db_name))
          "fatal: Init network database"
    forget_pools
    cooldown_db ←
        or_else (on_file (Database.new_bolt env.bolt cooldown_db_name))
          "fatal: Init cooldown database"
    cidr ← try uapi_list_uk8s_cluster
    pure (booted version host zone ip mac network_db cooldown_db cidr)
