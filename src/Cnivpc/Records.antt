-- ===== src/Cnivpc/Records.antt =====
-- cmd/cnivpc/rpc.go: the records of pod networks, at the daemon or in the plugin's own file.
pub mod Local
use uk8s_cni_vpc.Prelude.{String, Bool, true, false, Option, none, some, List, if◌then◌else◌}
use uk8s_cni_vpc.Result.{Result, ok, err, Error, failure}
use uk8s_cni_vpc.Step.{Step, pure, raise, lift, try, or_else, ◌>>=◌, ◌>>◌}
use uk8s_cni_vpc.Database
use uk8s_cni_vpc.Database.{pod_key, values, KeyValue}
use uk8s_cni_vpc.Ipamd.Types.{PodNetwork}
use uk8s_cni_vpc.Cnivpc.Plugin.{Plugin, PluginState, Act, on_sys, on_local}
use uk8s_cni_vpc.Cnivpc.Addresses.{enabled_ipamd, answer_success, release_pod_ip}

abbrev pub cni_vpc_db_name : String
cni_vpc_db_name = "cni-vpc-network"

module _ ⦃plugin : Plugin⦄ where
  unfoldable pub access_to_pod_network_db : Act String
  access_to_pod_network_db = do
    on_sys plugin.open_file
    on_local (Database.new_bolt plugin.bolt cni_vpc_db_name)

  -- A file that cannot be opened gives the address back.
  unfoldable pub put_local : String → PodNetwork → Result String → Act (Unit {0})
  put_local key pn (err e) s = (err e, (release_pod_ip pn s).1)
  put_local key pn (ok db) s = on_local (Database.put plugin.bolt plugin.networks db key pn) s

  unfoldable pub add_pod_network_record_local :
      String → String → String → PodNetwork → Act (Unit {0})
  unfolding put_local access_to_pod_network_db
  add_pod_network_record_local pod_name pod_ns sandbox_id pn =
      try access_to_pod_network_db >>= put_local (pod_key pod_name pod_ns sandbox_id) pn

  pub get_pod_network_record_local : String → String → String → Act PodNetwork
  get_pod_network_record_local pod_name pod_ns sandbox_id = do
    db ← access_to_pod_network_db
    on_local (Database.get plugin.bolt plugin.networks db (pod_key pod_name pod_ns sandbox_id))

  pub del_pod_network_record_local : String → String → String → Act (Unit {0})
  del_pod_network_record_local pod_name pod_ns sandbox_id = do
    db ← access_to_pod_network_db
    on_local (Database.delete plugin.bolt db (pod_key pod_name pod_ns sandbox_id))

  pub list_local : Act (List PodNetwork)
  list_local = do
    db ← access_to_pod_network_db
    kvs ←
        or_else (on_local (Database.list plugin.bolt plugin.networks db))
          "main.listPodNetworkRecords list local database"
    pure (values kvs)

  -- The daemon is asked if it can be dialled and answers a ping.
  pub by_ipamd : {A : Type 0} → Act A → Act A → Result (Unit {0}) → Act A
  by_ipamd remote local (err e) = local
  by_ipamd remote local (ok u) = enabled_ipamd >>= λ enabled. (if enabled then remote else local)

  pub ipamd_or_local : {A : Type 0} → Act A → Act A → Act A
  ipamd_or_local remote local = try (on_sys plugin.dial) >>= by_ipamd remote local

  pub add_pod_network_record : String → String → String → PodNetwork → Act (Unit {0})
  add_pod_network_record pod_name pod_ns sandbox_id pn =
      ipamd_or_local (on_sys (plugin.add_pod_network_record pn) >>= answer_success)
        (add_pod_network_record_local pod_name pod_ns sandbox_id pn)

  pub del_pod_network_record : String → String → String → Act (Unit {0})
  del_pod_network_record pod_name pod_ns sandbox_id =
      ipamd_or_local
        (on_sys (plugin.del_pod_network_record pod_name pod_ns sandbox_id) >>= answer_success)
        (del_pod_network_record_local pod_name pod_ns sandbox_id)

  -- A daemon that has no record answers with none; the plugin's own file reports an error.
  pub get_pod_network_record : String → String → String → Act (Option PodNetwork)
  get_pod_network_record pod_name pod_ns sandbox_id =
      ipamd_or_local
        (on_sys (plugin.get_pod_network_record pod_name pod_ns sandbox_id) >>= answer_success)
        (get_pod_network_record_local pod_name pod_ns sandbox_id >>= λ pn. pure (some pn))

  pub list_pod_network_records : Act (List PodNetwork)
  list_pod_network_records =
      ipamd_or_local (on_sys plugin.list_pod_network_record >>= answer_success) list_local
