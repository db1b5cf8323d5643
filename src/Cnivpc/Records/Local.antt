-- ===== src/Cnivpc/Records/Local.antt =====
-- cmd/cnivpc/rpc.go: the records in the plugin's own file.
use uk8s_cni_vpc.Prelude.{String, ◌≡◌, refl, ap, ◌∙◌, ◌⊎◌, inl, inr, false, arith}
use uk8s_cni_vpc.Result.{ok, is_ok, Result-cases}
use uk8s_cni_vpc.Step.{◌>>=◌}
use uk8s_cni_vpc.Database
use uk8s_cni_vpc.Database.{pod_key}
use uk8s_cni_vpc.Database.Laws.{new_bolt-entry, new_bolt-eq-ok}
use uk8s_cni_vpc.Database.RoundTrip.{get-put_later}
use uk8s_cni_vpc.Ipamd.Types.{PodNetwork}
use uk8s_cni_vpc.Cnivpc.Plugin.{Plugin, PluginLaws, PluginState}
use uk8s_cni_vpc.Cnivpc.Records.{
  cni_vpc_db_name, access_to_pod_network_db, put_local, add_pod_network_record_local,
  get_pod_network_record_local,
}

module _ ⦃plugin : Plugin⦄ (laws : PluginLaws plugin) where
  access-entry :
      (s : PluginState plugin) (m j : String)
      → laws.bolt.entry (access_to_pod_network_db s).1.file m j ≡ laws.bolt.entry s.file m j
  unfolding access_to_pod_network_db
  access-entry s m j =
      ground (arith, new_bolt-entry plugin.bolt laws.bolt cni_vpc_db_name s.file m j)

  access-eq-ok :
      (s : PluginState plugin) (db : String)
      → (access_to_pod_network_db s).0 ≡ ok db
      → db ≡ cni_vpc_db_name
  unfolding access_to_pod_network_db
  access-eq-ok s db h =
      ground (arith, new_bolt-eq-ok plugin.bolt laws.bolt cni_vpc_db_name db s.file)

  -- A record that was put is read back as long as the data stays what the write left.
  get_local_later :
      (pod_name pod_ns sandbox_id : String) (pn : PodNetwork) (f : plugin.bolt.File)
      (s : PluginState plugin)
      → let key : String = pod_key pod_name pod_ns sandbox_id in
        (Database.put plugin.bolt plugin.networks cni_vpc_db_name key pn f).0 ≡ ok tt
        → ((m j : String)
            → laws.bolt.entry s.file m j
              ≡ laws.bolt.entry
                  (Database.put plugin.bolt plugin.networks cni_vpc_db_name
                    (pod_key pod_name pod_ns sandbox_id)
                    pn
                    f).1
                  m
                  j)
        → ((get_pod_network_record_local pod_name pod_ns sandbox_id s).0 ≡ ok pn)
          ⊎ (is_ok (get_pod_network_record_local pod_name pod_ns sandbox_id s).0 ≡ false)
  unfolding get_pod_network_record_local
  get_local_later pod_name pod_ns sandbox_id pn f s done same =
      let key : String = pod_key pod_name pod_ns sandbox_id in
      elim (Result-cases (access_to_pod_network_db s).0) [
        | inr (e, bad) ↦ inr (rw (bad, ◌>>=◌) refl)
        | inl (db, found) ↦
            let named : (access_to_pod_network_db s).0 ≡ ok cni_vpc_db_name =
              found ∙ ap ok (access-eq-ok s db found) in
            elim (get-put_later plugin.bolt laws.bolt plugin.networks laws.networks cni_vpc_db_name
              key pn f (access_to_pod_network_db s).1.file done
              (λ m j. access-entry s m j ∙ same m j)) [
                | inl e ↦ inl (rw (named, ◌>>=◌) e)
                | inr e ↦ inr (rw (named, ◌>>=◌) (rw e refl))
              ]
      ]

  -- A record that the plugin has stored in its own file is what it reads next for the same pod and
  -- sandbox, unless the file cannot be read, which it reports.
  pub get_pod_network_record_local-add :
      (pod_name pod_ns sandbox_id : String) (pn : PodNetwork) (s : PluginState plugin)
      → (add_pod_network_record_local pod_name pod_ns sandbox_id pn s).0 ≡ ok tt
      → ((get_pod_network_record_local pod_name pod_ns sandbox_id
            (add_pod_network_record_local pod_name pod_ns sandbox_id pn s).1).0
          ≡ ok pn)
        ⊎ (is_ok
              (get_pod_network_record_local pod_name pod_ns sandbox_id
                (add_pod_network_record_local pod_name pod_ns sandbox_id pn s).1).0
            ≡ false)
  unfolding add_pod_network_record_local put_local
  get_pod_network_record_local-add pod_name pod_ns sandbox_id pn s h =
      let key : String = pod_key pod_name pod_ns sandbox_id in
      elim (Result-cases (access_to_pod_network_db s).0) [
        | inr (e, bad) ↦ absurd (let w = rw (bad, put_local) at h in cc w)
        | inl (db, found) ↦
            let named : (access_to_pod_network_db s).0 ≡ ok cni_vpc_db_name =
              found ∙ ap ok (access-eq-ok s db found) in
            let t : PluginState plugin = (access_to_pod_network_db s).1 in
            rw (named, put_local)
              (get_local_later pod_name pod_ns sandbox_id pn t.file
                (record t {
                  file = (Database.put plugin.bolt plugin.networks cni_vpc_db_name key pn t.file).1;
                })
                (rw (named, put_local) at h) (λ m j. refl))
      ]
