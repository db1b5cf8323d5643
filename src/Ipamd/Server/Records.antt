-- ===== src/Ipamd/Server/Records.antt =====
-- pkg/ipamd/rpc.go: the records of pod networks.
use uk8s_cni_vpc.Prelude.{String, ◌≡◌, refl, inl, inr, ◌⊎◌, arith}
use uk8s_cni_vpc.Result.{ok, Result-cases}
use uk8s_cni_vpc.Database
use uk8s_cni_vpc.Database.{pod_key}
use uk8s_cni_vpc.Database.RoundTrip.{get-put}
use uk8s_cni_vpc.Ipamd.Types.{PodNetwork}
use uk8s_cni_vpc.Ipamd.World.{Env, EnvLaws, Config, State}
use uk8s_cni_vpc.Ipamd.Reconcile.{network_db_name}
use uk8s_cni_vpc.Ipamd.Server.{
  add_pod_network_record, get_pod_network_record, found_record, success_with, success_empty,
  fails_with, read_db_error,
}

module _ ⦃env : Env⦄ ⦃config : Config⦄ (laws : EnvLaws env) where
  -- A record that the daemon has accepted is what it answers when it is asked for the same pod and
  -- sandbox next, unless the file cannot be read, which it reports.
  pub get_pod_network_record-add :
      (pn : PodNetwork) (s : State env)
      → (add_pod_network_record pn s).0 ≡ ok success_empty
      → ((get_pod_network_record pn.pod_name pn.pod_ns pn.sandbox_id
            (add_pod_network_record pn s).1).0
          ≡ ok (success_with pn))
        ⊎ ((get_pod_network_record pn.pod_name pn.pod_ns pn.sandbox_id
              (add_pod_network_record pn s).1).0
            ≡ ok (fails_with read_db_error))
  unfolding add_pod_network_record get_pod_network_record found_record
  get_pod_network_record-add pn s h =
      let key : String = pod_key pn.pod_name pn.pod_ns pn.sandbox_id in
      elim (Result-cases (Database.put env.bolt env.networks network_db_name key pn s.file).0) [
        | inr (e, bad) ↦ absurd (ground arith)
        | inl (u, done) ↦
            rw (done, add_pod_network_record)
              (elim (get-put env.bolt laws.bolt env.networks laws.networks network_db_name key pn
                s.file done) [
                  | inl same ↦ inl (rw (same, found_record) refl)
                  | inr fault ↦ inr (rw (fault, found_record) refl)
                ])
      ]
