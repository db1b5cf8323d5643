-- ===== src/Ipamd/Reconcile/Keys.antt =====
-- pkg/ipamd/resource.go: a reconciliation keeps the records of pods under their own keys.
use uk8s_cni_vpc.Prelude.{◌⊎◌, String, ◌≡◌, refl, inl, inr, List, [], ◌∷◌, All, All-map}
use uk8s_cni_vpc.Result.{ok, Result-cases}
use uk8s_cni_vpc.Step.{◌>>=◌}
use uk8s_cni_vpc.Database
use uk8s_cni_vpc.Database.{KeyValue}
use uk8s_cni_vpc.Database.Laws.{list-AllHeld}
use uk8s_cni_vpc.Database.Writes.{list-NoMore, delete-NoMore}
use uk8s_cni_vpc.Ipamd.Types.{PodNetwork, Pod}
use uk8s_cni_vpc.Ipamd.World.{Env, EnvLaws, Config, State, Io, on_file}
use uk8s_cni_vpc.Ipamd.Keyed.{
  Keyed, Keeps, record_key, bind-Keeps, less-Keeps, cluster-Keeps, network_put-Keeps,
}
use uk8s_cni_vpc.Ipamd.Reconcile.{
  network_db_name, network_put, network_delete, scan_pods, Finding, alive, orphan, unseen, complete,
  collect_orphans, delete_orphans, do_reconcile,
}

abbrev Named : List (KeyValue PodNetwork) → Type 0
Named kvs = All (λ kv. kv.key ≡ record_key kv.value) kvs

Finding-cases :
    (x : Finding)
    → (x ≡ alive) ⊎ (x ≡ unseen) ⊎ (x ≡ orphan) ⊎ ((uid : String) × (x ≡ complete uid))
Finding-cases alive = inl refl
Finding-cases unseen = inr (inl refl)
Finding-cases orphan = inr (inr (inl refl))
Finding-cases (complete uid) = inr (inr (inr (uid, refl)))

module _ ⦃env : Env⦄ ⦃config : Config⦄ (laws : EnvLaws env) where
  pub network_delete-Keeps : (key : String) → Keeps laws (network_delete key)
  network_delete-Keeps key =
      less-Keeps laws _ (λ s. delete-NoMore env.bolt laws.bolt network_db_name key s.file)

  collect_orphans-Keeps :
      (pods : List Pod) (kvs : List (KeyValue PodNetwork))
      → Named kvs
      → Keeps laws (collect_orphans pods kvs)
  unfolding collect_orphans
  collect_orphans-Keeps pods [] named = record { run = λ s k. k }
  collect_orphans-Keeps pods (kv ∷ kvs) named = record {
    run = λ s k.
        let rest : Keeps laws (collect_orphans pods kvs) = collect_orphans-Keeps pods kvs named.1 in
        elim (Finding-cases (scan_pods kv.value pods)) [
          | inl there ↦ rw (there, collect_orphans) (rest.run s k)
          | inr (inl none_there) ↦ rw (none_there, collect_orphans) (rest.run s k)
          | inr (inr (inl gone)) ↦ elim (Result-cases (collect_orphans pods kvs s).0) [
            | inl (found, e) ↦ rw (gone, e, collect_orphans) (rest.run s k)
            | inr (x, e) ↦ rw (gone, e, collect_orphans) (rest.run s k)
          ]
          | inr (inr (inr (uid, new))) ↦
              let filled : PodNetwork = record (kv.value) { pod_uid = uid } in
              rw (new, collect_orphans)
                (rest.run (network_put kv.key filled s).1
                  ((network_put-Keeps laws kv.key filled named.0).run s k))
        ];
  }

  delete_orphans-Keeps : (kvs : List (KeyValue PodNetwork)) → Keeps laws (delete_orphans kvs)
  unfolding delete_orphans
  delete_orphans-Keeps [] = record { run = λ s k. k }
  delete_orphans-Keeps (kv ∷ kvs) = record {
    run = λ s k.
        (delete_orphans-Keeps kvs).run (network_delete kv.key s).1
          ((network_delete-Keeps kv.key).run s k);
  }

  listed-Named :
      (s : State env) (kvs : List (KeyValue PodNetwork))
      → Keyed laws s.file
      → (Database.list env.bolt env.networks network_db_name s.file).0 ≡ ok kvs
      → Named kvs
  listed-Named s kvs k h =
      All-map _ _ kvs (λ kv held. k.recorded kv.key kv.value held)
        (list-AllHeld env.bolt laws.bolt env.networks network_db_name s.file kvs h).0

  abbrev listing : Io (List (KeyValue PodNetwork))
  listing = on_file (Database.list env.bolt env.networks network_db_name)

  reconcile_listed-Keeps :
      (pods : List Pod)
      → Keeps laws (listing >>= λ kvs. collect_orphans pods kvs >>= delete_orphans)
  reconcile_listed-Keeps pods = record {
    run = λ s k.
        let kept : Keyed laws (listing s).1.file =
          (less-Keeps laws listing
              (λ t. list-NoMore env.bolt laws.bolt env.networks network_db_name t.file)).run
            s k in
        elim (Result-cases (listing s).0) [
          | inr (e, bad) ↦ rw (bad, ◌>>=◌) kept
          | inl (kvs, e) ↦
              rw (e, ◌>>=◌)
                ((bind-Keeps laws _ _ (collect_orphans-Keeps pods kvs (listed-Named s kvs k e))
                    delete_orphans-Keeps).run
                  (listing s).1 kept)
        ];
  }

  pub do_reconcile-Keeps : Keeps laws do_reconcile
  unfolding do_reconcile
  do_reconcile-Keeps = bind-Keeps laws _ _ (cluster-Keeps laws _) reconcile_listed-Keeps
