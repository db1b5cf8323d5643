-- ===== src/Ipamd/Reconcile/Survivors.antt =====
-- pkg/ipamd/resource.go, `doReconcile`: the records of pods that are there are kept.
use uk8s_cni_vpc.Prelude.{
  String, ◌≡◌, ◌≢◌, refl, subst, ◌∙◌, inl, inr, false, Bool-cases, List, [], ◌∷◌, ◌==◌, eq_iff,
  arith, All, All-map, ◌⊎◌,
}
use uk8s_cni_vpc.Result.{ok, Result-cases}
use uk8s_cni_vpc.Step.{◌>>=◌}
use uk8s_cni_vpc.Database
use uk8s_cni_vpc.Database.{KeyValue}
use uk8s_cni_vpc.Database.Laws.{
  Holds, put-Holds, put_fails_keeps, put-entry_other, delete-entry, delete_fails_keeps,
  list-AllHeld, list_keeps, Holds-unique,
}
use uk8s_cni_vpc.Ipamd.Types.{PodNetwork, Pod}
use uk8s_cni_vpc.Ipamd.World.{Env, EnvLaws, Config, State, on_cluster, on_file}
use uk8s_cni_vpc.Ipamd.Reconcile.{
  Finding, alive, orphan, unseen, complete, scan_pods, network_db_name, network_put, network_delete,
  collect_orphans, delete_orphans, do_reconcile,
}

Finding-cases :
    (f : Finding)
    → (f ≡ alive) ⊎ (f ≡ unseen) ⊎ (f ≡ orphan) ⊎ ((uid : String) × (f ≡ complete uid))
Finding-cases alive = inl refl
Finding-cases unseen = inr (inl refl)
Finding-cases orphan = inr (inr (inl refl))
Finding-cases (complete uid) = inr (inr (inr (uid, refl)))

module _ ⦃env : Env⦄ ⦃config : Config⦄ (laws : EnvLaws env) where
  abbrev Recorded : String → PodNetwork → State env → Type 0
  Recorded key pn s = Holds env.bolt laws.bolt env.networks s.file network_db_name key pn

  -- The record is there, its UID perhaps filled in.
  abbrev pub Kept : String → PodNetwork → State env → Type 0
  Kept key pn s =
      Recorded key pn s ⊎ ((uid : String) × Recorded key (record pn { pod_uid = uid }) s)

  other_Recorded :
      (key other : String) (pn qn : PodNetwork) (s : State env)
      → (other == key) ≡ false
      → Recorded key pn s
      → Recorded key pn (network_put other qn s).1
  other_Recorded key other pn qn s apart h = record {
    bytes = h.bytes;
    stored =
        put-entry_other env.bolt laws.bolt env.networks network_db_name other qn s.file
          network_db_name key (rw apart refl)
        ∙ h.stored;
    decodes = h.decodes;
  }

  deleted_Recorded :
      (key other : String) (pn : PodNetwork) (s : State env)
      → (other == key) ≡ false
      → Recorded key pn s
      → Recorded key pn (network_delete other s).1
  deleted_Recorded key other pn s apart h =
      elim (Result-cases (Database.delete env.bolt network_db_name other s.file).0) [
        | inr (e, bad) ↦
            rw (delete_fails_keeps env.bolt laws.bolt network_db_name other s.file (rw bad refl)) h
        | inl (u, done) ↦ record {
          bytes = h.bytes;
          stored =
              delete-entry env.bolt laws.bolt network_db_name other s.file network_db_name key done
              ∙ rw apart h.stored;
          decodes = h.decodes;
        }
      ]

  -- A listed record under `key` is the one at hand.
  abbrev AtKey : String → PodNetwork → KeyValue PodNetwork → Type 0
  AtKey key pn kv = kv.key ≡ key → kv.value ≡ pn

  put_Kept :
      (key uid : String) (pn : PodNetwork) (kv : KeyValue PodNetwork) (s : State env)
      → AtKey key pn kv
      → Kept key pn s
      → Kept key pn (network_put kv.key (record (kv.value) { pod_uid = uid }) s).1
  put_Kept key uid pn kv s at_key h =
      let qn : PodNetwork = record (kv.value) { pod_uid = uid } in
      elim (Bool-cases (kv.key == key)) [
        | inr apart ↦ elim h [
          | inl r ↦ inl (other_Recorded key kv.key pn qn s apart r)
          | inr (old, r) ↦
              inr (old, other_Recorded key kv.key (record pn { pod_uid = old }) qn s apart r)
        ]
        | inl e ↦
            let same : kv.key ≡ key = (eq_iff kv.key key).0 e in
            elim (Result-cases
              (Database.put env.bolt env.networks network_db_name kv.key qn s.file).0) [
                | inr (x, bad) ↦
                    rw
                      (put_fails_keeps env.bolt laws.bolt env.networks network_db_name kv.key qn
                        s.file (rw bad refl))
                      h
                | inl (u, done) ↦ inr (
                  uid,
                  subst (λ k. Recorded k (record pn { pod_uid = uid }) (network_put kv.key qn s).1)
                      same
                      (subst
                        (λ v.
                          Recorded kv.key (record v { pod_uid = uid }) (network_put kv.key qn s).1)
                        (at_key same)
                        (put-Holds env.bolt laws.bolt env.networks laws.networks network_db_name
                          kv.key qn s.file done)),
                )
              ]
      ]

  -- The record is not the one under `key`.
  abbrev Away : String → KeyValue PodNetwork → Type 0
  Away key kv = (kv.key == key) ≡ false

  collect_orphans-Kept :
      (pods : List Pod) (key : String) (pn : PodNetwork) (kvs : List (KeyValue PodNetwork))
      (s : State env)
      → scan_pods pn pods ≢ orphan
      → All (AtKey key pn) kvs
      → Kept key pn s
      → Kept key pn (collect_orphans pods kvs s).1
  unfolding collect_orphans
  collect_orphans-Kept pods key pn [] s owned at_key h = h
  collect_orphans-Kept pods key pn (kv ∷ kvs) s owned at_key h =
      elim (Finding-cases (scan_pods kv.value pods)) [
        | inl e ↦ rw (e, collect_orphans) (collect_orphans-Kept pods key pn kvs s owned at_key.1 h)
        | inr (inl e) ↦
            rw (e, collect_orphans) (collect_orphans-Kept pods key pn kvs s owned at_key.1 h)
        | inr (inr (inr (uid, e))) ↦
            rw (e, collect_orphans)
              (collect_orphans-Kept pods key pn kvs
                (network_put kv.key (record (kv.value) { pod_uid = uid }) s).1 owned at_key.1
                (put_Kept key uid pn kv s at_key.0 h))
        | inr (inr (inl e)) ↦
            let rest = collect_orphans-Kept pods key pn kvs s owned at_key.1 h in
            elim (Result-cases (collect_orphans pods kvs s).0) [
              | inl (found, r) ↦ rw (e, r, collect_orphans) rest
              | inr (x, r) ↦ rw (e, r, collect_orphans) rest
            ]
      ]

  listed_Away :
      (pods : List Pod) (key : String) (pn : PodNetwork) (kv : KeyValue PodNetwork)
      → scan_pods pn pods ≢ orphan
      → AtKey key pn kv
      → scan_pods kv.value pods ≡ orphan
      → Away key kv
  listed_Away pods key pn kv owned at_key e = elim (Bool-cases (kv.key == key)) [
    | inr other ↦ other
    | inl same ↦
        absurd
          (owned (subst (λ v. scan_pods v pods ≡ orphan) (at_key ((eq_iff kv.key key).0 same)) e))
  ]

  collect_orphans-Away :
      (pods : List Pod) (key : String) (pn : PodNetwork) (kvs found : List (KeyValue PodNetwork))
      (s : State env)
      → scan_pods pn pods ≢ orphan
      → All (AtKey key pn) kvs
      → (collect_orphans pods kvs s).0 ≡ ok found
      → All (Away key) found
  unfolding collect_orphans
  collect_orphans-Away pods key pn [] found s owned at_key h =
      let same : [] ≡ found = ground arith in subst (All (Away key)) same tt
  collect_orphans-Away pods key pn (kv ∷ kvs) found s owned at_key h =
      elim (Finding-cases (scan_pods kv.value pods)) [
        | inl e ↦
            collect_orphans-Away pods key pn kvs found s owned at_key.1
              (rw (e, collect_orphans) at h)
        | inr (inl e) ↦
            collect_orphans-Away pods key pn kvs found s owned at_key.1
              (rw (e, collect_orphans) at h)
        | inr (inr (inr (uid, e))) ↦
            collect_orphans-Away pods key pn kvs found
              (network_put kv.key (record (kv.value) { pod_uid = uid }) s).1 owned at_key.1
              (rw (e, collect_orphans) at h)
        | inr (inr (inl e)) ↦ elim (Result-cases (collect_orphans pods kvs s).0) [
          | inr (x, r) ↦ absurd (ground arith)
          | inl (rest, r) ↦
              let same : kv ∷ rest ≡ found = ground arith in
              subst (All (Away key)) same (
                listed_Away pods key pn kv owned at_key.0 e,
                collect_orphans-Away pods key pn kvs rest s owned at_key.1 r,
              )
        ]
      ]

  delete_orphans-Kept :
      (key : String) (pn : PodNetwork) (kvs : List (KeyValue PodNetwork)) (s : State env)
      → All (Away key) kvs
      → Kept key pn s
      → Kept key pn (delete_orphans kvs s).1
  unfolding delete_orphans
  delete_orphans-Kept key pn [] s away h = h
  delete_orphans-Kept key pn (kv ∷ kvs) s away h =
      delete_orphans-Kept key pn kvs (network_delete kv.key s).1 away.1 (elim h [
        | inl r ↦ inl (deleted_Recorded key kv.key pn s away.0 r)
        | inr (uid, r) ↦
            inr (uid, deleted_Recorded key kv.key (record pn { pod_uid = uid }) s away.0 r)
      ])

  -- If the pods of the node can be listed, a record that `scan_pods` does not take for an orphan among
  -- them outlives the run, whatever else fails in it; at most its UID is filled in.
  pub do_reconcile-Kept :
      (pods : List Pod) (key : String) (pn : PodNetwork) (s : State env)
      → (env.list_pods s.cluster).0 ≡ ok pods
      → scan_pods pn pods ≢ orphan
      → Recorded key pn s
      → Kept key pn (do_reconcile s).1
  unfolding do_reconcile
  do_reconcile-Kept pods key pn s listed owned h =
      elim (Result-cases (Database.list env.bolt env.networks network_db_name s.file).0) [
        | inr (x, bad) ↦ rw (listed, bad, ◌>>=◌) (inl unlisted)
        | inl (kvs, shown) ↦
            let kept =
              collect_orphans-Kept pods key pn kvs t owned (at_keys kvs shown) (inl unlisted) in
            elim (Result-cases (collect_orphans pods kvs t).0) [
              | inr (x, bad) ↦ rw (listed, shown, bad, ◌>>=◌) kept
              | inl (found, r) ↦
                  rw (listed, shown, r, ◌>>=◌)
                    (delete_orphans-Kept key pn found (collect_orphans pods kvs t).1
                      (collect_orphans-Away pods key pn kvs found t owned (at_keys kvs shown) r)
                      kept)
            ]
      ]
    where
      t : State env
      t =
          (on_file (Database.list env.bolt env.networks network_db_name)
            (on_cluster env.list_pods s).1).1

      unlisted : Recorded key pn t
      unlisted = rw (list_keeps env.bolt laws.bolt env.networks network_db_name s.file) h

      at_key :
          (kv : KeyValue PodNetwork)
          → Holds env.bolt laws.bolt env.networks s.file network_db_name kv.key kv.value
          → AtKey key pn kv
      at_key kv held same =
          Holds-unique env.bolt laws.bolt env.networks s.file network_db_name key kv.value pn
            (subst (λ k. Holds env.bolt laws.bolt env.networks s.file network_db_name k kv.value)
              same held)
            h

      at_keys :
          (kvs : List (KeyValue PodNetwork))
          → (Database.list env.bolt env.networks network_db_name s.file).0 ≡ ok kvs
          → All (AtKey key pn) kvs
      at_keys kvs shown =
          All-map _ _ kvs at_key
            (list-AllHeld env.bolt laws.bolt env.networks network_db_name s.file kvs shown).0
