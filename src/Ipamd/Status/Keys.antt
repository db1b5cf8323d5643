-- ===== src/Ipamd/Status/Keys.antt =====
-- pkg/ipamd/pool.go: the resources of the pools are written to the cluster, and nothing to the bolt
-- file.
use uk8s_cni_vpc.Prelude.{String, ◌≡◌, refl, ◌∙◌, inl, inr, Bool-cases, ◌==◌, List, [], ◌∷◌, arith}
use uk8s_cni_vpc.Result.{Result, ok, err}
use uk8s_cni_vpc.Ipamd.Types.{Ipamd, IpamdStatus}
use uk8s_cni_vpc.Ipamd.World.{Env, EnvLaws, Config, State, on_cluster}
use uk8s_cni_vpc.Ipamd.Keyed.{
  Keeps, bind-Keeps, same-Keeps, try-Keeps, or_else-Keeps, cluster-Keeps,
}
use uk8s_cni_vpc.Ipamd.Pool.{contains}
use uk8s_cni_vpc.Ipamd.Pool.Keys.{pool_count-Keeps}
use uk8s_cni_vpc.Ipamd.Status.{
  get_pool_subnet_id, ipamd_name, status_of, write_status, update_status, update_all, remove_gone,
  remove_alias, is_duplicated, remove_duplicates, recycle_status, add_to_identity,
}

module _ ⦃env : Env⦄ ⦃config : Config⦄ where
  remove_gone-file :
      (nodes : List String) (xs : List Ipamd) (groups : List (String × String × List Ipamd))
      (s : State env)
      → (remove_gone nodes xs groups s).1.file ≡ s.file
  unfolding remove_gone
  remove_gone-file nodes [] groups s = refl
  remove_gone-file nodes (x ∷ xs) groups s = elim (Bool-cases (contains x.node nodes)) [
    | inl there ↦ rw (there, remove_gone) (remove_gone-file nodes xs (add_to_identity x groups) s)
    | inr gone ↦
        rw (gone, remove_gone)
          (remove_gone-file nodes xs groups (on_cluster (env.delete_ipamd x.name) s).1)
  ]

  remove_alias-file :
      (node : String) (xs : List Ipamd) (s : State env) → (remove_alias node xs s).1.file ≡ s.file
  unfolding remove_alias
  remove_alias-file node [] s = refl
  remove_alias-file node (x ∷ xs) s = elim (Bool-cases (x.name == node)) [
    | inl alias ↦
        rw (alias, remove_alias)
          (remove_alias-file node xs (on_cluster (env.delete_ipamd x.name) s).1)
    | inr other ↦ rw (other, remove_alias) (remove_alias-file node xs s)
  ]

  remove_duplicates-file :
      (groups : List (String × String × List Ipamd)) (s : State env)
      → (remove_duplicates groups s).1.file ≡ s.file
  unfolding remove_duplicates
  remove_duplicates-file [] s = refl
  remove_duplicates-file ((node, subnet, xs) ∷ groups) s =
      elim (Bool-cases (is_duplicated node subnet xs)) [
        | inl twice ↦
            rw (twice, remove_duplicates)
              (remove_duplicates-file groups (remove_alias node xs s).1
                ∙ remove_alias-file node xs s)
        | inr once ↦ rw (once, remove_duplicates) (remove_duplicates-file groups s)
      ]

  write_status-file :
      (name subnet : String) (status : IpamdStatus) (r : Result Ipamd) (s : State env)
      → (write_status name subnet status r s).1.file ≡ s.file
  unfolding write_status
  write_status-file name subnet status (ok current) s = ground arith
  write_status-file name subnet status (err e) s = ground arith

module _ ⦃env : Env⦄ ⦃config : Config⦄ (laws : EnvLaws env) where
  update_status-Keeps : (key : String) → Keeps laws (update_status key)
  unfolding update_status
  update_status-Keeps key =
      bind-Keeps laws _ _ (or_else-Keeps laws _ _ (pool_count-Keeps laws key)) λ watermark.
        bind-Keeps laws _ _
          (try-Keeps laws _
            (cluster-Keeps laws (env.get_ipamd (ipamd_name (get_pool_subnet_id key)))))
          λ found.
            same-Keeps laws
              (write_status (ipamd_name (get_pool_subnet_id key)) (get_pool_subnet_id key).0
                (status_of watermark) found)
              (write_status-file (ipamd_name (get_pool_subnet_id key)) (get_pool_subnet_id key).0
                (status_of watermark) found)

  pub update_all-Keeps : (keys : List String) → Keeps laws (update_all keys)
  unfolding update_all
  update_all-Keeps [] = record { run = λ s k. k }
  update_all-Keeps (key ∷ keys) = record {
    run = λ s k.
        (update_all-Keeps keys).run (update_status key s).1 ((update_status-Keeps key).run s k);
  }

  pub recycle_status-Keeps : Keeps laws recycle_status
  unfolding recycle_status
  recycle_status-Keeps =
      bind-Keeps laws _ _
        (or_else-Keeps laws _ "list ipamd items" (cluster-Keeps laws env.list_ipamds))
        λ ipamds.
          bind-Keeps laws _ _
            (or_else-Keeps laws _ "list node items" (cluster-Keeps laws env.list_nodes))
            λ nodes.
              bind-Keeps laws _ _
                (same-Keeps laws (remove_gone nodes ipamds []) (remove_gone-file nodes ipamds []))
                λ groups.
                  same-Keeps laws (remove_duplicates (env.map_order groups))
                    (remove_duplicates-file (env.map_order groups))
