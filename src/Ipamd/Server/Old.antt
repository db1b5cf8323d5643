-- ===== src/Ipamd/Server/Old.antt =====
-- pkg/ipamd/svc.go, `migrateV1BoltDB`: the addresses of the old pool keep their keys.
use uk8s_cni_vpc.Prelude.{
  ℕ, zero, suc, ◌≡◌, refl, sym, ap, ◌∙◌, subst, inl, inr, true, Bool-cases, ◌==◌,
}
use uk8s_cni_vpc.Result.{ok, Result-cases}
use uk8s_cni_vpc.Step.{◌>>=◌}
use uk8s_cni_vpc.Database
use uk8s_cni_vpc.Database.{KeyValue}
use uk8s_cni_vpc.Database.Laws.{pop-Popped}
use uk8s_cni_vpc.Database.Writes.{new_bolt-NoMore, count-NoMore}
use uk8s_cni_vpc.Ipamd.Types.{PodNetwork}
use uk8s_cni_vpc.Ipamd.World.{Env, EnvLaws, Config, State, on_file}
use uk8s_cni_vpc.Ipamd.Pool.{pool_name, pool_pop, pool_db_name, get_pool, reserved_ip_key}
use uk8s_cni_vpc.Ipamd.Pool.Lending.{get_pool-eq-ok}
use uk8s_cni_vpc.Ipamd.Pool.Keys.{get_pool-Keeps, pool_pop-Keeps}
use uk8s_cni_vpc.Ipamd.Keyed.{
  Keyed, Keeps, bind-Keeps, less-Keeps, or_else-Keeps, pure-Keeps, pool_put-Keeps,
}
use uk8s_cni_vpc.Ipamd.Server.{migrate_loop, migrate_counted, migrate_v1_bolt_db}
use uk8s_cni_vpc.Ipamd.Server.Migration.{migrated, stored_at}

module _ ⦃env : Env⦄ ⦃config : Config⦄ where
  own_pool : pool_name config.subnet_id ≡ pool_name ""
  unfolding pool_name
  own_pool = elim (Bool-cases (config.subnet_id == "")) [
    | inl none_given ↦ rw none_given refl
    | inr given ↦ rw given refl
  ]

module _ ⦃env : Env⦄ ⦃config : Config⦄ (laws : EnvLaws env) where
  -- An address that has its own key in the old pool has it in the pool of the node's subnet too.
  stored_at-Keyed :
      (kv : KeyValue PodNetwork) (s : State env)
      → kv.key ≡ reserved_ip_key kv.value
      → Keyed laws s.file
      → Keyed laws (stored_at (pool_name "") kv s).1.file
  stored_at-Keyed kv s own k =
      subst
        (λ key.
          Keyed laws
            (Database.put env.bolt env.networks (pool_name "") key (migrated kv.value) s.file).1)
        (sym own)
        (subst
          (λ pool.
            Keyed laws
              (Database.put env.bolt env.networks pool (reserved_ip_key kv.value)
                (migrated kv.value) s.file).1)
          own_pool ((pool_put-Keeps laws (migrated kv.value)).run s k))

  migrate_loop-Keyed :
      (fuel : ℕ) (s : State env)
      → Keyed laws s.file
      → Keyed laws (migrate_loop fuel (pool_name "") s).1.file
  unfolding migrate_loop
  migrate_loop-Keyed zero s k = k
  migrate_loop-Keyed (suc fuel) s k =
      let s1 : State env = (pool_pop pool_db_name s).1 in
      let k1 : Keyed laws s1.file = (pool_pop-Keeps laws pool_db_name).run s k in
      elim (Result-cases (Database.pop env.bolt env.networks pool_db_name s.file).0) [
        | inr (e, bad) ↦ rw (bad, migrate_loop) k1
        | inl (kv, popped) ↦
            let held =
              (pop-Popped env.bolt laws.bolt env.networks pool_db_name s.file kv popped).held in
            let own : kv.key ≡ reserved_ip_key kv.value = k.in_old_pool kv.key kv.value held in
            let s2 : State env = (stored_at (pool_name "") kv s1).1 in
            let k2 : Keyed laws s2.file = stored_at-Keyed kv s1 own k1 in
            elim (Result-cases
              (Database.put env.bolt env.networks (pool_name "") kv.key (migrated kv.value)
                s1.file).0) [
                  | inr (e, bad) ↦ rw (popped, bad, migrate_loop) k2
                  | inl (u, done) ↦ rw (popped, done, migrate_loop) (migrate_loop-Keyed fuel s2 k2)
                ]
      ]

  migrate_counted-Keeps : (n : ℕ) → Keeps laws (migrate_counted n)
  unfolding migrate_counted
  migrate_counted-Keeps zero = pure-Keeps laws tt
  migrate_counted-Keeps (suc n) = record {
    run = λ s k. elim (Result-cases (get_pool "" true s).0) [
      | inr (e, bad) ↦ rw (bad, ◌>>=◌) ((get_pool-Keeps laws "" true).run s k)
      | inl (pool, found) ↦
          rw (found ∙ ap ok (get_pool-eq-ok laws "" true pool s found), ◌>>=◌)
            (migrate_loop-Keyed (suc (suc n)) (get_pool "" true s).1
              ((get_pool-Keeps laws "" true).run s k))
    ];
  }

  -- A migration, however it ends, keeps every address under its own key.
  pub migrate_v1_bolt_db-Keeps : Keeps laws migrate_v1_bolt_db
  unfolding migrate_v1_bolt_db
  migrate_v1_bolt_db-Keeps =
      bind-Keeps laws _ _
        (or_else-Keeps laws (on_file (Database.new_bolt env.bolt pool_db_name))
          "failed to open old pool database"
          (less-Keeps laws _ (λ s. new_bolt-NoMore env.bolt laws.bolt pool_db_name s.file)))
        λ old.
          bind-Keeps laws (on_file (Database.count env.bolt old)) _
            (less-Keeps laws _ (λ s. count-NoMore env.bolt laws.bolt old s.file))
            migrate_counted-Keeps
