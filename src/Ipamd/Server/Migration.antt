-- ===== src/Ipamd/Server/Migration.antt =====
-- pkg/ipamd/svc.go, `migrateV1BoltDB`: the loop that empties the old pool.
use uk8s_cni_vpc.Prelude.{
  ℕ, zero, suc, ◌<◌, String, ◌≡◌, refl, inl, inr, true, false, Bool-cases, ap, ◌∙◌, ◌==◌, arith,
}
use uk8s_cni_vpc.Result.{Result, ok, err, Error, eof, is_eof, failure, Result-cases}
use uk8s_cni_vpc.Database
use uk8s_cni_vpc.Database.{KeyValue, put}
use uk8s_cni_vpc.Database.Laws.{pop-Popped, pop-eof-size, pop_fails_keeps}
use uk8s_cni_vpc.Ipamd.Types.{PodNetwork}
use uk8s_cni_vpc.Ipamd.World.{Env, EnvLaws, Config, State, Io, on_file}
use uk8s_cni_vpc.Ipamd.Pool.{pool_pop, pool_db_name}
use uk8s_cni_vpc.Ipamd.Pool.Sizes.{pool_size}
use uk8s_cni_vpc.Ipamd.Server.{migrate_loop}

module _ ⦃env : Env⦄ ⦃config : Config⦄ where
  -- The address as it is stored in the new pool.
  abbrev pub migrated : PodNetwork → PodNetwork
  migrated pn = record pn { subnet_id = config.subnet_id; mac_address = config.master_mac_address }

  abbrev pub stored_at : String → KeyValue PodNetwork → Io (Unit {0})
  stored_at new_pool kv = on_file (put env.bolt env.networks new_pool kv.key (migrated kv.value))

  -- The loop of the source, which has no bound: what a run returns, and that it returns. It ends when
  -- no address is left, or when the old pool cannot be read or the new one not written; otherwise it
  -- goes on with one address moved.
  pub data Migrates (new_pool : String) : State env → Result (Unit {0}) × State env → Type 0 where
    emptied :
        {s : State env}
        → (pool_pop pool_db_name s).0 ≡ err eof
        → Migrates new_pool s (ok tt, (pool_pop pool_db_name s).1)
    unread :
        {s : State env} {e : Error}
        → (pool_pop pool_db_name s).0 ≡ err e
        → is_eof e ≡ false
        → Migrates new_pool s (err e, (pool_pop pool_db_name s).1)
    unwritten :
        {s : State env} {kv : KeyValue PodNetwork} {e : Error}
        → (pool_pop pool_db_name s).0 ≡ ok kv
        → (stored_at new_pool kv (pool_pop pool_db_name s).1).0 ≡ err e
        → Migrates new_pool s (
          err (failure "failed to put migrated pod network"),
          (stored_at new_pool kv (pool_pop pool_db_name s).1).1,
        )
    moved :
        {s : State env} {kv : KeyValue PodNetwork} {r : Result (Unit {0}) × State env}
        → (pool_pop pool_db_name s).0 ≡ ok kv
        → (stored_at new_pool kv (pool_pop pool_db_name s).1).0 ≡ ok tt
        → Migrates new_pool (stored_at new_pool kv (pool_pop pool_db_name s).1).1 r
        → Migrates new_pool s r

is_eof-eq : (e : Error) → is_eof e ≡ true → e ≡ eof
is_eof-eq eof h = refl
is_eof-eq e h = ground arith

module _ ⦃env : Env⦄ ⦃config : Config⦄ (laws : EnvLaws env) where
  put-size_other :
      (bucket key : String) (pn : PodNetwork) (f : env.bolt.File) (m : String)
      → (bucket == m) ≡ false
      → laws.bolt.size (put env.bolt env.networks bucket key pn f).1 m ≡ laws.bolt.size f m
  unfolding put
  put-size_other bucket key pn f m apart = elim (Result-cases (env.networks.marshal pn)) [
    | inr (x, e) ↦ rw (e, put) refl
    | inl (d, e) ↦
        rw (e, put)
          (elim (Result-cases (env.bolt.put bucket key d f).0) [
            | inl (u, done) ↦ rw (laws.bolt.put_size bucket key d f m done, apart) refl
            | inr (x, failed) ↦ rw (laws.bolt.put_fails bucket key d f (rw failed refl)) refl
          ])
  ]

  -- With more fuel than the old pool has addresses, the loop ends by itself, as the unbounded loop of
  -- the source does.
  pub migrate_loop-enough :
      (fuel : ℕ) (new_pool : String) (s : State env)
      → (new_pool == pool_db_name) ≡ false
      → pool_size laws s pool_db_name < fuel
      → Migrates new_pool s (migrate_loop fuel new_pool s)
  unfolding migrate_loop
  migrate_loop-enough zero new_pool s apart enough = absurd (omega arith)
  migrate_loop-enough (suc fuel) new_pool s apart enough =
      elim (Result-cases (Database.pop env.bolt env.networks pool_db_name s.file).0) [
        | inr (e, bad) ↦ elim (Bool-cases (is_eof e)) [
          | inl over ↦
              let last : e ≡ eof = is_eof-eq e over in
              rw (bad, over, migrate_loop) (emptied (bad ∙ ap err last))
          | inr fault ↦ rw (bad, fault, migrate_loop) (unread bad fault)
        ]
        | inl (kv, popped) ↦
            let taken =
              (pop-Popped env.bolt laws.bolt env.networks pool_db_name s.file kv popped).smaller in
            let s1 : State env = (pool_pop pool_db_name s).1 in
            let pn : PodNetwork = migrated kv.value in
            let same = put-size_other new_pool kv.key pn s1.file pool_db_name apart in
            elim (Result-cases (put env.bolt env.networks new_pool kv.key pn s1.file).0) [
              | inr (e, bad) ↦ rw (popped, bad, migrate_loop) (unwritten popped bad)
              | inl (u, done) ↦
                  rw (popped, done, migrate_loop)
                    (moved popped done (
                      migrate_loop-enough fuel new_pool (stored_at new_pool kv s1).1 apart
                        (omega (arith, taken, same, enough))))
            ]
      ]

  -- A migration that succeeds has emptied the old pool.
  pub migrate_loop-drains :
      (fuel : ℕ) (new_pool : String) (s : State env)
      → (migrate_loop fuel new_pool s).0 ≡ ok tt
      → pool_size laws (migrate_loop fuel new_pool s).1 pool_db_name ≡ 0
  unfolding migrate_loop
  migrate_loop-drains zero new_pool s h = absurd (cc)
  migrate_loop-drains (suc fuel) new_pool s h =
      elim (Result-cases (Database.pop env.bolt env.networks pool_db_name s.file).0) [
        | inr (eof, bad) ↦
            rw
              (
                bad,
                migrate_loop,
                pop_fails_keeps env.bolt laws.bolt env.networks pool_db_name s.file (rw bad refl),
              )
              (pop-eof-size env.bolt laws.bolt env.networks pool_db_name s.file bad)
        | inr (e, bad) ↦ absurd (ground arith)
        | inl (kv, popped) ↦
            let s1 : State env = (pool_pop pool_db_name s).1 in
            let pn : PodNetwork = record (kv.value) {
              subnet_id = config.subnet_id;
              mac_address = config.master_mac_address;
            } in
            elim (Result-cases (put env.bolt env.networks new_pool kv.key pn s1.file).0) [
              | inr (e, bad) ↦ absurd (ground arith)
              | inl (u, done) ↦
                  rw (popped, done, migrate_loop)
                    (migrate_loop-drains fuel new_pool
                      (record s1 {
                        file = (put env.bolt env.networks new_pool kv.key pn s1.file).1;
                      })
                      (rw (popped, done, migrate_loop) at h))
            ]
      ]
