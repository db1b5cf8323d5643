-- ===== src/Ipamd/Pool/Keys.antt =====
-- pkg/ipamd/pool.go: the operations on the pools and on the cooldown set keep every address under
-- its own key.
use uk8s_cni_vpc.Prelude.{
  ℕ, zero, suc, ◌+◌, ◌-◌, String, sym, ap, ◌∙◌, inl, inr, Bool, true, false, Bool-cases, List, [],
  ◌∷◌, leb,
}
use uk8s_cni_vpc.Result.{Result, ok, err, Result-cases}
use uk8s_cni_vpc.Step.{◌>>=◌}
use uk8s_cni_vpc.Database.{KeyValue}
use uk8s_cni_vpc.Database.Writes.{count-NoMore, delete-NoMore, pop-NoMore, list-NoMore}
use uk8s_cni_vpc.Ipamd.Types.{PodNetwork, CooldownItem, BorrowIpRequest}
use uk8s_cni_vpc.Ipamd.World.{Env, EnvLaws, Config}
use uk8s_cni_vpc.Ipamd.Uapi.{uapi_delete_secondary_ip}
use uk8s_cni_vpc.Ipamd.Uapi.Release.{uapi_delete-SameStore, uapi_move-SameStore}
use uk8s_cni_vpc.Ipamd.Pool.{
  cooldown_db_name, pool_put, pool_pop, pool_count, cooldown_delete, get_pool, put_ip_to_pool,
  put_ip_to_cooldown, stored_or_released, backup_release_secondary_ip, backup_push_secondary_ip,
  cooldown_ip, release_loop, release_pool, recycle_loop, recycle_listed, recycle_cooldown_ip, lent,
  lend_ip, watermark_tick,
}
use uk8s_cni_vpc.Ipamd.Pool.Lending.{get_pool-eq-ok, get_pool-SameEntries}
use uk8s_cni_vpc.Ipamd.Keyed.{
  Keyed, Keeps, bind-Keeps, same-Keeps, less-Keeps, try-Keeps, or_else-Keeps, pure-Keeps,
  raise-Keeps, time-Keeps, pool_put-Keeps, cooldown_put-Keeps,
}

module _ ⦃env : Env⦄ ⦃config : Config⦄ (laws : EnvLaws env) where
  pub uapi_delete-Keeps : (pn : PodNetwork) → Keeps laws (uapi_delete_secondary_ip pn)
  uapi_delete-Keeps pn = same-Keeps laws _ (λ s. (uapi_delete-SameStore pn s).file)

  pub pool_pop-Keeps : (pool : String) → Keeps laws (pool_pop pool)
  pool_pop-Keeps pool =
      less-Keeps laws _ (λ s. pop-NoMore env.bolt laws.bolt env.networks pool s.file)

  pub pool_count-Keeps : (pool : String) → Keeps laws (pool_count pool)
  pool_count-Keeps pool = less-Keeps laws _ (λ s. count-NoMore env.bolt laws.bolt pool s.file)

  pub get_pool-Keeps : (subnet : String) (create : Bool) → Keeps laws (get_pool subnet create)
  get_pool-Keeps subnet create =
      less-Keeps laws _ (λ s m j v h. sym (get_pool-SameEntries laws subnet create s m j) ∙ h)

  pub backup_release-Keeps : (pn : PodNetwork) → Keeps laws (backup_release_secondary_ip pn)
  unfolding backup_release_secondary_ip
  backup_release-Keeps pn = record { run = (uapi_delete-Keeps pn).run }

  -- An address is written to the pool that its subnet names.
  pub push-Keeps :
      (pn : PodNetwork) → Keeps laws (get_pool pn.subnet_id true >>= λ pool. pool_put pool pn)
  push-Keeps pn = record {
    run = λ s k. elim (Result-cases (get_pool pn.subnet_id true s).0) [
      | inr (e, bad) ↦ rw (bad, ◌>>=◌) ((get_pool-Keeps pn.subnet_id true).run s k)
      | inl (pool, found) ↦
          rw (found ∙ ap ok (get_pool-eq-ok laws pn.subnet_id true pool s found), ◌>>=◌)
            ((pool_put-Keeps laws pn).run (get_pool pn.subnet_id true s).1
              ((get_pool-Keeps pn.subnet_id true).run s k))
    ];
  }

  pub stored_or_released-Keeps :
      (pn : PodNetwork) (r : Result (Unit {0})) → Keeps laws (stored_or_released pn r)
  unfolding stored_or_released
  stored_or_released-Keeps pn (ok u) = pure-Keeps laws _
  stored_or_released-Keeps pn (err e) =
      bind-Keeps laws _ _ (backup_release-Keeps pn) (λ _. pure-Keeps laws _)

  pub put_ip_to_pool-Keeps : (pn : PodNetwork) → Keeps laws (put_ip_to_pool pn)
  unfolding put_ip_to_pool
  put_ip_to_pool-Keeps pn =
      bind-Keeps laws _ _ (try-Keeps laws _ (push-Keeps pn)) (stored_or_released-Keeps pn)

  pub put_ip_to_cooldown-Keeps : (item : CooldownItem) → Keeps laws (put_ip_to_cooldown item)
  unfolding put_ip_to_cooldown
  put_ip_to_cooldown-Keeps item =
      bind-Keeps laws _ _ (try-Keeps laws _ (cooldown_put-Keeps laws item))
        (stored_or_released-Keeps item.network)

  pub cooldown_ip-Keeps : (pn : PodNetwork) → Keeps laws (cooldown_ip pn)
  unfolding cooldown_ip
  cooldown_ip-Keeps pn = bind-Keeps laws _ _ (time-Keeps laws) λ over_base.
      bind-Keeps laws _ _ (time-Keeps laws) λ recycle_time.
        bind-Keeps laws _ _
          (put_ip_to_cooldown-Keeps (record {
            network = record pn { recycle_time = recycle_time; recycled = true };
            cooldown_over = over_base + config.cooldown_period;
          }))
          λ stored. pure-Keeps laws _

  pub release_loop-Keeps : (n : ℕ) (pool : String) → Keeps laws (release_loop n pool)
  unfolding release_loop backup_push_secondary_ip
  release_loop-Keeps zero pool = record { run = λ s k. k }
  release_loop-Keeps (suc n) pool = record {
    run = λ s k.
        let after : Keyed laws (pool_pop pool s).1.file = (pool_pop-Keeps pool).run s k in
        elim (Result-cases (pool_pop pool s).0) [
          | inr (e, bad) ↦ rw (bad, release_loop) after
          | inl (kv, taken) ↦
              let gone : Keyed laws (uapi_delete_secondary_ip kv.value (pool_pop pool s).1).1.file =
                (uapi_delete-Keeps kv.value).run (pool_pop pool s).1 after in
              elim (Result-cases (uapi_delete_secondary_ip kv.value (pool_pop pool s).1).0) [
                | inr (e, bad) ↦ rw (taken, bad, release_loop) ((push-Keeps kv.value).run _ gone)
                | inl (u, done) ↦
                    rw (taken, done, release_loop) ((release_loop-Keeps n pool).run _ gone)
              ]
        ];
  }

  pub recycle_loop-Keeps :
      (now : ℕ) (kvs : List (KeyValue CooldownItem)) → Keeps laws (recycle_loop now kvs)
  unfolding recycle_loop
  recycle_loop-Keeps now [] = record { run = λ s k. k }
  recycle_loop-Keeps now (kv ∷ kvs) = record {
    run = λ s k.
        let after : Keyed laws (cooldown_delete kv.key s).1.file =
          (less-Keeps laws (cooldown_delete kv.key)
              (λ t. delete-NoMore env.bolt laws.bolt cooldown_db_name kv.key t.file)).run
            s k in
        elim (Bool-cases (leb kv.value.cooldown_over now)) [
          | inr later ↦ rw (later, recycle_loop) ((recycle_loop-Keeps now kvs).run s k)
          | inl over ↦ elim (Result-cases (cooldown_delete kv.key s).0) [
            | inr (e, bad) ↦ rw (over, bad, recycle_loop) after
            | inl (u, done) ↦
                rw (over, done, recycle_loop)
                  ((recycle_loop-Keeps now kvs).run
                    (put_ip_to_pool kv.value.network (cooldown_delete kv.key s).1).1
                    ((put_ip_to_pool-Keeps kv.value.network).run (cooldown_delete kv.key s).1
                      after))
          ]
        ];
  }

  recycle_listed-Keeps : (r : Result (List (KeyValue CooldownItem))) → Keeps laws (recycle_listed r)
  unfolding recycle_listed
  recycle_listed-Keeps (err e) = pure-Keeps laws _
  recycle_listed-Keeps (ok kvs) =
      bind-Keeps laws _ _ (time-Keeps laws) λ now. recycle_loop-Keeps now kvs

  pub recycle_cooldown_ip-Keeps : Keeps laws recycle_cooldown_ip
  unfolding recycle_cooldown_ip
  recycle_cooldown_ip-Keeps =
      bind-Keeps laws _ _
        (try-Keeps laws _ (
          less-Keeps laws _
            (λ t. list-NoMore env.bolt laws.bolt env.cooldowns cooldown_db_name t.file)))
        recycle_listed-Keeps

  lent-Keeps :
      (req : BorrowIpRequest) (pn : PodNetwork) (r : Result (Unit {0})) → Keeps laws (lent req pn r)
  unfolding lent
  lent-Keeps req pn (ok u) = pure-Keeps laws _
  lent-Keeps req pn (err e) =
      bind-Keeps laws _ _ (put_ip_to_pool-Keeps pn) (λ _. raise-Keeps laws _)

  pub lend_ip-Keeps : (req : BorrowIpRequest) → Keeps laws (lend_ip req)
  unfolding lend_ip
  lend_ip-Keeps req =
      bind-Keeps laws _ _ (or_else-Keeps laws _ _ (get_pool-Keeps req.subnet_id false)) λ pool.
        bind-Keeps laws _ _ (or_else-Keeps laws _ _ (pool_pop-Keeps pool)) λ kv.
          bind-Keeps laws _ _
            (try-Keeps laws _ (
              same-Keeps laws _ (λ s.
                (uapi_move-SameStore kv.value.vpc_ip kv.value.mac_address kv.value.subnet_id
                  req.mac_address s).file)))
            (lent-Keeps req kv.value)

  pub watermark_tick-Keeps : (pools : List String) → Keeps laws (watermark_tick pools)
  unfolding watermark_tick release_pool
  watermark_tick-Keeps [] = record { run = λ s k. k }
  watermark_tick-Keeps (pool ∷ pools) = record {
    run = λ s k.
        let counted : Keyed laws (pool_count pool s).1.file = (pool_count-Keeps pool).run s k in
        elim (Result-cases (pool_count pool s).0) [
          | inr (e, bad) ↦
              rw (bad, watermark_tick)
                ((watermark_tick-Keeps pools).run (pool_count pool s).1 counted)
          | inl (size, h) ↦ elim (Bool-cases (leb size config.high_watermark)) [
            | inl low ↦
                rw (h, low, watermark_tick)
                  ((watermark_tick-Keeps pools).run (pool_count pool s).1 counted)
            | inr high ↦
                rw (h, high, watermark_tick)
                  ((watermark_tick-Keeps pools).run (release_pool pool size (pool_count pool s).1).1
                    ((release_loop-Keeps (size - config.high_watermark) pool).run
                      (pool_count pool s).1 counted))
          ]
        ];
  }
