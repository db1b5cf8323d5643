-- ===== src/Ipamd/Pool/Cooling.antt =====
-- pkg/ipamd/pool.go: an address stays out of the pools until its cooldown is over.
use text.Mathlib.Text.{starts_with}
use text.Mathlib.TextPositions.{starts_with-append}
use uk8s_cni_vpc.Prelude.{
  ℕ, ◌<◌, String, ◌≡◌, refl, ap, subst, ◌∙◌, inl, inr, true, false, Bool-cases, List, [], ◌∷◌, ◌==◌,
  eq_iff, Option, false≢true, leb, arith, All, All-map,
}
use uk8s_cni_vpc.Result.{Result, ok, err, Result-cases}
use uk8s_cni_vpc.Step.{◌>>=◌}
use uk8s_cni_vpc.Database
use uk8s_cni_vpc.Database.{KeyValue}
use uk8s_cni_vpc.Database.Laws.{
  Holds, put-entry_other, delete-entry, delete_fails_keeps, list-AllHeld, list_keeps, Holds-unique,
}
use uk8s_cni_vpc.Ipamd.Types.{PodNetwork, CooldownItem}
use uk8s_cni_vpc.Ipamd.World.{Env, EnvLaws, Config, State}
use uk8s_cni_vpc.Ipamd.Uapi.Release.{uapi_delete-SameStore}
use uk8s_cni_vpc.Ipamd.Pool.{
  pool_name, pool_db_name, cooldown_db_name, pool_put, get_pool, put_ip_to_pool, stored_or_released,
  backup_release_secondary_ip, cooldown_delete, cooldown_list, recycle_loop, recycle_listed,
  recycle_cooldown_ip, reserved_ip_key,
}
use uk8s_cni_vpc.Ipamd.Pool.Lending.{get_pool-SameEntries, get_pool-eq-ok}

module _ ⦃env : Env⦄ ⦃config : Config⦄ where
  -- No pool is the cooldown bucket.
  pub pool_name-ne : (subnet : String) → (pool_name subnet == cooldown_db_name) ≡ false
  unfolding pool_name
  pool_name-ne subnet = elim (Bool-cases (pool_name subnet == cooldown_db_name)) [
    | inr e ↦ e
    | inl e ↦
        let same = (eq_iff (pool_name subnet) cooldown_db_name).0 e in
        let wrong : starts_with cooldown_db_name pool_db_name ≡ true =
          subst (λ t. starts_with t pool_db_name ≡ true) same (starts_with-append pool_db_name _) in
        absurd (false≢true wrong)
  ]

module _ ⦃env : Env⦄ ⦃config : Config⦄ (laws : EnvLaws env) where
  abbrev cooling : env.bolt.File → String → Option env.bolt.Bytes
  cooling f key = laws.bolt.entry f cooldown_db_name key

  pool_put-cooling :
      (subnet : String) (pn : PodNetwork) (key : String) (s : State env)
      → cooling (pool_put (pool_name subnet) pn s).1.file key ≡ cooling s.file key
  pool_put-cooling subnet pn key s =
      put-entry_other env.bolt laws.bolt env.networks (pool_name subnet) (reserved_ip_key pn) pn
        s.file cooldown_db_name key (rw (pool_name-ne subnet) refl)

  stored_or_released-cooling :
      (pn : PodNetwork) (r : Result (Unit {0})) (key : String) (s : State env)
      → cooling (stored_or_released pn r s).1.file key ≡ cooling s.file key
  unfolding stored_or_released backup_release_secondary_ip
  stored_or_released-cooling pn (ok u) key s = refl
  stored_or_released-cooling pn (err e) key s =
      ap (λ f. cooling f key) (uapi_delete-SameStore pn s).file

  -- A write to a pool does not touch the addresses that cool down.
  put_ip_to_pool-cooling :
      (pn : PodNetwork) (key : String) (s : State env)
      → cooling (put_ip_to_pool pn s).1.file key ≡ cooling s.file key
  unfolding put_ip_to_pool
  put_ip_to_pool-cooling pn key s = elim (Result-cases (get_pool pn.subnet_id true s).0) [
    | inr (e, bad) ↦
        rw (bad, ◌>>=◌)
          (stored_or_released-cooling pn (err e) key (get_pool pn.subnet_id true s).1
            ∙ get_pool-SameEntries laws pn.subnet_id true s cooldown_db_name key)
    | inl (pool, found) ↦
        let t : State env = (get_pool pn.subnet_id true s).1 in
        let name : String = pool_name pn.subnet_id in
        let named : (get_pool pn.subnet_id true s).0 ≡ ok name =
          found ∙ ap ok (get_pool-eq-ok laws pn.subnet_id true pool s found) in
        rw (named, ◌>>=◌)
          (stored_or_released-cooling pn (pool_put name pn t).0 key (pool_put name pn t).1
            ∙ pool_put-cooling pn.subnet_id pn key t
            ∙ get_pool-SameEntries laws pn.subnet_id true s cooldown_db_name key)
  ]

  -- The listed item under `key`, if any, has its cooldown ahead.
  abbrev Ahead : ℕ → String → KeyValue CooldownItem → Type 0
  Ahead now key kv = kv.key ≡ key → now < kv.value.cooldown_over

  other_key :
      (now : ℕ) (key : String) (kv : KeyValue CooldownItem)
      → leb kv.value.cooldown_over now ≡ true
      → Ahead now key kv
      → (kv.key == key) ≡ false
  other_key now key kv over ahead = elim (Bool-cases (kv.key == key)) [
    | inr e ↦ e
    | inl e ↦ absurd (let late = ahead ((eq_iff kv.key key).0 e) in ground arith)
  ]

  recycle_loop-cooling :
      (now : ℕ) (key : String) (kvs : List (KeyValue CooldownItem)) (s : State env)
      → All (Ahead now key) kvs
      → cooling (recycle_loop now kvs s).1.file key ≡ cooling s.file key
  unfolding recycle_loop
  recycle_loop-cooling now key [] s ahead = refl
  recycle_loop-cooling now key (kv ∷ kvs) s ahead =
      elim (Bool-cases (leb kv.value.cooldown_over now)) [
        | inr later ↦ rw (later, recycle_loop) (recycle_loop-cooling now key kvs s ahead.1)
        | inl over ↦
            elim (Result-cases (Database.delete env.bolt cooldown_db_name kv.key s.file).0) [
              | inr (e, bad) ↦
                  rw (over, bad, recycle_loop)
                    (rw
                      (delete_fails_keeps env.bolt laws.bolt cooldown_db_name kv.key s.file
                        (rw bad refl))
                      refl)
              | inl (u, done) ↦
                  let t : State env = (cooldown_delete kv.key s).1 in
                  rw (over, done, recycle_loop)
                    (recycle_loop-cooling now key kvs (put_ip_to_pool kv.value.network t).1 ahead.1
                      ∙ put_ip_to_pool-cooling kv.value.network key t
                      ∙ (delete-entry env.bolt laws.bolt cooldown_db_name kv.key s.file
                            cooldown_db_name key done
                          ∙ rw (other_key now key kv over ahead.0) refl))
            ]
      ]

  -- An address whose cooldown is not over when the clock is read stays in the cooldown set, whatever
  -- else is recycled or fails in the same run.
  pub recycle_cooldown_ip-Holds :
      (key : String) (item : CooldownItem) (s : State env)
      → Holds env.bolt laws.bolt env.cooldowns s.file cooldown_db_name key item
      → (env.now s.host).0 < item.cooldown_over
      → Holds env.bolt laws.bolt env.cooldowns
          (recycle_cooldown_ip s).1.file
          cooldown_db_name
          key
          item
  unfolding recycle_cooldown_ip recycle_listed
  recycle_cooldown_ip-Holds key item s held early = record {
    bytes = held.bytes;
    stored = recycle_listed-cooling (cooldown_list s).0 refl ∙ held.stored;
    decodes = held.decodes;
  }
    where
      t : State env
      t = (cooldown_list s).1

      ahead :
          (kv : KeyValue CooldownItem)
          → Holds env.bolt laws.bolt env.cooldowns s.file cooldown_db_name kv.key kv.value
          → Ahead (env.now s.host).0 key kv
      ahead kv listed same =
          let at_key =
            subst (λ k. Holds env.bolt laws.bolt env.cooldowns s.file cooldown_db_name k kv.value)
              same listed in
          let equal =
            Holds-unique env.bolt laws.bolt env.cooldowns s.file cooldown_db_name key item kv.value
              held at_key in
          subst (λ i. (env.now s.host).0 < i.cooldown_over) equal early

      recycle_listed-cooling :
          (r : Result (List (KeyValue CooldownItem)))
          → (cooldown_list s).0 ≡ r
          → cooling (recycle_listed r t).1.file key ≡ cooling s.file key
      recycle_listed-cooling (err e) h =
          ap (λ f. cooling f key)
            (list_keeps env.bolt laws.bolt env.cooldowns cooldown_db_name s.file)
      recycle_listed-cooling (ok kvs) h =
          recycle_loop-cooling (env.now s.host).0 key kvs _ (
            All-map _ _ kvs ahead
              (list-AllHeld env.bolt laws.bolt env.cooldowns cooldown_db_name s.file kvs h).0)
          ∙ ap (λ f. cooling f key)
              (list_keeps env.bolt laws.bolt env.cooldowns cooldown_db_name s.file)
