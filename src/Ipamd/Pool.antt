-- ===== src/Ipamd/Pool.antt =====
-- pkg/ipamd/pool.go: the pools of free addresses, one bucket for each subnet, and the bucket of
-- addresses that cool down.
pub mod Sizes
pub mod Cooling
pub mod Lending
pub mod Deposit
pub mod Keys
use uk8s_cni_vpc.Prelude.{
  ℕ, zero, suc, ◌+◌, ◌-◌, String, concat, Bool, true, false, ◌||◌, List, [], ◌∷◌, ◌==◌, leb,
  if◌then◌else◌,
}
use uk8s_cni_vpc.Result.{Result, ok, err, Error, eof, failure}
use uk8s_cni_vpc.Step.{Step, pure, raise, lift, try, or_else, modify, ◌>>=◌, ◌>>◌}
use uk8s_cni_vpc.Database
use uk8s_cni_vpc.Database.{KeyValue}
use uk8s_cni_vpc.Ipamd.Types.{PodNetwork, CooldownItem, BorrowIpRequest}
use uk8s_cni_vpc.Ipamd.World.{Env, Config, State, Io, on_file, time_now}
use uk8s_cni_vpc.Ipamd.Uapi.{uapi_delete_secondary_ip, uapi_move_secondary_ip_mac}

abbrev pub pool_db_name : String
pool_db_name = "cni-vpc-ip-pool"

abbrev pub cooldown_db_name : String
cooldown_db_name = "cni-vpc-ip-cooldown"

-- `getReservedIPKey`
abbrev pub reserved_ip_key : PodNetwork → String
reserved_ip_key pn = concat pn.vpc_id (concat "-" pn.vpc_ip)

abbrev pub contains : String → List String → Bool
contains x [] = false
contains x (y ∷ ys) = y == x || contains x ys

module _ ⦃env : Env⦄ where
  -- The operations of a pool, and those of the cooldown database.
  abbrev pub pool_put : String → PodNetwork → Io (Unit {0})
  pool_put pool pn = on_file (Database.put env.bolt env.networks pool (reserved_ip_key pn) pn)

  abbrev pub pool_pop : String → Io (KeyValue PodNetwork)
  pool_pop pool = on_file (Database.pop env.bolt env.networks pool)

  abbrev pub pool_count : String → Io ℕ
  pool_count pool = on_file (Database.count env.bolt pool)

  abbrev pub cooldown_put : CooldownItem → Io (Unit {0})
  cooldown_put item =
      on_file
        (Database.put env.bolt env.cooldowns cooldown_db_name (reserved_ip_key item.network) item)

  abbrev pub cooldown_delete : String → Io (Unit {0})
  cooldown_delete key = on_file (Database.delete env.bolt cooldown_db_name key)

  abbrev pub cooldown_list : Io (List (KeyValue CooldownItem))
  cooldown_list = on_file (Database.list env.bolt env.cooldowns cooldown_db_name)

module _ ⦃env : Env⦄ ⦃config : Config⦄ where
  -- The name of the pool of a subnet; no subnet is the node's own.
  unfoldable pub pool_name : String → String
  pool_name subnet_id =
      concat pool_db_name (concat "-" (if subnet_id == "" then config.subnet_id else subnet_id))

  unfoldable pub open_pool : String → Bool → Io String
  open_pool name create s =
      if contains name s.pools
      then (ok name, s)
      else if create
      then (let (r, s') =
            or_else (on_file (Database.new_bolt env.bolt name)) "init vpc ip pool database" s in
          elim r [
            | err e ↦ (err e, s')
            | ok pool ↦ (ok pool, record s' { pools = pool ∷ s'.pools })
          ])
      else (err (failure "cannot find subnet in this node"), s)

  unfoldable pub get_pool : String → Bool → Io String
  get_pool subnet_id create = open_pool (pool_name subnet_id) create

  pub backup_release_secondary_ip : PodNetwork → Io (Unit {0})
  backup_release_secondary_ip pn s = (ok tt, (uapi_delete_secondary_ip pn s).1)

  pub backup_push_secondary_ip : PodNetwork → Io (Unit {0})
  backup_push_secondary_ip pn s =
      (ok tt, ((get_pool pn.subnet_id true >>= λ pool. pool_put pool pn) s).1)

  -- What both `putIpToPool` and `putIpToCooldown` do with the outcome of the write.
  pub stored_or_released : PodNetwork → Result (Unit {0}) → Io Bool
  stored_or_released pn (ok u) = pure true
  stored_or_released pn (err e) = backup_release_secondary_ip pn >>= λ _. pure false

  pub put_ip_to_pool : PodNetwork → Io Bool
  put_ip_to_pool pn = do
    stored ← try (get_pool pn.subnet_id true >>= λ pool. pool_put pool pn)
    stored_or_released pn stored

  pub put_ip_to_cooldown : CooldownItem → Io Bool
  put_ip_to_cooldown item = do
    stored ← try (cooldown_put item)
    stored_or_released item.network stored

  pub cooldown_ip : PodNetwork → Io (Unit {0})
  cooldown_ip ip = do
    over_base ← time_now
    recycle_time ← time_now
    put_ip_to_cooldown (record {
      network = record ip { recycle_time = recycle_time; recycled = true };
      cooldown_over = over_base + config.cooldown_period;
    })
    pure tt

  pub release_loop : ℕ → String → Io (Unit {0})
  release_loop zero pool s = (ok tt, s)
  release_loop (suc n) pool s =
      let (popped, s1) = pool_pop pool s in
      elim popped [
        | err e ↦ (ok tt, s1)
        | ok kv ↦
            let (deleted, s2) = uapi_delete_secondary_ip kv.value s1 in
            elim deleted [
              | err e ↦ backup_push_secondary_ip kv.value s2
              | ok u ↦ release_loop n pool s2
            ]
      ]

  pub release_pool : String → ℕ → Io (Unit {0})
  release_pool pool size = release_loop (size - config.high_watermark) pool

  -- The addresses whose cooldown is over go back to their pools; a failed deletion ends the loop.
  pub recycle_loop : ℕ → List (KeyValue CooldownItem) → Io (Unit {0})
  recycle_loop now [] s = (ok tt, s)
  recycle_loop now (kv ∷ kvs) s = elim (leb kv.value.cooldown_over now) [
    | false ↦ recycle_loop now kvs s
    | true ↦
        let (deleted, s1) = cooldown_delete kv.key s in
        elim deleted [
          | err e ↦ (ok tt, s1)
          | ok u ↦ recycle_loop now kvs (put_ip_to_pool kv.value.network s1).1
        ]
  ]

  pub recycle_listed : Result (List (KeyValue CooldownItem)) → Io (Unit {0})
  recycle_listed (err e) = pure tt
  recycle_listed (ok kvs) = time_now >>= λ now. recycle_loop now kvs

  pub recycle_cooldown_ip : Io (Unit {0})
  recycle_cooldown_ip = try cooldown_list >>= recycle_listed

  pub lent : BorrowIpRequest → PodNetwork → Result (Unit {0}) → Io PodNetwork
  lent req pn (ok u) = pure (record pn { mac_address = req.mac_address })
  lent req pn (err e) = put_ip_to_pool pn >>= λ _. raise (failure "failed to call uapi to move ip")

  pub lend_ip : BorrowIpRequest → Io PodNetwork
  lend_ip req = do
    pool ← or_else (get_pool req.subnet_id false) "failed to get pool"
    kv ← or_else (pool_pop pool) "failed to pop ip from pool"
    moved ← try (
        uapi_move_secondary_ip_mac kv.value.vpc_ip kv.value.mac_address kv.value.subnet_id
          req.mac_address)
    lent req kv.value moved

  -- A pool that is above the high watermark is cut back, for each pool in turn.
  pub watermark_tick : List String → Io (Unit {0})
  watermark_tick [] s = (ok tt, s)
  watermark_tick (pool ∷ pools) s =
      let (counted, s1) = pool_count pool s in
      watermark_tick pools (elim counted [
        | err e ↦ s1
        | ok size ↦ if leb size config.high_watermark then s1 else (release_pool pool size s1).1
      ])
