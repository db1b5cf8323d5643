-- ===== src/Examples/IpamdRuns.antt =====
-- The pools at concrete states.
use uk8s_cni_vpc.Prelude.{◌≤◌, String, ◌≡◌, refl, true, false, some, none, ◌⊎◌, [], ◌∷◌, arith}
use uk8s_cni_vpc.Result.{ok}
use uk8s_cni_vpc.Database
use uk8s_cni_vpc.Database.{KeyValue}
use uk8s_cni_vpc.Database.Laws.{Holds, Popped, pop-Popped}
use uk8s_cni_vpc.Ipamd.Types.{CooldownItem, BorrowIpRequest}
use uk8s_cni_vpc.Ipamd.World.{State, Env, Config}
use uk8s_cni_vpc.Ipamd.Pool.{
  cooldown_db_name, release_pool, put_ip_to_pool, lend_ip, recycle_cooldown_ip,
}
use uk8s_cni_vpc.Ipamd.Pool.Sizes.{pool_size, done, next, release_pool-size, release_pool-Releases}
use uk8s_cni_vpc.Ipamd.Pool.Lending.{
  InPool, GivenUp, Unstored, put_ip_to_pool-InPool, LendOutcome, lend_ip-LendOutcome,
}
use uk8s_cni_vpc.Ipamd.Uapi.{uapi_delete_secondary_ip}
use uk8s_cni_vpc.Ipamd.Pool.Cooling.{recycle_cooldown_ip-Holds}
use uk8s_cni_vpc.Examples.Toy.{
  network, cooldown, toy_bolt, toy_bolt_laws, toy_networks, toy_cooldowns, toy, toy_laws,
  toy_config, toy_address,
}

instance abbrev config : Config
config = toy_config

instance abbrev env : Env
env = toy

abbrev cooling_item : CooldownItem
cooling_item = record { network = toy_address; cooldown_over = 40 }

abbrev pool : String
pool = "cni-vpc-ip-pool-subnet-1"

-- One address in the pool, and one that cools down until 40 while the clock shows 5.
abbrev full : State toy
full = record {
  file = some (pool, "uvnet-1-10.0.0.9", network toy_address);
  pools = pool ∷ [];
  cloud = true;
  cluster = [];
  host = 5;
}

abbrev emptied : State toy
emptied = record full { file = none }

abbrev cooling : State toy
cooling = record full { file = some (cooldown_db_name, "uvnet-1-10.0.0.9", cooldown cooling_item) }

abbrev lender : BorrowIpRequest
lender = record { mac_address = "52:54:00:00:00:02"; subnet_id = "subnet-1" }

release_pool-size_example : 0 ≤ pool_size toy_laws (release_pool pool 1 full).1 pool
release_pool-size_example = release_pool-size toy_laws pool 1 full refl (omega arith)

lend_ip-LendOutcome_example :
    LendOutcome toy_laws lender full (lend_ip lender full).0 (lend_ip lender full).1
lend_ip-LendOutcome_example = lend_ip-LendOutcome toy_laws lender full

recycle_cooldown_ip-Holds_example :
    Holds toy_bolt toy_bolt_laws toy_cooldowns
      (recycle_cooldown_ip cooling).1.file
      cooldown_db_name
      "uvnet-1-10.0.0.9"
      cooling_item
recycle_cooldown_ip-Holds_example =
    recycle_cooldown_ip-Holds toy_laws "uvnet-1-10.0.0.9" cooling_item cooling
      (record { bytes = cooldown cooling_item; stored = refl; decodes = refl }) (omega arith)

pop-Popped_example :
    Popped toy_bolt toy_bolt_laws toy_networks pool full.file
      (Database.pop toy_bolt toy_networks pool full.file).1
      (record { key = "uvnet-1-10.0.0.9"; value = toy_address })
unfolding Database.pop
pop-Popped_example =
    pop-Popped toy_bolt toy_bolt_laws toy_networks pool full.file
      (record { key = "uvnet-1-10.0.0.9"; value = toy_address }) refl

release_pool-Releases_example : pool_size toy_laws (release_pool pool 1 full).1 pool ≡ 0
unfolding Database.pop uapi_delete_secondary_ip
release_pool-Releases_example =
    release_pool-Releases toy_laws pool 1 full refl (omega arith)
      (next (record { key = "uvnet-1-10.0.0.9"; value = toy_address }) refl refl done)

put_ip_to_pool-InPool_example :
    (((put_ip_to_pool toy_address emptied).0 ≡ ok true)
      × InPool toy_laws (put_ip_to_pool toy_address emptied).1.file toy_address)
    ⊎ (((put_ip_to_pool toy_address emptied).0 ≡ ok false)
        × Unstored toy_laws toy_address emptied
        × GivenUp toy_laws toy_address emptied (put_ip_to_pool toy_address emptied).1)
put_ip_to_pool-InPool_example = put_ip_to_pool-InPool toy_laws toy_address emptied
