-- ===== src/Cnivpc/Subnets.antt =====
-- cmd/cnivpc/rpc.go: the subnet that a new network interface is made in.
pub mod Best
use uk8s_cni_vpc.Prelude.{
  ℕ, zero, suc, ◌+◌, String, Bool, true, false, ◌||◌, Option, none, some, List, [], ◌∷◌, ◌==◌, ltb,
  leb, if◌then◌else◌,
}
use uk8s_cni_vpc.Result.{Result, ok, err, Error, failure}
use uk8s_cni_vpc.Step.{Step, pure, raise, lift, try, or_else, ◌>>=◌, ◌>>◌}
use uk8s_cni_vpc.Cnivpc.Plugin.{Plugin, PluginState, Act, on_sys}

pub record SubnetAvailableIp : Type 0 where
  pub id : String
  pub available_ips : ℕ

-- `SubnetAllocationStrategySequential` and `SubnetAllocationStrategyBalanced`
abbrev pub sequential : String
sequential = "sequential"

abbrev pub balanced : String
balanced = "balanced"

abbrev pub is_strategy : String → Bool
is_strategy strategy = strategy == "" || (strategy == sequential || strategy == balanced)

unfoldable pub validate_subnet_allocation_strategy : String → Result (Unit {0})
validate_subnet_allocation_strategy strategy =
    if is_strategy strategy
    then ok tt
    else err (failure "invalid podnetworking subnet allocation strategy")

-- `slices.MaxFunc`: the first of the greatest.
unfoldable pub max_available : SubnetAvailableIp → List SubnetAvailableIp → SubnetAvailableIp
max_available best [] = best
max_available best (x ∷ xs) =
    if ltb best.available_ips x.available_ips then max_available x xs else max_available best xs

unfoldable pub select_valid : String → List SubnetAvailableIp → Option SubnetAvailableIp
select_valid strategy [] = none
select_valid strategy (x ∷ xs) = if strategy == balanced then some (max_available x xs) else some x

unfoldable pub select_subnet_by_allocation_strategy :
    String → List SubnetAvailableIp → Result (Option SubnetAvailableIp)
select_subnet_by_allocation_strategy strategy subnets =
    elim (validate_subnet_allocation_strategy strategy) [
      | err e ↦ err e
      | ok u ↦ ok (select_valid strategy subnets)
    ]

module _ ⦃plugin : Plugin⦄ where
  unfoldable pub get_subnet_available_ips : String → String → Act ℕ
  get_subnet_available_ips vpc subnet s =
      let (r, s') = on_sys (plugin.describe_subnet vpc subnet) s in
      elim r [
        | err e ↦ (err (failure "DescribeSubnet from unetwork api service error"), s')
        | ok [] ↦ (err (failure "DescribeSubnet returned empty DataSet"), s')
        | ok (n ∷ rest) ↦ (ok n, s')
      ]

  -- The candidates that have an address left, in the order of the configuration: one that cannot be
  -- asked is skipped.
  unfoldable pub available_subnets : String → List String → Act (List SubnetAvailableIp)
  available_subnets vpc [] s = (ok [], s)
  available_subnets vpc (id ∷ ids) s =
      let (r, s1) = get_subnet_available_ips vpc id s in
      let (rest, s2) = available_subnets vpc ids s1 in
      (
        elim r [
          | err e ↦ rest
          | ok zero ↦ rest
          | ok (suc n) ↦ elim rest [
            | err e ↦ err e
            | ok xs ↦ ok (record { id = id; available_ips = suc n } ∷ xs)
          ]
        ],
        s2,
      )

  -- The part of `ensureSubnetUNI` that schedules.
  unfoldable pub schedule_subnet : String → String → List String → Act SubnetAvailableIp
  schedule_subnet strategy vpc ids = do
    subnets ← available_subnets vpc ids
    selected ← lift (select_subnet_by_allocation_strategy strategy subnets)
    elim selected [ none ↦ raise (failure "no available subnet") | some x ↦ pure x ]
