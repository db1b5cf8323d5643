-- ===== src/Examples/PluginRuns.antt =====
-- The plugin beside a VPC service that knows one address, without a daemon.
use uk8s_cni_vpc.Prelude.{◌⊎◌, refl, [], ◌∷◌}
use uk8s_cni_vpc.Cnivpc.Subnets.{SubnetAvailableIp, select_subnet_by_allocation_strategy}
use uk8s_cni_vpc.Cnivpc.Subnets.Best.{Selected, select_subnet_by_allocation_strategy-Selected}
use uk8s_cni_vpc.Cnivpc.Addresses.{
  deallocate_secondary_ip, deallocate_existing, check_secondary_ip_exist, mac_address_of, object_id,
}
use uk8s_cni_vpc.Cnivpc.Addresses.Released.{Unknown, Deleted, deallocate_secondary_ip-Deleted}
use uk8s_cni_vpc.Examples.ToyPlugin.{plugin, fresh}
use uk8s_cni_vpc.Examples.Toy.{toy_address}

abbrev subnet_1 : SubnetAvailableIp
subnet_1 = record { id = "subnet-1"; available_ips = 2 }

abbrev subnet_2 : SubnetAvailableIp
subnet_2 = record { id = "subnet-2"; available_ips = 5 }

select_subnet_by_allocation_strategy-Selected_example :
    Selected "balanced"
      (subnet_1 ∷ subnet_2 ∷ [])
      (select_subnet_by_allocation_strategy "balanced" (subnet_1 ∷ subnet_2 ∷ []))
select_subnet_by_allocation_strategy-Selected_example =
    select_subnet_by_allocation_strategy-Selected "balanced" (subnet_1 ∷ subnet_2 ∷ [])

deallocate_secondary_ip-Deleted_example :
    Unknown toy_address fresh (deallocate_secondary_ip toy_address fresh).1
    ⊎ Deleted toy_address fresh (deallocate_secondary_ip toy_address fresh).1
unfolding deallocate_secondary_ip deallocate_existing check_secondary_ip_exist mac_address_of
    object_id
deallocate_secondary_ip-Deleted_example = deallocate_secondary_ip-Deleted toy_address fresh refl
