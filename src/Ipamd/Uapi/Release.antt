-- ===== src/Ipamd/Uapi/Release.antt =====
-- pkg/ipamd/uapi.go: the calls of the VPC service leave the stored pools alone.
use uk8s_cni_vpc.Prelude.{String, ◌≡◌, arith}
use uk8s_cni_vpc.Ipamd.Types.{PodNetwork}
use uk8s_cni_vpc.Ipamd.World.{Env, Config, State}
use uk8s_cni_vpc.Ipamd.Uapi.{
  uapi_delete_secondary_ip, uapi_move_secondary_ip_mac, check_secondary_ip_exist,
}

-- Two states with the same stored data and the same open pools.
pub record SameStore {env : Env} (s s' : State env) : Type 0 where
  pub file : s'.file ≡ s.file
  pub pools : s'.pools ≡ s.pools

module _ ⦃env : Env⦄ ⦃config : Config⦄ where
  pub uapi_delete-SameStore :
      (pn : PodNetwork) (s : State env) → SameStore s (uapi_delete_secondary_ip pn s).1
  unfolding uapi_delete_secondary_ip
  uapi_delete-SameStore pn s = record { file = ground arith; pools = ground arith }

  pub uapi_move-SameStore :
      (ip old_mac subnet target : String) (s : State env)
      → SameStore s (uapi_move_secondary_ip_mac ip old_mac subnet target s).1
  unfolding uapi_move_secondary_ip_mac
  uapi_move-SameStore ip old_mac subnet target s = record {
    file = ground arith;
    pools = ground arith;
  }

  pub check_exist-SameStore :
      (pn : PodNetwork) (s : State env) → SameStore s (check_secondary_ip_exist pn s).1
  unfolding check_secondary_ip_exist
  check_exist-SameStore pn s = record { file = ground arith; pools = ground arith }
