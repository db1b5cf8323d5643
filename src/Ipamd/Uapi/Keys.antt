-- ===== src/Ipamd/Uapi/Keys.antt =====
-- pkg/ipamd/uapi.go: the calls of the VPC service write nothing to the bolt file.
use uk8s_cni_vpc.Prelude.{String, ◌≡◌, arith}
use uk8s_cni_vpc.Ipamd.Types.{AddPodNetworkRequest}
use uk8s_cni_vpc.Ipamd.World.{Env, Config, State}
use uk8s_cni_vpc.Ipamd.Uapi.{
  uapi_check_subnet_remains_ip, object_id_of, allocate, uapi_allocate_secondary_ip,
  uapi_allocate_specified_secondary_ip, uapi_describe_secondary_ip,
}

module _ ⦃env : Env⦄ ⦃config : Config⦄ where
  object_id_of-file :
      (interface_id : String) (s : State env) → (object_id_of interface_id s).1.file ≡ s.file
  unfolding object_id_of
  object_id_of-file interface_id s = ground arith

  remains-file :
      (subnet : String) (s : State env) → (uapi_check_subnet_remains_ip subnet s).1.file ≡ s.file
  unfolding uapi_check_subnet_remains_ip
  remains-file subnet s = ground arith

  pub uapi_allocate-file :
      (req : AddPodNetworkRequest) (s : State env)
      → (uapi_allocate_secondary_ip req s).1.file ≡ s.file
  unfolding uapi_allocate_secondary_ip uapi_check_subnet_remains_ip object_id_of allocate
  uapi_allocate-file req s = ground arith

  pub uapi_allocate_specified-file :
      (ip : String) (req : AddPodNetworkRequest) (s : State env)
      → (uapi_allocate_specified_secondary_ip ip req s).1.file ≡ s.file
  unfolding uapi_allocate_specified_secondary_ip object_id_of
  uapi_allocate_specified-file ip req s = ground arith

  pub uapi_describe-file :
      (ip subnet : String) (s : State env)
      → (uapi_describe_secondary_ip ip subnet s).1.file ≡ s.file
  unfolding uapi_describe_secondary_ip
  uapi_describe-file ip subnet s = ground arith
