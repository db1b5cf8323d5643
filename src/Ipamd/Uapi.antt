-- ===== src/Ipamd/Uapi.antt =====
-- pkg/ipamd/uapi.go: the calls of the VPC service.
pub mod Release
pub mod Keys
use uk8s_cni_vpc.Prelude.{
  ℕ, String, Bool, true, false, Option, none, some, List, [], ◌∷◌, ◌==◌, ◌||◌, eqb, if◌then◌else◌,
}
use uk8s_cni_vpc.Result.{Result, ok, err, Error, eof, out_of_ip, ret_code, failure}
use uk8s_cni_vpc.Step.{Step, pure, raise, lift, try, or_else, ◌>>=◌, ◌>>◌}
use uk8s_cni_vpc.Ipamd.Types.{
  PodNetwork, AddPodNetworkRequest, IpInfo, AllocateRequest, DescribeRequest, DeleteRequest,
  MoveRequest,
}
use uk8s_cni_vpc.Ipamd.World.{Env, Config, State, Io, on_cloud, on_host}

abbrev pub uapi_error_ip_not_exist : ℕ
uapi_error_ip_not_exist = 58221

abbrev pub uapi_error_subnet_not_enough : ℕ
uapi_error_subnet_not_enough = 57000

-- The zero value of `vpc.IpInfo`.
abbrev pub zero_ip_info : IpInfo
zero_ip_info = record { ip = ""; vpc_id = ""; subnet_id = ""; mask = ""; mac = ""; gateway = "" }

-- The answer to an allocation: the return code for an exhausted subnet becomes `ErrOutOfIP`.
abbrev pub out_of_ip_code : Result IpInfo → Result IpInfo
out_of_ip_code (ok info) = ok info
out_of_ip_code (err (ret_code n)) =
    if eqb n uapi_error_subnet_not_enough then err out_of_ip else err (ret_code n)
out_of_ip_code (err e) = err e

-- The answer to a deletion: an address that is not there counts as deleted.
abbrev pub deleted_before : Result (Unit {0}) → Result (Unit {0})
deleted_before (ok u) = ok tt
deleted_before (err (ret_code n)) =
    if eqb n uapi_error_ip_not_exist then ok tt else err (ret_code n)
deleted_before (err e) = err e

abbrev pub remains : List ℕ → Result (Unit {0})
remains [] = err (failure "subnet not found")
remains (available ∷ _) = if eqb available 0 then err out_of_ip else ok tt

abbrev pub contains_ip : String → List IpInfo → Bool
contains_ip ip [] = false
contains_ip ip (info ∷ rest) = info.ip == ip || contains_ip ip rest

abbrev pub first_info : List IpInfo → Option IpInfo
first_info [] = none
first_info (info ∷ _) = some info

-- An answer whose error is logged and dropped leaves the zero value.
abbrev pub swallow : Result IpInfo → IpInfo
swallow (ok info) = info
swallow (err e) = zero_ip_info

module _ ⦃env : Env⦄ ⦃config : Config⦄ where
  pub uapi_check_subnet_remains_ip : String → Io (Unit {0})
  uapi_check_subnet_remains_ip subnet_id = do
    on_cloud env.vpc_client
    available ← on_cloud (env.describe_subnet config.vpc_id subnet_id)
    lift (remains available)

  abbrev or_host_id : Result String → String
  or_host_id (ok id) = id
  or_host_id (err e) = config.host_id

  pub object_id_of : String → Io String
  object_id_of interface_id =
      if interface_id == ""
      then (try (on_host env.object_id_for_secondary_ip) >>= λ r. pure (or_host_id r))
      else pure interface_id

  pub allocate : AllocateRequest → Io IpInfo
  allocate request s =
      let (r, s') = on_cloud (env.allocate_secondary_ip request) s in (out_of_ip_code r, s')

  pub uapi_allocate_secondary_ip : AddPodNetworkRequest → Io IpInfo
  uapi_allocate_secondary_ip req = do
    on_cloud env.vpc_client
    uapi_check_subnet_remains_ip req.subnet_id
    object_id ← object_id_of req.interface_id
    allocate (record {
      mac = req.mac_address;
      ip = none;
      object_id = object_id;
      zone = config.zone_id;
      vpc_id = config.vpc_id;
      subnet_id = req.subnet_id;
    })

  -- The error of the call is logged only, so the caller gets whatever the answer holds.
  pub uapi_allocate_specified_secondary_ip : String → AddPodNetworkRequest → Io IpInfo
  uapi_allocate_specified_secondary_ip ip req = do
    on_cloud env.vpc_client
    object_id ← object_id_of req.interface_id
    answer ← try (
        on_cloud (
          env.allocate_secondary_ip (record {
            mac = req.mac_address;
            ip = some ip;
            object_id = object_id;
            zone = config.zone_id;
            vpc_id = config.vpc_id;
            subnet_id = req.subnet_id;
          })))
    pure (swallow answer)

  pub uapi_describe_secondary_ip : String → String → Io (Option IpInfo)
  uapi_describe_secondary_ip ip subnet_id = do
    on_cloud env.vpc_client
    infos ← on_cloud (
        env.describe_secondary_ip (record {
          ip = ip;
          mac = none;
          zone = none;
          vpc_id = config.vpc_id;
          subnet_id = subnet_id;
        }))
    pure (first_info infos)

  pub uapi_move_secondary_ip_mac : String → String → String → String → Io (Unit {0})
  uapi_move_secondary_ip_mac ip old_mac subnet_id target_mac = do
    on_cloud env.vpc_client
    on_cloud (
        env.move_secondary_ip_mac
          (record { ip = ip; new_mac = target_mac; old_mac = old_mac; subnet_id = subnet_id }))

  unfoldable pub check_secondary_ip_exist : PodNetwork → Io Bool
  check_secondary_ip_exist pn = do
    on_cloud env.vpc_client
    infos ← on_cloud (
        env.describe_secondary_ip (record {
          ip = pn.vpc_ip;
          mac = some pn.mac_address;
          zone = some config.availability_zone;
          vpc_id = config.vpc_id;
          subnet_id = pn.subnet_id;
        }))
    pure (contains_ip pn.vpc_ip infos)

  pub delete_request : PodNetwork → DeleteRequest
  delete_request pn = record {
    zone = config.zone_id;
    mac = pn.mac_address;
    ip = pn.vpc_ip;
    object_id = (if pn.interface_id == "" then config.host_id else pn.interface_id);
    vpc_id = config.vpc_id;
    subnet_id = pn.subnet_id;
  }

  unfoldable pub delete_existing : PodNetwork → Bool → Io (Unit {0})
  delete_existing pn exist =
      if exist
      then (on_cloud env.vpc_client >>= λ _.
          try (on_cloud (env.delete_secondary_ip (delete_request pn))) >>= λ answer.
          lift (deleted_before answer))
      else pure tt

  unfoldable pub uapi_delete_secondary_ip : PodNetwork → Io (Unit {0})
  unfolding check_secondary_ip_exist delete_existing
  uapi_delete_secondary_ip pn = do
    exist ← or_else (check_secondary_ip_exist pn) "cannot find secondary ip"
    delete_existing pn exist
