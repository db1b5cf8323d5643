-- ===== src/Ipamd/Types.antt =====
-- The data of pkg/ipamd: the messages of rpc/ipamd.proto, the custom resources of kubernetes/apis,
-- and what the program reads of pods and of the VPC service's answers. Times are seconds since the
-- epoch and counts are never negative, so both are numbers.
use uk8s_cni_vpc.Prelude.{ℕ, String, Bool, Option, List}

pub record PodNetwork : Type 0 where
  pub pod_name : String
  pub pod_ns : String
  pub pod_uid : String
  pub sandbox_id : String
  pub net_ns : String
  pub vpc_ip : String
  pub vpc_id : String
  pub subnet_id : String
  pub gateway : String
  pub mask : String
  pub mac_address : String
  pub dedicated_uni : Bool
  pub interface_id : String
  pub eip_id : String
  pub create_time : ℕ
  pub recycle_time : ℕ
  pub recycled : Bool

pub record AddPodNetworkRequest : Type 0 where
  pub pod_name : String
  pub pod_namespace : String
  pub sandbox_id : String
  pub netns : String
  pub if_name : String
  pub subnet_id : String
  pub mac_address : String
  pub interface_id : String

pub record BorrowIpRequest : Type 0 where
  pub mac_address : String
  pub subnet_id : String

pub record CooldownItem : Type 0 where
  pub network : PodNetwork
  pub cooldown_over : ℕ

-- `vpc.IpInfo` of the VPC service.
pub record IpInfo : Type 0 where
  pub ip : String
  pub vpc_id : String
  pub subnet_id : String
  pub mask : String
  pub mac : String
  pub gateway : String

-- The requests to the VPC service; `none` is a parameter that is not sent.
pub record AllocateRequest : Type 0 where
  pub mac : String
  pub ip : Option String
  pub object_id : String
  pub zone : String
  pub vpc_id : String
  pub subnet_id : String

pub record DescribeRequest : Type 0 where
  pub ip : String
  pub mac : Option String
  pub zone : Option String
  pub vpc_id : String
  pub subnet_id : String

pub record DeleteRequest : Type 0 where
  pub zone : String
  pub mac : String
  pub ip : String
  pub object_id : String
  pub vpc_id : String
  pub subnet_id : String

pub record MoveRequest : Type 0 where
  pub ip : String
  pub new_mac : String
  pub old_mac : String
  pub subnet_id : String

-- The `ipamd` resource: `current`, `high`, `low` and `status` are its status.
pub data Level : Type 0 where
  dry hungry normal overflow : Level

pub record IpamdStatus : Type 0 where
  pub current : ℕ
  pub high : ℕ
  pub low : ℕ
  pub status : Level

pub record Ipamd : Type 0 where
  pub name : String
  pub node : String
  pub addr : String
  pub subnet : String
  pub status : IpamdStatus

-- The `vpcipclaim` resource.
pub record VpcIpClaim : Type 0 where
  pub name : String
  pub namespace : String
  pub labels : List (String × String)
  pub finalizers : List String
  pub ip : String
  pub mask : String
  pub gateway : String
  pub subnet_id : String
  pub vpc_id : String
  pub attached : Bool
  pub zone : String
  pub last_detach_time : String
  pub mac : String
  pub release_time : String
  pub sandbox_id : String

-- An owner reference is its kind and name.
pub record Pod : Type 0 where
  pub name : String
  pub namespace : String
  pub uid : String
  pub owners : List (String × String)
  pub annotations : List (String × String)
  pub running : Bool
