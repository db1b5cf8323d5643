-- ===== src/Uapi.antt =====
-- pkg/uapi: what the node is, from the metadata server and the UHost service.
pub mod Memo
use text.Mathlib.Text.{starts_with}
use uk8s_cni_vpc.Prelude.{
  String, Bool, true, false, ◌&&◌, ◌||◌, Option, none, some, List, [], ◌∷◌, ◌==◌, not,
  if◌then◌else◌,
}
use uk8s_cni_vpc.Result.{Result, ok, err, Error, failure}
use uk8s_cni_vpc.Step.{Step, pure, raise, try, or_else, ◌>>=◌, ◌>>◌}

-- An interface of the metadata document.
pub record MetaInterface : Type 0 where
  pub id : String
  pub subnet_id : String
  pub mac : String
  pub is_default : Bool

-- `metadata.Metadata`, with the interfaces of `UHost` and `UPHost`.
pub record Metadata : Type 0 where
  pub instance_id : String
  pub uhost_interfaces : List MetaInterface
  pub uphost_interfaces : List MetaInterface

-- An entry of `UHostInstanceSet.IPSet`, and the instance.
pub record UhostIp : Type 0 where
  pub default : String
  pub network_interface_id : String

pub record UhostInstance : Type 0 where
  pub ip_set : List UhostIp
  pub net_feature_tag : String

-- The metadata client, the clients of the services, the host's interfaces (their names and MAC
-- addresses), `strings.EqualFold`, `strings.ToUpper` and
-- `ToLower`.
pub record UapiLib (S : Type 0) : Type 0 where
  pub get_instance_identity_document : Step S Metadata
  pub new_client : Step S (Unit {0})
  pub instance_id : String
  pub uhost_client : Step S (Unit {0})
  pub describe_uhost_instance : String → Step S (List UhostInstance)
  pub interfaces : Step S (List (String × String))
  pub equal_fold : String → String → Bool
  pub to_upper : String → String
  pub to_lower : String → String

-- The variables `meta` and `metaOnce`.
pub record MetaMemo : Type 0 where
  pub meta : Option Metadata
  pub once_done : Bool

abbrev pub instance_type : String → String
instance_type resource =
    if starts_with resource "uhost-"
    then "UHost"
    else if starts_with resource "upm-"
    then "UPM"
    else if starts_with resource "docker-"
    then "UDocker"
    else if starts_with resource "udhost-"
    then "UDHost"
    else if starts_with resource "uni-"
    then "UNI"
    else if starts_with resource "cube-"
    then "Cube"
    else "Unknown"

-- The interface of the default address, if one is named.
unfoldable pub default_interface : List UhostIp → Option String
default_interface [] = none
default_interface (ip ∷ ips) =
    if ip.default == "true" && not (ip.network_interface_id == "")
    then some ip.network_interface_id
    else default_interface ips

unfoldable pub supports_uni : List UhostIp → Bool
supports_uni [] = false
supports_uni (ip ∷ ips) = starts_with ip.network_interface_id "uni-" || supports_uni ips

pub record Ability : Type 0 where
  pub instance_id : String
  pub support_uni : Bool
  pub sec_group : Bool

unfoldable pub object_of : String → Result (List UhostInstance) → String
object_of instance_id (err e) = instance_id
object_of instance_id (ok []) = instance_id
object_of instance_id (ok (uhost ∷ uhosts)) = elim (default_interface uhost.ip_set) [
  | none ↦ instance_id
  | some id ↦ id
]

-- `ifaceMap[…]`, where a later interface replaces an earlier one.
unfoldable pub interface_of_mac :
    (String → String) → String → List MetaInterface → Option MetaInterface
interface_of_mac to_upper mac [] = none
interface_of_mac to_upper mac (x ∷ xs) = elim (interface_of_mac to_upper mac xs) [
  | some y ↦ some y
  | none ↦ if to_upper x.mac == mac then some x else none
]

-- The devices that an interface of the metadata belongs to, by MAC address.
unfoldable pub matched :
    (String → String) → List MetaInterface → List (String × String) → List (MetaInterface × String)
matched to_upper infos [] = []
matched to_upper infos ((dev, mac) ∷ devices) =
    elim (interface_of_mac to_upper (to_upper mac) infos) [
      | none ↦ matched to_upper infos devices
      | some info ↦ (info, dev) ∷ matched to_upper infos devices
    ]

module _ {S : Type 0} (lib : UapiLib S) where
  -- `metaOnce.Do`: a document that could not be read the first time is not asked for again, and the
  -- calls after it give `nil` without an error.
  unfoldable pub get_meta : Step (MetaMemo × S) (Option Metadata)
  get_meta (memo, s) =
      if memo.once_done
      then (ok memo.meta, (memo, s))
      else (let (r, s') = lib.get_instance_identity_document s in
          elim r [
            | err e ↦ (err e, (record memo { once_done = true }, s'))
            | ok md ↦ (ok (some md), (record { meta = some md; once_done = true }, s'))
          ])

  unfoldable pub reload_meta : Step (MetaMemo × S) Metadata
  reload_meta (memo, s) =
      let (r, s') = lib.get_instance_identity_document s in
      elim r [ err e ↦ (err e, (memo, s')) | ok md ↦ (ok md, (record memo { meta = some md }, s')) ]

  unfoldable pub get_object_id_for_secondary_ip : Step S String
  get_object_id_for_secondary_ip = do
    lib.new_client
    (if instance_type lib.instance_id == "UHost"
        then (lib.uhost_client >>= λ _. try (lib.describe_uhost_instance lib.instance_id) >>= λ r.
            pure (object_of lib.instance_id r))
        else pure lib.instance_id)

  unfoldable pub ability_of : List UhostInstance → Step S Ability
  ability_of [] = raise (failure "cannot find uhost")
  ability_of (uhost ∷ uhosts) = pure (record {
    instance_id = lib.instance_id;
    support_uni = supports_uni uhost.ip_set;
    sec_group = lib.equal_fold uhost.net_feature_tag "SecGroup";
  })

  unfoldable pub get_ability : Step S Ability
  get_ability = do
    lib.new_client
    (if starts_with lib.instance_id "uhost-"
        then (lib.uhost_client >>= λ _.
            or_else (lib.describe_uhost_instance lib.instance_id)
              "failed to call DescribeUHostInstance"
            >>= ability_of)
        else pure
            (record { instance_id = lib.instance_id; support_uni = false; sec_group = false }))

  -- `GetNetworkInterfaces`; a document that was never read is dereferenced, which panics.
  unfoldable pub interfaces_of :
      Option Metadata → List (String × String) → Result (List (MetaInterface × String))
  interfaces_of none devices = err (failure "panic: nil metadata")
  interfaces_of (some md) devices = elim md.uhost_interfaces [
    | x ∷ xs ↦ ok (matched lib.to_upper (x ∷ xs) devices)
    | [] ↦ elim md.uphost_interfaces [
      | [] ↦ err (failure "unsupported instance type")
      | x ∷ xs ↦ ok (matched lib.to_upper (x ∷ xs) devices)
    ]
  ]

  unfoldable pub get_network_interfaces : Step (MetaMemo × S) (List (MetaInterface × String))
  get_network_interfaces (memo, s) =
      let (r, s') = lib.interfaces s in
      elim r [
        | err e ↦ (err e, (memo, s'))
        | ok devices ↦ (get_meta >>= λ md. λ t. (interfaces_of md devices, t)) (memo, s')
      ]
