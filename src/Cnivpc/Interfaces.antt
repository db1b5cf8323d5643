-- ===== src/Cnivpc/Interfaces.antt =====
-- cmd/cnivpc/rpc.go: the network interface of a subnet on the node.
pub mod Leftover
use text.Mathlib.Text.{starts_with}
use uk8s_cni_vpc.Prelude.{
  ℕ, zero, suc, ◌+◌, String, Bool, true, false, not, ◌&&◌, ◌||◌, Option, none, some, List, [], ◌∷◌,
  ◌==◌, eqb, leb, length, if◌then◌else◌,
}
use uk8s_cni_vpc.Result.{Result, ok, err, Error, failure}
use uk8s_cni_vpc.Step.{Step, pure, raise, lift, try, ignore, or_else, ◌>>=◌, ◌>>◌}
use uk8s_cni_vpc.Uapi.{Metadata, MetaInterface, get_meta, reload_meta}
use uk8s_cni_vpc.Ipamd.Reconcile.{node_uni_limits}
use uk8s_cni_vpc.Cnivpc.Plugin.{
  Plugin, PluginState, Act, on_sys, on_mem, NetworkInterface, CreateRequest,
}
use uk8s_cni_vpc.Cnivpc.Subnets.{schedule_subnet}

-- The security groups of a request, with priorities from 1.
unfoldable pub priority_sec_groups : ℕ → List String → List (ℕ × String)
priority_sec_groups idx [] = []
priority_sec_groups idx (group ∷ groups) =
    if starts_with group "secgroup-"
    then (idx, group) ∷ priority_sec_groups (idx + 1) groups
    else priority_sec_groups idx groups

abbrev pub is_cons {ℓ} : {A : Type ℓ} → List A → Bool
is_cons [] = false
is_cons (x ∷ xs) = true

-- An interface of the subnet that is not the node's default one.
unfoldable pub find_uni : String → List MetaInterface → Option String
find_uni subnet [] = none
find_uni subnet (x ∷ xs) =
    if x.subnet_id == subnet && not x.is_default then some x.id else find_uni subnet xs

module _ ⦃plugin : Plugin⦄ where
  unfoldable pub create_network_interface : String → String → List String → Act NetworkInterface
  create_network_interface vpc subnet groups =
      let prioritised = priority_sec_groups 1 groups in
      or_else
        (on_sys (
          plugin.unis.create (record {
            vpc_id = vpc;
            subnet_id = subnet;
            priority_sec_group = prioritised;
            security_mode = is_cons prioritised;
          })))
        "CreateNetworkInterface from unetwork api service error"
      >>= λ reply.
          (if eqb reply.0 0
            then pure reply.1
            else raise (failure "CreateNetworkInterface from unetwork api error"))

  unfoldable pub delete_network_interface : String → Act (Unit {0})
  delete_network_interface id = ignore (on_sys (plugin.unis.delete id))

  unfoldable pub first_described : ℕ × List NetworkInterface → Result NetworkInterface
  first_described (code, interfaces) =
      if eqb code 0
      then elim interfaces [
        | [] ↦ err (failure "DescribeNetworkInterface returned empty NetworkInterfaceSet")
        | x ∷ xs ↦ ok x
      ]
      else err (failure "DescribeNetworkInterface from unetwork api error")

  unfoldable pub describe_network_interface : String → Act NetworkInterface
  describe_network_interface id = do
    reply ←
        or_else (on_sys (plugin.unis.describe id))
          "DescribeNetworkInterface from unetwork api service error"
    lift (first_described reply)

  -- The end of `attachNetworkInterface`.
  abbrev pub attach_code : ℕ → Act (Unit {0})
  attach_code code =
      if eqb code 0
      then pure tt
      else raise (failure "AttachNetworkInterface from unetwork api error")

  -- Whether the service says that the interface is on the instance already.
  unfoldable pub attached_to : String → Result NetworkInterface → Bool
  attached_to instance_id (err e) = false
  attached_to instance_id (ok uni) = uni.attach_instance_id == instance_id

  unfoldable pub attach_network_interface : String → String → Act (Unit {0})
  attach_network_interface id instance_id =
      or_else (on_sys (plugin.unis.attach id instance_id))
        "AttachNetworkInterface from unetwork api service error"
      >>= λ code.
          (if eqb code 58205
            then (try (describe_network_interface id) >>= λ uni.
                (if attached_to instance_id uni then pure tt else attach_code code))
            else attach_code code)

  unfoldable pub await_found : Act (Option String) → Option String → Act (Option String)
  await_found rest none = rest
  await_found rest (some id) = pure (some id)

  unfoldable pub await_read : Act (Option String) → String → Result Metadata → Act (Option String)
  await_read rest subnet (err e) = rest
  await_read rest subnet (ok md) = await_found rest (find_uni subnet md.uhost_interfaces)

  -- The loop over the ticker, where `fuel` ticks come before the timeout: the interface that the
  -- metadata shows, or none.
  unfoldable pub await_uni : ℕ → String → Act (Option String)
  await_uni zero subnet = pure none
  await_uni (suc fuel) subnet =
      let rest = await_uni fuel subnet in
      try (on_mem (reload_meta plugin.uapi)) >>= await_read rest subnet

  unfoldable pub ticks : Act ℕ
  ticks s = let (n, t) = plugin.unis.ticks s.sys in (ok n, record s { sys = t })

  unfoldable pub uni_limit : Act ℕ
  uni_limit s =
      let (cpu, t) = plugin.unis.cpu_metadata s.sys in
      (ok (node_uni_limits cpu), record s { sys = t })

  -- After the timeout the interface is deleted, and the function returns `nil, err` where `err` is
  -- nil: no interface and no error.
  unfoldable pub awaited : String → Option String → Act (Option NetworkInterface)
  awaited new_id (some id) = describe_network_interface id >>= λ uni. pure (some uni)
  awaited new_id none = delete_network_interface new_id >>= λ _. pure none

  unfoldable pub attach_new :
      String → NetworkInterface → Result (Unit {0}) → Act (Option NetworkInterface)
  attach_new subnet uni (err e) = delete_network_interface uni.interface_id >>= λ _. raise e
  attach_new subnet uni (ok u) = ticks >>= λ n. await_uni n subnet >>= awaited uni.interface_id

  unfoldable pub use_new : String → NetworkInterface → Act (Option NetworkInterface)
  use_new subnet uni =
      if is_cons uni.private_ip_set
      then (try (attach_network_interface uni.interface_id plugin.uapi.instance_id)
          >>= attach_new subnet uni)
      else (delete_network_interface uni.interface_id >>= λ _.
          raise (failure "created new UNI with no ip"))

  -- The metadata without a document panics.
  unfoldable pub interfaces_of : Option Metadata → Result (List MetaInterface)
  interfaces_of none = err (failure "panic: nil metadata")
  interfaces_of (some md) = ok md.uhost_interfaces

  unfoldable pub uni_for : String → List String → List MetaInterface → Act (Option NetworkInterface)
  uni_for subnet groups interfaces = elim (find_uni subnet interfaces) [
    | some id ↦ describe_network_interface id >>= λ uni. pure (some uni)
    | none ↦ uni_limit >>= λ limit.
        (if leb limit (length interfaces)
          then raise (failure "cannot attach more UNI")
          else (create_network_interface plugin.vpc_id subnet groups >>= use_new subnet))
  ]

  unfoldable pub ensure_subnet_uni :
      List String → List String → String → Act (Option NetworkInterface)
  ensure_subnet_uni subnet_ids groups strategy = do
    md ← or_else (on_mem (get_meta plugin.uapi)) "get metadata error"
    selected ← schedule_subnet strategy plugin.vpc_id subnet_ids
    interfaces ← lift (interfaces_of md)
    uni_for selected.id groups interfaces
