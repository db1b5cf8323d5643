-- ===== src/Iputils.antt =====
-- pkg/iputils/addr.go: the master interface of the node and its addresses.
use text.Mathlib.Text.{starts_with}
use uk8s_cni_vpc.Prelude.{String, Bool, Option, none, some, List, [], ◌∷◌, ◌==◌, if◌then◌else◌}
use uk8s_cni_vpc.Result.{Result, ok, err, failure}
use uk8s_cni_vpc.Step.{Step, pure, try, or_else, ◌>>=◌}
use uk8s_cni_vpc.Uapi.{Metadata, MetaMemo, UapiLib, get_meta}
use uk8s_cni_vpc.Host.{Device, Links}

abbrev pub uhost_master_interface : String
uhost_master_interface = "eth0"

abbrev pub uphost_master_interface : String
uphost_master_interface = "eth2"

-- What the program remembers of the metadata, beside what lies outside it.
abbrev pub Mem : Type 0 → Type 0
Mem S = MetaMemo × S

module _ {S : Type 0} where
  abbrev pub outside : {A : Type 0} → Step S A → Step (Mem S) A
  outside m (memo, s) = let (r, s') = m s in (r, (memo, s'))

pub named_by_mac : String → List Device → String
named_by_mac target [] = uphost_master_interface
named_by_mac target (x ∷ xs) = if x.mac == target then x.name else named_by_mac target xs

-- A bare-metal host is matched by the MAC address of its first interface; metadata that was never
-- read is dereferenced, which panics.
unfoldable pub master_of : (String → String) → List Device → Option Metadata → Result String
master_of to_lower devices none = err (failure "panic: nil metadata")
master_of to_lower devices (some md) = elim md.uphost_interfaces [
  | [] ↦ ok uhost_master_interface
  | x ∷ xs ↦
      if starts_with md.instance_id "upm"
      then ok (named_by_mac (to_lower x.mac) devices)
      else ok uhost_master_interface
]

pub find_mac : (String → String → Bool) → String → List Device → Result Device
find_mac equal_fold mac [] = err (failure "cannot find interface of mac")
find_mac equal_fold mac (x ∷ xs) = if equal_fold x.mac mac then ok x else find_mac equal_fold mac xs

pub first_address : List String → Result String
first_address [] = err (failure "host ip addresses empty")
first_address (x ∷ xs) = ok x

module _ {S : Type 0} (lib : UapiLib S) (links : Links S) where
  unfoldable pub master_by_meta : List Device → Result (Option Metadata) → Step (Mem S) String
  master_by_meta devices (err e) = pure uhost_master_interface
  master_by_meta devices (ok md) = λ s. (master_of lib.to_lower devices md, s)

  unfoldable pub master_listed : Result (List Device) → Step (Mem S) String
  master_listed (err e) = pure uhost_master_interface
  master_listed (ok devices) = try (get_meta lib) >>= master_by_meta devices

  unfoldable pub get_master_interface : Step (Mem S) String
  get_master_interface = try (outside links.interfaces) >>= master_listed

  pub get_link_by_mac : String → Step S Device
  get_link_by_mac mac = links.link_list >>= λ devices. λ s. (find_mac lib.equal_fold mac devices, s)

  abbrev pub or_master : String → Step (Mem S) String
  or_master dev = if dev == "" then get_master_interface else pure dev

  pub get_node_ip_address : String → Step (Mem S) String
  get_node_ip_address dev = do
    dev ← or_master dev
    hface ← or_else (outside (links.link_by_name dev)) "failed to lookup"
    addrs ← or_else (outside (links.addr_list hface)) "failed to get host ip addresses"
    λ s. (first_address addrs, s)

  pub get_node_address : String → Step (Mem S) (String × String)
  get_node_address dev = do
    dev ← or_master dev
    iface ← outside (links.interface_by_name dev)
    ipaddr ← get_node_ip_address dev
    pure (ipaddr, lib.to_upper iface.mac)

  pub get_node_mac_address : String → Step (Mem S) String
  get_node_mac_address dev = do
    dev ← or_master dev
    iface ← outside (links.interface_by_name dev)
    pure (lib.to_upper iface.mac)
