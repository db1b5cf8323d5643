-- ===== src/Examples/ToyPlugin.antt =====
-- A node for the plugin: a clock, the set of the gateway, and a daemon that is down.
use uk8s_cni_vpc.Prelude.{
  ℕ, ◌+◌, String, Bool, true, false, none, some, List, [], ◌∷◌, ◌==◌, map, if◌then◌else◌,
}
use uk8s_cni_vpc.Result.{ok, err, Error, failure, ret_code}
use uk8s_cni_vpc.Step.{Step}
use uk8s_cni_vpc.Host.{Ipset, IpRule, Links, Device}
use uk8s_cni_vpc.Uapi.{UapiLib}
use uk8s_cni_vpc.Cnivpc.NatOutgoing.{has_text}
use uk8s_cni_vpc.Cnivpc.Plugin.{Plugin, PluginState, PluginLaws, NetworkInterface}
use uk8s_cni_vpc.Examples.Toy.{toy_bolt, toy_bolt_laws, toy_networks, toy_laws, toy_info}

pub record ToySys : Type 0 where
  pub clock : ℕ
  pub set : List String

abbrev pub down : {A : Type 0} → Step ToySys A
down sys = (err (failure "not there"), sys)

abbrev pub done : Step ToySys (Unit {0})
done sys = (ok tt, sys)

abbrev free_of : String → ℕ
free_of id = if id == "subnet-1" then 2 else if id == "subnet-2" then 5 else 0

abbrev pub remove_text : String → List String → List String
remove_text x [] = []
remove_text x (y ∷ ys) = let rest = remove_text x ys in if x == y then rest else y ∷ rest

abbrev set_error : Error
set_error = failure "ipset"

abbrev is_set_error : Error → Bool
is_set_error (failure t) = t == "ipset"
is_set_error e = false

abbrev pub toy_ipset : Ipset ToySys
toy_ipset = record {
  parse_ip4 = λ x. some x;
  create = done;
  add =
      λ x s. if has_text x s.set then (err set_error, s) else (ok tt, record s { set = x ∷ s.set });
  del = λ x s.
      if has_text x s.set
      then (ok tt, record s { set = remove_text x s.set })
      else (err set_error, s);
  list = λ s. (ok (map some s.set), s);
  is_exist = is_set_error;
  is_enoent = is_set_error;
}

abbrev toy_rule : IpRule
toy_rule = record {
  priority = 0;
  table = 0;
  src = none;
  dst = none;
  mark = 0;
  mask = 0;
  other = "";
}

abbrev toy_device : Device
toy_device = record { name = "eth0"; mac = "52:54:00:00:00:01"; mtu = 1454 }

abbrev pub toy_uapi : UapiLib ToySys
toy_uapi = record {
  get_instance_identity_document = λ s.
      (ok (record { instance_id = "uhost-1"; uhost_interfaces = []; uphost_interfaces = [] }), s);
  new_client = done;
  instance_id = "uhost-1";
  uhost_client = done;
  describe_uhost_instance = λ id. down;
  interfaces = λ s. (ok [], s);
  equal_fold = λ a b. a == b;
  to_upper = λ a. a;
  to_lower = λ a. a;
}

abbrev toy_links : Links ToySys
toy_links = record {
  interfaces = λ s. (ok (toy_device ∷ []), s);
  interface_by_name = λ name. down;
  link_by_name = λ name s. (ok toy_device, s);
  link_list = λ s. (ok (toy_device ∷ []), s);
  link_del = λ dev. done;
  link_set_mtu = λ dev mtu. done;
  link_set_up = λ dev. done;
  addr_list = λ dev s. (ok ("10.0.0.2" ∷ []), s);
  addr_replace = λ dev addr. done;
  route_list = λ dev s. (ok [], s);
  route_add = λ r. done;
  route_del = λ r. done;
  route_replace = λ r. done;
  gratuitous_arp = λ ip dev. done;
  write_file = λ file text. done;
  read_file = λ file s. (ok "0", s);
  truncate = λ file. done;
  append_file = λ file text. done;
  glob_rps_cpus = λ dev s. (ok [], s);
  num_cpu = 4;
  format_hex = λ n. "f";
  trim_space = λ t. t;
  mask_size = λ t. "16";
  parse_addr = λ t. true;
  is_exist = λ e. false;
}

abbrev toy_interface : NetworkInterface
toy_interface = record {
  interface_id = "uni-1";
  subnet_id = "subnet-1";
  mac_address = "52:54:00:00:00:02";
  private_ip_set = "10.0.0.7" ∷ [];
  gateway = "10.0.0.1";
  netmask = "255.255.0.0";
  attach_instance_id = "";
}

instance abbrev pub plugin : Plugin
plugin = record {
  bolt = toy_bolt;
  networks = toy_networks;
  Sys = ToySys;
  dial = done;
  ping = down;
  support_multi_subnet = down;
  add_pod_network = λ req. down;
  del_pod_network = λ pn. down;
  add_pod_network_record = λ pn. down;
  del_pod_network_record = λ name ns sandbox. down;
  get_pod_network_record = λ name ns sandbox. down;
  list_pod_network_record = down;
  vpc_client = done;
  allocate_secondary_ip = λ req sys. (ok toy_info, sys);
  describe_secondary_ip = λ req sys. (ok (toy_info ∷ []), sys);
  delete_secondary_ip = λ req sys. (err (ret_code 58221), sys);
  describe_subnet = λ vpc subnet sys. (ok (free_of subnet ∷ []), sys);
  open_file = done;
  now = λ sys. (sys.clock, record sys { clock = sys.clock + 1 });
  zone = "zone-1";
  vpc_id = "uvnet-1";
  subnet_id = "subnet-1";
  uapi = toy_uapi;
  links = toy_links;
  routing = record {
    new_rule = toy_rule;
    host_net = λ ip. some ip;
    rule_list = λ s. (ok [], s);
    rule_del = λ r. down;
    rule_add = λ r. done;
  };
  ipset = toy_ipset;
  new_iptables = done;
  netfilter = record {
    exists_rule = λ t c r s. (ok true, s);
    insert_first = λ t c r. done;
    append = λ t c r. done;
    delete = λ t c r. done;
    new_chain = λ t c. done;
    chain_exists = λ t c s. (ok true, s);
    is_chain_exist_err = λ e. false;
  };
  kube = record {
    node_client = done;
    node_crd_client = done;
    get_pod = λ name ns. down;
    list_pods = λ node s. (ok [], s);
    get_pod_networking = λ name. down;
    list_pod_networkings = λ s. (ok [], s);
  };
  unis = record {
    create = λ req s. (ok (0, toy_interface), s);
    delete = λ id s. (ok 0, s);
    attach = λ id instance_id s. (ok 58205, s);
    describe = λ id s. (ok (0, toy_interface ∷ []), s);
    cpu_metadata = λ s. (some 4, s);
    ticks = λ s. (2, s);
  };
  namespaces = record {
    get_ns = λ path. down;
    veth = λ path if_name host_name mtu s. (ok (toy_device, toy_device), s);
    link_by_name = λ path name s. (ok toy_device, s);
    interface_by_name = λ path name s. (ok toy_device, s);
    addr_add = λ path dev addr. done;
    route_add = λ path r. done;
    neigh_add = λ path dev addr mac. done;
    link_del = λ path dev. done;
    run = λ path command. done;
    is_link_not_found = λ e. false;
    is_err_link_not_found = λ e. false;
    sha1_hex = λ t. t;
  };
  chained = record {
    portmap_add = λ args result. done;
    portmap_del = λ args. done;
    parse_ip = λ ip. 10 ∷ 0 ∷ 0 ∷ 9 ∷ [];
    arp_interface = λ dev s. (ok (82 ∷ 84 ∷ 0 ∷ 0 ∷ 0 ∷ 1 ∷ []), s);
    arp_listen = λ dev s. (ok [], s);
  };
}

abbrev pub plugin_laws : PluginLaws plugin
plugin_laws = record { bolt = toy_bolt_laws; networks = toy_laws.networks }

abbrev pub fresh : PluginState plugin
fresh = record {
  file = none;
  sys = record { clock = 5; set = "10.0.0.8" ∷ [] };
  memo = record { meta = none; once_done = false };
}
