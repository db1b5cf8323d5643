-- ===== src/Host.antt =====
-- The calls of cmd/cnivpc and pkg/iputils on the node's kernel, each over a state `S` of what lies
-- outside the program.
use uk8s_cni_vpc.Prelude.{ℕ, String, Bool, Option, List}
use uk8s_cni_vpc.Result.{Error}
use uk8s_cni_vpc.Step.{Step}

-- The set `UCLOUD-NATGW-OUTGOING` of the kernel, through vishvananda/netlink, and `net.ParseIP(…)`
-- with `To4`. An IPv4 address is its text, as `IP.String` prints it; an entry of the set that is no
-- IPv4 address is none.
pub record Ipset (S : Type 0) : Type 0 where
  pub parse_ip4 : String → Option String
  pub create : Step S (Unit {0})
  pub add : String → Step S (Unit {0})
  pub del : String → Step S (Unit {0})
  pub list : Step S (List (Option String))
  -- `errors.Is` with IPSET_ERR_EXIST, and with ENOENT.
  pub is_exist : Error → Bool
  pub is_enoent : Error → Bool

-- A rule of the policy database: `Src` and `Dst` are nil or an address in text, `other` stands for the
-- attributes that the program does not read.
pub record IpRule : Type 0 where
  pub priority : ℕ
  pub table : ℕ
  pub src : Option String
  pub dst : Option String
  pub mark : ℕ
  pub mask : ℕ
  pub other : String

-- `netlink.RuleList`, `RuleDel` and `RuleAdd`; `new_rule` is `netlink.NewRule()`, and `host_net`
-- the address of `netlink.NewIPNet(net.ParseIP(ip))`.
pub record Routing (S : Type 0) : Type 0 where
  pub new_rule : IpRule
  pub host_net : String → Option String
  pub rule_list : Step S (List IpRule)
  pub rule_del : IpRule → Step S (Unit {0})
  pub rule_add : IpRule → Step S (Unit {0})

-- `net.Interface`, and the attributes of a `netlink.Link`.
pub record Device : Type 0 where
  pub name : String
  pub mac : String
  pub mtu : ℕ

-- A route: `Dst` and `Gw` in text, none where they are nil.
pub record Route : Type 0 where
  pub device : String
  pub link_scope : Bool
  pub dst : Option String
  pub gw : Option String
  pub table : ℕ
  pub onlink : Bool

-- The network devices, through `net` and netlink, and files of /proc and /sys.
pub record Links (S : Type 0) : Type 0 where
  pub interfaces : Step S (List Device)
  pub interface_by_name : String → Step S Device
  pub link_by_name : String → Step S Device
  pub link_list : Step S (List Device)
  pub link_del : Device → Step S (Unit {0})
  pub link_set_mtu : Device → ℕ → Step S (Unit {0})
  pub link_set_up : Device → Step S (Unit {0})
  pub addr_list : Device → Step S (List String)
  pub addr_replace : Device → String → Step S (Unit {0})
  pub route_list : Device → Step S (List Route)
  pub route_add : Route → Step S (Unit {0})
  pub route_del : Route → Step S (Unit {0})
  pub route_replace : Route → Step S (Unit {0})
  pub gratuitous_arp : String → String → Step S (Unit {0})
  pub write_file : String → String → Step S (Unit {0})
  pub read_file : String → Step S String
  pub truncate : String → Step S (Unit {0})
  pub append_file : String → String → Step S (Unit {0})
  -- `filepath.Glob` on the files rps_cpus of a device, and `runtime.NumCPU`.
  pub glob_rps_cpus : String → Step S (List String)
  pub num_cpu : ℕ
  -- `strconv.FormatUint(…, 16)` and `strings.TrimSpace`.
  pub format_hex : ℕ → String
  pub trim_space : String → String
  -- `net.IPMask(net.ParseIP(…).To4()).Size()` in text, `netlink.ParseAddr` as a test, `os.IsExist`.
  pub mask_size : String → String
  pub parse_addr : String → Bool
  pub is_exist : Error → Bool

-- A network namespace by its path, and the calls inside it: `veth` is `ip.SetupVethWithName`, which
-- gives the two ends. `sha1_hex` is the digest of a text in hexadecimal digits.
pub record Namespaces (S : Type 0) : Type 0 where
  pub get_ns : String → Step S (Unit {0})
  pub veth : String → String → String → ℕ → Step S (Device × Device)
  pub link_by_name : String → String → Step S Device
  pub interface_by_name : String → String → Step S Device
  pub addr_add : String → Device → String → Step S (Unit {0})
  pub route_add : String → Route → Step S (Unit {0})
  pub neigh_add : String → Device → String → String → Step S (Unit {0})
  pub link_del : String → Device → Step S (Unit {0})
  pub run : String → String → Step S (Unit {0})
  pub is_link_not_found : Error → Bool
  pub is_err_link_not_found : Error → Bool
  pub sha1_hex : String → String
