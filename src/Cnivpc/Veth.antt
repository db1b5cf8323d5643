-- ===== src/Cnivpc/Veth.antt =====
-- cmd/cnivpc/veth.go and runcmd.go: the pair of devices between a pod and the node.
use text.Mathlib.Text.{starts_with}
use uk8s_cni_vpc.Prelude.{
  ℕ, zero, suc, String, concat, true, false, not, ◌&&◌, none, some, List, [], ◌∷◌, ◌==◌,
  if◌then◌else◌,
}
use uk8s_cni_vpc.Result.{Result, ok, err, Error, failure}
use uk8s_cni_vpc.Step.{pure, raise, lift, try, ignore, or_else, ◌>>=◌, ◌>>◌}
use uk8s_cni_vpc.Host.{Device, Route}
use uk8s_cni_vpc.Iputils.{uhost_master_interface}
use uk8s_cni_vpc.Ipamd.Types.{PodNetwork}
use uk8s_cni_vpc.Cnivpc.Plugin.{Plugin, Act, on_sys}
use uk8s_cni_vpc.Cnivpc.Addresses.{release_pod_ip}
use uk8s_cni_vpc.Cnivpc.RoutePolicy.{ensure_dst_ip_route_policy, ensure_src_ip_route_policy}

abbrev pub take_text : ℕ → String → String
take_text zero s = ""
take_text (suc n) String.[] = ""
take_text (suc n) (String.◌∷◌ c s) = String.◌∷◌ c (take_text n s)

unfoldable pub generate_host_veth_name : (String → String) → String → String → String → String
generate_host_veth_name sha1_hex prefix namespace pod_name =
    concat prefix (take_text 11 (sha1_hex (concat namespace (concat "." pod_name))))

module _ ⦃plugin : Plugin⦄ where
  abbrev pub pod_route : String → String → Route
  pod_route device ip = record {
    device = device;
    link_scope = true;
    dst = some (concat ip "/32");
    gw = none;
    table = 0;
    onlink = false;
  }

  -- A route that is there already is left.
  unfoldable pub added_route : Result (Unit {0}) → Result (Unit {0})
  added_route (ok u) = ok tt
  added_route (err e) = if plugin.links.is_exist e then ok tt else err (failure "add route error")

  unfoldable pub add_route_rule_for_pod_ip : String → String → Act (Unit {0})
  add_route_rule_for_pod_ip host_veth ip = do
    link ← on_sys (plugin.links.link_by_name host_veth)
    (if plugin.links.parse_addr (concat ip "/32")
        then pure tt
        else raise (failure "invalid CIDR address"))
    added ← try (on_sys (plugin.links.route_add (pod_route link.name ip)))
    lift (added_route added)
    on_sys (ensure_dst_ip_route_policy plugin.routing ip)

  unfoldable pub ensure_proxy_arp : String → Act (Unit {0})
  ensure_proxy_arp dev =
      let file = concat "/proc/sys/net/ipv4/conf/" (concat dev "/proxy_arp") in
      on_sys (plugin.links.truncate file) >>= λ _. on_sys (plugin.links.append_file file "1")

  unfoldable pub delete_old : Result Device → Act (Unit {0})
  delete_old (err e) = pure tt
  delete_old (ok old) = or_else (on_sys (plugin.links.link_del old)) "failed to delete old hostVeth"

  unfoldable pub check_and_clean_old_veth : String → Act (Unit {0})
  check_and_clean_old_veth name = try (on_sys (plugin.links.link_by_name name)) >>= delete_old

  abbrev pub pod_default_route : Device → String → Route
  pod_default_route dev gw = record {
    device = dev.name;
    link_scope = false;
    dst = none;
    gw = some gw;
    table = 0;
    onlink = true;
  }

  -- The end inside the namespace that is not found is dereferenced, which panics.
  unfoldable pub setup_veth_pair : String → String → String → ℕ → String → String → Act Device
  setup_veth_pair net_ns if_name host_veth_name mtu host_addr container_ip = do
    check_and_clean_old_veth host_veth_name
    ends ← on_sys (plugin.namespaces.veth net_ns if_name host_veth_name mtu)
    inner ← or_else (on_sys (plugin.namespaces.link_by_name net_ns ends.1.name)) "panic: nil link"
    (if plugin.links.parse_addr container_ip
        then pure tt
        else raise (failure "invalid CIDR address"))
    on_sys (plugin.namespaces.addr_add net_ns inner container_ip)
    cont ← or_else (on_sys (plugin.namespaces.interface_by_name net_ns if_name)) "failed to look up"
    or_else (on_sys (plugin.namespaces.route_add net_ns (pod_default_route cont host_addr)))
        "failed to add default route on eth0"
    or_else (on_sys (plugin.namespaces.neigh_add net_ns cont host_addr ends.0.mac))
        "failed to add a neigh entry for veth of uhost's ns"
    pure ends.0

  -- The address is given back, and a failure of that is dropped.
  unfoldable pub give_back : {A : Type 0} → PodNetwork → Error → Act A
  give_back pn e = ignore (release_pod_ip pn) >>= λ _. raise e

  unfoldable pub or_give_back : {A : Type 0} → PodNetwork → Result A → Act A
  or_give_back pn (ok a) = pure a
  or_give_back pn (err e) = give_back pn e

  -- `releasePodIp` and the error of a call that failed.
  unfoldable pub guarded : {A : Type 0} → PodNetwork → Act A → Act A
  guarded pn m = try m >>= or_give_back pn

  unfoldable pub first_host_addr : List String → Act String
  first_host_addr [] = raise (failure "failed to get host ip addresses")
  first_host_addr (a ∷ rest) = pure a

  -- The rule of a secondary address; its failure is returned.
  unfoldable pub source_rule : String → PodNetwork → Act (Unit {0})
  source_rule nic pn =
      if not (nic == uhost_master_interface) && starts_with pn.interface_id "uni-"
      then on_sys (ensure_src_ip_route_policy plugin.routing pn.vpc_ip nic)
      else pure tt

  unfoldable pub setup_pod_veth_network :
      String → String → String → String → String → PodNetwork → ℕ → Act (Unit {0})
  setup_pod_veth_network pod_name pod_ns net_ns if_name nic pn mtu = do
    guarded pn (or_else (on_sys (plugin.namespaces.get_ns net_ns)) "failed to open netns")
    mface ← guarded pn (or_else (on_sys (plugin.links.link_by_name nic)) "failed to lookup")
    host_addr ← guarded pn (
        or_else (on_sys (plugin.links.addr_list mface)) "failed to get host ip addresses"
        >>= first_host_addr)
    host_veth ← guarded pn (
        setup_veth_pair net_ns if_name
          (generate_host_veth_name plugin.namespaces.sha1_hex "ucni" pod_ns pod_name) mtu host_addr
          (concat pn.vpc_ip "/32"))
    add_route_rule_for_pod_ip host_veth.name pn.vpc_ip
    source_rule nic pn

  unfoldable pub set_node_port_range : String → PodNetwork → Act (Unit {0})
  set_node_port_range net_ns pn = do
    guarded pn (or_else (on_sys (plugin.namespaces.get_ns net_ns)) "failed to open netns")
    ignore (
        on_sys (
          plugin.namespaces.run net_ns
            "sed -i 's/^.*net.ipv4.ip_local_port_range.*$/net.ipv4.ip_local_port_range = 32768 60999/' /etc/sysctl.conf"))
    ignore (on_sys (plugin.namespaces.run net_ns "sysctl -p"))
