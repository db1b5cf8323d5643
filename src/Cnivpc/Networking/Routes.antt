-- ===== src/Cnivpc/Networking/Routes.antt =====
-- cmd/cnivpc/if.go: the routes of a network interface, and the filters of the kernel.
use uk8s_cni_vpc.Prelude.{
  ℕ, String, concat, Bool, true, false, ◌&&◌, ◌||◌, Option, none, some, List, [], ◌∷◌, ◌==◌, eqb,
  if◌then◌else◌,
}
use uk8s_cni_vpc.Result.{failure}
use uk8s_cni_vpc.Step.{pure, raise, lift, ignore, or_else, ◌>>=◌, ◌>>◌}
use uk8s_cni_vpc.Host.{Device, Route}
use uk8s_cni_vpc.Iputils.{get_link_by_mac, get_master_interface}
use uk8s_cni_vpc.Cnivpc.Plugin.{Plugin, Act, on_sys, on_mem}
use uk8s_cni_vpc.Cnivpc.Rps.{ensure_link_rps}
use uk8s_cni_vpc.Cnivpc.RoutePolicy.{if_name_to_table_id, ensure_src_ip_route_policy}

abbrev pub gateway_text : Option String → String
gateway_text none = "<nil>"
gateway_text (some gw) = gw

-- Whether a route of the table goes through the gateway: `Gw.String()` of no gateway is "<nil>".
unfoldable pub has_gateway : String → ℕ → List Route → Bool
has_gateway gateway table [] = false
has_gateway gateway table (r ∷ rs) =
    (gateway_text r.gw == gateway && eqb r.table table) || has_gateway gateway table rs

module _ ⦃plugin : Plugin⦄ where
  unfoldable pub set_proc_sys : String → String → Act (Unit {0})
  set_proc_sys key value = on_sys (plugin.links.write_file key value)

  abbrev pub rp_filter_key : String → String
  rp_filter_key name = concat "/proc/sys/net/ipv4/conf/" (concat name "/rp_filter")

  unfoldable pub ensure_uni_rp_filter : String → Act (Unit {0})
  ensure_uni_rp_filter name = set_proc_sys (rp_filter_key name) "1"

  unfoldable pub ensure_master_interface_rp_filter : String → Act (Unit {0})
  ensure_master_interface_rp_filter name = set_proc_sys (rp_filter_key name) "2"

  -- The routes of the interface in other tables go; a failure of that is ignored.
  unfoldable pub delete_other_routes : ℕ → List Route → Act (Unit {0})
  delete_other_routes table [] = pure tt
  delete_other_routes table (r ∷ rs) =
      let rest = delete_other_routes table rs in
      if eqb r.table table then rest else (ignore (on_sys (plugin.links.route_del r)) >>= λ _. rest)

  abbrev pub gateway_route : Device → String → ℕ → Route
  gateway_route link gateway table = record {
    device = link.name;
    link_scope = true;
    dst = some gateway;
    gw = none;
    table = table;
    onlink = false;
  }

  abbrev pub default_route : Device → String → ℕ → Route
  default_route link gateway table = record {
    device = link.name;
    link_scope = false;
    dst = none;
    gw = some gateway;
    table = table;
    onlink = false;
  }

  unfoldable pub announce : String → Device → Act (Unit {0})
  announce ip link = ignore (on_sys (plugin.links.gratuitous_arp ip link.name))

  abbrev pub parsed_addr : String → Act (Unit {0})
  parsed_addr addr =
      if plugin.links.parse_addr addr then pure tt else raise (failure "parse addr failed")

  -- What follows if the route through the gateway is missing.
  unfoldable pub set_up_uni : Device → String → String → String → ℕ → Act (Unit {0})
  set_up_uni link ip gateway netmask table = do
    master ← on_mem (get_master_interface plugin.uapi plugin.links)
    master_iface ←
        or_else (on_sys (plugin.links.interface_by_name master)) "get master interface MTU error"
    or_else (on_sys (plugin.links.link_set_mtu link master_iface.mtu)) "set MTU error"
    parsed_addr (concat ip (concat "/" (plugin.links.mask_size netmask)))
    or_else
        (on_sys (
          plugin.links.addr_replace link (concat ip (concat "/" (plugin.links.mask_size netmask)))))
        "cannot add ip to dev"
    or_else (on_sys (plugin.links.link_set_up link)) "cannot set link up"
    routes ← on_sys (plugin.links.route_list link)
    delete_other_routes table routes
    or_else (ensure_uni_rp_filter link.name) "failed to ensure rp_filter"
    or_else (on_sys (plugin.links.route_replace (gateway_route link gateway table)))
        "unable to add route to gateway"
    or_else (on_sys (plugin.links.route_replace (default_route link gateway table)))
        "unable to add default route to gateway"
    announce ip link
    announce ip link
    announce ip link

  unfoldable pub ensure_uni_primary_ip_route : String → String → String → String → Act (Unit {0})
  ensure_uni_primary_ip_route ip mac gateway netmask = do
    link ← on_sys (get_link_by_mac plugin.uapi plugin.links mac)
    ignore (on_sys (ensure_link_rps plugin.links link.name))
    table ← or_else (lift (if_name_to_table_id link.name)) "cannot convert link name to number"
    on_sys (ensure_src_ip_route_policy plugin.routing ip link.name)
    routes ← or_else (on_sys (plugin.links.route_list link)) "list ip routes error"
    (if has_gateway gateway table routes then pure tt else set_up_uni link ip gateway netmask table)
