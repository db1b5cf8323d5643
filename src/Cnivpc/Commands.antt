-- ===== src/Cnivpc/Commands.antt =====
-- cmd/cnivpc/main.go: the request ADD of the container runtime, with its rollbacks.
pub mod Undone
pub mod Restored
pub mod Removal
use text.Mathlib.Text.{starts_with}
use uk8s_cni_vpc.Prelude.{
  ℕ, String, concat, Bool, true, false, not, ◌&&◌, ◌||◌, Option, none, some, List, [], ◌∷◌, ◌++◌,
  ◌==◌, if◌then◌else◌,
}
use uk8s_cni_vpc.Result.{Result, ok, err, Error, failure}
use uk8s_cni_vpc.Step.{Step, pure, raise, lift, try, ignore, or_else, ◌>>=◌, ◌>>◌}
use uk8s_cni_vpc.Host.{Device, Route}
use uk8s_cni_vpc.Iputils.{get_link_by_mac, get_master_interface}
use uk8s_cni_vpc.Ipamd.Types.{PodNetwork}
use uk8s_cni_vpc.Cnivpc.Plugin.{Plugin, PluginState, Act, on_sys, on_mem, CniResult, CmdArgs}
use uk8s_cni_vpc.Arping.Conflict.{detect_once, detect_ip_conflict_with_gratuitous_arp}
use uk8s_cni_vpc.Cnivpc.SandboxArgs.{load_sandbox_args, argument}
use uk8s_cni_vpc.Cnivpc.Addresses.{release_pod_ip}
use uk8s_cni_vpc.Cnivpc.Records.{
  add_pod_network_record, get_pod_network_record, del_pod_network_record,
}
use uk8s_cni_vpc.Cnivpc.NatOutgoing.{sync_nat_gw_outgoing_ip, delete_nat_gw_outgoing_ip}
use uk8s_cni_vpc.Cnivpc.Iptables.{ensure_pod_metadata_blocked}
use uk8s_cni_vpc.Cnivpc.RoutePolicy.{clean_up_ip_route_policy}
use uk8s_cni_vpc.Cnivpc.Networking.{PodIpAssignment, assign_pod_ip}
use uk8s_cni_vpc.Cnivpc.Veth.{ensure_proxy_arp, setup_pod_veth_network, set_node_port_range}

abbrev pub sandbox_of : String → String
sandbox_of args = argument "K8S_POD_INFRA_CONTAINER_ID" (load_sandbox_args args)

abbrev pub pod_name_of : String → String
pod_name_of args = argument "K8S_POD_NAME" (load_sandbox_args args)

abbrev pub pod_ns_of : String → String
pod_ns_of args = argument "K8S_POD_NAMESPACE" (load_sandbox_args args)

-- The routes of the result are those of `getRoutes` only if it fails: `if err != nil`.
unfoldable pub routes_in_result : List Route × Bool → List Route
routes_in_result (routes, failed) = if failed then routes else []

unfoldable pub cni_result : PodNetwork → String → List Route → CniResult
cni_result pn net_ns routes = record {
  address = pn.vpc_ip;
  mask = pn.mask;
  gateway = pn.gateway;
  mac = pn.mac_address;
  sandbox = net_ns;
  routes = routes;
}

unfoldable pub master_found : Result Device → String
master_found (err e) = ""
master_found (ok link) = link.name

unfoldable pub still_added : Result (Unit {0}) → Bool
still_added (ok u) = false
still_added (err e) = true

-- The flag after `syncNATGWOutgoingIP`; a failure is logged.
unfoldable pub added_flag : Result Bool → Bool
added_flag (ok added) = added
added_flag (err e) = false

module _ ⦃plugin : Plugin⦄ where
  -- `getRoutes`: the routes read so far, and whether a call failed.
  unfoldable pub routes_of_links : List Device → Act (List Route × Bool)
  routes_of_links [] = pure ([], false)
  routes_of_links (link ∷ links) =
      let rest = routes_of_links links in
      try (on_sys (plugin.links.route_list link)) >>= λ r. elim r [
        | err e ↦ pure ([], true)
        | ok rs ↦ rest >>= λ more. pure (rs ++ more.0, more.1)
      ]

  unfoldable pub get_routes : Act (List Route × Bool)
  get_routes = try (on_sys plugin.links.link_list) >>= λ r. elim r [
    | err e ↦ pure ([], true)
    | ok links ↦ routes_of_links links
  ]

  -- `rollbackNATGWOutgoingIP` with the flag `natGWOutgoingIPAdded`: the flag afterwards.
  unfoldable pub rollback_nat_gw_outgoing_ip : Bool → PodNetwork → Act Bool
  rollback_nat_gw_outgoing_ip added pn =
      if added
      then (try (on_sys (delete_nat_gw_outgoing_ip plugin.ipset pn.vpc_ip)) >>= λ r.
          pure (still_added r))
      else pure false

  -- The deferred function on an error.
  unfoldable pub deferred : {A : Type 0} → Bool → PodNetwork → Error → Act A
  deferred added pn e = rollback_nat_gw_outgoing_ip added pn >>= λ _. raise e

  -- `rollbackReleaseIP`, the return of the error, and the deferred function.
  unfoldable pub undo : {A : Type 0} → Bool → PodNetwork → Error → Act A
  undo added pn e = rollback_nat_gw_outgoing_ip added pn >>= λ still.
      ignore (release_pod_ip pn) >>= λ _. deferred still pn e

  unfoldable pub or_undo : {A : Type 0} → Bool → PodNetwork → Result A → Act A
  or_undo added pn (ok a) = pure a
  or_undo added pn (err e) = undo added pn e

  unfoldable pub or_deferred : {A : Type 0} → Bool → PodNetwork → Result A → Act A
  or_deferred added pn (ok a) = pure a
  or_deferred added pn (err e) = deferred added pn e

  unfoldable pub undoing : {A : Type 0} → Bool → PodNetwork → Act A → Act A
  undoing added pn m = try m >>= or_undo added pn

  unfoldable pub deferring : {A : Type 0} → Bool → PodNetwork → Act A → Act A
  deferring added pn m = try m >>= or_deferred added pn

  -- The device that the pod's packets leave by.
  unfoldable pub or_default_master : String → Act String
  or_default_master name =
      if name == "" then on_mem (get_master_interface plugin.uapi plugin.links) else pure name

  unfoldable pub master_interface_of : PodNetwork → Act String
  master_interface_of pn =
      if starts_with pn.interface_id "uni-"
      then (try (on_sys (get_link_by_mac plugin.uapi plugin.links pn.mac_address)) >>= λ r.
          or_default_master (master_found r))
      else or_default_master ""

  -- An address that the plugin took itself is checked for a conflict.
  unfoldable pub no_conflict : Bool → Act (Unit {0})
  no_conflict conflict =
      if conflict then raise (failure "allocated IP is conflict with existing IP") else pure tt

  -- The detection of pkg/arping on a device.
  unfoldable pub detect : String → String → Step plugin.Sys Bool
  detect ip dev = detect_ip_conflict_with_gratuitous_arp (
      detect_once (plugin.chained.arp_interface dev) (plugin.chained.arp_listen dev)
        (plugin.chained.parse_ip ip))

  unfoldable pub check_conflict : PodNetwork → String → Act (Unit {0})
  check_conflict pn master = or_else (ensure_proxy_arp master) "failed to enable proxy arp" >>= λ _.
      or_else (on_sys (detect pn.vpc_ip master)) "failed to detect conflict" >>= no_conflict

  unfoldable pub sync_flag : PodIpAssignment → Act Bool
  sync_flag assignment =
      try (
        on_sys (
          sync_nat_gw_outgoing_ip plugin.ipset assignment.network.vpc_ip
            assignment.nat_gw_outgoing_enabled))
      >>= λ r. pure (added_flag r)

  -- What `cmdAdd` does with an address before it looks at the gateway.
  unfoldable pub prepare : PodIpAssignment → Act (String × ℕ)
  prepare assignment =
      let pn = assignment.network in
      master_interface_of pn >>= λ master.
      or_else (on_sys (plugin.links.interface_by_name master)) "failed to get interface MTU"
      >>= λ mface. (if assignment.from_ipamd then pure tt else check_conflict pn master) >>= λ _.
          pure (master, mface.mtu)

  -- And after it.
  unfoldable pub connect : CmdArgs → PodNetwork → String × ℕ → Act (Unit {0})
  connect args pn (master, mtu) =
      or_else
        (setup_pod_veth_network (pod_name_of args.args) (pod_ns_of args.args) args.net_ns
          args.if_name master pn mtu)
        "failed to setup veth network"
      >>= λ _. or_else (set_node_port_range args.net_ns pn) "failed to set node port"

  -- The record of the pod's network and the port mappings.
  unfoldable pub record_and_map : CmdArgs → PodNetwork → Act (Unit {0})
  record_and_map args pn = do
    routes ← get_routes
    or_else
        (add_pod_network_record (pod_name_of args.args) (pod_ns_of args.args) (sandbox_of args.args)
          pn)
        "failed to add pod network record"
    or_else
        (on_sys
          (plugin.chained.portmap_add args (cni_result pn args.net_ns (routes_in_result routes))))
        "portmap add error"

  unfoldable pub add_assigned : CmdArgs → PodIpAssignment → Act (Unit {0})
  add_assigned args assignment = do
    prepared ← undoing false assignment.network (prepare assignment)
    added ← sync_flag assignment
    undoing added assignment.network (connect args assignment.network prepared)
    deferring added assignment.network (record_and_map args assignment.network)

  unfoldable pub parse_plugin : CmdArgs → Act (Unit {0})
  parse_plugin args =
      if args.valid_config then pure tt else raise (failure "failed to parse cnivpc config")

  unfoldable pub cmd_add : CmdArgs → Act (Unit {0})
  cmd_add args = do
    or_else (parse_plugin args) "failed to parse cmdadd config"
    or_else (on_sys plugin.new_iptables) "main.ensurePodMetadataBlocked open iptables"
    on_sys (ensure_pod_metadata_blocked plugin.netfilter)
    assignment ←
        or_else
          (assign_pod_ip (pod_name_of args.args) (pod_ns_of args.args) args.net_ns
            (sandbox_of args.args))
          "failed to assign ip"
    add_assigned args assignment
