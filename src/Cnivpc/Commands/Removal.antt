-- ===== src/Cnivpc/Commands/Removal.antt =====
-- cmd/cnivpc/main.go: the request DEL of the container runtime.
use uk8s_cni_vpc.Prelude.{String, ◌||◌, Option, none, some, ◌==◌, if◌then◌else◌}
use uk8s_cni_vpc.Result.{Result, ok, err, failure}
use uk8s_cni_vpc.Step.{pure, raise, lift, try, ignore, or_else, ◌>>=◌, ◌>>◌}
use uk8s_cni_vpc.Host.{Device}
use uk8s_cni_vpc.Ipamd.Types.{PodNetwork}
use uk8s_cni_vpc.Cnivpc.Plugin.{Plugin, Act, on_sys, CmdArgs}
use uk8s_cni_vpc.Cnivpc.Addresses.{release_pod_ip}
use uk8s_cni_vpc.Cnivpc.Records.{get_pod_network_record, del_pod_network_record}
use uk8s_cni_vpc.Cnivpc.NatOutgoing.{delete_nat_gw_outgoing_ip}
use uk8s_cni_vpc.Cnivpc.RoutePolicy.{clean_up_ip_route_policy}
use uk8s_cni_vpc.Cnivpc.Commands.{parse_plugin, pod_name_of, pod_ns_of, sandbox_of}

module _ ⦃plugin : Plugin⦄ where
  -- `cmdDel` on a record that has an address.
  unfoldable pub del_recorded : CmdArgs → PodNetwork → Act (Unit {0})
  del_recorded args pn = do
    ignore (on_sys (delete_nat_gw_outgoing_ip plugin.ipset pn.vpc_ip))
    or_else (on_sys (clean_up_ip_route_policy plugin.routing pn.vpc_ip)) "fail to clean up ip rules"
    or_else (release_pod_ip pn) "failed to release pod ip"
    ignore (
        del_pod_network_record (pod_name_of args.args) (pod_ns_of args.args) (sandbox_of args.args))

  unfoldable pub del_if_recorded : CmdArgs → Option PodNetwork → Act (Unit {0})
  del_if_recorded args none = pure tt
  del_if_recorded args (some pn) = if pn.vpc_ip == "" then pure tt else del_recorded args pn

  -- The interface inside the namespace: it may be gone already.
  unfoldable pub deleted_link : Result (Unit {0}) → Result (Unit {0})
  deleted_link (ok u) = ok tt
  deleted_link (err e) = if plugin.namespaces.is_err_link_not_found e then ok tt else err e

  unfoldable pub delete_link : String → Result Device → Act (Unit {0})
  delete_link net_ns (err e) =
      if plugin.namespaces.is_link_not_found e
      then pure tt
      else raise (failure "failed to get netlink")
  delete_link net_ns (ok iface) =
      try (on_sys (plugin.namespaces.link_del net_ns iface)) >>= λ r. lift (deleted_link r)

  unfoldable pub clean_interface : String → String → Act (Unit {0})
  clean_interface net_ns if_name =
      if net_ns == "" || if_name == ""
      then pure tt
      else or_else
          (on_sys (plugin.namespaces.get_ns net_ns) >>= λ _.
            try (on_sys (plugin.namespaces.link_by_name net_ns if_name)) >>= delete_link net_ns)
          "failed to delete interface"

  -- A record that cannot be read ends the request without an error.
  unfoldable pub del_found : CmdArgs → Result (Option PodNetwork) → Act (Unit {0})
  del_found args (err e) = pure tt
  del_found args (ok found) = do
    del_if_recorded args found
    on_sys (plugin.chained.portmap_del args)
    clean_interface args.net_ns args.if_name

  unfoldable pub cmd_del : CmdArgs → Act (Unit {0})
  cmd_del args = do
    parse_plugin args
    found ← try (
        get_pod_network_record (pod_name_of args.args) (pod_ns_of args.args) (sandbox_of args.args))
    del_found args found
