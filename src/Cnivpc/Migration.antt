-- ===== src/Cnivpc/Migration.antt =====
-- cmd/cnivpc/nat_outgoing.go and if.go: the iptables rules of the node and the migration to the NAT
-- gateway, over the plugin's clients.
use uk8s_cni_vpc.Prelude.{String, Bool, [], ◌∷◌, map, ◌==◌, if◌then◌else◌}
use uk8s_cni_vpc.Result.{failure}
use uk8s_cni_vpc.Step.{pure, raise, ignore, ◌>>=◌, ◌>>◌}
use uk8s_cni_vpc.Cnivpc.Plugin.{Plugin, Act, on_sys, PodNetworking}
use uk8s_cni_vpc.Cnivpc.Records.{list_pod_network_records}
use uk8s_cni_vpc.Cnivpc.NatOutgoing.{
  desired_nat_gw_outgoing_ips, converge, ensure_nat_gw_outgoing_ip_set,
}
use uk8s_cni_vpc.Cnivpc.Iptables.{
  private_networks, bypass_rule, build_snat_rules, build_connmark_rules,
  build_connmark_prerouting_rules, update_iptables_rules, needs_nat_gw_outgoing_migration,
}

abbrev pub policy_of : PodNetworking → String × Bool
policy_of networking = (networking.name, networking.nat_gw_outgoing_enabled)

module _ ⦃plugin : Plugin⦄ where
  unfoldable pub migrate_legacy_nat_gw_outgoing_ips : String → Act (Unit {0})
  migrate_legacy_nat_gw_outgoing_ips node_name =
      if node_name == ""
      then raise (failure "main.migrateLegacyNATGWOutgoingIPs missing node name")
      else (do
        networks ← list_pod_network_records
        on_sys plugin.kube.node_client
        pods ← on_sys (plugin.kube.list_pods node_name)
        on_sys plugin.kube.node_crd_client
        networkings ← on_sys plugin.kube.list_pod_networkings
        on_sys (
            converge plugin.ipset
              (desired_nat_gw_outgoing_ips plugin.ipset networks pods (map policy_of networkings))))

  unfoldable pub migrate_if_needed : String → Bool → Act (Unit {0})
  migrate_if_needed node_name needed =
      if needed
      then (migrate_legacy_nat_gw_outgoing_ips node_name >>= λ _.
          on_sys (update_iptables_rules plugin.netfilter (bypass_rule ∷ [])))
      else pure tt

  unfoldable pub try_enable_nat_gw_outgoing : String → Act (Unit {0})
  try_enable_nat_gw_outgoing node_name = do
    on_sys (ensure_nat_gw_outgoing_ip_set plugin.ipset)
    needed ← on_sys (needs_nat_gw_outgoing_migration plugin.netfilter)
    migrate_if_needed node_name needed

  -- A failure about the gateway is logged: the node's own SNAT stays.
  unfoldable pub enable_if : String → Bool → Act (Unit {0})
  enable_if node_name enabled =
      if enabled then ignore (try_enable_nat_gw_outgoing node_name) else pure tt

  unfoldable pub update_rules : String → String → String → Bool → Act (Unit {0})
  update_rules primary_ip primary_interface node_name enabled = do
    snat ← on_sys (build_snat_rules plugin.netfilter private_networks primary_ip primary_interface)
    on_sys (update_iptables_rules plugin.netfilter snat)
    connmark ← on_sys (build_connmark_rules plugin.netfilter private_networks)
    on_sys (update_iptables_rules plugin.netfilter connmark)
    enable_if node_name enabled
    on_sys (update_iptables_rules plugin.netfilter build_connmark_prerouting_rules)
