-- ===== src/Examples/HostRuns.antt =====
-- The host network of the plugin at concrete inputs.
use uk8s_cni_vpc.Prelude.{
  arith, suc, some, String, Bool, true, false, List, [], ◌∷◌, ◌++◌, ◌≡◌, refl,
}
use uk8s_cni_vpc.Result.{ok, failure}
use uk8s_cni_vpc.Cnivpc.Iptables.{
  Netfilter, apply_rule, update_rule, update_iptables_rules, build_connmark_prerouting_rules,
  jump_rule, restore_rule, pod_outbound_connmark_jump_rule, restore_mark_rule, metadata_rule,
}
use uk8s_cni_vpc.Cnivpc.Iptables.Spec.{
  Tables, has, remove_first, change_chain, NetfilterLaws, Progress, update_iptables_rules-refines,
}
use uk8s_cni_vpc.Cnivpc.Iptables.Order.{update_iptables_rules-ends}
use uk8s_cni_vpc.Cnivpc.Iptables.Twice.{NoTwice, update_iptables_rules-NoTwice}
use uk8s_cni_vpc.Host.{IpRule}
use uk8s_cni_vpc.Uapi.{get_meta}
use uk8s_cni_vpc.Iputils.{get_master_interface, master_listed, master_by_meta, master_of}
use uk8s_cni_vpc.Ipamd.Types.{PodNetwork, Pod}
use uk8s_cni_vpc.Cnivpc.Plugin.{CmdArgs, NetworkInterface}
use uk8s_cni_vpc.Cnivpc.NatOutgoing.{
  converge, add_each, delete_each, sync_nat_gw_outgoing_ip, delete_nat_gw_outgoing_ip,
  nat_gw_outgoing_ip_set_entry, added_answer, deleted_entry, current_nat_gw_outgoing_ips,
  insert_some, desired_nat_gw_outgoing_ips, desired_of, address_for, live_pod, selects_gateway,
  chosen_networking,
}
use uk8s_cni_vpc.Cnivpc.NatOutgoing.Desired.{wanted_by, converge-wanted_by}
use uk8s_cni_vpc.Cnivpc.Networking.{PodIpAssignment}
use uk8s_cni_vpc.Cnivpc.Commands.{
  sync_flag, added_flag, rollback_nat_gw_outgoing_ip, still_added, add_assigned, undoing, or_undo,
  undo, deferred, prepare, master_interface_of, or_default_master,
}
use uk8s_cni_vpc.Cnivpc.Commands.Restored.{rollback_nat_gw_outgoing_ip-member}
use uk8s_cni_vpc.Cnivpc.Commands.Undone.{Left, add_assigned-err}
use uk8s_cni_vpc.Cnivpc.RoutePolicy.{
  is_address, is_dst_rule, clean_up_ip_route_policy, clean_up_rules, delete_if,
  ensure_dst_ip_route_policy, scan_rules, add_unless,
}
use uk8s_cni_vpc.Cnivpc.RoutePolicy.Cleared.{clean_up_ip_route_policy-present}
use uk8s_cni_vpc.Cnivpc.RoutePolicy.Routed.{ensure_dst_ip_route_policy-routed}
use uk8s_cni_vpc.Cnivpc.Rps.{rps_groups}
use uk8s_cni_vpc.Cnivpc.Rps.Value.{value_from, value_from-rps_groups}
use uk8s_cni_vpc.Cnivpc.SandboxArgs.{load_sandbox_args}
use uk8s_cni_vpc.Cnivpc.SandboxArgs.Printed.{load_sandbox_args-print_args}
use uk8s_cni_vpc.Cnivpc.Interfaces.{use_new}
use uk8s_cni_vpc.Cnivpc.Interfaces.Leftover.{Settled, use_new-Settled}
use uk8s_cni_vpc.Examples.Toy.{toy_address}
use uk8s_cni_vpc.Examples.ToyPlugin.{plugin, fresh, toy_ipset}
use uk8s_cni_vpc.Examples.ToyLaws.{
  toy_member, toy_ipset_laws, toy_routing, toy_present, toy_routing_laws,
}

-- Tables that every call finds and changes.
abbrev toy_netfilter : Netfilter Tables
toy_netfilter = record {
  exists_rule = λ t c r tables. (ok (has r (tables t c)), tables);
  insert_first = λ t c r tables. (ok tt, change_chain t c (λ rules. r ∷ rules) tables);
  append = λ t c r tables. (ok tt, change_chain t c (λ rules. rules ++ r ∷ []) tables);
  delete = λ t c r tables. (ok tt, change_chain t c (remove_first r) tables);
  new_chain = λ t c tables. (ok tt, tables);
  chain_exists = λ t c tables. (ok true, tables);
  is_chain_exist_err = λ e. false;
}

toy_netfilter_laws : NetfilterLaws toy_netfilter (λ tables. tables)
toy_netfilter_laws = record {
  exists_same = λ t c r s. refl;
  exists_answer = λ t c r s b h. ground arith;
  insert_ok = λ t c r s h. refl;
  insert_err = λ t c r s h. absurd (ground arith);
  append_ok = λ t c r s h. refl;
  append_err = λ t c r s h. absurd (ground arith);
  delete_ok = λ t c r s h. refl;
  delete_err = λ t c r s h. absurd (ground arith);
}

-- PREROUTING of the table nat, with the two rules before another one.
abbrev toy_tables : Tables
unfolding pod_outbound_connmark_jump_rule restore_mark_rule
toy_tables t c = restore_mark_rule ∷ pod_outbound_connmark_jump_rule ∷ ("-j" ∷ "ACCEPT" ∷ []) ∷ []

update_iptables_rules-refines_example :
    Progress
      (λ tables. tables)
      (metadata_rule ∷ [])
      toy_tables
      (update_iptables_rules toy_netfilter (metadata_rule ∷ []) toy_tables)
update_iptables_rules-refines_example =
    update_iptables_rules-refines toy_netfilter (λ tables. tables) toy_netfilter_laws
      (metadata_rule ∷ []) toy_tables

update_iptables_rules-ends_example :
    (update_iptables_rules toy_netfilter build_connmark_prerouting_rules toy_tables).1 "nat"
      "PREROUTING"
    ≡ ("-j" ∷ "ACCEPT" ∷ []) ∷ pod_outbound_connmark_jump_rule ∷ restore_mark_rule ∷ []
unfolding update_iptables_rules update_rule apply_rule build_connmark_prerouting_rules jump_rule
    restore_rule pod_outbound_connmark_jump_rule restore_mark_rule toy_tables
update_iptables_rules-ends_example =
    update_iptables_rules-ends toy_netfilter (λ tables. tables) toy_netfilter_laws toy_tables refl
      refl refl

abbrev toy_pod : Pod
toy_pod = record {
  name = "web-0";
  namespace = "default";
  uid = "u";
  owners = [];
  annotations = [];
  running = true;
}

abbrev toy_record : PodNetwork
toy_record = record toy_address { pod_name = "web-0"; pod_ns = "default" }

abbrev toy_policies : List (String × Bool)
toy_policies = ("default", true) ∷ []

-- "10.0.0.8" goes and "10.0.0.9" comes.
converge-wanted_by_example :
    toy_member "10.0.0.9"
      (converge toy_ipset
        (desired_nat_gw_outgoing_ips toy_ipset (toy_record ∷ []) (toy_pod ∷ []) toy_policies)
        fresh.sys).1
    ≡ wanted_by (λ x. some x) (toy_pod ∷ []) toy_policies "10.0.0.9" (toy_record ∷ [])
unfolding converge add_each delete_each sync_nat_gw_outgoing_ip delete_nat_gw_outgoing_ip
    nat_gw_outgoing_ip_set_entry added_answer deleted_entry current_nat_gw_outgoing_ips insert_some
    desired_nat_gw_outgoing_ips desired_of address_for live_pod selects_gateway chosen_networking
converge-wanted_by_example =
    converge-wanted_by toy_ipset toy_member toy_ipset_laws (toy_record ∷ []) (toy_pod ∷ [])
      toy_policies fresh.sys "10.0.0.9" (λ x y h. refl) refl

abbrev toy_assignment : PodIpAssignment
toy_assignment = record { network = toy_record; from_ipamd = true; nat_gw_outgoing_enabled = true }

rollback_nat_gw_outgoing_ip-member_example :
    toy_member "10.0.0.9"
      (rollback_nat_gw_outgoing_ip true toy_record (sync_flag toy_assignment fresh).1).1.sys
    ≡ toy_member "10.0.0.9" fresh.sys
unfolding sync_flag added_flag sync_nat_gw_outgoing_ip nat_gw_outgoing_ip_set_entry added_answer
    rollback_nat_gw_outgoing_ip still_added delete_nat_gw_outgoing_ip deleted_entry
rollback_nat_gw_outgoing_ip-member_example =
    rollback_nat_gw_outgoing_ip-member toy_member toy_ipset_laws "10.0.0.9" toy_assignment true
      fresh refl refl refl

abbrev toy_args : CmdArgs
toy_args = record {
  args = "K8S_POD_NAME=web-0;K8S_POD_NAMESPACE=default";
  valid_config = true;
  net_ns = "/run/netns/n";
  if_name = "eth0";
}

-- The device cannot be looked up.
add_assigned-err_example :
    Left toy_args toy_assignment fresh (add_assigned toy_args toy_assignment fresh).1
unfolding add_assigned undoing or_undo undo deferred prepare master_interface_of or_default_master
    rollback_nat_gw_outgoing_ip get_master_interface master_listed master_by_meta master_of get_meta
add_assigned-err_example =
    add_assigned-err toy_args toy_assignment fresh (failure "failed to get interface MTU") refl

abbrev main_rule : IpRule
main_rule = record toy_routing.new_rule { table = 254; dst = some "10.0.0.9" }

clean_up_ip_route_policy-present_example :
    toy_present main_rule (clean_up_ip_route_policy toy_routing "10.0.0.9" (some main_rule)).1
    ≡ false
unfolding clean_up_ip_route_policy clean_up_rules delete_if
clean_up_ip_route_policy-present_example =
    clean_up_ip_route_policy-present toy_routing toy_present toy_routing_laws "10.0.0.9" main_rule
      (some main_rule) refl

ensure_dst_ip_route_policy-routed_example :
    (q : IpRule) × (toy_present q
        (ensure_dst_ip_route_policy toy_routing "10.0.0.9" (some main_rule)).1
      ≡ true)
    × (is_address q.dst "10.0.0.9" ≡ true)
    × (is_dst_rule q ≡ true)
unfolding ensure_dst_ip_route_policy scan_rules add_unless
ensure_dst_ip_route_policy-routed_example =
    ensure_dst_ip_route_policy-routed toy_routing toy_present toy_routing_laws "10.0.0.9"
      (some main_rule) refl refl refl

value_from-rps_groups_example : suc (value_from 0 (rps_groups 40)) ≡ 1099511627776
value_from-rps_groups_example = value_from-rps_groups 40

load_sandbox_args-print_args_example :
    load_sandbox_args "K8S_POD_NAME=web-0;K8S_POD_NAMESPACE=default"
    ≡ ("K8S_POD_NAME", "web-0") ∷ ("K8S_POD_NAMESPACE", "default") ∷ []
load_sandbox_args-print_args_example =
    load_sandbox_args-print_args (("K8S_POD_NAME", "web-0") ∷ ("K8S_POD_NAMESPACE", "default") ∷ [])
      ((refl, refl, refl, refl), ((refl, refl, refl, refl), tt))

abbrev new_interface : NetworkInterface
new_interface = record {
  interface_id = "uni-1";
  subnet_id = "subnet-1";
  mac_address = "52:54:00:00:00:02";
  private_ip_set = "10.0.0.7" ∷ [];
  gateway = "10.0.0.1";
  netmask = "255.255.0.0";
  attach_instance_id = "";
}

use_new-Settled_example :
    Settled "subnet-1" new_interface fresh (use_new "subnet-1" new_interface fresh)
use_new-Settled_example = use_new-Settled "subnet-1" new_interface fresh

abbrev no_tables : Tables
no_tables t c = []

update_iptables_rules-NoTwice_example :
    NoTwice (update_iptables_rules toy_netfilter (metadata_rule ∷ []) no_tables).1
update_iptables_rules-NoTwice_example =
    update_iptables_rules-NoTwice toy_netfilter (λ tables. tables) toy_netfilter_laws
      (metadata_rule ∷ []) no_tables (λ t c q. refl)
