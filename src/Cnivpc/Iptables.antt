-- ===== src/Cnivpc/Iptables.antt =====
-- cmd/cnivpc/if.go: the iptables rules that the plugin keeps on a node.
pub mod Spec
pub mod Order
pub mod Twice
use uk8s_cni_vpc.Prelude.{
  String, concat, Bool, true, false, not, ◌&&◌, ◌||◌, List, [], ◌∷◌, ◌++◌, map, ◌==◌, if◌then◌else◌,
}
use uk8s_cni_vpc.Result.{Result, ok, err, Error}
use uk8s_cni_vpc.Step.{Step, pure, raise, or_else, ◌>>=◌, ◌>>◌}

-- The iptables package, whose tables are part of the state `S`; `is_chain_exist_err` looks for
-- "Chain already exists" in the text of an error.
pub record Netfilter (S : Type 0) : Type 0 where
  pub exists_rule : String → String → List String → Step S Bool
  pub insert_first : String → String → List String → Step S (Unit {0})
  pub append : String → String → List String → Step S (Unit {0})
  pub delete : String → String → List String → Step S (Unit {0})
  pub new_chain : String → String → Step S (Unit {0})
  pub chain_exists : String → String → Step S Bool
  pub is_chain_exist_err : Error → Bool

pub record IptablesRule : Type 0 where
  pub name : String
  pub should_exist : Bool
  pub table : String
  pub chain : String
  pub rule : List String

abbrev pub connmark_chain_name : String
connmark_chain_name = "UCLOUD-CONNMARK-CHAIN-0"

abbrev pub snat_chain_name : String
snat_chain_name = "UCLOUD-SNAT-CHAIN-0"

abbrev pub nat_gw_outgoing_enabled_ip_set_name : String
nat_gw_outgoing_enabled_ip_set_name = "UCLOUD-NATGW-OUTGOING"

-- `defaultConnmark`, as `%#x` prints it.
abbrev pub default_connmark : String
default_connmark = "0x80"

abbrev pub private_networks : List String
private_networks = "10.0.0.0/8" ∷ "172.16.0.0/12" ∷ "192.168.0.0/16" ∷ []

-- The rules of the two custom chains go before those that are there.
abbrev pub goes_first : IptablesRule → Bool
goes_first r = r.name == connmark_chain_name || r.name == snat_chain_name

unfoldable pub pod_outbound_connmark_jump_rule : List String
pod_outbound_connmark_jump_rule =
    "-i" ∷ "ucni+" ∷ "-m" ∷ "comment" ∷ "--comment" ∷ "UCLOUD outbound connections" ∷ "-m" ∷ "state"
    ∷ "--state" ∷ "NEW" ∷ "-j" ∷ connmark_chain_name ∷ []

pub nat_gw_outgoing_bypass_rule : List String
nat_gw_outgoing_bypass_rule =
    "-m" ∷ "set" ∷ "--match-set" ∷ nat_gw_outgoing_enabled_ip_set_name ∷ "src" ∷ "-m" ∷ "comment"
    ∷ "--comment" ∷ "UCLOUD NATGW OUTGOING ENABLED" ∷ "-j" ∷ "RETURN" ∷ []

pub pod_outbound_connmark_rule : List String
pod_outbound_connmark_rule =
    "-m"
    ∷ "comment"
    ∷ "--comment"
    ∷ "UCLOUD CONNMARK"
    ∷ "-j"
    ∷ "CONNMARK"
    ∷ "--set-xmark"
    ∷ concat default_connmark (concat "/" default_connmark)
    ∷ []

unfoldable pub restore_mark_rule : List String
restore_mark_rule =
    "-m" ∷ "comment" ∷ "--comment" ∷ "UCLOUD CONNMARK" ∷ "-j" ∷ "CONNMARK" ∷ "--restore-mark"
    ∷ "--mask" ∷ default_connmark ∷ []

unfoldable pub jump_rule : Bool → IptablesRule
jump_rule should_exist = record {
  name = "connmark rule for non-VPC outbound traffic";
  should_exist = should_exist;
  table = "nat";
  chain = "PREROUTING";
  rule = pod_outbound_connmark_jump_rule;
}

unfoldable pub restore_rule : Bool → IptablesRule
restore_rule should_exist = record {
  name = "connmark to fwmark copy";
  should_exist = should_exist;
  table = "nat";
  chain = "PREROUTING";
  rule = restore_mark_rule;
}

-- The jump is taken out and put at the end again, then the copy of the mark.
unfoldable pub build_connmark_prerouting_rules : List IptablesRule
build_connmark_prerouting_rules =
    jump_rule false ∷ jump_rule true ∷ restore_rule false ∷ restore_rule true ∷ []

unfoldable pub metadata_rule : IptablesRule
metadata_rule = record {
  name = "block pod metadata access";
  should_exist = true;
  table = "raw";
  chain = "PREROUTING";
  rule = "-i" ∷ "ucni+" ∷ "-d" ∷ "100.80.80.80/32" ∷ "-j" ∷ "DROP" ∷ [];
}

pub bypass_rule : IptablesRule
bypass_rule = record {
  name = connmark_chain_name;
  should_exist = true;
  table = "nat";
  chain = connmark_chain_name;
  rule = nat_gw_outgoing_bypass_rule;
}

pub snat_return_rule : String → IptablesRule
snat_return_rule cidr = record {
  name = snat_chain_name;
  should_exist = true;
  table = "nat";
  chain = snat_chain_name;
  rule = "-d" ∷ cidr ∷ "-m" ∷ "comment" ∷ "--comment" ∷ "UCLOUD SNAT CHAIN" ∷ "-j" ∷ "RETURN" ∷ [];
}

pub connmark_return_rule : String → IptablesRule
connmark_return_rule cidr = record {
  name = connmark_chain_name;
  should_exist = true;
  table = "nat";
  chain = connmark_chain_name;
  rule =
      "-d" ∷ cidr ∷ "-m" ∷ "comment" ∷ "--comment" ∷ "UCLOUD CONNMARK CHAIN, VPC CIDR" ∷ "-j"
      ∷ "RETURN" ∷ [];
}

pub connmark_rule : IptablesRule
connmark_rule = record {
  name = "connmark rule for external outbound traffic";
  should_exist = true;
  table = "nat";
  chain = connmark_chain_name;
  rule = pod_outbound_connmark_rule;
}

pub snat_jump_rule : IptablesRule
snat_jump_rule = record {
  name = "first SNAT rules for non-VPC outbound traffic";
  should_exist = true;
  table = "nat";
  chain = "POSTROUTING";
  rule = "-m" ∷ "comment" ∷ "--comment" ∷ "UCLOUD SNAT CHAIN" ∷ "-j" ∷ snat_chain_name ∷ [];
}

pub snat_rule : String → String → IptablesRule
snat_rule primary_ip primary_interface = record {
  name = "SNAT rule for non-VPC outbound traffic";
  should_exist = true;
  table = "nat";
  chain = snat_chain_name;
  rule =
      "-o" ∷ primary_interface ∷ "-m" ∷ "comment" ∷ "--comment" ∷ "UCLOUD SNAT" ∷ "-m" ∷ "addrtype"
      ∷ "!" ∷ "--dst-type" ∷ "LOCAL" ∷ "-j" ∷ "SNAT" ∷ "--to-source" ∷ primary_ip ∷ [];
}

pub primary_connmark_rule : String → IptablesRule
primary_connmark_rule primary_interface = record {
  name = "connmark for primary interface";
  should_exist = true;
  table = "mangle";
  chain = "PREROUTING";
  rule =
      "-m"
      ∷ "comment"
      ∷ "--comment"
      ∷ "UCLOUD primary UNI"
      ∷ "-i"
      ∷ primary_interface
      ∷ "-m"
      ∷ "addrtype"
      ∷ "--dst-type"
      ∷ "LOCAL"
      ∷ "--limit-iface-in"
      ∷ "-j"
      ∷ "CONNMARK"
      ∷ "--set-mark"
      ∷ concat default_connmark (concat "/" default_connmark)
      ∷ [];
}

pub veth_restore_rule : IptablesRule
veth_restore_rule = record {
  name = "connmark restore for veth";
  should_exist = true;
  table = "mangle";
  chain = "PREROUTING";
  rule =
      "-m" ∷ "comment" ∷ "--comment" ∷ "UCLOUD primary UNI" ∷ "-i" ∷ "ucni+" ∷ "-j" ∷ "CONNMARK"
      ∷ "--restore-mark" ∷ "--mask" ∷ default_connmark ∷ [];
}

-- The rules of `buildSNATRules` and `buildConnmarkRules`.
pub snat_rules : List String → String → String → List IptablesRule
snat_rules cidrs primary_ip primary_interface =
    snat_jump_rule
    ∷ (map snat_return_rule cidrs
        ++ snat_rule primary_ip primary_interface
          ∷ primary_connmark_rule primary_interface
          ∷ veth_restore_rule
          ∷ [])

pub connmark_rules : List String → List IptablesRule
connmark_rules cidrs = map connmark_return_rule cidrs ++ connmark_rule ∷ []

module _ {S : Type 0} (ipt : Netfilter S) where
  -- The body of the loop of `updateIptablesRules`, once it is known whether the rule exists.
  unfoldable pub apply_rule : IptablesRule → Bool → Step S (Unit {0})
  apply_rule r true =
      if r.should_exist
      then pure tt
      else or_else (ipt.delete r.table r.chain r.rule) "failed to delete iptables rule"
  apply_rule r false =
      if r.should_exist
      then (if goes_first r
          then or_else (ipt.insert_first r.table r.chain r.rule) "failed to insert iptables rule"
          else or_else (ipt.append r.table r.chain r.rule) "failed to append iptables rule")
      else pure tt

  unfoldable pub update_rule : IptablesRule → Step S (Unit {0})
  update_rule r = do
    exists ← or_else (ipt.exists_rule r.table r.chain r.rule) "failed to check iptables rule exists"
    apply_rule r exists

  unfoldable pub update_iptables_rules : List IptablesRule → Step S (Unit {0})
  update_iptables_rules [] = pure tt
  update_iptables_rules (r ∷ rs) = update_rule r >>= λ _. update_iptables_rules rs

  pub ensure_chain : String → String → Step S (Unit {0})
  ensure_chain table chain s =
      let (r, s') = ipt.new_chain table chain s in
      elim r [
        | ok u ↦ (ok tt, s')
        | err e ↦ ((if ipt.is_chain_exist_err e then ok tt else err e), s')
      ]

  pub build_snat_rules : List String → String → String → Step S (List IptablesRule)
  build_snat_rules cidrs primary_ip primary_interface = do
    ensure_chain "nat" snat_chain_name
    pure (snat_rules cidrs primary_ip primary_interface)

  pub build_connmark_rules : List String → Step S (List IptablesRule)
  build_connmark_rules cidrs = do
    ensure_chain "nat" connmark_chain_name
    pure (connmark_rules cidrs)

  pub needs_nat_gw_outgoing_migration : Step S Bool
  needs_nat_gw_outgoing_migration = do
    chain ← ipt.chain_exists "nat" connmark_chain_name
    (if chain
        then (ipt.exists_rule "nat" connmark_chain_name nat_gw_outgoing_bypass_rule >>= λ bypass.
            pure (not bypass))
        else pure true)

  pub ensure_pod_metadata_blocked : Step S (Unit {0})
  ensure_pod_metadata_blocked = update_iptables_rules (metadata_rule ∷ [])
