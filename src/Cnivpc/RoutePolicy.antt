-- ===== src/Cnivpc/RoutePolicy.antt =====
-- cmd/cnivpc/if.go: the rules of the policy database for the addresses of pods.
pub mod Cleared
pub mod Routed
use Prim.Native.Char.{code}
use uk8s_cni_vpc.Prelude.{
  ℕ, zero, suc, ◌+◌, ◌-◌, ◌*◌, ◌%◌, ◌^◌, String, Bool, true, false, not, ◌&&◌, ◌||◌, Option, none,
  some, List, [], ◌∷◌, ◌==◌, eqb, leb, ltb, codes, if◌then◌else◌,
}
use uk8s_cni_vpc.Result.{Result, ok, err, Error, failure}
use uk8s_cni_vpc.Step.{Step, pure, raise, lift, ignore, or_else, ◌>>=◌, ◌>>◌}
use uk8s_cni_vpc.Host.{IpRule, Routing}

abbrev pub main_table_id : ℕ
main_table_id = 254

abbrev pub dst_rule_priority : ℕ
dst_rule_priority = 512

abbrev pub mark_rule_priority : ℕ
mark_rule_priority = 1024

abbrev pub src_rule_priority : ℕ
src_rule_priority = 2048

abbrev pub default_connmark : ℕ
default_connmark = 128

-- `net != nil && net.IP.String() == ip`
abbrev pub is_address : Option String → String → Bool
is_address none ip = false
is_address (some a) ip = a == ip

abbrev pub is_nil : Option String → Bool
is_nil none = true
is_nil (some a) = false

-- Decimal digits of ASCII, and what `strconv.Atoi` makes of them.
abbrev pub is_digit : ℕ → Bool
is_digit c = leb 48 c && leb c 57

abbrev pub digits_of : List ℕ → List ℕ
digits_of [] = []
digits_of (c ∷ cs) = if is_digit c then (c - 48) ∷ digits_of cs else digits_of cs

abbrev pub value_from : ℕ → List ℕ → ℕ
value_from n [] = n
value_from n (d ∷ ds) = value_from (n * 10 + d) ds

unfoldable pub atoi : List ℕ → Result ℕ
atoi [] = err (failure "strconv.Atoi: invalid syntax")
atoi (d ∷ ds) =
    if ltb (value_from 0 (d ∷ ds)) (2 ^ 63)
    then ok (value_from 0 (d ∷ ds))
    else err (failure "strconv.Atoi: value out of range")

-- `ifNameToTableId` for names in ASCII, the sum as 64 bits.
unfoldable pub if_name_to_table_id : String → Result ℕ
if_name_to_table_id name = elim (atoi (digits_of (codes name))) [
  | err e ↦ err e
  | ok num ↦ ok ((1000 + num) % 2 ^ 64)
]

abbrev pub is_dst_rule : IpRule → Bool
is_dst_rule r = eqb r.table main_table_id && is_nil r.src

abbrev pub is_src_rule : ℕ → IpRule → Bool
is_src_rule table r = eqb r.table table && is_nil r.dst

abbrev pub is_connmark_rule : IpRule → Bool
is_connmark_rule r =
    eqb r.mask default_connmark
    && eqb r.mark default_connmark
    && eqb r.table main_table_id
    && eqb r.priority mark_rule_priority

abbrev pub has_connmark_rule : List IpRule → Bool
has_connmark_rule [] = false
has_connmark_rule (r ∷ rs) = is_connmark_rule r || has_connmark_rule rs

module _ {S : Type 0} (routing : Routing S) where
  -- The loop of `ensureDstIPRoutePolicy` and of `ensureSrcIPRoutePolicy`: whether it returned early.
  -- A rule of the address that is not the wanted one is deleted, and a failure of that is ignored.
  unfoldable pub scan_rules : (IpRule → Bool) → (IpRule → Bool) → List IpRule → Step S Bool
  scan_rules of_address wanted [] = pure false
  scan_rules of_address wanted (r ∷ rs) =
      if of_address r
      then (if wanted r
          then pure true
          else (ignore (routing.rule_del r) >>= λ _. scan_rules of_address wanted rs))
      else scan_rules of_address wanted rs

  abbrev pub dst_rule : String → IpRule
  dst_rule ip = record routing.new_rule {
    priority = dst_rule_priority;
    table = main_table_id;
    dst = routing.host_net ip;
  }

  abbrev pub src_rule : String → ℕ → IpRule
  src_rule ip table = record routing.new_rule {
    priority = src_rule_priority;
    table = table;
    src = routing.host_net ip;
  }

  unfoldable pub add_unless : Bool → IpRule → Step S (Unit {0})
  add_unless found r = if found then pure tt else or_else (routing.rule_add r) "fail to add ip rule"

  unfoldable pub ensure_dst_ip_route_policy : String → Step S (Unit {0})
  ensure_dst_ip_route_policy ip = do
    rules ← or_else routing.rule_list "ip rules list error"
    found ← scan_rules (λ r. is_address r.dst ip) is_dst_rule rules
    add_unless found (dst_rule ip)

  unfoldable pub ensure_src_ip_route_policy : String → String → Step S (Unit {0})
  ensure_src_ip_route_policy ip ifname = do
    table ← or_else (lift (if_name_to_table_id ifname)) "cannot convert link name to number"
    rules ← or_else routing.rule_list "ip rules list error"
    found ← scan_rules (λ r. is_address r.src ip) (is_src_rule table) rules
    add_unless found (src_rule ip table)

  unfoldable pub delete_if : Bool → IpRule → Step S (Unit {0})
  delete_if b r = if b then or_else (routing.rule_del r) "ip rule del err" else pure tt

  unfoldable pub clean_up_rules : String → List IpRule → Step S (Unit {0})
  clean_up_rules ip [] = pure tt
  clean_up_rules ip (r ∷ rs) = do
    delete_if (is_address r.dst ip) r
    delete_if (is_address r.src ip) r
    clean_up_rules ip rs

  unfoldable pub clean_up_ip_route_policy : String → Step S (Unit {0})
  clean_up_ip_route_policy ip = do
    rules ← or_else routing.rule_list "ip rules list error"
    clean_up_rules ip rules

  unfoldable pub ensure_connmark_rule : Step S (Unit {0})
  ensure_connmark_rule = do
    rules ← or_else routing.rule_list "ip rules list error"
    (if has_connmark_rule rules
        then pure tt
        else routing.rule_add (record routing.new_rule {
          mask = default_connmark;
          mark = default_connmark;
          table = main_table_id;
          priority = mark_rule_priority;
        }))
