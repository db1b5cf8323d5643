-- ===== src/Cnivpc/NatOutgoing.antt =====
-- cmd/cnivpc/nat_outgoing.go: the addresses of the pods that leave through the NAT gateway.
pub mod Membership
pub mod Converged
pub mod Desired
use uk8s_cni_vpc.Prelude.{
  String, Bool, true, false, not, ◌&&◌, ◌||◌, Option, none, some, List, [], ◌∷◌, ◌==◌,
  if◌then◌else◌,
}
use uk8s_cni_vpc.Result.{Result, ok, err, Error, failure}
use uk8s_cni_vpc.Step.{Step, pure, raise, lift, try, or_else, ◌>>=◌, ◌>>◌}
use uk8s_cni_vpc.Ipamd.Types.{PodNetwork, Pod}
use uk8s_cni_vpc.Ipamd.Claims.{lookup}
use uk8s_cni_vpc.Host.{Ipset}

abbrev pub annotation_pod_networking_name : String
annotation_pod_networking_name = "network.kubernetes.io/ucloud-pod-networking-name"

abbrev pub annotation_pod_networking_disable : String
annotation_pod_networking_disable = "network.kubernetes.io/ucloud-pod-networking-disable"

abbrev pub default_pod_networking_name : String
default_pod_networking_name = "default"

-- A map lookup whose missing keys give "".
abbrev pub text_or_empty : Option String → String
text_or_empty none = ""
text_or_empty (some t) = t

abbrev pub same_pod : String → String → Pod → Bool
same_pod ns name pod = pod.namespace == ns && pod.name == name

-- `podsByName[…]`, where a later pod of the list replaces an earlier one.
abbrev pub find_pod : String → String → List Pod → Option Pod
find_pod ns name [] = none
find_pod ns name (pod ∷ pods) = elim (find_pod ns name pods) [
  | some p ↦ some p
  | none ↦ if same_pod ns name pod then some pod else none
]

-- `podNetworkingPolicies[…]`
abbrev pub find_policy : String → List (String × Bool) → Option Bool
find_policy name [] = none
find_policy name ((key, enabled) ∷ policies) = elim (find_policy name policies) [
  | some b ↦ some b
  | none ↦ if key == name then some enabled else none
]

-- A set of texts is a list without repetition; `insert` is `Insert` of `sets.Set`.
abbrev pub has_text : String → List String → Bool
has_text x [] = false
has_text x (y ∷ ys) = x == y || has_text x ys

abbrev pub insert : String → List String → List String
insert x xs = if has_text x xs then xs else x ∷ xs

-- `a.Difference(b)`
abbrev pub difference : List String → List String → List String
difference [] ys = []
difference (x ∷ xs) ys = if has_text x ys then difference xs ys else x ∷ difference xs ys

-- The pod that a record was written for, if it is still the same one.
unfoldable pub live_pod : PodNetwork → List Pod → Option Pod
live_pod network pods = elim (find_pod network.pod_ns network.pod_name pods) [
  | none ↦ none
  | some pod ↦
      if not (network.pod_uid == "") && not (network.pod_uid == pod.uid) then none else some pod
]

unfoldable pub chosen_networking : Pod → String
chosen_networking pod =
    let name = text_or_empty (lookup annotation_pod_networking_name pod.annotations) in
    if name == "" then default_pod_networking_name else name

-- Whether a live pod leaves through the gateway.
unfoldable pub selects_gateway : Pod → List (String × Bool) → Bool
selects_gateway pod policies =
    if text_or_empty (lookup annotation_pod_networking_disable pod.annotations) == "true"
    then false
    else elim (find_policy (chosen_networking pod) policies) [
      | none ↦ false
      | some enabled ↦ enabled
    ]

unfoldable pub address_for : List (String × Bool) → Option String → Option Pod → Option String
address_for policies parsed none = none
address_for policies parsed (some pod) = if selects_gateway pod policies then parsed else none

-- The body of the loop of `desiredNATGWOutgoingIPs`.
unfoldable pub desired_of :
    (String → Option String) → List Pod → List (String × Bool) → PodNetwork → Option String
desired_of parse_ip4 pods policies network =
    address_for policies (parse_ip4 network.vpc_ip) (live_pod network pods)

unfoldable pub insert_some : Option String → List String → List String
insert_some none xs = xs
insert_some (some x) xs = insert x xs

module _ {S : Type 0} (ipset : Ipset S) where
  -- `natGWOutgoingIPSetEntry`
  unfoldable pub nat_gw_outgoing_ip_set_entry : String → Result String
  nat_gw_outgoing_ip_set_entry pod_ip = elim (ipset.parse_ip4 pod_ip) [
    | none ↦ err (failure "main.natGWOutgoingIPSetEntry invalid IPv4 address")
    | some ip ↦ ok ip
  ]

  -- The loops go through the sets from their ends, which a Go set does not tell.
  unfoldable pub desired_nat_gw_outgoing_ips :
      List PodNetwork → List Pod → List (String × Bool) → List String
  desired_nat_gw_outgoing_ips [] pods policies = []
  desired_nat_gw_outgoing_ips (network ∷ networks) pods policies =
      insert_some (desired_of ipset.parse_ip4 pods policies network)
        (desired_nat_gw_outgoing_ips networks pods policies)

  unfoldable pub current_nat_gw_outgoing_ips : List (Option String) → List String
  current_nat_gw_outgoing_ips [] = []
  current_nat_gw_outgoing_ips (entry ∷ entries) =
      insert_some entry (current_nat_gw_outgoing_ips entries)

  abbrev pub ensure_nat_gw_outgoing_ip_set : Step S (Unit {0})
  ensure_nat_gw_outgoing_ip_set = ipset.create

  -- Whether the address was added by this call.
  unfoldable pub added_answer : Result (Unit {0}) → Result Bool
  added_answer (ok u) = ok true
  added_answer (err e) = if ipset.is_exist e then ok false else err e

  unfoldable pub sync_nat_gw_outgoing_ip : String → Bool → Step S Bool
  sync_nat_gw_outgoing_ip pod_ip enabled =
      if enabled
      then (ensure_nat_gw_outgoing_ip_set >>= λ _.
          lift (nat_gw_outgoing_ip_set_entry pod_ip) >>= λ entry.
          try (ipset.add entry) >>= λ r. lift (added_answer r))
      else pure false

  unfoldable pub deleted_entry : Result (Unit {0}) → Result (Unit {0})
  deleted_entry (ok u) = ok tt
  deleted_entry (err e) = if ipset.is_enoent e then ok tt else err e

  unfoldable pub delete_nat_gw_outgoing_ip : String → Step S (Unit {0})
  delete_nat_gw_outgoing_ip pod_ip = do
    entry ← lift (nat_gw_outgoing_ip_set_entry pod_ip)
    r ← try (ipset.del entry)
    lift (deleted_entry r)

  -- The end of `migrateLegacyNATGWOutgoingIPs`: the missing addresses are added, then those that are
  -- not desired go.
  unfoldable pub add_each : List String → Step S (Unit {0})
  add_each [] = pure tt
  add_each (ip ∷ ips) = sync_nat_gw_outgoing_ip ip true >>= λ _. add_each ips

  unfoldable pub delete_each : List String → Step S (Unit {0})
  delete_each [] = pure tt
  delete_each (ip ∷ ips) = delete_nat_gw_outgoing_ip ip >>= λ _. delete_each ips

  unfoldable pub converge : List String → Step S (Unit {0})
  converge desired = do
    entries ← ipset.list
    add_each (difference desired (current_nat_gw_outgoing_ips entries))
    delete_each (difference (current_nat_gw_outgoing_ips entries) desired)
