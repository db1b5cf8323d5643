-- ===== src/Cnivpc/NatOutgoing/Desired.antt =====
-- cmd/cnivpc/nat_outgoing.go: the addresses that a migration leaves, told from the records.
use uk8s_cni_vpc.Prelude.{
  String, Bool, false, ◌&&◌, ◌||◌, Option, none, some, List, [], ◌∷◌, All, ◌==◌, if◌then◌else◌, ◌≡◌,
  refl, sym, ◌∙◌, subst, inl, inr, arith, Bool-cases,
}
use uk8s_cni_vpc.Result.{ok}
use uk8s_cni_vpc.Host.{Ipset}
use uk8s_cni_vpc.Ipamd.Types.{PodNetwork, Pod}
use uk8s_cni_vpc.Cnivpc.NatOutgoing.{
  has_text, insert_some, live_pod, selects_gateway, desired_of, address_for,
  desired_nat_gw_outgoing_ips, converge,
}
use uk8s_cni_vpc.Cnivpc.NatOutgoing.Membership.{IpsetLaws, Canonical, has_text-insert}
use uk8s_cni_vpc.Cnivpc.NatOutgoing.Converged.{converge-member}

-- Whether a record has the address and its pod is live and leaves through the gateway.
abbrev pub selected : Option Pod → List (String × Bool) → Bool
selected none policies = false
selected (some pod) policies = selects_gateway pod policies

abbrev pub is_text : Option String → String → Bool
is_text none x = false
is_text (some y) x = x == y

abbrev pub wanted_by :
    (String → Option String) → List Pod → List (String × Bool) → String → List PodNetwork → Bool
wanted_by parse_ip4 pods policies x [] = false
wanted_by parse_ip4 pods policies x (network ∷ networks) =
    (selected (live_pod network pods) policies && is_text (parse_ip4 network.vpc_ip) x)
    || wanted_by parse_ip4 pods policies x networks

has_text-insert_some :
    (x : String) (o : Option String) (xs : List String)
    → has_text x (insert_some o xs) ≡ (is_text o x || has_text x xs)
unfolding insert_some
has_text-insert_some x none xs = refl
has_text-insert_some x (some y) xs = has_text-insert x y xs

address_for-selected :
    (policies : List (String × Bool)) (parsed : Option String) (pod : Option Pod) (x : String)
    → is_text (address_for policies parsed pod) x ≡ (selected pod policies && is_text parsed x)
unfolding address_for
address_for-selected policies parsed none x = refl
address_for-selected policies parsed (some pod) x = ground arith

address_for-parsed :
    (policies : List (String × Bool)) (parsed : Option String) (pod : Option Pod) (y : String)
    → address_for policies parsed pod ≡ some y
    → parsed ≡ some y
unfolding address_for
address_for-parsed policies parsed none y h = absurd (ground arith)
address_for-parsed policies parsed (some pod) y h = ground arith

module _ {S : Type 0} (ipset : Ipset S) where
  desired-wanted_by :
      (networks : List PodNetwork) (pods : List Pod) (policies : List (String × Bool)) (x : String)
      → has_text x (desired_nat_gw_outgoing_ips ipset networks pods policies)
        ≡ wanted_by ipset.parse_ip4 pods policies x networks
  unfolding desired_nat_gw_outgoing_ips desired_of
  desired-wanted_by [] pods policies x = refl
  desired-wanted_by (network ∷ networks) pods policies x =
      has_text-insert_some x (desired_of ipset.parse_ip4 pods policies network)
        (desired_nat_gw_outgoing_ips ipset networks pods policies)
      ∙ rw (
        address_for-selected policies (ipset.parse_ip4 network.vpc_ip) (live_pod network pods) x,
        desired-wanted_by networks pods policies x,
      )

  insert_some-Canonical :
      (o : Option String) (xs : List String)
      → ((y : String) → o ≡ some y → Canonical ipset y)
      → All (Canonical ipset) xs
      → All (Canonical ipset) (insert_some o xs)
  unfolding insert_some
  insert_some-Canonical none xs f h = h
  insert_some-Canonical (some y) xs f h = elim (Bool-cases (has_text y xs)) [
    | inl e ↦ subst (λ b. All (Canonical ipset) (if b then xs else y ∷ xs)) (sym e) h
    | inr e ↦ subst (λ b. All (Canonical ipset) (if b then xs else y ∷ xs)) (sym e) (f y refl, h)
  ]

  desired-Canonical :
      (networks : List PodNetwork) (pods : List Pod) (policies : List (String × Bool))
      → ((x y : String) → ipset.parse_ip4 x ≡ some y → ipset.parse_ip4 y ≡ some y)
      → All (Canonical ipset) (desired_nat_gw_outgoing_ips ipset networks pods policies)
  unfolding desired_nat_gw_outgoing_ips desired_of
  desired-Canonical [] pods policies again = tt
  desired-Canonical (network ∷ networks) pods policies again =
      insert_some-Canonical (desired_of ipset.parse_ip4 pods policies network)
        (desired_nat_gw_outgoing_ips ipset networks pods policies)
        (λ y h. again network.vpc_ip y (
          address_for-parsed policies (ipset.parse_ip4 network.vpc_ip) (live_pod network pods) y h))
        (desired-Canonical networks pods policies again)

  -- If the last part of the migration succeeds, then the set of the kernel holds exactly the
  -- addresses of the records whose pod is live and has a PodNetworking for the gateway, however the
  -- set was before. What `net.ParseIP` printed is read back as itself.
  pub converge-wanted_by :
      (member : String → S → Bool)
      → IpsetLaws ipset member
      → (networks : List PodNetwork) (pods : List Pod) (policies : List (String × Bool)) (s : S)
        (x : String)
      → ((x y : String) → ipset.parse_ip4 x ≡ some y → ipset.parse_ip4 y ≡ some y)
      → (converge ipset (desired_nat_gw_outgoing_ips ipset networks pods policies) s).0 ≡ ok tt
      → member x (converge ipset (desired_nat_gw_outgoing_ips ipset networks pods policies) s).1
        ≡ wanted_by ipset.parse_ip4 pods policies x networks
  converge-wanted_by member laws networks pods policies s x again h =
      converge-member ipset member laws (desired_nat_gw_outgoing_ips ipset networks pods policies) s
        x (desired-Canonical networks pods policies again) h
      ∙ desired-wanted_by networks pods policies x
