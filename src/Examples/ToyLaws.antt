-- ===== src/Examples/ToyLaws.antt =====
-- The set of the gateway and a policy database with one place keep their documented laws.
use uk8s_cni_vpc.Prelude.{
  String, Bool, true, false, not, ◌&&◌, Option, none, some, List, [], ◌∷◌, ◌==◌, map, ◌≡◌, ◌≢◌,
  refl, sym, ap, ◌∙◌, subst, inl, inr, if◌then◌else◌, arith, eqb, eq_iff, Bool-cases,
}
use uk8s_cni_vpc.Result.{ok, err, failure}
use uk8s_cni_vpc.Host.{Routing, IpRule}
use uk8s_cni_vpc.Cnivpc.NatOutgoing.{has_text}
use uk8s_cni_vpc.Cnivpc.NatOutgoing.Membership.{IpsetLaws, has_entry, has_text-same}
use uk8s_cni_vpc.Cnivpc.RoutePolicy.Cleared.{RoutingLaws, Listed}
use uk8s_cni_vpc.Examples.ToyPlugin.{ToySys, toy_ipset, remove_text}

abbrev pub toy_member : String → ToySys → Bool
toy_member x s = has_text x s.set

has_entry-map : (x : String) (xs : List String) → has_entry x (map some xs) ≡ has_text x xs
has_entry-map x [] = refl
has_entry-map x (y ∷ ys) = rw (has_entry-map x ys)

ok_injective : {A : Type 0} {a b : A} → ok a ≡ ok b → a ≡ b
ok_injective h = ground arith

has_text-remove_text :
    (x y : String) (xs : List String)
    → has_text x (remove_text y xs) ≡ (not (x == y) && has_text x xs)
has_text-remove_text x y [] = ground arith
has_text-remove_text x y (z ∷ zs) =
    let rest = has_text-remove_text x y zs in
    elim (Bool-cases (y == z)) [
      | inl e ↦
          subst (λ w. has_text x (remove_text y (w ∷ zs)) ≡ (not (x == y) && has_text x (w ∷ zs)))
            ((eq_iff y z).0 e) (ground (arith, rest, (eq_iff y y).1 refl))
      | inr e ↦ elim (Bool-cases (x == y)) [
        | inr other ↦ ground (arith, rest)
        | inl same ↦ ground (arith, rest, ap (λ t. t == z) ((eq_iff x y).0 same))
      ]
    ]

pub toy_ipset_laws : IpsetLaws toy_ipset toy_member
toy_ipset_laws = record {
  list_answer = λ x entries s h.
      subst (λ l. has_entry x l ≡ has_text x s.set) (ok_injective h) (has_entry-map x s.set);
  list_same = λ x s. refl;
  create_same = λ x s. refl;
  add_ok = λ x y s h. ground arith;
  add_exist = λ x y s e h k. elim (Bool-cases (x == y)) [
    | inl same ↦ ground (arith, has_text-same x y s.set same)
    | inr other ↦ ground arith
  ];
  add_new = λ y s h. ground arith;
  add_err = λ x y s e h. ground arith;
  del_ok = λ x y s h. ground (arith, has_text-remove_text x y s.set);
  del_enoent = λ x y s e h k. elim (Bool-cases (x == y)) [
    | inl same ↦ ground (arith, has_text-same x y s.set same)
    | inr other ↦ ground arith
  ];
  listed_canonical = λ x s h. refl;
}

-- A policy database with one place.
abbrev same_text : Option String → Option String → Bool
same_text none none = true
same_text none (some b) = false
same_text (some a) none = false
same_text (some a) (some b) = a == b

abbrev same_ip_rule : IpRule → IpRule → Bool
same_ip_rule q r =
    eqb q.priority r.priority
    && eqb q.table r.table
    && same_text q.src r.src
    && same_text q.dst r.dst
    && eqb q.mark r.mark
    && eqb q.mask r.mask
    && q.other == r.other

same_text_eq : (a b : Option String) → same_text a b ≡ true → a ≡ b
same_text_eq none none h = refl
same_text_eq none (some b) h = absurd (ground arith)
same_text_eq (some a) none h = absurd (ground arith)
same_text_eq (some a) (some b) h = ap some ((eq_iff a b).0 h)

same_text_refl : (a : Option String) → same_text a a ≡ true
same_text_refl none = refl
same_text_refl (some a) = (eq_iff a a).1 refl

same_ip_rule_eq : (q r : IpRule) → same_ip_rule q r ≡ true → q ≡ r
same_ip_rule_eq q r h =
    ground (arith, same_text_eq q.src r.src, same_text_eq q.dst r.dst, eq_iff q.other r.other)

same_ip_rule_refl : (q : IpRule) → same_ip_rule q q ≡ true
same_ip_rule_refl q =
    ground (arith, same_text_refl q.src, same_text_refl q.dst, (eq_iff q.other q.other).1 refl)

abbrev pub toy_routing : Routing (Option IpRule)
toy_routing = record {
  new_rule = record {
    priority = 0;
    table = 0;
    src = none;
    dst = none;
    mark = 0;
    mask = 0;
    other = "";
  };
  host_net = λ ip. some ip;
  rule_list = λ s. (ok (elim s [ none ↦ [] | some r ↦ r ∷ [] ]), s);
  rule_del = λ q s. elim s [
    | none ↦ (err (failure "no such rule"), none)
    | some r ↦ if same_ip_rule q r then (ok tt, none) else (err (failure "no such rule"), some r)
  ];
  rule_add = λ q s. elim s [ none ↦ (ok tt, some q) | some r ↦ (err (failure "no place"), some r) ];
}

abbrev pub toy_present : IpRule → Option IpRule → Bool
toy_present q none = false
toy_present q (some r) = same_ip_rule q r

listed_present_lem :
    (q : IpRule) (rules : List IpRule) (s : Option IpRule)
    → (toy_routing.rule_list s).0 ≡ ok rules
    → Listed q rules
    → toy_present q s ≡ true
listed_present_lem q rules none h l = absurd (subst (Listed q) (sym (ok_injective h)) l)
listed_present_lem q rules (some r) h l = elim (subst (Listed q) (sym (ok_injective h)) l) [
  | inl same ↦ subst (λ x. same_ip_rule q x ≡ true) same (same_ip_rule_refl q)
  | inr later ↦ absurd later
]

present_listed_lem :
    (q : IpRule) (rules : List IpRule) (s : Option IpRule)
    → (toy_routing.rule_list s).0 ≡ ok rules
    → toy_present q s ≡ true
    → Listed q rules
present_listed_lem q rules none h p = absurd (ground arith)
present_listed_lem q rules (some r) h p =
    subst (Listed q) (ok_injective h) (inl (same_ip_rule_eq q r p))

del_other_lem :
    (q r : IpRule) (s : Option IpRule)
    → q ≢ r
    → toy_present q (toy_routing.rule_del r s).1 ≡ toy_present q s
del_other_lem q r none differ = refl
del_other_lem q r (some x) differ = elim (Bool-cases (same_ip_rule r x)) [
  | inr other ↦ rw other
  | inl same ↦ elim (Bool-cases (same_ip_rule q x)) [
    | inl mine ↦ absurd (differ (same_ip_rule_eq q x mine ∙ sym (same_ip_rule_eq r x same)))
    | inr not_mine ↦ rw (same, not_mine)
  ]
]

del_gone_lem :
    (q : IpRule) (s : Option IpRule)
    → (toy_routing.rule_del q s).0 ≡ ok tt
    → toy_present q (toy_routing.rule_del q s).1 ≡ false
del_gone_lem q none h = refl
del_gone_lem q (some r) h = ground arith

del_fewer_lem :
    (q r : IpRule) (s : Option IpRule)
    → toy_present q s ≡ false
    → toy_present q (toy_routing.rule_del r s).1 ≡ false
del_fewer_lem q r none h = refl
del_fewer_lem q r (some x) h = ground arith

add_ok_lem :
    (q : IpRule) (s : Option IpRule)
    → (toy_routing.rule_add q s).0 ≡ ok tt
    → toy_present q (toy_routing.rule_add q s).1 ≡ true
add_ok_lem q none h = same_ip_rule_refl q
add_ok_lem q (some r) h = absurd (ground arith)

pub toy_routing_laws : RoutingLaws toy_routing toy_present
toy_routing_laws = record {
  list_same = λ q s. refl;
  listed_present = listed_present_lem;
  present_listed = present_listed_lem;
  del_gone = del_gone_lem;
  del_other = del_other_lem;
  del_fewer = del_fewer_lem;
  add_ok = add_ok_lem;
}
