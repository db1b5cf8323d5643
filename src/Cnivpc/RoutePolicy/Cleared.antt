-- ===== src/Cnivpc/RoutePolicy/Cleared.antt =====
-- cmd/cnivpc/if.go: which rules of the policy database are left when an address is cleaned up.
use uk8s_cni_vpc.Prelude.{
  String, Bool, true, false, not, ◌&&◌, ◌||◌, List, [], ◌∷◌, ◌≡◌, ◌≢◌, refl, sym, ◌∙◌, ap, subst,
  ◌⊎◌, inl, inr, arith, Bool-cases,
}
use uk8s_cni_vpc.Result.{ok}
use uk8s_cni_vpc.Step.{Step, or_else, ◌>>=◌, ◌>>◌}
use uk8s_cni_vpc.Step.Runs.{bind-ok, bind-next, or_else-ok}
use uk8s_cni_vpc.Host.{IpRule, Routing}
use uk8s_cni_vpc.Cnivpc.RoutePolicy.{
  is_address, delete_if, clean_up_rules, clean_up_ip_route_policy,
}

-- The rule stands in the list.
abbrev pub Listed : IpRule → List IpRule → Type 0
Listed q [] = ⊥
Listed q (r ∷ rs) = (q ≡ r) ⊎ Listed q rs

-- What is documented of the policy database, a set of rules: the list tells them all, a deletion
-- takes out the rule that it names and no other, and a call that fails changes nothing.
pub record RoutingLaws {S : Type 0} (routing : Routing S) (present : IpRule → S → Bool)
    : Type 0 where
  pub list_same : (q : IpRule) (s : S) → present q (routing.rule_list s).1 ≡ present q s
  pub listed_present :
      (q : IpRule) (rules : List IpRule) (s : S)
      → (routing.rule_list s).0 ≡ ok rules
      → Listed q rules
      → present q s ≡ true
  pub present_listed :
      (q : IpRule) (rules : List IpRule) (s : S)
      → (routing.rule_list s).0 ≡ ok rules
      → present q s ≡ true
      → Listed q rules
  pub del_gone :
      (q : IpRule) (s : S)
      → (routing.rule_del q s).0 ≡ ok tt
      → present q (routing.rule_del q s).1 ≡ false
  pub del_other : (q r : IpRule) (s : S) → q ≢ r → present q (routing.rule_del r s).1 ≡ present q s
  pub del_fewer :
      (q r : IpRule) (s : S) → present q s ≡ false → present q (routing.rule_del r s).1 ≡ false
  pub add_ok :
      (q : IpRule) (s : S)
      → (routing.rule_add q s).0 ≡ ok tt
      → present q (routing.rule_add q s).1 ≡ true

-- A rule that names the address.
abbrev pub names : String → IpRule → Bool
names ip r = is_address r.dst ip || is_address r.src ip

module _ {S : Type 0} (routing : Routing S) (present : IpRule → S → Bool)
    (laws : RoutingLaws routing present) where
  delete_if-fewer :
      (q : IpRule) (b : Bool) (r : IpRule) (s : S)
      → present q s ≡ false
      → present q (delete_if routing b r s).1 ≡ false
  unfolding delete_if
  delete_if-fewer q b r s h = ground (arith, laws.del_fewer q r s)

  delete_if-other :
      (q : IpRule) (b : Bool) (r : IpRule) (s : S)
      → q ≢ r
      → present q (delete_if routing b r s).1 ≡ present q s
  unfolding delete_if
  delete_if-other q b r s h = ground (arith, laws.del_other q r s h)

  delete_if-gone :
      (r : IpRule) (s : S)
      → (delete_if routing true r s).0 ≡ ok tt
      → present r (delete_if routing true r s).1 ≡ false
  unfolding delete_if
  delete_if-gone r s h = ground (arith, laws.del_gone r s)

  -- The two deletions of one rule.
  clean_one : String → IpRule → Step S (Unit {0})
  clean_one ip r =
      delete_if routing (is_address r.dst ip) r >>= λ _. delete_if routing (is_address r.src ip) r

  clean_one-state :
      (ip : String) (r : IpRule) (s : S)
      → (delete_if routing (is_address r.dst ip) r s).0 ≡ ok tt
      → clean_one ip r s
        ≡ delete_if routing (is_address r.src ip) r (delete_if routing (is_address r.dst ip) r s).1
  unfolding clean_one
  clean_one-state ip r s e =
      bind-next (delete_if routing (is_address r.dst ip) r)
        (λ _. delete_if routing (is_address r.src ip) r) s tt e

  clean_up_rules-next :
      (ip : String) (r : IpRule) (rs : List IpRule) (s : S)
      → (clean_up_rules routing ip (r ∷ rs) s).0 ≡ ok tt
      → ((delete_if routing (is_address r.dst ip) r s).0 ≡ ok tt)
        × ((clean_one ip r s).0 ≡ ok tt)
        × (clean_up_rules routing ip (r ∷ rs) s ≡ clean_up_rules routing ip rs (clean_one ip r s).1)
  unfolding clean_up_rules clean_one
  clean_up_rules-next ip r rs s h =
      let by_dst = delete_if routing (is_address r.dst ip) r in
      let by_src = delete_if routing (is_address r.src ip) r in
      let (u, e, same) = bind-ok by_dst (λ _. by_src >> clean_up_rules routing ip rs) s tt h in
      let (v, f, same') =
        bind-ok by_src (λ _. clean_up_rules routing ip rs) (by_dst s).1 tt
          (subst (λ x. x.0 ≡ ok tt) same h) in
      (
        e,
        subst (λ x. x.0 ≡ ok tt) (sym (bind-next by_dst (λ _. by_src) s tt e)) f,
        same
            ∙ same'
            ∙ ap (λ x. clean_up_rules routing ip rs x.1)
                (sym (bind-next by_dst (λ _. by_src) s tt e)),
      )

  clean_one-gone :
      (ip : String) (r : IpRule) (s : S)
      → names ip r ≡ true
      → (delete_if routing (is_address r.dst ip) r s).0 ≡ ok tt
      → (clean_one ip r s).0 ≡ ok tt
      → present r (clean_one ip r s).1 ≡ false
  unfolding clean_one delete_if
  clean_one-gone ip r s named e h =
      ground (arith, laws.del_gone r s, laws.del_gone r (routing.rule_del r s).1)

  clean_one-other :
      (ip : String) (q r : IpRule) (s : S) → q ≢ r → present q (clean_one ip r s).1 ≡ present q s
  unfolding clean_one delete_if
  clean_one-other ip q r s h =
      ground (arith, laws.del_other q r s h, laws.del_other q r (routing.rule_del r s).1 h)

  clean_one-fewer :
      (ip : String) (q r : IpRule) (s : S)
      → present q s ≡ false
      → present q (clean_one ip r s).1 ≡ false
  unfolding clean_one delete_if
  clean_one-fewer ip q r s h =
      ground (arith, laws.del_fewer q r s, laws.del_fewer q r (routing.rule_del r s).1)

  clean_up_rules-fewer :
      (ip : String) (rs : List IpRule) (q : IpRule) (s : S)
      → present q s ≡ false
      → (clean_up_rules routing ip rs s).0 ≡ ok tt
      → present q (clean_up_rules routing ip rs s).1 ≡ false
  unfolding clean_up_rules
  clean_up_rules-fewer ip [] q s absent h = absent
  clean_up_rules-fewer ip (r ∷ rs) q s absent h =
      let (e, one, next) = clean_up_rules-next ip r rs s h in
      ap (λ x. present q x.1) next
      ∙ clean_up_rules-fewer ip rs q (clean_one ip r s).1 (clean_one-fewer ip q r s absent)
          (subst (λ x. x.0 ≡ ok tt) next h)

  clean_up_rules-gone :
      (ip : String) (rs : List IpRule) (q : IpRule) (s : S)
      → Listed q rs
      → names ip q ≡ true
      → (clean_up_rules routing ip rs s).0 ≡ ok tt
      → present q (clean_up_rules routing ip rs s).1 ≡ false
  clean_up_rules-gone ip [] q s listed named h = absurd listed
  clean_up_rules-gone ip (r ∷ rs) q s (inl same) named h =
      let (e, one, next) = clean_up_rules-next ip r rs s h in
      ap (λ x. present q x.1) next
      ∙ clean_up_rules-fewer ip rs q (clean_one ip r s).1
          (subst (λ x. present x (clean_one ip r s).1 ≡ false) (sym same)
            (clean_one-gone ip r s (subst (λ x. names ip x ≡ true) same named) e one))
          (subst (λ x. x.0 ≡ ok tt) next h)
  clean_up_rules-gone ip (r ∷ rs) q s (inr later) named h =
      let (e, one, next) = clean_up_rules-next ip r rs s h in
      ap (λ x. present q x.1) next
      ∙ clean_up_rules-gone ip rs q (clean_one ip r s).1 later named
          (subst (λ x. x.0 ≡ ok tt) next h)

  -- A rule that does not name the address is not the one that is deleted.
  clean_one-kept :
      (ip : String) (q r : IpRule) (s : S)
      → names ip q ≡ false
      → present q (clean_one ip r s).1 ≡ present q s
  unfolding clean_one delete_if
  clean_one-kept ip q r s unnamed = elim (Bool-cases (names ip r)) [
    | inl named ↦ clean_one-other ip q r s (λ same. absurd (ground (arith, ap (names ip) same)))
    | inr other ↦ ground arith
  ]

  clean_up_rules-kept :
      (ip : String) (rs : List IpRule) (q : IpRule) (s : S)
      → names ip q ≡ false
      → (clean_up_rules routing ip rs s).0 ≡ ok tt
      → present q (clean_up_rules routing ip rs s).1 ≡ present q s
  unfolding clean_up_rules
  clean_up_rules-kept ip [] q s unnamed h = refl
  clean_up_rules-kept ip (r ∷ rs) q s unnamed h =
      let (e, one, next) = clean_up_rules-next ip r rs s h in
      ap (λ x. present q x.1) next
      ∙ clean_up_rules-kept ip rs q (clean_one ip r s).1 unnamed (subst (λ x. x.0 ≡ ok tt) next h)
      ∙ clean_one-kept ip q r s unnamed

  -- After a clean-up that succeeds, the policy database has exactly the rules that it had before and
  -- that name the address neither as their source nor as their destination.
  pub clean_up_ip_route_policy-present :
      (ip : String) (q : IpRule) (s : S)
      → (clean_up_ip_route_policy routing ip s).0 ≡ ok tt
      → present q (clean_up_ip_route_policy routing ip s).1 ≡ (not (names ip q) && present q s)
  unfolding clean_up_ip_route_policy
  clean_up_ip_route_policy-present ip q s h =
      let (rules, e, next) =
        bind-ok (or_else routing.rule_list "ip rules list error")
          (λ rules. clean_up_rules routing ip rules) s tt h in
      let listed = or_else-ok routing.rule_list "ip rules list error" s rules e in
      let s1 = (routing.rule_list s).1 in
      let done = subst (λ x. x.0 ≡ ok tt) next h in
      let same = laws.list_same q s in
      ap (λ x. present q x.1) next ∙ elim (Bool-cases (names ip q)) [
        | inr unnamed ↦
            clean_up_rules-kept ip rules q s1 unnamed done ∙ ground (arith, unnamed, same)
        | inl named ↦ elim (Bool-cases (present q s)) [
          | inl there ↦
              clean_up_rules-gone ip rules q s1 (laws.present_listed q rules s listed there) named
                done
              ∙ ground (arith, named)
          | inr absent ↦
              clean_up_rules-fewer ip rules q s1 (same ∙ absent) done ∙ ground (arith, named)
        ]
      ]
