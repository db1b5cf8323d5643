-- ===== src/Cnivpc/RoutePolicy/Routed.antt =====
-- cmd/cnivpc/if.go: the rule of an address is in the policy database afterwards.
use uk8s_cni_vpc.Prelude.{
  String, Bool, true, false, none, some, List, [], ◌∷◌, ◌≡◌, refl, sym, ◌∙◌, ap, subst, inl, inr,
  arith, Bool-cases, eq_iff,
}
use uk8s_cni_vpc.Result.{ok}
use uk8s_cni_vpc.Step.{or_else, ◌>>=◌}
use uk8s_cni_vpc.Step.Runs.{bind-ok, or_else-ok}
use uk8s_cni_vpc.Host.{IpRule, Routing}
use uk8s_cni_vpc.Cnivpc.RoutePolicy.{
  is_address, is_dst_rule, scan_rules, add_unless, dst_rule, ensure_dst_ip_route_policy,
}
use uk8s_cni_vpc.Cnivpc.RoutePolicy.Cleared.{RoutingLaws, Listed}

module _ {S : Type 0} (routing : Routing S) (present : IpRule → S → Bool)
    (laws : RoutingLaws routing present) where
  -- A rule of the address of the wanted kind.
  abbrev Wanted : (IpRule → Bool) → (IpRule → Bool) → S → Type 0
  Wanted of_address wanted s =
      (q : IpRule) × (present q s ≡ true) × (of_address q ≡ true) × (wanted q ≡ true)

  scan_rules-step :
      (of_address wanted : IpRule → Bool) (r : IpRule) (rs : List IpRule) (s : S)
      → of_address r ≡ true
      → wanted r ≡ false
      → scan_rules routing of_address wanted (r ∷ rs) s
        ≡ scan_rules routing of_address wanted rs (routing.rule_del r s).1
  unfolding scan_rules
  scan_rules-step of_address wanted r rs s e f = rw (e, f)

  -- The scan deletes no rule of the wanted kind.
  scan_rules-kept :
      (of_address wanted : IpRule → Bool) (rs : List IpRule) (q : IpRule) (s : S)
      → wanted q ≡ true
      → present q (scan_rules routing of_address wanted rs s).1 ≡ present q s
  unfolding scan_rules
  scan_rules-kept of_address wanted [] q s w = refl
  scan_rules-kept of_address wanted (r ∷ rs) q s w = elim (Bool-cases (of_address r)) [
    | inr other ↦ ground (arith, scan_rules-kept of_address wanted rs q s w)
    | inl mine ↦ elim (Bool-cases (wanted r)) [
      | inl it ↦ ground arith
      | inr old ↦
          let unlike = λ (same : q ≡ r). absurd (ground (arith, ap wanted same)) in
          ap (λ x. present q x.1) (scan_rules-step of_address wanted r rs s mine old)
          ∙ scan_rules-kept of_address wanted rs q (routing.rule_del r s).1 w
          ∙ laws.del_other q r s unlike
    ]
  ]

  -- It says whether it met one.
  scan_rules-found :
      (of_address wanted : IpRule → Bool) (rs : List IpRule) (s : S)
      → (scan_rules routing of_address wanted rs s).0 ≡ ok true
      → (q : IpRule) × Listed q rs × (of_address q ≡ true) × (wanted q ≡ true)
  unfolding scan_rules
  scan_rules-found of_address wanted [] s h = absurd (ground arith)
  scan_rules-found of_address wanted (r ∷ rs) s h = elim (Bool-cases (of_address r)) [
    | inr other ↦
        let (q, listed, mine, w) = scan_rules-found of_address wanted rs s (ground arith) in
        (q, inr listed, mine, w)
    | inl mine ↦ elim (Bool-cases (wanted r)) [
      | inl it ↦ (r, inl refl, mine, it)
      | inr old ↦
          let (q, listed, mine, w) =
            scan_rules-found of_address wanted rs (routing.rule_del r s).1
              (subst (λ x. x.0 ≡ ok true) (scan_rules-step of_address wanted r rs s mine old) h) in
          (q, inr listed, mine, w)
    ]
  ]

  add_unless-met :
      (found : Bool) (q fresh : IpRule) (s : S)
      → found ≡ true
      → present q (add_unless routing found fresh s).1 ≡ present q s
  unfolding add_unless
  add_unless-met found q fresh s met = rw met

  add_unless-new :
      (found : Bool) (fresh : IpRule) (s : S)
      → found ≡ false
      → (add_unless routing found fresh s).0 ≡ ok tt
      → present fresh (add_unless routing found fresh s).1 ≡ true
  unfolding add_unless
  add_unless-new found fresh s new h = ground (arith, laws.add_ok fresh s)

  -- Listing, scanning and adding leave a rule of the wanted kind.
  pub routed :
      (of_address wanted : IpRule → Bool) (fresh : IpRule) (rules : List IpRule) (s : S)
      → (routing.rule_list s).0 ≡ ok rules
      → of_address fresh ≡ true
      → wanted fresh ≡ true
      → ((scan_rules routing of_address wanted rules >>= λ found. add_unless routing found fresh)
          (routing.rule_list s).1).0
        ≡ ok tt
      → Wanted of_address wanted
          ((scan_rules routing of_address wanted rules >>= λ found. add_unless routing found fresh)
            (routing.rule_list s).1).1
  routed of_address wanted fresh rules s listed mine it h =
      let s1 = (routing.rule_list s).1 in
      let scan = scan_rules routing of_address wanted rules in
      let (found, e, next) = bind-ok scan (λ found. add_unless routing found fresh) s1 tt h in
      subst (λ x. Wanted of_address wanted x.1) (sym next)
        (elim (Bool-cases found) [
          | inl met ↦
              let (q, there, mine, w) =
                scan_rules-found of_address wanted rules s1 (e ∙ ap ok met) in
              (
                q,
                add_unless-met found q fresh (scan s1).1 met
                    ∙ scan_rules-kept of_address wanted rules q s1 w
                    ∙ laws.list_same q s
                    ∙ laws.listed_present q rules s listed there,
                mine,
                w,
              )
          | inr none_met ↦ (
            fresh,
            add_unless-new found fresh (scan s1).1 none_met (subst (λ x. x.0 ≡ ok tt) next h),
            mine,
            it,
          )
        ])

  -- If the rule of a pod's address is ensured without an error, then the policy database has a rule
  -- that sends what goes to the address, from anywhere, to the main table. `host_net` gives the
  -- address back, and a new rule has no source.
  pub ensure_dst_ip_route_policy-routed :
      (ip : String) (s : S)
      → routing.host_net ip ≡ some ip
      → routing.new_rule.src ≡ none
      → (ensure_dst_ip_route_policy routing ip s).0 ≡ ok tt
      → (q : IpRule) × (present q (ensure_dst_ip_route_policy routing ip s).1 ≡ true)
        × (is_address q.dst ip ≡ true)
        × (is_dst_rule q ≡ true)
  unfolding ensure_dst_ip_route_policy
  ensure_dst_ip_route_policy-routed ip s parsed no_src h =
      let of_address = λ (r : IpRule). is_address r.dst ip in
      let rest = λ (rules : List IpRule).
        scan_rules routing of_address is_dst_rule rules >>= λ found.
        add_unless routing found (dst_rule routing ip) in
      let (rules, e, next) =
        bind-ok (or_else routing.rule_list "ip rules list error") rest s tt h in
      subst (λ x. Wanted of_address is_dst_rule x.1) (sym next)
        (routed of_address is_dst_rule (dst_rule routing ip) rules s
          (or_else-ok routing.rule_list "ip rules list error" s rules e)
          (rw (parsed, (eq_iff ip ip).1 refl)) (rw no_src) (subst (λ x. x.0 ≡ ok tt) next h))
