-- ===== src/Cnivpc/Iptables/Twice.antt =====
-- cmd/cnivpc/if.go: no chain comes to hold a rule twice.
use uk8s_cni_vpc.Prelude.{
  String, true, false, ◌&&◌, List, [], ◌∷◌, ◌++◌, ◌==◌, eq_iff, ◌≡◌, refl, sym, ap, ◌∙◌, subst, inl,
  inr, arith, Bool-cases, &&-eq-true,
}
use uk8s_cni_vpc.Cnivpc.Iptables.{Netfilter, IptablesRule, goes_first, update_iptables_rules}
use uk8s_cni_vpc.Cnivpc.Iptables.Spec.{
  Tables, same_rule, has, remove_first, change_chain, held, applied, all_applied, NetfilterLaws,
  Progress, update_iptables_rules-refines,
}
use uk8s_cni_vpc.Cnivpc.Iptables.Order.{Once, append-Once, remove_first-Once}

-- No chain of any table holds a rule twice.
abbrev pub NoTwice : Tables → Type 0
NoTwice tables = (t c : String) (q : List String) → Once q (tables t c)

same_rule_eq : (a b : List String) → same_rule a b ≡ true → a ≡ b
same_rule_eq [] [] h = refl
same_rule_eq [] (y ∷ ys) h = absurd (ground arith)
same_rule_eq (x ∷ xs) [] h = absurd (ground arith)
same_rule_eq (x ∷ xs) (y ∷ ys) h =
    let (first, rest) = &&-eq-true (x == y) (same_rule xs ys) h in
    ap (λ z. z ∷ xs) ((eq_iff x y).0 first) ∙ ap (λ zs. y ∷ zs) (same_rule_eq xs ys rest)

cons-Once :
    (q r : List String) (xs : List (List String)) → has r xs ≡ false → Once q xs → Once q (r ∷ xs)
cons-Once q r xs absent once = elim (Bool-cases (same_rule q r)) [
  | inl same ↦ ground (arith, ap (λ x. has x xs) (same_rule_eq q r same))
  | inr other ↦ ground arith
]

remove_first-last :
    (r : List String) (xs : List (List String))
    → has r xs ≡ false
    → same_rule r r ≡ true
    → remove_first r (xs ++ r ∷ []) ≡ xs
remove_first-last r [] absent itself = rw itself
remove_first-last r (x ∷ xs) absent itself = ground (arith, remove_first-last r xs)

last-Once :
    (q r : List String) (xs : List (List String))
    → has r xs ≡ false
    → Once q xs
    → Once q (xs ++ r ∷ [])
last-Once q r xs absent once = elim (Bool-cases (same_rule q r)) [
  | inl same ↦
      let it = same_rule_eq q r same in
      subst (λ x. Once x (xs ++ r ∷ [])) (sym it)
        (ap (has r) (remove_first-last r xs absent (subst (λ x. same_rule x r ≡ true) it same))
          ∙ absent)
  | inr other ↦ append-Once q r xs other once
]

change_chain-NoTwice :
    (table chain : String) (f : List (List String) → List (List String)) (tables : Tables)
    → ((q : List String) → Once q (f (tables table chain)))
    → NoTwice tables
    → NoTwice (change_chain table chain f tables)
change_chain-NoTwice table chain f tables changed before t c q =
    elim (Bool-cases (table == t && chain == c)) [
      | inl here ↦
          let (e, g) = &&-eq-true (table == t) (chain == c) here in
          rw here (
            subst (λ x. Once q (f (tables t x))) ((eq_iff chain c).0 g)
              (subst (λ x. Once q (f (tables x chain))) ((eq_iff table t).0 e) (changed q)))
      | inr elsewhere ↦ rw elsewhere (before t c q)
    ]

applied-NoTwice : (r : IptablesRule) (tables : Tables) → NoTwice tables → NoTwice (applied r tables)
unfolding applied
applied-NoTwice r tables before = elim (Bool-cases r.should_exist) [
  | inl wanted ↦ elim (Bool-cases (held r tables)) [
    | inl there ↦ rw (wanted, there) before
    | inr absent ↦ elim (Bool-cases (goes_first r)) [
      | inl first ↦
          rw (wanted, absent, first)
            (change_chain-NoTwice r.table r.chain (λ rules. r.rule ∷ rules) tables
              (λ q. cons-Once q r.rule (tables r.table r.chain) absent (before r.table r.chain q))
              before)
      | inr last ↦
          rw (wanted, absent, last)
            (change_chain-NoTwice r.table r.chain (λ rules. rules ++ r.rule ∷ []) tables
              (λ q. last-Once q r.rule (tables r.table r.chain) absent (before r.table r.chain q))
              before)
    ]
  ]
  | inr unwanted ↦ elim (Bool-cases (held r tables)) [
    | inr absent ↦ rw (unwanted, absent) before
    | inl there ↦
        rw (unwanted, there)
          (change_chain-NoTwice r.table r.chain (remove_first r.rule) tables
            (λ q. remove_first-Once q r.rule (tables r.table r.chain) (before r.table r.chain q))
            before)
  ]
]

all_applied-NoTwice :
    (rs : List IptablesRule) (tables : Tables) → NoTwice tables → NoTwice (all_applied rs tables)
unfolding all_applied
all_applied-NoTwice [] tables before = before
all_applied-NoTwice (r ∷ rs) tables before =
    all_applied-NoTwice rs (applied r tables) (applied-NoTwice r tables before)

-- An update of the rules keeps every chain free of a rule that stands in it twice, whether it
-- succeeds or fails on the way.
pub update_iptables_rules-NoTwice :
    {S : Type 0} (ipt : Netfilter S) (tables : S → Tables)
    → NetfilterLaws ipt tables
    → (rs : List IptablesRule) (s : S) → NoTwice (tables s)
    → NoTwice (tables (update_iptables_rules ipt rs s).1)
unfolding Progress
update_iptables_rules-NoTwice ipt tables laws rs s before =
    let (done, rest, split, reached, whole) = update_iptables_rules-refines ipt tables laws rs s in
    subst NoTwice (sym reached) (all_applied-NoTwice done (tables s) before)
