-- ===== src/Cnivpc/Iptables/Order.antt =====
-- cmd/cnivpc/if.go: where the rules stand in their chains after a run.
use text.Mathlib.TextPositions.{eq_refl}
use uk8s_cni_vpc.Prelude.{
  String, Bool, true, false, ◌||◌, List, [], ◌∷◌, ◌++◌, All, ◌≡◌, refl, sym, ap, ◌∙◌, subst, arith,
}
use uk8s_cni_vpc.Result.{ok}
use uk8s_cni_vpc.Cnivpc.Iptables.{
  Netfilter, IptablesRule, goes_first, build_connmark_prerouting_rules, update_iptables_rules,
  jump_rule, restore_rule, pod_outbound_connmark_jump_rule, restore_mark_rule,
}
use uk8s_cni_vpc.Cnivpc.Iptables.Spec.{
  Tables, same_rule, has, remove_first, held, applied, all_applied, NetfilterLaws,
  update_iptables_rules-all,
}

same_rule_refl : (r : List String) → same_rule r r ≡ true
same_rule_refl [] = refl
same_rule_refl (x ∷ xs) = rw (eq_refl x, same_rule_refl xs)

has-append :
    (r : List String) (xs ys : List (List String)) → has r (xs ++ ys) ≡ has r xs || has r ys
has-append r [] ys = refl
has-append r (x ∷ xs) ys = ground (arith, has-append r xs ys)

-- A rule is in the list once at most.
abbrev pub Once : List String → List (List String) → Type 0
Once r xs = has r (remove_first r xs) ≡ false

has-remove_first :
    (r q : List String) (xs : List (List String))
    → has r xs ≡ false
    → has r (remove_first q xs) ≡ false
has-remove_first r q [] h = refl
has-remove_first r q (x ∷ xs) h = ground (arith, has-remove_first r q xs)

remove_first-absent :
    (r : List String) (xs : List (List String)) → has r xs ≡ false → remove_first r xs ≡ xs
remove_first-absent r [] h = refl
remove_first-absent r (x ∷ xs) h = ground (arith, remove_first-absent r xs)

pub remove_first-Once :
    (r q : List String) (xs : List (List String)) → Once r xs → Once r (remove_first q xs)
remove_first-Once r q [] h = refl
remove_first-Once r q (x ∷ xs) h =
    ground (arith, remove_first-Once r q xs, has-remove_first r q xs, has-remove_first r r xs)

remove_first-append :
    (r q : List String) (xs : List (List String))
    → same_rule r q ≡ false
    → remove_first r (xs ++ q ∷ []) ≡ remove_first r xs ++ q ∷ []
remove_first-append r q [] h = rw h
remove_first-append r q (x ∷ xs) h = ground (arith, remove_first-append r q xs h)

pub append-Once :
    (r q : List String) (xs : List (List String))
    → same_rule r q ≡ false
    → Once r xs
    → Once r (xs ++ q ∷ [])
append-Once r q xs differ once =
    rw (remove_first-append r q xs differ, has-append r (remove_first r xs) (q ∷ []), once, differ)

append_two :
    (xs : List (List String)) (q r : List String) → (xs ++ q ∷ []) ++ r ∷ [] ≡ xs ++ q ∷ r ∷ []
append_two [] q r = refl
append_two (x ∷ xs) q r = ap (◌∷◌ x) (append_two xs q r)

differ_lem : same_rule restore_mark_rule pod_outbound_connmark_jump_rule ≡ false
unfolding restore_mark_rule pod_outbound_connmark_jump_rule
differ_lem = refl

applied-dropped :
    (r : IptablesRule) (tables : Tables)
    → r.should_exist ≡ false
    → applied r tables r.table r.chain ≡ remove_first r.rule (tables r.table r.chain)
unfolding applied
applied-dropped r tables h =
    ground
      (arith, remove_first-absent r.rule (tables r.table r.chain), eq_refl r.table, eq_refl r.chain)

applied-added :
    (r : IptablesRule) (tables : Tables)
    → r.should_exist ≡ true
    → goes_first r ≡ false
    → held r tables ≡ false
    → applied r tables r.table r.chain ≡ tables r.table r.chain ++ r.rule ∷ []
unfolding applied
applied-added r tables h last absent = ground (arith, eq_refl r.table, eq_refl r.chain)

abbrev moved : String → String → String → List String → Bool → IptablesRule
moved name table chain rule should_exist = record {
  name = name;
  should_exist = should_exist;
  table = table;
  chain = chain;
  rule = rule;
}

-- A rule that is taken out and put at the end.
applied-moved :
    (name table chain : String) (rule : List String) (tables : Tables)
    → goes_first (moved name table chain rule true) ≡ false
    → Once rule (tables table chain)
    → applied
        (moved name table chain rule true)
        (applied (moved name table chain rule false) tables)
        table
        chain
      ≡ remove_first rule (tables table chain) ++ rule ∷ []
applied-moved name table chain rule tables last once =
    let out = moved name table chain rule false in
    let back = moved name table chain rule true in
    let dropped = applied-dropped out tables refl in
    rw (applied-added back (applied out tables) refl last (rw (dropped, once)), dropped)

prerouting_after-ends :
    (tables : Tables)
    → Once pod_outbound_connmark_jump_rule (tables "nat" "PREROUTING")
    → Once restore_mark_rule (tables "nat" "PREROUTING")
    → all_applied build_connmark_prerouting_rules tables "nat" "PREROUTING"
      ≡ remove_first restore_mark_rule
          (remove_first pod_outbound_connmark_jump_rule (tables "nat" "PREROUTING"))
        ++ pod_outbound_connmark_jump_rule ∷ restore_mark_rule ∷ []
unfolding all_applied build_connmark_prerouting_rules jump_rule restore_rule
prerouting_after-ends tables once once' =
    let kept = remove_first pod_outbound_connmark_jump_rule (tables "nat" "PREROUTING") in
    let jumped = applied (jump_rule true) (applied (jump_rule false) tables) in
    let first =
      applied-moved (jump_rule true).name "nat" "PREROUTING" pod_outbound_connmark_jump_rule tables
        refl once in
    let second =
      applied-moved (restore_rule true).name "nat" "PREROUTING" restore_mark_rule jumped refl (
        subst (Once restore_mark_rule) (sym first) (
          append-Once restore_mark_rule pod_outbound_connmark_jump_rule kept differ_lem (
            remove_first-Once restore_mark_rule pod_outbound_connmark_jump_rule
              (tables "nat" "PREROUTING") once'))) in
    second
    ∙ ap (λ x. remove_first restore_mark_rule x ++ restore_mark_rule ∷ []) first
    ∙ ap (λ x. x ++ restore_mark_rule ∷ [])
        (remove_first-append restore_mark_rule pod_outbound_connmark_jump_rule kept differ_lem)
    ∙ append_two (remove_first restore_mark_rule kept) pod_outbound_connmark_jump_rule
        restore_mark_rule

-- Rules that should exist.
abbrev pub Wanted : IptablesRule → Type 0
Wanted r = r.should_exist ≡ true

held-applied :
    (r q : IptablesRule) (tables : Tables)
    → Wanted r
    → held q tables ≡ true
    → held q (applied r tables) ≡ true
unfolding applied
held-applied r q tables wanted h =
    ground (arith, has-append q.rule (tables q.table q.chain) (r.rule ∷ []))

applied-held : (r : IptablesRule) (tables : Tables) → Wanted r → held r (applied r tables) ≡ true
unfolding applied
applied-held r tables wanted = ground (
  arith,
  has-append r.rule (tables r.table r.chain) (r.rule ∷ []),
  same_rule_refl r.rule,
  eq_refl r.table,
  eq_refl r.chain,
)

applied-idle :
    (r : IptablesRule) (tables : Tables)
    → Wanted r
    → held r tables ≡ true
    → applied r tables ≡ tables
unfolding applied
applied-idle r tables wanted h = rw (wanted, h)

all_applied-held :
    (rs : List IptablesRule) (q : IptablesRule) (tables : Tables)
    → All Wanted rs
    → held q tables ≡ true
    → held q (all_applied rs tables) ≡ true
unfolding all_applied
all_applied-held [] q tables wanted h = h
all_applied-held (r ∷ rs) q tables wanted h =
    all_applied-held rs q (applied r tables) wanted.1 (held-applied r q tables wanted.0 h)

all_applied-idle :
    (rs : List IptablesRule) (tables : Tables)
    → All Wanted rs
    → All (λ r. held r tables ≡ true) rs
    → all_applied rs tables ≡ tables
unfolding all_applied
all_applied-idle [] tables wanted h = refl
all_applied-idle (r ∷ rs) tables wanted h =
    rw (applied-idle r tables wanted.0 h.0, all_applied-idle rs tables wanted.1 h.1)

all_applied-present :
    (rs : List IptablesRule) (tables : Tables)
    → All Wanted rs
    → All (λ r. held r (all_applied rs tables) ≡ true) rs
unfolding all_applied
all_applied-present [] tables wanted = tt
all_applied-present (r ∷ rs) tables wanted = (
  all_applied-held rs r (applied r tables) wanted.1 (applied-held r tables wanted.0),
  all_applied-present rs (applied r tables) wanted.1,
)

module _ {S : Type 0} (ipt : Netfilter S) (tables : S → Tables)
    (laws : NetfilterLaws ipt tables) where
  -- A second run of rules that should exist finds the tables as the first one left them and changes
  -- nothing, if both succeed.
  pub update_iptables_rules-idle :
      (rs : List IptablesRule) (s : S)
      → All Wanted rs
      → (update_iptables_rules ipt rs s).0 ≡ ok tt
      → (update_iptables_rules ipt rs (update_iptables_rules ipt rs s).1).0 ≡ ok tt
      → tables (update_iptables_rules ipt rs (update_iptables_rules ipt rs s).1).1
        ≡ tables (update_iptables_rules ipt rs s).1
  update_iptables_rules-idle rs s wanted first second =
      let once = update_iptables_rules-all ipt tables laws rs s first in
      let twice =
        update_iptables_rules-all ipt tables laws rs (update_iptables_rules ipt rs s).1 second in
      rw (
        twice,
        once,
        all_applied-idle rs (all_applied rs (tables s)) wanted
            (all_applied-present rs (tables s) wanted),
      )

  -- After a run that succeeds, the jump to the chain of marks and the copy of the mark are the last
  -- two rules of PREROUTING, in that order and after every other rule, which keep their order, if
  -- neither was there twice.
  pub update_iptables_rules-ends :
      (s : S)
      → (update_iptables_rules ipt build_connmark_prerouting_rules s).0 ≡ ok tt
      → Once pod_outbound_connmark_jump_rule (tables s "nat" "PREROUTING")
      → Once restore_mark_rule (tables s "nat" "PREROUTING")
      → tables (update_iptables_rules ipt build_connmark_prerouting_rules s).1 "nat" "PREROUTING"
        ≡ remove_first restore_mark_rule
            (remove_first pod_outbound_connmark_jump_rule (tables s "nat" "PREROUTING"))
          ++ pod_outbound_connmark_jump_rule ∷ restore_mark_rule ∷ []
  update_iptables_rules-ends s h once once' =
      ap (λ t. t "nat" "PREROUTING")
        (update_iptables_rules-all ipt tables laws build_connmark_prerouting_rules s h)
      ∙ prerouting_after-ends (tables s) once once'
