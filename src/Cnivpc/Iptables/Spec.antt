-- ===== src/Cnivpc/Iptables/Spec.antt =====
-- cmd/cnivpc/if.go, against the tables of the kernel: what a list of rules does to them.
use uk8s_cni_vpc.Prelude.{
  String, Bool, true, false, ◌&&◌, List, [], ◌∷◌, ◌++◌, ◌==◌, if◌then◌else◌, ◌≡◌, refl, sym, ap,
  ◌∙◌, subst, inl, inr, arith,
}
use uk8s_cni_vpc.Result.{Result, Result-cases, ok, err, Error, is_ok, failure}
use uk8s_cni_vpc.Cnivpc.Iptables.{
  Netfilter, IptablesRule, goes_first, apply_rule, update_rule, update_iptables_rules,
}

-- The rules of each chain of each table, in order.
abbrev pub Tables : Type 0
Tables = String → String → List (List String)

abbrev pub same_rule : List String → List String → Bool
same_rule [] [] = true
same_rule [] (y ∷ ys) = false
same_rule (x ∷ xs) [] = false
same_rule (x ∷ xs) (y ∷ ys) = x == y && same_rule xs ys

abbrev pub has : List String → List (List String) → Bool
has r [] = false
has r (x ∷ xs) = if same_rule r x then true else has r xs

abbrev pub remove_first : List String → List (List String) → List (List String)
remove_first r [] = []
remove_first r (x ∷ xs) = if same_rule r x then xs else x ∷ remove_first r xs

-- A change of one chain.
abbrev pub change_chain :
    String → String → (List (List String) → List (List String)) → Tables → Tables
change_chain table chain f tables table' chain' =
    if table == table' && chain == chain' then f (tables table' chain') else tables table' chain'

abbrev pub with_first : IptablesRule → Tables → Tables
with_first r = change_chain r.table r.chain (λ rules. r.rule ∷ rules)

abbrev pub with_last : IptablesRule → Tables → Tables
with_last r = change_chain r.table r.chain (λ rules. rules ++ r.rule ∷ [])

abbrev pub without : IptablesRule → Tables → Tables
without r = change_chain r.table r.chain (remove_first r.rule)

abbrev pub held : IptablesRule → Tables → Bool
held r tables = has r.rule (tables r.table r.chain)

-- What one rule of the list asks for.
unfoldable pub applied : IptablesRule → Tables → Tables
applied r tables =
    if r.should_exist
    then (if held r tables
        then tables
        else (if goes_first r then with_first r tables else with_last r tables))
    else (if held r tables then without r tables else tables)

unfoldable pub all_applied : List IptablesRule → Tables → Tables
all_applied [] tables = tables
all_applied (r ∷ rs) tables = all_applied rs (applied r tables)

-- What iptables documents: `-C` finds the rule in the chain, `-I` puts it first, `-A` last, `-D`
-- takes the first one out; a call that fails changes nothing.
pub record NetfilterLaws {S : Type 0} (ipt : Netfilter S) (tables : S → Tables) : Type 0 where
  pub exists_same :
      (t c : String) (r : List String) (s : S) → tables (ipt.exists_rule t c r s).1 ≡ tables s
  pub exists_answer :
      (t c : String) (r : List String) (s : S) (b : Bool)
      → (ipt.exists_rule t c r s).0 ≡ ok b
      → b ≡ has r (tables s t c)
  pub insert_ok :
      (t c : String) (r : List String) (s : S)
      → (ipt.insert_first t c r s).0 ≡ ok tt
      → tables (ipt.insert_first t c r s).1 ≡ change_chain t c (λ rules. r ∷ rules) (tables s)
  pub insert_err :
      (t c : String) (r : List String) (s : S)
      → is_ok (ipt.insert_first t c r s).0 ≡ false
      → tables (ipt.insert_first t c r s).1 ≡ tables s
  pub append_ok :
      (t c : String) (r : List String) (s : S)
      → (ipt.append t c r s).0 ≡ ok tt
      → tables (ipt.append t c r s).1 ≡ change_chain t c (λ rules. rules ++ r ∷ []) (tables s)
  pub append_err :
      (t c : String) (r : List String) (s : S)
      → is_ok (ipt.append t c r s).0 ≡ false
      → tables (ipt.append t c r s).1 ≡ tables s
  pub delete_ok :
      (t c : String) (r : List String) (s : S)
      → (ipt.delete t c r s).0 ≡ ok tt
      → tables (ipt.delete t c r s).1 ≡ change_chain t c (remove_first r) (tables s)
  pub delete_err :
      (t c : String) (r : List String) (s : S)
      → is_ok (ipt.delete t c r s).0 ≡ false
      → tables (ipt.delete t c r s).1 ≡ tables s

abbrev pub is_empty {ℓ} : {A : Type ℓ} → List A → Bool
is_empty [] = true
is_empty (x ∷ xs) = false

-- The run went through the rules `done` in order and stopped before `rest`, which is empty exactly
-- when it succeeded.
unfoldable pub Progress :
    {S : Type 0} → (S → Tables) → List IptablesRule → S → Result (Unit {0}) × S → Type 0
Progress tables rs s out =
    (done rest : List IptablesRule) × (rs ≡ done ++ rest)
    × (tables out.1 ≡ all_applied done (tables s))
    × (is_ok out.0 ≡ is_empty rest)

append-nil {ℓ} : {A : Type ℓ} (xs : List A) → xs ++ [] ≡ xs
append-nil [] = refl
append-nil (x ∷ xs) = ap (◌∷◌ x) (append-nil xs)

empty-nil {ℓ} : {A : Type ℓ} (xs : List A) → is_empty xs ≡ true → xs ≡ []
empty-nil [] h = refl
empty-nil (x ∷ xs) h = absurd (ground arith)

module _ {S : Type 0} (ipt : Netfilter S) (tables : S → Tables)
    (laws : NetfilterLaws ipt tables) where
  apply_rule-applied :
      (r : IptablesRule) (s : S)
      → (apply_rule ipt r (held r (tables s)) s).0 ≡ ok tt
      → tables (apply_rule ipt r (held r (tables s)) s).1 ≡ applied r (tables s)
  unfolding applied apply_rule
  apply_rule-applied r s h = ground (
    arith,
    laws.insert_ok r.table r.chain r.rule s,
    laws.append_ok r.table r.chain r.rule s,
    laws.delete_ok r.table r.chain r.rule s,
  )

  apply_rule-failed :
      (r : IptablesRule) (b : Bool) (s : S)
      → is_ok (apply_rule ipt r b s).0 ≡ false
      → tables (apply_rule ipt r b s).1 ≡ tables s
  unfolding apply_rule
  apply_rule-failed r b s h = ground (
    arith,
    laws.insert_err r.table r.chain r.rule s,
    laws.append_err r.table r.chain r.rule s,
    laws.delete_err r.table r.chain r.rule s,
  )

  -- The state after the rule was looked up.
  abbrev looked : IptablesRule → S → S
  looked r s = (ipt.exists_rule r.table r.chain r.rule s).1

  update_rule-found :
      (r : IptablesRule) (s : S) (b : Bool)
      → (ipt.exists_rule r.table r.chain r.rule s).0 ≡ ok b
      → update_rule ipt r s ≡ apply_rule ipt r (held r (tables (looked r s))) (looked r s)
  unfolding update_rule
  update_rule-found r s b e =
      let same = laws.exists_same r.table r.chain r.rule s in
      let answer = laws.exists_answer r.table r.chain r.rule s b e in rw (e, answer, same)

  update_rule-unknown :
      (r : IptablesRule) (s : S) (e : Error)
      → (ipt.exists_rule r.table r.chain r.rule s).0 ≡ err e
      → update_rule ipt r s ≡ (err (failure "failed to check iptables rule exists"), looked r s)
  unfolding update_rule
  update_rule-unknown r s e f = rw f

  update_rule-applied :
      (r : IptablesRule) (s : S)
      → (update_rule ipt r s).0 ≡ ok tt
      → tables (update_rule ipt r s).1 ≡ applied r (tables s)
  update_rule-applied r s h = elim (Result-cases (ipt.exists_rule r.table r.chain r.rule s).0) [
    | inl (b, e) ↦
        let done =
          apply_rule-applied r (looked r s)
            (subst (λ x. x.0 ≡ ok tt) (update_rule-found r s b e) h) in
        rw (update_rule-found r s b e, done, laws.exists_same r.table r.chain r.rule s)
    | inr (e, f) ↦
        let known = subst (λ x. x.0 ≡ ok tt) (update_rule-unknown r s e f) h in
        absurd (ground arith)
  ]

  update_rule-failed :
      (r : IptablesRule) (s : S)
      → is_ok (update_rule ipt r s).0 ≡ false
      → tables (update_rule ipt r s).1 ≡ tables s
  update_rule-failed r s h = elim (Result-cases (ipt.exists_rule r.table r.chain r.rule s).0) [
    | inl (b, e) ↦
        let done =
          apply_rule-failed r (held r (tables (looked r s))) (looked r s)
            (subst (λ x. is_ok x.0 ≡ false) (update_rule-found r s b e) h) in
        rw (update_rule-found r s b e, done, laws.exists_same r.table r.chain r.rule s)
    | inr (e, f) ↦ rw (update_rule-unknown r s e f, laws.exists_same r.table r.chain r.rule s)
  ]

  update_iptables_rules-next :
      (r : IptablesRule) (rs : List IptablesRule) (s : S)
      → (update_rule ipt r s).0 ≡ ok tt
      → update_iptables_rules ipt (r ∷ rs) s ≡ update_iptables_rules ipt rs (update_rule ipt r s).1
  unfolding update_iptables_rules
  update_iptables_rules-next r rs s h = rw h

  update_iptables_rules-stop :
      (r : IptablesRule) (rs : List IptablesRule) (s : S) (e : Error)
      → (update_rule ipt r s).0 ≡ err e
      → update_iptables_rules ipt (r ∷ rs) s ≡ (err e, (update_rule ipt r s).1)
  unfolding update_iptables_rules
  update_iptables_rules-stop r rs s e h = rw h

  -- `updateIptablesRules` does to the tables of the kernel what the rules ask for, one after the
  -- other: all of them if it succeeds, and those of a first part of the list if it fails, where the
  -- rule that failed and those after it change nothing.
  pub update_iptables_rules-refines :
      (rs : List IptablesRule) (s : S) → Progress tables rs s (update_iptables_rules ipt rs s)
  unfolding all_applied update_iptables_rules Progress
  update_iptables_rules-refines [] s = ([], [], refl, refl, refl)
  update_iptables_rules-refines (r ∷ rs) s = elim (Result-cases (update_rule ipt r s).0) [
    | inl (tt, e) ↦
        let (done, rest, split, reached, whole) =
          update_iptables_rules-refines rs (update_rule ipt r s).1 in
        subst (Progress tables (r ∷ rs) s) (sym (update_iptables_rules-next r rs s e))
          (r ∷ done, rest, ap (◌∷◌ r) split, rw (reached, update_rule-applied r s e), whole)
    | inr (e, f) ↦
        subst (Progress tables (r ∷ rs) s) (sym (update_iptables_rules-stop r rs s e f))
          ([], r ∷ rs, refl, update_rule-failed r s (ap is_ok f), refl)
  ]

  pub update_iptables_rules-all :
      (rs : List IptablesRule) (s : S)
      → (update_iptables_rules ipt rs s).0 ≡ ok tt
      → tables (update_iptables_rules ipt rs s).1 ≡ all_applied rs (tables s)
  unfolding Progress
  update_iptables_rules-all rs s h =
      let (done, rest, split, reached, whole) = update_iptables_rules-refines rs s in
      let none_left = empty-nil rest (sym whole ∙ ap is_ok h) in
      reached
      ∙ ap (λ xs. all_applied xs (tables s))
          (sym (split ∙ ap (λ xs. done ++ xs) none_left ∙ append-nil done))
