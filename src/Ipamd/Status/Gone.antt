-- ===== src/Ipamd/Status/Gone.antt =====
-- pkg/ipamd/pool.go, the first loop of `recycleStatus`.
use uk8s_cni_vpc.Prelude.{
  String, ◌≡◌, refl, inl, inr, true, Bool-cases, List, [], ◌∷◌, ◌==◌, ◌&&◌, eq_iff, arith, All,
  All-append, subst,
}
use uk8s_cni_vpc.Result.{ok}
use uk8s_cni_vpc.Ipamd.Types.{Ipamd}
use uk8s_cni_vpc.Ipamd.World.{Env, Config, State, on_cluster}
use uk8s_cni_vpc.Ipamd.Pool.{contains}
use uk8s_cni_vpc.Ipamd.Status.{add_to_identity, remove_gone}

-- Every resource of a group is of a node that is there, and has the node and the subnet of its group.
abbrev pub Member : List String → String → String → Ipamd → Type 0
Member nodes node subnet x = (contains x.node nodes ≡ true) × (x.node ≡ node) × (x.subnet ≡ subnet)

abbrev pub Grouped : List String → List (String × String × List Ipamd) → Type 0
Grouped nodes groups = All (λ g. All (Member nodes g.0 g.1) g.2) groups

add_to_identity-Grouped :
    (nodes : List String) (x : Ipamd) (groups : List (String × String × List Ipamd))
    → contains x.node nodes ≡ true
    → Grouped nodes groups
    → Grouped nodes (add_to_identity x groups)
unfolding add_to_identity
add_to_identity-Grouped nodes x [] there h = (((there, refl, refl), tt), tt)
add_to_identity-Grouped nodes x ((node, subnet, xs) ∷ groups) there h =
    elim (Bool-cases (node == x.node && subnet == x.subnet)) [
      | inr e ↦ rw (e, add_to_identity) (h.0, add_to_identity-Grouped nodes x groups there h.1)
      | inl e ↦
          let same_node : x.node ≡ node = ground (arith, eq_iff node x.node) in
          let same_subnet : x.subnet ≡ subnet = ground (arith, eq_iff subnet x.subnet) in
          rw (e, add_to_identity)
            (
              All-append (Member nodes node subnet) xs (x ∷ []) h.0
                  ((there, same_node, same_subnet), tt),
              h.1,
            )
    ]

module _ ⦃env : Env⦄ ⦃config : Config⦄ where
  -- The resources that are looked through for duplicates are all of nodes that are there, and are
  -- grouped by node and subnet.
  pub remove_gone-Grouped :
      (nodes : List String) (xs : List Ipamd) (groups kept : List (String × String × List Ipamd))
      (s : State env)
      → Grouped nodes groups
      → (remove_gone nodes xs groups s).0 ≡ ok kept
      → Grouped nodes kept
  unfolding remove_gone
  remove_gone-Grouped nodes [] groups kept s h e =
      let same : groups ≡ kept = ground arith in subst (Grouped nodes) same h
  remove_gone-Grouped nodes (x ∷ xs) groups kept s h e = elim (Bool-cases (contains x.node nodes)) [
    | inl there ↦
        remove_gone-Grouped nodes xs (add_to_identity x groups) kept s
          (add_to_identity-Grouped nodes x groups there h) (rw (there, remove_gone) at e)
    | inr gone ↦
        remove_gone-Grouped nodes xs groups kept (on_cluster (env.delete_ipamd x.name) s).1 h
          (rw (gone, remove_gone) at e)
  ]
