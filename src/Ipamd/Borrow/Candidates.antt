-- ===== src/Ipamd/Borrow/Candidates.antt =====
-- pkg/ipamd/pool.go, `borrowIP`: which daemons are asked, and in which order.
use mathlib.Core.HLevel.{×_prop}
use mathlib.Core.Logic.Or
use mathlib.Core.List.Perm
use mathlib.Core.List.{
  Perm, Mem, mem-cons_self, mem-cons_of_mem, not-mem-nil, eq-or-mem_of_mem-cons,
}
use uk8s_cni_vpc.Prelude.{
  ◌≤◌, String, ◌≡◌, ◌≢◌, false≢true, eq_iff, subst, sym, inl, inr, true, Bool-cases, Option-cases,
  some, List, [], ◌∷◌, ◌==◌, leb, arith, All, All-append, All-map,
}
use uk8s_cni_vpc.Result.{ok, is_absent, Result-cases}
use uk8s_cni_vpc.Ipamd.Types.{Ipamd, dry}
use uk8s_cni_vpc.Ipamd.World.{Env, EnvLaws, Config, State, on_cluster}
use uk8s_cni_vpc.Ipamd.Borrow.{
  find_name, select_node, select_nodes, add_to_node, group_by_node, insert_by_current,
  sort_by_current, filter_borrow_candidates, eligible, gather, canonical_ipamd_name,
}

module _ (P : Ipamd → Type 0) where
  abbrev AllIn : List (String × List Ipamd) → Type 0
  AllIn groups = All (λ g. All P g.1) groups

  add_to_node-AllIn :
      (x : Ipamd) (groups : List (String × List Ipamd))
      → P x
      → AllIn groups
      → AllIn (add_to_node x groups)
  unfolding add_to_node
  add_to_node-AllIn x [] px h = ((px, tt), tt)
  add_to_node-AllIn x ((node, xs) ∷ groups) px h = elim (Bool-cases (node == x.node)) [
    | inl e ↦ rw (e, add_to_node) (All-append P xs (x ∷ []) h.0 (px, tt), h.1)
    | inr e ↦ rw (e, add_to_node) (h.0, add_to_node-AllIn x groups px h.1)
  ]

  group_by_node-AllIn :
      (xs : List Ipamd) (groups : List (String × List Ipamd))
      → All P xs
      → AllIn groups
      → AllIn (group_by_node xs groups)
  unfolding group_by_node
  group_by_node-AllIn [] groups h k = k
  group_by_node-AllIn (x ∷ xs) groups h k =
      group_by_node-AllIn xs (add_to_node x groups) h.1 (add_to_node-AllIn x groups h.0 k)

  find_name-All :
      (name : String) (xs : List Ipamd) (y : Ipamd) → All P xs → find_name name xs ≡ some y → P y
  unfolding find_name
  find_name-All name [] y h e = absurd (cc)
  find_name-All name (x ∷ xs) y h e = elim (Bool-cases (x.name == name)) [
    | inl same ↦ subst P (ground arith) h.0
    | inr other ↦ find_name-All name xs y h.1 (rw (other, find_name) at e)
  ]

  pub select_node-All : (xs : List Ipamd) (y : Ipamd) → All P xs → select_node xs ≡ some y → P y
  unfolding select_node
  select_node-All [] y h e = absurd (cc)
  select_node-All (x ∷ []) y h e = subst P (ground arith) h.0
  select_node-All (x ∷ z ∷ rest) y h e =
      elim (Option-cases (find_name (canonical_ipamd_name x.node x.subnet) (x ∷ z ∷ rest))) [
        | inl missing ↦ subst P (ground arith) h.0
        | inr (w, found) ↦
            let same : w ≡ y = ground arith in
            subst P same (find_name-All _ (x ∷ z ∷ rest) w h found)
      ]

  select_nodes-All :
      (groups : List (String × List Ipamd)) → AllIn groups → All P (select_nodes groups)
  unfolding select_nodes
  select_nodes-All [] h = tt
  select_nodes-All ((node, xs) ∷ groups) h = elim (Option-cases (select_node xs)) [
    | inl missing ↦ rw (missing, select_nodes) (select_nodes-All groups h.1)
    | inr (y, found) ↦
        rw (found, select_nodes) (select_node-All xs y h.0 found, select_nodes-All groups h.1)
  ]

  insert-All : (x : Ipamd) (xs : List Ipamd) → P x → All P xs → All P (insert_by_current x xs)
  unfolding insert_by_current
  insert-All x [] px h = (px, tt)
  insert-All x (y ∷ ys) px h = elim (Bool-cases (leb y.status.current x.status.current)) [
    | inl e ↦ rw (e, insert_by_current) (px, h)
    | inr e ↦ rw (e, insert_by_current) (h.0, insert-All x ys px h.1)
  ]

  sort-All : (xs : List Ipamd) → All P xs → All P (sort_by_current xs)
  unfolding sort_by_current
  sort-All [] h = tt
  sort-All (x ∷ xs) h = insert-All x (sort_by_current xs) h.0 (sort-All xs h.1)

-- Every resource has at least as many free addresses as each of those after it.
abbrev pub MostFirst : List Ipamd → Type 0
MostFirst [] = Unit
MostFirst (x ∷ xs) = All (λ y. y.status.current ≤ x.status.current) xs × MostFirst xs

insert-MostFirst : (x : Ipamd) (xs : List Ipamd) → MostFirst xs → MostFirst (insert_by_current x xs)
unfolding insert_by_current
insert-MostFirst x [] h = (tt, tt)
insert-MostFirst x (y ∷ ys) h = elim (Bool-cases (leb y.status.current x.status.current)) [
  | inl e ↦
      let most : y.status.current ≤ x.status.current = ground arith in
      rw (e, insert_by_current) ((most, All-map _ _ ys (λ z le. omega (arith, le, most)) h.0), h)
  | inr e ↦
      rw (e, insert_by_current)
        (
          insert-All (λ z. z.status.current ≤ y.status.current) x ys (ground arith) h.0,
          insert-MostFirst x ys h.1,
        )
]

sort-MostFirst : (xs : List Ipamd) → MostFirst (sort_by_current xs)
unfolding sort_by_current
sort-MostFirst [] = tt
sort-MostFirst (x ∷ xs) = insert-MostFirst x (sort_by_current xs) (sort-MostFirst xs)

module _ {A : Type 0} (P : A → Type 0) where
  All-of_Mem : (xs : List A) → ((x : A) → Mem x xs → P x) → All P xs
  All-of_Mem [] h = tt
  All-of_Mem (x ∷ xs) h = (h x (mem-cons_self), All-of_Mem xs (λ y m. h y (mem-cons_of_mem x m)))

  Mem-All : ((x : A) → IsProp (P x)) → (xs : List A) → All P xs → (x : A) → Mem x xs → P x
  Mem-All prop [] h x m = absurd (not-mem-nil m)
  Mem-All prop (y ∷ ys) h x m =
      Or.elim (prop x) (eq-or-mem_of_mem-cons m) (λ e. subst P (sym e) h.0) (Mem-All prop ys h.1 x)

  -- A property of all elements survives a change of order.
  pub All-Perm : ((x : A) → IsProp (P x)) → {xs ys : List A} → Perm xs ys → All P ys → All P xs
  All-Perm prop {xs} {ys} p h = All-of_Mem xs (λ x m. Mem-All prop ys h x ((Perm.mem_iff p).0 m))

module _ {A : Type 0} {P : A → Type 0} where
  pub All-prop : ((x : A) → IsProp (P x)) → (xs : List A) → IsProp (All P xs)
  All-prop prop [] = hlevel
  All-prop prop (x ∷ xs) = ×_prop (prop x) (All-prop prop xs)

module _ ⦃env : Env⦄ ⦃config : Config⦄ (laws : EnvLaws env) where
  gather-eligible :
      (subnet : String) (xs ys : List Ipamd) (s : State env)
      → (gather subnet xs s).0 ≡ ok ys
      → All (λ x. eligible subnet x ≡ true) ys
  unfolding gather
  gather-eligible subnet [] ys s h =
      let same : [] ≡ ys = ground arith in subst (All (λ x. eligible subnet x ≡ true)) same tt
  gather-eligible subnet (x ∷ xs) ys s h = elim (Bool-cases (eligible subnet x)) [
    | inr e ↦ gather-eligible subnet xs ys s (rw (e, gather) at h)
    | inl e ↦
        let s1 : State env = (on_cluster (env.get_node x.node) s).1 in
        elim (Result-cases (env.get_node x.node s.cluster).0) [
          | inr (bad, f) ↦ elim (Bool-cases (is_absent bad)) [
            | inl gone ↦ gather-eligible subnet xs ys s1 (rw (e, f, gone, gather) at h)
            | inr fault ↦ absurd (ground arith)
          ]
          | inl (u, f) ↦ elim (Result-cases (gather subnet xs s1).0) [
            | inr (bad, g) ↦ absurd (ground arith)
            | inl (rest, g) ↦
                let same : x ∷ rest ≡ ys = ground arith in
                subst (All (λ x. eligible subnet x ≡ true)) same
                  (e, gather-eligible subnet xs rest s1 g)
          ]
        ]
  ]

  -- A resource of another node and of the subnet, whose level is not `dry`.
  abbrev pub Candidate : String → Ipamd → Type 0
  Candidate subnet x = (x.node ≢ config.node_name) × (x.status.status ≢ dry) × (x.subnet ≡ subnet)

  eligible-Candidate : (subnet : String) (x : Ipamd) → eligible subnet x ≡ true → Candidate subnet x
  unfolding eligible
  eligible-Candidate subnet x h = (
    (λ e. false≢true (ground (arith, h, (eq_iff x.node config.node_name).1 e))),
    (λ e. false≢true (ground (arith, h, e))),
    (eq_iff x.subnet subnet).0 (ground (arith, h)),
  )

  -- The conditions on the resources, and their order.
  pub sorted_candidates-eligible :
      (subnet : String) (xs ys : List Ipamd) (s : State env)
      → (gather subnet xs s).0 ≡ ok ys
      → All (Candidate subnet) (sort_by_current (filter_borrow_candidates ys))
        × MostFirst (sort_by_current (filter_borrow_candidates ys))
  unfolding filter_borrow_candidates
  sorted_candidates-eligible subnet xs ys s h = (
    All-map _ (Candidate subnet) _ (λ x e. eligible-Candidate subnet x e)
        (sort-All (λ x. eligible subnet x ≡ true) _
          (select_nodes-All (λ x. eligible subnet x ≡ true) _
            (All-Perm _ (λ g. All-prop (λ x. hlevel) g.1)
              (laws.map_order_perm (group_by_node ys []))
              (group_by_node-AllIn (λ x. eligible subnet x ≡ true) ys []
                (gather-eligible subnet xs ys s h) tt)))),
    sort-MostFirst (filter_borrow_candidates ys),
  )
