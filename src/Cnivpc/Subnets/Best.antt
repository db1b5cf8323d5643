-- ===== src/Cnivpc/Subnets/Best.antt =====
-- cmd/cnivpc/rpc.go: which subnet is selected.
use text.Mathlib.TextPositions.{eq_refl}
use uk8s_cni_vpc.Prelude.{
  zero, suc, ◌<◌, ◌≤◌, String, ◌≡◌, ◌≢◌, refl, sym, subst, ◌⊎◌, inl, inr, true, false, Bool-cases,
  Option, none, some, List, [], ◌∷◌, ◌==◌, eq_iff, ltb, arith, All, All-map,
}
use uk8s_cni_vpc.Result.{Result, ok, err, failure, Result-cases}
use uk8s_cni_vpc.Ipamd.Pool.{contains}
use uk8s_cni_vpc.Cnivpc.Plugin.{Plugin, PluginState}
use uk8s_cni_vpc.Cnivpc.Subnets.{
  SubnetAvailableIp, balanced, is_strategy, validate_subnet_allocation_strategy, max_available,
  select_valid, select_subnet_by_allocation_strategy, get_subnet_available_ips, available_subnets,
  schedule_subnet,
}

-- `m` is the first of the greatest: those before it have fewer addresses, those after it no more.
abbrev pub FirstMax : List SubnetAvailableIp → SubnetAvailableIp → Type 0
FirstMax [] m = ⊥
FirstMax (y ∷ ys) m =
    ((y ≡ m) × All (λ z. z.available_ips ≤ m.available_ips) ys)
    ⊎ ((y.available_ips < m.available_ips) × FirstMax ys m)

head_le :
    (x : SubnetAvailableIp) (xs : List SubnetAvailableIp) (m : SubnetAvailableIp)
    → FirstMax (x ∷ xs) m
    → x.available_ips ≤ m.available_ips
head_le x xs m (inl (same, rest)) =
    subst (λ y. x.available_ips ≤ y.available_ips) same (omega arith)
head_le x xs m (inr (less, rest)) = omega (arith, less)

skip_le :
    (b x : SubnetAvailableIp) (xs : List SubnetAvailableIp) (m : SubnetAvailableIp)
    → x.available_ips ≤ b.available_ips
    → FirstMax (b ∷ xs) m
    → FirstMax (b ∷ x ∷ xs) m
skip_le b x xs m le (inl (same, rest)) =
    inl (same, (subst (λ y. x.available_ips ≤ y.available_ips) same le, rest))
skip_le b x xs m le (inr (less, rest)) = inr (less, inr (omega (arith, le, less), rest))

max_available_less :
    (b x : SubnetAvailableIp) (xs : List SubnetAvailableIp)
    → ltb b.available_ips x.available_ips ≡ true
    → max_available b (x ∷ xs) ≡ max_available x xs
unfolding max_available
max_available_less b x xs e = rw e refl

max_available_more :
    (b x : SubnetAvailableIp) (xs : List SubnetAvailableIp)
    → ltb b.available_ips x.available_ips ≡ false
    → max_available b (x ∷ xs) ≡ max_available b xs
unfolding max_available
max_available_more b x xs e = rw e refl

max_available_nil : (b : SubnetAvailableIp) → max_available b [] ≡ b
unfolding max_available
max_available_nil b = refl

max_available-FirstMax :
    (b : SubnetAvailableIp) (xs : List SubnetAvailableIp) → FirstMax (b ∷ xs) (max_available b xs)
max_available-FirstMax b [] = inl (sym (max_available_nil b), tt)
max_available-FirstMax b (x ∷ xs) = elim (Bool-cases (ltb b.available_ips x.available_ips)) [
  | inl e ↦
      let rest = max_available-FirstMax x xs in
      let le = head_le x xs (max_available x xs) rest in
      let less : b.available_ips < (max_available x xs).available_ips = ground (arith, le) in
      subst (FirstMax (b ∷ x ∷ xs)) (sym (max_available_less b x xs e)) (inr (less, rest))
  | inr e ↦
      let le : x.available_ips ≤ b.available_ips = ground arith in
      subst (FirstMax (b ∷ x ∷ xs)) (sym (max_available_more b x xs e))
        (skip_le b x xs (max_available b xs) le (max_available-FirstMax b xs))
]

-- The first of the list.
abbrev pub IsHead : List SubnetAvailableIp → SubnetAvailableIp → Type 0
IsHead [] x = ⊥
IsHead (y ∷ ys) x = y ≡ x

-- What a selection may answer.
abbrev pub Selected : String → List SubnetAvailableIp → Result (Option SubnetAvailableIp) → Type 0
Selected strategy subnets (err e) = is_strategy strategy ≡ false
Selected strategy subnets (ok none) = (is_strategy strategy ≡ true) × (subnets ≡ [])
Selected strategy subnets (ok (some x)) =
    (is_strategy strategy ≡ true)
    × (((strategy ≡ balanced) × FirstMax subnets x) ⊎ ((strategy ≢ balanced) × IsHead subnets x))

select_valid-Selected :
    (strategy : String) (subnets : List SubnetAvailableIp)
    → is_strategy strategy ≡ true
    → Selected strategy subnets (ok (select_valid strategy subnets))
unfolding select_valid
select_valid-Selected strategy [] valid = (valid, refl)
select_valid-Selected strategy (x ∷ xs) valid = elim (Bool-cases (strategy == balanced)) [
  | inl e ↦
      rw (e, select_valid)
        (valid, inl ((eq_iff strategy balanced).0 e, max_available-FirstMax x xs))
  | inr e ↦
      rw (e, select_valid)
        (valid, inr (λ same. absurd (ground (arith, (eq_iff strategy balanced).1 same)), refl))
]

select_known :
    (strategy : String) (subnets : List SubnetAvailableIp)
    → is_strategy strategy ≡ true
    → select_subnet_by_allocation_strategy strategy subnets ≡ ok (select_valid strategy subnets)
unfolding select_subnet_by_allocation_strategy validate_subnet_allocation_strategy
select_known strategy subnets e =
    rw (select_subnet_by_allocation_strategy, validate_subnet_allocation_strategy, e) refl

select_unknown :
    (strategy : String) (subnets : List SubnetAvailableIp)
    → is_strategy strategy ≡ false
    → select_subnet_by_allocation_strategy strategy subnets
      ≡ err (failure "invalid podnetworking subnet allocation strategy")
unfolding select_subnet_by_allocation_strategy validate_subnet_allocation_strategy
select_unknown strategy subnets e =
    rw (select_subnet_by_allocation_strategy, validate_subnet_allocation_strategy, e) refl

-- An unknown strategy is refused, and only that; no subnet is selected only if there is none; the
-- balanced strategy selects the first of those with the most addresses, every other the first.
pub select_subnet_by_allocation_strategy-Selected :
    (strategy : String) (subnets : List SubnetAvailableIp)
    → Selected strategy subnets (select_subnet_by_allocation_strategy strategy subnets)
select_subnet_by_allocation_strategy-Selected strategy subnets =
    elim (Bool-cases (is_strategy strategy)) [
      | inr e ↦ subst (Selected strategy subnets) (sym (select_unknown strategy subnets e)) e
      | inl e ↦
          subst (Selected strategy subnets) (sym (select_known strategy subnets e))
            (select_valid-Selected strategy subnets e)
    ]

module _ (P : SubnetAvailableIp → Type 0) where
  FirstMax-All :
      (xs : List SubnetAvailableIp) (m : SubnetAvailableIp) → FirstMax xs m → All P xs → P m
  FirstMax-All [] m h all_p = absurd h
  FirstMax-All (y ∷ ys) m (inl (same, rest)) all_p = subst P same all_p.0
  FirstMax-All (y ∷ ys) m (inr (less, rest)) all_p = FirstMax-All ys m rest all_p.1

  IsHead-All : (xs : List SubnetAvailableIp) (x : SubnetAvailableIp) → IsHead xs x → All P xs → P x
  IsHead-All [] x h all_p = absurd h
  IsHead-All (y ∷ ys) x same all_p = subst P same all_p.0

  Selected-All :
      (strategy : String) (xs : List SubnetAvailableIp) (x : SubnetAvailableIp)
      → Selected strategy xs (ok (some x))
      → All P xs
      → P x
  Selected-All strategy xs x (valid, inl (same, best)) all_p = FirstMax-All xs x best all_p
  Selected-All strategy xs x (valid, inr (other, first)) all_p = IsHead-All xs x first all_p

-- A configured subnet that still has an address.
abbrev pub Usable : List String → SubnetAvailableIp → Type 0
Usable ids x = (contains x.id ids ≡ true) × (0 < x.available_ips)

ok_subnets : (xs ys : List SubnetAvailableIp) → ok xs ≡ ok ys → xs ≡ ys
ok_subnets xs ys h = cc

module _ ⦃plugin : Plugin⦄ where
  more_Usable :
      (id : String) (ids : List String) (x : SubnetAvailableIp) → Usable ids x → Usable (id ∷ ids) x
  more_Usable id ids x h = (ground (arith, h.0), h.1)

  available_subnets-Usable :
      (vpc : String) (ids : List String) (xs : List SubnetAvailableIp) (s : PluginState plugin)
      → (available_subnets vpc ids s).0 ≡ ok xs
      → All (Usable ids) xs
  unfolding available_subnets
  available_subnets-Usable vpc [] xs s h =
      let same : [] ≡ xs = ground arith in subst (All (Usable [])) same tt
  available_subnets-Usable vpc (id ∷ ids) xs s h =
      let s1 : PluginState plugin = (get_subnet_available_ips vpc id s).1 in
      elim (Result-cases (available_subnets vpc ids s1).0) [
        | inr (e, bad) ↦ elim (Result-cases (get_subnet_available_ips vpc id s).0) [
          | inr (d, skipped) ↦ absurd (let w = rw (skipped, bad, available_subnets) at h in cc w)
          | inl (zero, full) ↦ absurd (let w = rw (full, bad, available_subnets) at h in cc w)
          | inl (suc n, free) ↦ absurd (let w = rw (free, bad, available_subnets) at h in cc w)
        ]
        | inl (rest, good) ↦
            let below = available_subnets-Usable vpc ids rest s1 good in
            let above = All-map (Usable ids) (Usable (id ∷ ids)) rest (more_Usable id ids) below in
            elim (Result-cases (get_subnet_available_ips vpc id s).0) [
              | inr (d, skipped) ↦
                  subst (All (Usable (id ∷ ids)))
                    (ok_subnets rest xs (rw (skipped, good, available_subnets) at h)) above
              | inl (zero, full) ↦
                  subst (All (Usable (id ∷ ids)))
                    (ok_subnets rest xs (rw (full, good, available_subnets) at h)) above
              | inl (suc n, free) ↦
                  subst (All (Usable (id ∷ ids)))
                    (ok_subnets (record { id = id; available_ips = suc n } ∷ rest) xs
                      (rw (free, good, available_subnets) at h))
                    ((rw (eq_refl id) refl, omega arith), above)
            ]
      ]

  -- The subnet that a network interface is made in is one of the configuration, and had an address
  -- left when it was asked for.
  pub schedule_subnet-Usable :
      (strategy vpc : String) (ids : List String) (x : SubnetAvailableIp) (s : PluginState plugin)
      → (schedule_subnet strategy vpc ids s).0 ≡ ok x
      → Usable ids x
  unfolding schedule_subnet
  schedule_subnet-Usable strategy vpc ids x s h =
      elim (Result-cases (available_subnets vpc ids s).0) [
        | inr (e, bad) ↦ absurd (ground arith)
        | inl (xs, good) ↦ elim (Result-cases (select_subnet_by_allocation_strategy strategy xs)) [
          | inr (e, bad) ↦ absurd (ground arith)
          | inl (none, nothing) ↦ absurd (ground arith)
          | inl (some y, chosen) ↦
              let same : y ≡ x = ground arith in
              subst (Usable ids) same (
                Selected-All (Usable ids) strategy xs y
                  (subst (Selected strategy xs) chosen
                    (select_subnet_by_allocation_strategy-Selected strategy xs))
                  (available_subnets-Usable vpc ids xs s good))
        ]
      ]
