-- ===== src/Cnivpc/Rps/Value.antt =====
-- cmd/cnivpc/rps.go: the mask has a bit for each CPU.
use native.Mathlib.Nat.{add-zero, mul_assoc, pow-suc}
use uk8s_cni_vpc.Prelude.{
  ℕ, zero, suc, ◌+◌, ◌-◌, ◌*◌, ◌/◌, ◌%◌, ◌^◌, ◌<◌, List, [], ◌∷◌, replicate, eqb, ◌≡◌, sym, ◌∙◌, ap,
  inl, inr, arith, Bool-cases, eqb_iff,
}
use uk8s_cni_vpc.Cnivpc.Rps.{full_group, rps_groups}

-- The number that groups of 32 bits write, most significant first.
abbrev pub value_from : ℕ → List ℕ → ℕ
value_from n [] = n
value_from n (g ∷ gs) = value_from (n * 2 ^ 32 + g) gs

index_suc : (a b : ℕ) → a + suc b ≡ suc (a + b)
index_suc a b = omega arith

pow_add : (a b : ℕ) → 2 ^ (a + b) ≡ 2 ^ a * 2 ^ b
pow_add a zero = ap (λ x. 2 ^ x) (add-zero a) ∙ omega arith
pow_add a (suc b) =
    ap (λ x. 2 ^ x) (index_suc a b)
    ∙ pow-suc 2 (a + b)
    ∙ ap (λ x. x * 2) (pow_add a b)
    ∙ mul_assoc (2 ^ a) (2 ^ b) 2
    ∙ ap (λ x. 2 ^ a * x) (sym (pow-suc 2 b))

group_step : (n : ℕ) → suc (n * 2 ^ 32 + full_group) ≡ suc n * 2 ^ 32
group_step n = omega arith

index_step : (k : ℕ) → 32 + k * 32 ≡ suc k * 32
index_step k = omega arith

value_from-replicate :
    (n k : ℕ) → suc (value_from n (replicate k full_group)) ≡ suc n * 2 ^ (k * 32)
value_from-replicate n zero = omega arith
value_from-replicate n (suc k) =
    value_from-replicate (n * 2 ^ 32 + full_group) k
    ∙ ap (λ x. x * 2 ^ (k * 32)) (group_step n)
    ∙ mul_assoc (suc n) (2 ^ 32) (2 ^ (k * 32))
    ∙ ap (λ x. suc n * x) (sym (pow_add 32 (k * 32)))
    ∙ ap (λ x. suc n * 2 ^ x) (index_step k)

one_times : (n : ℕ) → 1 * n ≡ n
one_times n = omega arith

whole_groups : (n : ℕ) → n % 32 ≡ 0 → n / 32 * 32 ≡ n
whole_groups n h = omega arith

all_groups : (n : ℕ) → n % 32 + n / 32 * 32 ≡ n
all_groups n = omega arith

pow_positive : (r : ℕ) → 0 < 2 ^ r
pow_positive zero = omega arith
pow_positive (suc r) = omega (arith, pow-suc 2 r, pow_positive r)

top_group : (r : ℕ) → suc (0 + (2 ^ r - 1)) ≡ 2 ^ r
top_group r = omega (arith, pow_positive r)

-- The groups of the mask write the number whose lowest bits, one for each CPU, are set.
pub value_from-rps_groups :
    (cpu_count : ℕ) → suc (value_from 0 (rps_groups cpu_count)) ≡ 2 ^ cpu_count
unfolding rps_groups
value_from-rps_groups cpu_count = elim (Bool-cases (eqb (cpu_count % 32) 0)) [
  | inl e ↦ rw e (
      value_from-replicate 0 (cpu_count / 32)
      ∙ ap (λ x. 1 * 2 ^ x) (whole_groups cpu_count ((eqb_iff (cpu_count % 32) 0).0 e))
      ∙ one_times (2 ^ cpu_count))
  | inr e ↦ rw e (
      value_from-replicate (0 + (2 ^ (cpu_count % 32) - 1)) (cpu_count / 32)
      ∙ ap (λ x. x * 2 ^ (cpu_count / 32 * 32)) (top_group (cpu_count % 32))
      ∙ sym (pow_add (cpu_count % 32) (cpu_count / 32 * 32))
      ∙ ap (λ x. 2 ^ x) (all_groups cpu_count))
]
