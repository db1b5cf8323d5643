-- ===== src/Ipamd/Status/Names.antt =====
-- pkg/ipamd/pool.go: the subnet that the name of a pool stands for, and the level of a pool.
use text.Mathlib.TextLemmas.{nil-append, cons-append, append-eq-nil_iff}
use Prim.Native.Char.{code}
use uk8s_cni_vpc.Prelude.{
  ℕ, ◌<◌, ◌≤◌, String, concat, ◌≡◌, ◌↔◌, refl, ap, inl, inr, true, false, Bool-cases, eq_iff,
  false≢true, some, ◌==◌, eqb, strip_prefix, trim_prefix, arith, if◌then◌else◌,
}
use uk8s_cni_vpc.Ipamd.Types.{dry, hungry, normal, overflow}
use uk8s_cni_vpc.Ipamd.World.{Env, Config}
use uk8s_cni_vpc.Ipamd.Pool.{pool_name, pool_db_name}
use uk8s_cni_vpc.Ipamd.Status.{get_pool_subnet_id, level_of}

eqb_refl : (n : ℕ) → eqb n n ≡ true
eqb_refl n = ground arith

strip_prefix-concat : (p s : String) → strip_prefix p (concat p s) ≡ some s
strip_prefix-concat String.[] s = ap some (nil-append s)
strip_prefix-concat (String.◌∷◌ c p) s =
    rw (cons-append c p s, strip_prefix, eqb_refl (code c)) (strip_prefix-concat p s)

trim_prefix-concat : (p s : String) → trim_prefix (concat p s) p ≡ s
trim_prefix-concat p s = rw (trim_prefix, strip_prefix-concat p s) refl

-- A pool has exactly one of the four levels: dry without an address, hungry below the low watermark,
-- overflowing from the high watermark on, and normal between the two.
pub level_of_iff :
    (low high watermark : ℕ)
    → low ≤ high
    → ((level_of low high watermark ≡ dry) ↔ (watermark ≡ 0))
      × ((level_of low high watermark ≡ hungry) ↔ ((0 < watermark) × (watermark < low)))
      × ((level_of low high watermark ≡ normal)
          ↔ ((0 < watermark) × (low ≤ watermark) × (watermark < high)))
      × ((level_of low high watermark ≡ overflow) ↔ ((0 < watermark) × (high ≤ watermark)))
unfolding level_of
level_of_iff low high watermark ordered = (
  (λ h. ground arith, λ h. ground arith),
  (λ h. ground arith, λ h. ground arith),
  (λ h. ground arith, λ h. ground arith),
  (λ h. ground arith, λ h. ground arith),
)

module _ ⦃env : Env⦄ ⦃config : Config⦄ where
  abbrev own_subnet : String → String
  own_subnet subnet = if subnet == "" then config.subnet_id else subnet

  trim-pool_name :
      (subnet : String)
      → trim_prefix (pool_name subnet) pool_db_name ≡ concat "-" (own_subnet subnet)
  unfolding pool_name
  trim-pool_name subnet = trim_prefix-concat pool_db_name (concat "-" (own_subnet subnet))

  concat-ne : (s : String) → (concat "-" s == "") ≡ false
  concat-ne s = elim (Bool-cases (concat "-" s == "")) [
    | inr e ↦ e
    | inl e ↦ absurd (
        false≢true (
          (eq_iff "-" "").1
            ((append-eq-nil_iff {p = "-"} {q = s}).0 ((eq_iff (concat "-" s) "").0 e)).0))
  ]

  -- The subnet that is read from the name of a pool is the one that the pool was opened for, the
  -- node's own subnet if none was named.
  pub get_pool_subnet_id-pool_name :
      (subnet : String)
      → get_pool_subnet_id (pool_name subnet)
        ≡ (if subnet == "" then config.subnet_id else subnet, false)
  unfolding get_pool_subnet_id
  get_pool_subnet_id-pool_name subnet =
      rw
        (
          trim-pool_name subnet,
          concat-ne (own_subnet subnet),
          trim_prefix-concat "-" (own_subnet subnet),
        )
        refl
