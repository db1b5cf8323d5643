-- ===== src/Cnivpc/SandboxArgs.antt =====
-- cmd/cnivpc/main.go: the arguments "K=V;K2=V2;…" of a sandbox.
pub mod Printed
use Prim.Native.Char.{Char, code}
use uk8s_cni_vpc.Prelude.{
  ℕ, String, Bool, true, false, Option, none, some, List, [], ◌∷◌, ◌==◌, eqb, if◌then◌else◌,
}

abbrev pub cons_first : Char → List String → List String
cons_first c [] = String.◌∷◌ c "" ∷ []
cons_first c (x ∷ xs) = String.◌∷◌ c x ∷ xs

-- `strings.Split` at one character, given by its code point.
unfoldable pub split : ℕ → String → List String
split sep String.[] = "" ∷ []
split sep (String.◌∷◌ c s) =
    let rest = split sep s in if eqb (code c) sep then "" ∷ rest else cons_first c rest

-- 59 is the semicolon, 61 the sign of equality.
abbrev pub semicolon : ℕ
semicolon = 59

abbrev pub equals : ℕ
equals = 61

-- A pair whose parts are not two is skipped.
unfoldable pub pair_of : List String → Option (String × String)
pair_of (key ∷ value ∷ []) = some (key, value)
pair_of other = none

unfoldable pub pairs_of : List String → List (String × String)
pairs_of [] = []
pairs_of (x ∷ xs) = elim (pair_of (split equals x)) [
  | none ↦ pairs_of xs
  | some kv ↦ kv ∷ pairs_of xs
]

-- The assignments to the map, in order.
unfoldable pub load_sandbox_args : String → List (String × String)
load_sandbox_args args = pairs_of (split semicolon args)

abbrev pub has_key : String → List (String × String) → Bool
has_key key [] = false
has_key key ((k, v) ∷ kvs) = if k == key then true else has_key key kvs

-- The map at a key: the last assignment, or "".
unfoldable pub argument : String → List (String × String) → String
argument key [] = ""
argument key ((k, v) ∷ kvs) =
    let rest = argument key kvs in if k == key then (if has_key key kvs then rest else v) else rest
