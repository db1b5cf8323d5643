-- ===== src/Cnivpc/SandboxArgs/Printed.antt =====
-- cmd/cnivpc/main.go: arguments that are printed "K=V;K2=V2" are read back.
use Prim.Native.Char.{Char, code}
use text.Mathlib.TextLemmas.{nil-append, cons-append}
use uk8s_cni_vpc.Prelude.{
  ℕ, String, concat, Bool, true, false, List, [], ◌∷◌, All, eqb, if◌then◌else◌, ◌≡◌, refl, ap, ◌∙◌,
  arith,
}
use uk8s_cni_vpc.Cnivpc.SandboxArgs.{split, pair_of, pairs_of, load_sandbox_args, semicolon, equals}

-- The text has no character of this code.
abbrev pub free_of : ℕ → String → Bool
free_of sep String.[] = true
free_of sep (String.◌∷◌ c s) = if eqb (code c) sep then false else free_of sep s

abbrev pub print_pair : String × String → String
print_pair (key, value) = concat key (concat "=" value)

abbrev pub print_args : List (String × String) → String
print_args [] = ""
print_args (kv ∷ []) = print_pair kv
print_args (kv ∷ kv' ∷ kvs) = concat (print_pair kv) (concat ";" (print_args (kv' ∷ kvs)))

-- A pair whose two texts have neither separator.
abbrev pub Plain : String × String → Type 0
Plain (key, value) =
    (free_of equals key ≡ true)
    × (free_of semicolon key ≡ true)
    × (free_of equals value ≡ true)
    × (free_of semicolon value ≡ true)

split-free : (sep : ℕ) (s : String) → free_of sep s ≡ true → split sep s ≡ s ∷ []
unfolding split
split-free sep String.[] h = refl
split-free sep (String.◌∷◌ c s) h = ground (arith, split-free sep s)

split-concat :
    (sep : ℕ) (mark : Char) (s t : String)
    → eqb (code mark) sep ≡ true
    → free_of sep s ≡ true
    → split sep (concat s (String.◌∷◌ mark t)) ≡ s ∷ split sep t
unfolding split
split-concat sep mark String.[] t m h = rw (nil-append (String.◌∷◌ mark t), split, m) refl
split-concat sep mark (String.◌∷◌ c s) t m h =
    rw (cons-append c s (String.◌∷◌ mark t), split) (ground (arith, split-concat sep mark s t m))

free_of-concat :
    (sep : ℕ) (s t : String)
    → free_of sep s ≡ true
    → free_of sep t ≡ true
    → free_of sep (concat s t) ≡ true
free_of-concat sep String.[] t h k = rw (nil-append t) k
free_of-concat sep (String.◌∷◌ c s) t h k =
    rw (cons-append c s t, free_of) (ground (arith, free_of-concat sep s t))

mark_equals : (s : String) → concat "=" s ≡ String.◌∷◌ "=" s
mark_equals s = cons-append "=" "" s ∙ ap (String.◌∷◌ "=") (nil-append s)

mark_semicolon : (s : String) → concat ";" s ≡ String.◌∷◌ ";" s
mark_semicolon s = cons-append ";" "" s ∙ ap (String.◌∷◌ ";") (nil-append s)

split-print_pair :
    (kv : String × String) → Plain kv → split equals (print_pair kv) ≡ kv.0 ∷ kv.1 ∷ []
split-print_pair (key, value) plain = rw (mark_equals value) (
    split-concat equals "=" key value refl plain.0
    ∙ ap (λ x. key ∷ x) (split-free equals value plain.2))

free_of-print_pair : (kv : String × String) → Plain kv → free_of semicolon (print_pair kv) ≡ true
free_of-print_pair (key, value) plain =
    free_of-concat semicolon key (concat "=" value) plain.1 (rw (mark_equals value) plain.3)

pairs_of-print_pair :
    (kv : String × String) (xs : List String)
    → Plain kv
    → pairs_of (print_pair kv ∷ xs) ≡ kv ∷ pairs_of xs
unfolding pairs_of pair_of
pairs_of-print_pair (key, value) xs plain =
    rw (split-print_pair (key, value) plain, pairs_of, pair_of) refl

-- The arguments are read back from their text, in order, whatever keys and values they have without
-- the two separators.
pub load_sandbox_args-print_args :
    (kvs : List (String × String)) → All Plain kvs → load_sandbox_args (print_args kvs) ≡ kvs
unfolding load_sandbox_args pairs_of split pair_of
load_sandbox_args-print_args [] plain = refl
load_sandbox_args-print_args (kv ∷ []) plain =
    ap pairs_of (split-free semicolon (print_pair kv) (free_of-print_pair kv plain.0))
    ∙ pairs_of-print_pair kv [] plain.0
    ∙ ap (λ x. kv ∷ x) refl
load_sandbox_args-print_args (kv ∷ kv' ∷ kvs) plain = rw (mark_semicolon (print_args (kv' ∷ kvs))) (
    ap pairs_of (
      split-concat semicolon ";" (print_pair kv) (print_args (kv' ∷ kvs)) refl
        (free_of-print_pair kv plain.0))
    ∙ pairs_of-print_pair kv (split semicolon (print_args (kv' ∷ kvs))) plain.0
    ∙ ap (λ x. kv ∷ x) (load_sandbox_args-print_args (kv' ∷ kvs) plain.1))
