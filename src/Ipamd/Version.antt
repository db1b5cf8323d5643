-- ===== src/Ipamd/Version.antt =====
-- pkg/ipamd/version_server.go: the version of the installed plugin, and what the endpoint answers.
-- Texts are lists of code points; `is_space` is Go's `unicode.IsSpace`, which has the code points of
-- Unicode's white space.
pub mod Parsed
use uk8s_cni_vpc.Prelude.{
  ℕ, String, Bool, true, false, ◌&&◌, ◌||◌, Option, none, some, List, [], ◌∷◌, eqb, leb, codes,
  if◌then◌else◌,
}
use mathlib.Core.List.{reverse}
use uk8s_cni_vpc.Result.{Result, ok, err, Error, failure}
use uk8s_cni_vpc.Step.{Step, or_else, lift, ◌>>=◌}

unfoldable pub is_space : ℕ → Bool
is_space c =
    leb 9 c && leb c 13
    || (eqb c 32
        || (eqb c 0x85
            || (eqb c 0xa0
                || (eqb c 0x1680
                    || (leb 0x2000 c && leb c 0x200a
                        || (eqb c 0x2028
                            || (eqb c 0x2029
                                || (eqb c 0x202f || (eqb c 0x205f || eqb c 0x3000)))))))))

-- `strings.TrimSpace`
unfoldable pub trim_left : List ℕ → List ℕ
trim_left [] = []
trim_left (c ∷ cs) = if is_space c then trim_left cs else c ∷ cs

unfoldable pub trim_space : List ℕ → List ℕ
unfolding trim_left
trim_space text = reverse (trim_left (reverse (trim_left text)))

-- `strings.CutPrefix`
unfoldable pub cut_prefix : List ℕ → List ℕ → Option (List ℕ)
cut_prefix [] text = some text
cut_prefix (p ∷ ps) [] = none
cut_prefix (p ∷ ps) (c ∷ cs) = if eqb p c then cut_prefix ps cs else none

abbrev pub cni_version_prefix : List ℕ
cni_version_prefix = codes "ucloud-uk8s-cnivpc version "

unfoldable pub version_of : Option (List ℕ) → Result (List ℕ)
version_of none = err (failure "ipamd.parseCNIVersion unexpected output")
version_of (some version) = elim (trim_space version) [
  | [] ↦ err (failure "ipamd.parseCNIVersion unexpected output")
  | c ∷ cs ↦ ok (c ∷ cs)
]

unfoldable pub parse_cni_version : List ℕ → Result (List ℕ)
parse_cni_version output = version_of (cut_prefix cni_version_prefix (trim_space output))

module _ {S : Type 0} (exec : String → Step S (List ℕ)) where
  pub load_cni_version : String → Step S (List ℕ)
  load_cni_version path = do
    output ← or_else (exec path) "ipamd.loadCNIVersion execute"
    lift (parse_cni_version output)

-- The answer of the version endpoint: the status, and the version if there is one.
pub version_answer : Result (List ℕ) → ℕ × Option (List ℕ)
version_answer (ok version) = (200, some version)
version_answer (err e) = (503, none)
