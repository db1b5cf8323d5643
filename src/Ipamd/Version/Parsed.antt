-- ===== src/Ipamd/Version/Parsed.antt =====
-- pkg/ipamd/version_server.go, `parseCNIVersion`: the version is read back from what the plugin prints.
use mathlib.Core.List.{reverse, reverse-append, reverse-reverse, append-nil}
use uk8s_cni_vpc.Prelude.{
  ℕ, ◌≡◌, refl, sym, ap, ◌∙◌, true, false, List, [], ◌∷◌, ◌++◌, eqb, some, All, All-append, arith,
}
use uk8s_cni_vpc.Result.{ok}
use uk8s_cni_vpc.Ipamd.Version.{
  is_space, trim_left, trim_space, cut_prefix, cni_version_prefix, version_of, parse_cni_version,
}

abbrev pub IsBlank : List ℕ → Type 0
IsBlank text = All (λ c. is_space c ≡ true) text

trim_left-append :
    (blank text : List ℕ) → IsBlank blank → trim_left (blank ++ text) ≡ trim_left text
unfolding trim_left
trim_left-append [] text h = refl
trim_left-append (c ∷ cs) text h = rw (h.0, trim_left) (trim_left-append cs text h.1)

eqb_refl : (n : ℕ) → eqb n n ≡ true
eqb_refl n = ground arith

cut_prefix-append : (prefix text : List ℕ) → cut_prefix prefix (prefix ++ text) ≡ some text
unfolding cut_prefix
cut_prefix-append [] text = refl
cut_prefix-append (p ∷ ps) text = rw (eqb_refl p, cut_prefix) (cut_prefix-append ps text)

-- A text that begins with something else than white space.
abbrev pub Solid : List ℕ → Type 0
Solid [] = ⊥
Solid (c ∷ cs) = is_space c ≡ false

trim_left-Solid : (text more : List ℕ) → Solid text → trim_left (text ++ more) ≡ text ++ more
unfolding trim_left
trim_left-Solid [] more h = absurd h
trim_left-Solid (c ∷ cs) more h = rw h refl

IsBlank-append : (xs ys : List ℕ) → IsBlank xs → IsBlank ys → IsBlank (xs ++ ys)
IsBlank-append xs ys = All-append (λ c. is_space c ≡ true) xs ys

IsBlank-reverse : (xs : List ℕ) → IsBlank xs → IsBlank (reverse xs)
IsBlank-reverse [] h = h
IsBlank-reverse (x ∷ xs) h =
    rw (reverse-append (x ∷ []) xs)
      (IsBlank-append (reverse xs) (x ∷ []) (IsBlank-reverse xs h.1) (h.0, tt))

Solid-append : (xs ys : List ℕ) → Solid xs → Solid (xs ++ ys)
Solid-append [] ys h = absurd h
Solid-append (x ∷ xs) ys h = h

-- White space round a text is taken away, and nothing else.
trim_space-around :
    (before text after : List ℕ)
    → IsBlank before
    → IsBlank after
    → Solid text
    → Solid (reverse text)
    → trim_space (before ++ (text ++ after)) ≡ text
unfolding trim_space
trim_space-around before text after h k first last =
    ap (λ t. reverse (trim_left (reverse t)))
      (trim_left-append before (text ++ after) h ∙ trim_left-Solid text after first)
    ∙ ap (λ t. reverse (trim_left t)) (reverse-append text after)
    ∙ ap reverse (trim_left-append (reverse after) (reverse text) (IsBlank-reverse after k))
    ∙ ap (λ t. reverse (trim_left t)) (sym (append-nil (reverse text)))
    ∙ ap reverse (trim_left-Solid (reverse text) [] last ∙ append-nil (reverse text))
    ∙ reverse-reverse text

version_of-Solid :
    (version : List ℕ)
    → Solid version
    → trim_space version ≡ version
    → version_of (some version) ≡ ok version
unfolding version_of
version_of-Solid [] h same = absurd h
version_of-Solid (c ∷ cs) h same = rw (same, version_of) refl

-- A version that neither begins nor ends with white space is read back from the line that the plugin
-- prints, whatever white space stands before and after it.
pub parse_cni_version-printed :
    (before version after : List ℕ)
    → IsBlank before
    → IsBlank after
    → Solid version
    → Solid (reverse version)
    → parse_cni_version (before ++ ((cni_version_prefix ++ version) ++ after)) ≡ ok version
unfolding parse_cni_version is_space
parse_cni_version-printed before version after h k first last =
    let line : List ℕ = cni_version_prefix ++ version in
    let ends : Solid (reverse line) =
      rw (reverse-append cni_version_prefix version)
        (Solid-append (reverse version) (reverse cni_version_prefix) last) in
    let alone : trim_space version ≡ version =
      ap trim_space (sym (append-nil version)) ∙ trim_space-around [] version [] tt tt first last in
    ap (λ t. version_of (cut_prefix cni_version_prefix t))
      (trim_space-around before line after h k refl ends)
    ∙ ap version_of (cut_prefix-append cni_version_prefix version)
    ∙ version_of-Solid version first alone
