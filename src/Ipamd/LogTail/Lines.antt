-- ===== src/Ipamd/LogTail/Lines.antt =====
-- The last lines of a text, by what stands before them.
use uk8s_cni_vpc.Prelude.{
  ℕ, zero, suc, ◌+◌, ◌≤◌, ◌<◌, ◌≡◌, refl, sym, ap, ◌∙◌, inl, inr, true, false, Bool-cases, List, [],
  ◌∷◌, ◌++◌, eqb, length, drop, arith,
}
use uk8s_cni_vpc.Ipamd.LogTail.{line_feed, newlines, after_newline, trim}

-- How many bytes the first `n` lines have, with their line feeds.
unfoldable pub skip_lines : ℕ → List ℕ → ℕ
skip_lines zero bytes = 0
skip_lines (suc n) [] = 0
skip_lines (suc n) (c ∷ cs) = elim (eqb c line_feed) [
  | true ↦ skip_lines n cs + 1
  | false ↦ skip_lines (suc n) cs + 1
]

pub newlines-append : (xs ys : List ℕ) → newlines (xs ++ ys) ≡ newlines xs + newlines ys
unfolding newlines
newlines-append [] ys = omega arith
newlines-append (x ∷ xs) ys = ground (arith, newlines-append xs ys)

-- Lines that end in the second part begin in it, as far as the first part is skipped whole.
pub skip_lines-append_more :
    (xs ys : List ℕ) (n : ℕ)
    → skip_lines (newlines xs + suc n) (xs ++ ys) ≡ length xs + skip_lines (suc n) ys
unfolding newlines skip_lines
skip_lines-append_more [] ys n = let same : 0 + suc n ≡ suc n = omega arith in rw same (omega arith)
skip_lines-append_more (x ∷ xs) ys n = elim (Bool-cases (eqb x line_feed)) [
  | inl feed ↦
      let more : newlines xs + 1 + suc n ≡ suc (newlines xs + suc n) = omega arith in
      rw (feed, newlines)
        (rw more (rw (feed, skip_lines) (omega (arith, skip_lines-append_more xs ys n))))
  | inr other ↦
      let more : newlines xs + suc n ≡ suc (newlines xs + n) = omega arith in
      let ih = skip_lines-append_more xs ys n in
      rw (other, newlines) (rw more (rw (other, skip_lines) (omega (arith, rw more at ih))))
]

pub skip_lines-append_fewer :
    (xs ys : List ℕ) (n : ℕ) → n ≤ newlines xs → skip_lines n (xs ++ ys) ≡ skip_lines n xs
unfolding newlines skip_lines
skip_lines-append_fewer xs ys zero h = refl
skip_lines-append_fewer [] ys (suc n) h = absurd (omega arith)
skip_lines-append_fewer (x ∷ xs) ys (suc n) h = elim (Bool-cases (eqb x line_feed)) [
  | inl feed ↦
      rw (feed, skip_lines) (ap (λ (k : ℕ). k + 1) (skip_lines-append_fewer xs ys n (ground arith)))
  | inr other ↦
      rw (other, skip_lines)
        (ap (λ (k : ℕ). k + 1) (skip_lines-append_fewer xs ys (suc n) (ground arith)))
]

after_newline-pos : (xs : List ℕ) → 0 < newlines xs → 0 < after_newline xs
unfolding newlines after_newline
after_newline-pos [] h = absurd (omega arith)
after_newline-pos (x ∷ xs) h = ground (arith, after_newline-pos xs)

after_newline-skip :
    (x : ℕ) (xs : List ℕ)
    → eqb x line_feed ≡ false
    → 0 < newlines xs
    → after_newline (x ∷ xs) ≡ suc (after_newline xs)
unfolding after_newline
after_newline-skip x xs other h = ground (arith, after_newline-pos xs)

after_newline-here : (x : ℕ) (xs : List ℕ) → eqb x line_feed ≡ true → after_newline (x ∷ xs) ≡ 1
unfolding after_newline
after_newline-here x xs feed = rw feed refl

newlines-here : (x : ℕ) (xs : List ℕ) → eqb x line_feed ≡ true → newlines (x ∷ xs) ≡ newlines xs + 1
unfolding newlines
newlines-here x xs feed = rw feed refl

newlines-skip : (x : ℕ) (xs : List ℕ) → eqb x line_feed ≡ false → newlines (x ∷ xs) ≡ newlines xs
unfolding newlines
newlines-skip x xs other = rw other refl

pub newlines-drop :
    (xs : List ℕ) → 0 < newlines xs → newlines (drop (after_newline xs) xs) + 1 ≡ newlines xs
newlines-drop [] h = absurd (unfold newlines in omega arith)
newlines-drop (x ∷ xs) h = elim (Bool-cases (eqb x line_feed)) [
  | inl feed ↦ rw (after_newline-here x xs feed) (sym (newlines-here x xs feed))
  | inr other ↦
      let inside : 0 < newlines xs = omega (arith, newlines-skip x xs other) in
      rw (after_newline-skip x xs other inside)
        (newlines-drop xs inside ∙ sym (newlines-skip x xs other))
]

-- Skipping one line and then the others.
pub skip_lines-suc :
    (n : ℕ) (xs : List ℕ)
    → 0 < newlines xs
    → skip_lines (suc n) xs ≡ after_newline xs + skip_lines n (drop (after_newline xs) xs)
unfolding skip_lines
skip_lines-suc n [] h = absurd (unfold newlines in omega arith)
skip_lines-suc n (x ∷ xs) h = elim (Bool-cases (eqb x line_feed)) [
  | inl feed ↦ rw (after_newline-here x xs feed) (rw (feed, skip_lines) (omega arith))
  | inr other ↦
      let inside : 0 < newlines xs = omega (arith, newlines-skip x xs other) in
      rw (after_newline-skip x xs other inside)
        (rw (other, skip_lines) (omega (arith, skip_lines-suc n xs inside)))
]

-- The second loop of `tailStartOffset` skips as many lines as there are too many.
pub trim-skip_lines :
    (n offset : ℕ) (buffer : List ℕ)
    → n ≤ newlines buffer
    → trim n offset buffer ≡ offset + skip_lines n buffer
unfolding trim skip_lines
trim-skip_lines zero offset buffer h = omega arith
trim-skip_lines (suc n) offset buffer h =
    let rest = newlines-drop buffer (omega arith) in
    omega (
      arith,
      skip_lines-suc n buffer (omega arith),
      trim-skip_lines n (offset + after_newline buffer) (drop (after_newline buffer) buffer)
          (omega arith),
    )
