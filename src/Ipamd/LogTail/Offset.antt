-- ===== src/Ipamd/LogTail/Offset.antt =====
-- pkg/ipamd/log_tail.go, `tailStartOffset`: the blocks that are read from the end find where the last
-- lines begin.
use uk8s_cni_vpc.Prelude.{
  ℕ, zero, suc, ◌+◌, ◌-◌, ◌≤◌, ◌<◌, ◌≡◌, refl, sym, ap, ◌∙◌, inl, inr, false, Bool-cases, List, [],
  ◌∷◌, ◌++◌, ◌&&◌, eqb, ltb, leb, length, drop, take, if◌then◌else◌, arith,
}
use uk8s_cni_vpc.Result.{Result, ok}
use uk8s_cni_vpc.Step.{◌>>=◌}
use uk8s_cni_vpc.Ipamd.LogTail.{
  Streams, Block, newlines, trim, tail_block_size, read_blocks, tail_start_offset,
}
use uk8s_cni_vpc.Ipamd.LogTail.Lines.{
  skip_lines, newlines-append, skip_lines-append_more, skip_lines-append_fewer, trim-skip_lines,
}

-- What the file operations document: the file has a text and a position; seeking moves the position
-- and tells where it is; a full read gives as many bytes as were asked for from the position on, if
-- they are there. Here every call succeeds that can.
pub record FileLaws (io : Streams) : Type 0 where
  pub text : io.World → List ℕ
  pub position : io.World → ℕ
  pub end_ok : (w : io.World) → (io.seek_end w).0 ≡ ok (length (text w))
  pub end_text : (w : io.World) → text (io.seek_end w).1 ≡ text w
  pub start_ok : (n : ℕ) (w : io.World) → (io.seek_start n w).0 ≡ ok n
  pub start_text : (n : ℕ) (w : io.World) → text (io.seek_start n w).1 ≡ text w
  pub start_position : (n : ℕ) (w : io.World) → position (io.seek_start n w).1 ≡ n
  pub read_ok :
      (n : ℕ) (w : io.World)
      → position w + n ≤ length (text w)
      → (io.read_full n w).0 ≡ ok (take n (drop (position w) (text w)))
  pub read_text : (n : ℕ) (w : io.World) → text (io.read_full n w).1 ≡ text w

pub take-drop : (n : ℕ) (xs : List ℕ) → take n xs ++ drop n xs ≡ xs
take-drop zero xs = refl
take-drop (suc n) [] = refl
take-drop (suc n) (x ∷ xs) = ap (◌∷◌ x) (take-drop n xs)

pub length-take : (n : ℕ) (xs : List ℕ) → n ≤ length xs → length (take n xs) ≡ n
length-take zero xs h = refl
length-take (suc n) [] h = absurd (omega arith)
length-take (suc n) (x ∷ xs) h = ap suc (length-take n xs (omega arith))

drop-nil : (n : ℕ) → drop {A = ℕ} n [] ≡ []
drop-nil zero = refl
drop-nil (suc n) = refl

pub drop-drop : (m n : ℕ) (xs : List ℕ) → drop m (drop n xs) ≡ drop (n + m) xs
drop-drop m zero xs = let same : 0 + m ≡ m = omega arith in rw same refl
drop-drop m (suc n) [] = drop-nil m ∙ sym (drop-nil (suc n + m))
drop-drop m (suc n) (x ∷ xs) =
    let same : suc n + m ≡ suc (n + m) = omega arith in rw same (drop-drop m n xs)

pub length-drop : (n : ℕ) (xs : List ℕ) → length (drop n xs) ≡ length xs - n
length-drop zero xs = omega arith
length-drop (suc n) [] = omega arith
length-drop (suc n) (x ∷ xs) = omega (arith, length-drop n xs)

drop-length : (xs : List ℕ) → drop (length xs) xs ≡ []
drop-length [] = refl
drop-length (x ∷ xs) = drop-length xs

-- Where the last lines begin: after as many lines as there are too many.
abbrev pub tail_begin : ℕ → List ℕ → ℕ
tail_begin lines text = skip_lines (newlines text - lines) text

-- A block that was read before `end`, with what it stands between.
module _ (text : List ℕ) (lines : ℕ) where
  -- What the variables are between two rounds: the line feeds from `end` on are counted, and if there
  -- are too many, the surplus stands in the buffer.
  record Scanned (end : ℕ) (b : Block) : Type 0 where
    within : end ≤ length text
    counted : b.count ≡ newlines (drop end text)
    over : lines < b.count → trim (b.count - lines) b.offset b.buffer ≡ tail_begin lines text
    at_start : end ≡ 0 → b.offset ≡ 0

  -- The buffer between what comes before it and what was counted already.
  surplus :
      (before buffer after : List ℕ) (count : ℕ)
      → before ++ (buffer ++ after) ≡ text
      → count ≡ newlines after
      → count ≤ lines
      → lines < count + newlines buffer
      → trim (count + newlines buffer - lines) (length before) buffer ≡ tail_begin lines text
  surplus before buffer after count whole counted few many =
      let n : ℕ = count + newlines buffer - lines - 1 in
      let is_suc : count + newlines buffer - lines ≡ suc n = omega arith in
      let all : newlines text - lines ≡ newlines before + suc n = omega (
        arith,
        ap newlines (sym whole),
        newlines-append before (buffer ++ after),
        newlines-append buffer after,
      ) in
      trim-skip_lines (count + newlines buffer - lines) (length before) buffer (omega arith)
      ∙ rw is_suc (
          ap (λ (k : ℕ). length before + k)
            (sym (skip_lines-append_fewer buffer after (suc n) (omega arith)))
          ∙ sym (skip_lines-append_more before (buffer ++ after) n)
          ∙ ap (λ t. skip_lines (newlines before + suc n) t) whole
          ∙ ap (λ k. skip_lines k text) (sym all))

  next_block : ℕ → ℕ → Block
  next_block end count =
      let buffer = take (end - (end - tail_block_size)) (drop (end - tail_block_size) text) in
      record { offset = end - tail_block_size; count = count + newlines buffer; buffer = buffer }

  next_block-Scanned :
      (end : ℕ) (b : Block)
      → Scanned end b
      → b.count ≤ lines
      → Scanned (end - tail_block_size) (next_block end b.count)
  unfolding next_block
  next_block-Scanned end b sc few =
      let offset : ℕ = end - tail_block_size in
      let size : ℕ = end - offset in
      let buffer : List ℕ = take size (drop offset text) in
      let joined : buffer ++ drop end text ≡ drop offset text =
        ap (λ k. buffer ++ drop k text) (omega arith)
        ∙ ap (λ d. buffer ++ d) (sym (drop-drop size offset text))
        ∙ take-drop size (drop offset text) in
      record {
        within = omega (arith, sc.within);
        counted =
            omega (arith, sc.counted, ap newlines joined, newlines-append buffer (drop end text));
        over = λ many.
            ap (λ k. trim (b.count + newlines buffer - lines) k buffer)
              (sym (length-take offset text (omega (arith, sc.within))))
            ∙ surplus (take offset text) buffer (drop end text) b.count
                (ap (λ d. take offset text ++ d) joined ∙ take-drop offset text) sc.counted few
                many;
        at_start = λ zero_offset. zero_offset;
      }

  -- The loop is over: the number that follows is where the last lines begin.
  finished_lem :
      (end : ℕ) (b : Block)
      → Scanned end b
      → (ltb 0 end && leb b.count lines) ≡ false
      → trim (b.count - lines) b.offset b.buffer ≡ tail_begin lines text
  finished_lem end b sc over = elim (Bool-cases (leb b.count lines)) [
    | inr many ↦ sc.over (ground arith)
    | inl few ↦
        let none_left : end ≡ 0 = ground arith in
        let all : b.count ≡ newlines text =
          sc.counted ∙ ap (λ k. newlines (drop k text)) none_left in
        let left : b.count - lines ≡ 0 = ground arith in
        let begins : newlines text - lines ≡ 0 = ground arith in
        rw (left, begins) (unfold trim skip_lines in sc.at_start none_left)
  ]

module _ (io : Streams) (laws : FileLaws io) where
  -- What the loop returns: a number of bytes to skip from which the last lines begin.
  abbrev Begins : List ℕ → ℕ → Result Block × io.World → Type 0
  Begins text lines r =
      (b : Block) × (r.0 ≡ ok b)
      × (trim (b.count - lines) b.offset b.buffer ≡ tail_begin lines text)

  size_lem :
      (end : ℕ)
      → (if ltb end tail_block_size then end else tail_block_size) ≡ end - (end - tail_block_size)
  size_lem end = ground arith

  read_blocks-Begins :
      (fuel lines end : ℕ) (b : Block) (w : io.World) (text : List ℕ)
      → laws.text w ≡ text
      → end ≤ fuel
      → Scanned text lines end b
      → Begins text lines (read_blocks io fuel lines end b w)
  unfolding read_blocks next_block
  read_blocks-Begins zero lines end b w text same enough sc =
      let over : (ltb 0 end && leb b.count lines) ≡ false = ground arith in
      (b, rw (over, read_blocks) refl, finished_lem text lines end b sc over)
  read_blocks-Begins (suc fuel) lines end b w text same enough sc =
      elim (Bool-cases (ltb 0 end && leb b.count lines)) [
        | inr over ↦ (b, rw (over, read_blocks) refl, finished_lem text lines end b sc over)
        | inl more ↦
            let offset : ℕ = end - tail_block_size in
            let size : ℕ = end - offset in
            let w1 : io.World = (io.seek_start offset w).1 in
            let w2 : io.World = (io.read_full size w1).1 in
            let text1 : laws.text w1 ≡ text = laws.start_text offset w ∙ same in
            let text2 : laws.text w2 ≡ text = laws.read_text size w1 ∙ text1 in
            let given : (io.read_full size w1).0 ≡ ok (take size (drop offset text)) =
              laws.read_ok size w1
                (omega (arith, sc.within, laws.start_position offset w, ap length text1))
              ∙ rw (laws.start_position offset w, text1) refl in
            let rest =
              read_blocks-Begins fuel lines offset (next_block text lines end b.count) w2 text text2
                (ground arith) (next_block-Scanned text lines end b sc (ground arith)) in
            rw (more, read_blocks)
              (rw size_lem (rw (laws.start_ok offset w, ◌>>=◌) (rw given rest)))
      ]

  start-Scanned :
      (lines : ℕ) (text : List ℕ)
      → Scanned text lines (length text) (record { offset = 0; count = 0; buffer = [] })
  start-Scanned lines text = record {
    within = omega arith;
    counted = let none_left = drop-length text in unfold newlines in rw none_left refl;
    over = λ many. absurd (omega arith);
    at_start = λ empty. refl;
  }

  -- If no call on the file fails, `tailStartOffset` returns the number of bytes of the lines before the
  -- last `lines` ones, counted from the start of the file: as many lines are skipped as there are line
  -- feeds beyond `lines`, and what follows the last line feed belongs to no line. For no line at all
  -- it is the length of the file.
  pub tail_start_offset-tail_begin :
      (lines : ℕ) (w : io.World)
      → (tail_start_offset io lines w).0
        ≡ ok (if eqb lines 0 then length (laws.text w) else tail_begin lines (laws.text w))
  unfolding tail_start_offset
  tail_start_offset-tail_begin lines w =
      let w1 : io.World = (io.seek_end w).1 in
      let text : List ℕ = laws.text w in
      elim (Bool-cases (eqb lines 0)) [
        | inl none_asked ↦ rw (laws.end_ok w, ◌>>=◌) (rw none_asked refl)
        | inr some_asked ↦
            let (b, found, begins) =
              read_blocks-Begins (length text) lines (length text)
                (record { offset = 0; count = 0; buffer = [] }) w1 text (laws.end_text w)
                (omega arith) (start-Scanned lines text) in
            rw (laws.end_ok w, ◌>>=◌) (rw some_asked (rw (found, ◌>>=◌) (ap ok begins)))
      ]
