-- ===== src/Ipamd/LogTail/Follow.antt =====
-- pkg/ipamd/log_tail.go, `followLogTail`: what is sent before the loop waits for the file to change.
use uk8s_cni_vpc.Prelude.{
  ℕ, zero, suc, ◌+◌, ◌-◌, ◌<◌, String, ◌≡◌, refl, sym, ap, ◌∙◌, inl, inr, true, Bool-cases, List,
  [], ◌∷◌, ◌++◌, eqb, length, drop, take, arith,
}
use mathlib.Core.List.{append_assoc, append-nil}
use uk8s_cni_vpc.Result.{ok}
use uk8s_cni_vpc.Step.{◌>>=◌}
use uk8s_cni_vpc.Ipamd.LogTail.{
  Streams, wait_log_change, waited, line, at_end, newlines, after_newline, send, give_back_partial,
  follow_round, follow,
}
use uk8s_cni_vpc.Ipamd.LogTail.Lines.{skip_lines, skip_lines-suc, newlines-drop}
use uk8s_cni_vpc.Ipamd.LogTail.Offset.{drop-drop}

-- The log, how far it is read, and what the client has got. A line is read with its line feed; where
-- there is none, all that is left is read. A write sends the bytes after the others. Here every call
-- succeeds.
pub record FollowLaws (io : Streams) : Type 0 where
  pub text : io.World → List ℕ
  pub position : io.World → ℕ
  pub sent : io.World → List ℕ
  pub line_read :
      (w : io.World) (rest : List ℕ)
      → drop (position w) (text w) ≡ rest
      → 0 < newlines rest
      → (io.read_line w).0 ≡ line (take (after_newline rest) rest)
  pub line_position :
      (w : io.World) (rest : List ℕ)
      → drop (position w) (text w) ≡ rest
      → 0 < newlines rest
      → position (io.read_line w).1 ≡ position w + after_newline rest
  pub end_read :
      (w : io.World) (rest : List ℕ)
      → drop (position w) (text w) ≡ rest
      → newlines rest ≡ 0
      → ((io.read_line w).0 ≡ at_end rest)
        × (position (io.read_line w).1 ≡ position w + length rest)
  pub read_text : (w : io.World) → text (io.read_line w).1 ≡ text w
  pub read_sent : (w : io.World) → sent (io.read_line w).1 ≡ sent w
  pub write_ok : (bytes : List ℕ) (w : io.World) → (io.write bytes w).0 ≡ ok (length bytes)
  pub write_sent :
      (bytes : List ℕ) (w : io.World) → sent (io.flush (io.write bytes w).1) ≡ sent w ++ bytes
  pub write_position :
      (bytes : List ℕ) (w : io.World) → position (io.flush (io.write bytes w).1) ≡ position w
  pub write_text : (bytes : List ℕ) (w : io.World) → text (io.flush (io.write bytes w).1) ≡ text w
  pub back_ok : (n : ℕ) (w : io.World) → (io.seek_back n w).0 ≡ ok tt
  pub back_position : (n : ℕ) (w : io.World) → position (io.seek_back n w).1 ≡ position w - n
  pub back_text : (n : ℕ) (w : io.World) → text (io.seek_back n w).1 ≡ text w
  pub back_sent : (n : ℕ) (w : io.World) → sent (io.seek_back n w).1 ≡ sent w

-- The complete lines of a text, and what follows them.
abbrev pub complete : List ℕ → List ℕ
complete text = take (skip_lines (newlines text) text) text

abbrev pub partial : List ℕ → List ℕ
partial text = drop (skip_lines (newlines text) text) text

eqb_refl : (n : ℕ) → eqb n n ≡ true
eqb_refl n = ground arith

take-add : (m n : ℕ) (xs : List ℕ) → take (m + n) xs ≡ take m xs ++ take n (drop m xs)
take-add zero n xs = let same : 0 + n ≡ n = omega arith in rw same refl
take-add (suc m) zero [] = let same : suc m + 0 ≡ suc m = omega arith in rw same refl
take-add (suc m) (suc n) [] =
    let same : suc m + suc n ≡ suc (m + suc n) = omega arith in rw same refl
take-add (suc m) n (x ∷ xs) =
    let same : suc m + n ≡ suc (m + n) = omega arith in rw same (ap (◌∷◌ x) (take-add m n xs))

module _ (io : Streams) (laws : FollowLaws io) (signals : ℕ) (path : String) where
  open laws use {text, position, sent}

  -- After a line was sent.
  abbrev after_line : List ℕ → io.World → io.World
  after_line rest w = io.flush (io.write (take (after_newline rest) rest) (io.read_line w).1).1

  round_line :
      (rest : List ℕ) (w : io.World)
      → drop (position w) (text w) ≡ rest
      → 0 < newlines rest
      → follow_round io signals path w ≡ (ok true, after_line rest w)
  unfolding follow_round send
  round_line rest w here more =
      let bytes : List ℕ = take (after_newline rest) rest in
      rw (laws.line_read w rest here more, follow_round)
        (rw (laws.write_ok bytes (io.read_line w).1, ◌>>=◌) (rw (eqb_refl (length bytes)) refl))

  follow-suc :
      (n : ℕ) (w w1 : io.World)
      → follow_round io signals path w ≡ (ok true, w1)
      → follow io (suc n) signals path w ≡ follow io n signals path w1
  unfolding follow
  follow-suc n w w1 e = rw (ap (λ r. r.0) e, follow) (ap (λ r. follow io n signals path r.1) e)

  -- What holds when all complete lines of `rest` have been sent, `n` of them.
  pub record Drained (n : ℕ) (rest : List ℕ) (w : io.World) : Type 0 where
    pub last : io.World
    pub same_text : text last ≡ text w
    pub delivered : sent last ≡ sent w ++ take (skip_lines n rest) rest
    pub moved : position last ≡ position w + skip_lines n rest
    pub rounds : (m : ℕ) → follow io (n + m) signals path w ≡ follow io m signals path last

  drain :
      (n : ℕ) (rest : List ℕ) (w : io.World)
      → drop (position w) (text w) ≡ rest
      → newlines rest ≡ n
      → Drained n rest w
  unfolding skip_lines
  drain zero rest w here none_left = record {
    last = w;
    same_text = refl;
    delivered = sym (append-nil (sent w));
    moved = omega arith;
    rounds = λ m. ap (λ k. follow io k signals path w) (omega arith);
  }
  drain (suc n) rest w here left =
      let more : 0 < newlines rest = omega (arith, left) in
      let k : ℕ = after_newline rest in
      let w1 : io.World = after_line rest w in
      let text1 : text w1 ≡ text w = laws.write_text _ _ ∙ laws.read_text w in
      let position1 : position w1 ≡ position w + k =
        laws.write_position _ _ ∙ laws.line_position w rest here more in
      let here1 : drop (position w1) (text w1) ≡ drop k rest =
        rw (position1, text1) (sym (drop-drop k (position w) (text w)) ∙ ap (drop k) here) in
      let sent1 : sent w1 ≡ sent w ++ take k rest =
        laws.write_sent _ _ ∙ ap (λ x. x ++ take k rest) (laws.read_sent w) in
      let count : ℕ = skip_lines n (drop k rest) in
      let tail = drain n (drop k rest) w1 here1 (omega (arith, newlines-drop rest more)) in
      record {
        last = tail.last;
        same_text = tail.same_text ∙ text1;
        delivered =
            tail.delivered
            ∙ ap (λ x. x ++ take count (drop k rest)) sent1
            ∙ append_assoc (sent w) (take k rest) (take count (drop k rest))
            ∙ ap (λ x. sent w ++ x) (sym (take-add k count rest))
            ∙ ap (λ j. sent w ++ take j rest) (sym (skip_lines-suc n rest more));
        moved = omega (arith, tail.moved, position1, skip_lines-suc n rest more);
        rounds = λ m.
            let same : suc n + m ≡ suc (n + m) = omega arith in
            rw same (follow-suc (n + m) w w1 (round_line rest w here more) ∙ tail.rounds m);
      }

  newlines-partial :
      (n : ℕ) (rest : List ℕ) → newlines rest ≡ n → newlines (drop (skip_lines n rest) rest) ≡ 0
  unfolding skip_lines
  newlines-partial zero rest h = h
  newlines-partial (suc n) rest h =
      let more : 0 < newlines rest = omega (arith, h) in
      rw (skip_lines-suc n rest more) (
        rw (← drop-drop (skip_lines n (drop (after_newline rest) rest)) (after_newline rest) rest) (
          newlines-partial n (drop (after_newline rest) rest)
            (omega (arith, newlines-drop rest more, h))))

  -- What is read of an incomplete line is given back.
  give_back-position :
      (bytes : List ℕ) (w : io.World)
      → ((give_back_partial io bytes w).0 ≡ ok tt)
        × (position (give_back_partial io bytes w).1 ≡ position w - length bytes)
        × (sent (give_back_partial io bytes w).1 ≡ sent w)
        × (text (give_back_partial io bytes w).1 ≡ text w)
  unfolding give_back_partial
  give_back-position bytes w = elim (Bool-cases (eqb (length bytes) 0)) [
    | inl nothing ↦ rw (nothing, give_back_partial) (refl, ground arith, refl, refl)
    | inr some_left ↦
        rw (some_left, give_back_partial)
          (
            rw (laws.back_ok (length bytes) w) refl,
            laws.back_position _ w,
            laws.back_sent _ w,
            laws.back_text _ w,
          )
  ]

  -- What the loop has done when it waits for the file to change. `rest` is what the file had from the
  -- position on. The round after the complete lines is the wait and what follows it, from a state
  -- `waits`.
  pub record Settled (w : io.World) (rest : List ℕ) : Type 0 where
    pub drained : Drained (newlines rest) rest w
    pub waits : io.World
    pub then_waits :
        follow_round io signals path drained.last
        ≡ (wait_log_change io signals path >>= λ recreated. waited io path recreated) waits
    pub resumes : position waits ≡ position drained.last
    pub nothing_more : sent waits ≡ sent drained.last
    pub same_log : text waits ≡ text drained.last

  -- While no call fails, the loop sends every complete line that the file has from its position on,
  -- in order and each once, in as many rounds as there are lines. The round after that begins to wait
  -- for the file to change when nothing more has been sent and the position is where the incomplete
  -- last line begins.
  pub follow-Settled : (w : io.World) → Settled w (drop (position w) (text w))
  unfolding follow_round
  follow-Settled w =
      let rest : List ℕ = drop (position w) (text w) in
      let drained = drain (newlines rest) rest w refl refl in
      let left : drop (position drained.last) (text drained.last) ≡ partial rest =
        rw (drained.moved, drained.same_text)
          (sym (drop-drop (skip_lines (newlines rest) rest) (position w) (text w))) in
      let (reads, at) =
        laws.end_read drained.last (partial rest) left
          (newlines-partial (newlines rest) rest refl) in
      let back = give_back-position (partial rest) (io.read_line drained.last).1 in
      record {
        drained = drained;
        waits = (give_back_partial io (partial rest) (io.read_line drained.last).1).1;
        then_waits = rw (reads, follow_round) (rw (back.0, ◌>>=◌) refl);
        resumes = omega (arith, back.1, at);
        nothing_more = back.2 ∙ laws.read_sent drained.last;
        same_log = back.3 ∙ laws.read_text drained.last;
      }
