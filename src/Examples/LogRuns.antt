-- ===== src/Examples/LogRuns.antt =====
-- The node's log in memory: a text, the position in it, and what the client has got.
use uk8s_cni_vpc.Prelude.{
  ℕ, ◌+◌, ◌-◌, ◌<◌, ◌≡◌, refl, true, none, List, [], ◌∷◌, ◌++◌, eqb, ltb, length, drop, take,
  if◌then◌else◌, arith,
}
use uk8s_cni_vpc.Result.{ok}
use uk8s_cni_vpc.Ipamd.LogTail.{
  Streams, Read, line, at_end, finished, newlines, after_newline, tail_start_offset,
}
use uk8s_cni_vpc.Ipamd.LogTail.Lines.{skip_lines}
use uk8s_cni_vpc.Ipamd.LogTail.Offset.{FileLaws, tail_begin, tail_start_offset-tail_begin}
use uk8s_cni_vpc.Ipamd.LogTail.Follow.{FollowLaws, Settled, follow-Settled}

record Log : Type 0 where
  text : List ℕ
  position : ℕ
  sent : List ℕ

abbrev left : Log → List ℕ
left w = drop w.position w.text

abbrev read_left : List ℕ → Log → Read × Log
read_left rest w =
    if ltb 0 (newlines rest)
    then (
      line (take (after_newline rest) rest),
      record w { position = w.position + after_newline rest },
    )
    else (at_end rest, record w { position = w.position + length rest })

abbrev memory : Streams
memory = record {
  World = Log;
  seek_end = λ w. (ok (length w.text), record w { position = length w.text });
  seek_start = λ n w. (ok n, record w { position = n });
  seek_back = λ n w. (ok tt, record w { position = w.position - n });
  read_full = λ n w. (ok (take n (left w)), record w { position = w.position + n });
  read_line = λ w. read_left (left w) w;
  close = λ w. (ok tt, w);
  open_log = λ path w. (ok tt, w);
  reopen = λ path w. (ok none, w);
  close_replaced = λ w. (ok tt, w);
  write = λ bytes w. (ok (length bytes), record w { sent = w.sent ++ bytes });
  flush = λ w. w;
  next_signal = λ w. (finished, w);
  close_watcher = λ w. (ok tt, w);
  is_done = λ w. true;
  clean = λ path. path;
}

abbrev memory_file : FileLaws memory
memory_file = record {
  text = λ w. w.text;
  position = λ w. w.position;
  end_ok = λ w. refl;
  end_text = λ w. refl;
  start_ok = λ n w. refl;
  start_text = λ n w. refl;
  start_position = λ n w. refl;
  read_ok = λ n w h. refl;
  read_text = λ n w. refl;
}

read_left_text : (rest : List ℕ) (w : Log) → (read_left rest w).1.text ≡ w.text
read_left_text rest w = ground arith

read_left_sent : (rest : List ℕ) (w : Log) → (read_left rest w).1.sent ≡ w.sent
read_left_sent rest w = ground arith

read_left_more :
    (rest : List ℕ) (w : Log)
    → left w ≡ rest
    → 0 < newlines rest
    → ((read_left (left w) w).0 ≡ line (take (after_newline rest) rest))
      × ((read_left (left w) w).1.position ≡ w.position + after_newline rest)
read_left_more rest w here more = ground arith

read_left_end :
    (rest : List ℕ) (w : Log)
    → left w ≡ rest
    → newlines rest ≡ 0
    → ((read_left (left w) w).0 ≡ at_end rest)
      × ((read_left (left w) w).1.position ≡ w.position + length rest)
read_left_end rest w here empty = ground arith

abbrev memory_follow : FollowLaws memory
memory_follow = record {
  text = λ w. w.text;
  position = λ w. w.position;
  sent = λ w. w.sent;
  line_read = λ w rest here more. (read_left_more rest w here more).0;
  line_position = λ w rest here more. (read_left_more rest w here more).1;
  end_read = λ w rest here empty. read_left_end rest w here empty;
  read_text = λ w. read_left_text (left w) w;
  read_sent = λ w. read_left_sent (left w) w;
  write_ok = λ bytes w. refl;
  write_sent = λ bytes w. refl;
  write_position = λ bytes w. refl;
  write_text = λ bytes w. refl;
  back_ok = λ n w. refl;
  back_position = λ n w. refl;
  back_text = λ n w. refl;
  back_sent = λ n w. refl;
}

-- Three lines, the last of them incomplete.
abbrev log : Log
log = record { text = 65 ∷ 10 ∷ 66 ∷ 10 ∷ 67 ∷ []; position = 0; sent = [] }

tail_start_offset-tail_begin_example :
    (tail_start_offset memory 1 log).0
    ≡ ok (if eqb 1 0 then length log.text else tail_begin 1 log.text)
tail_start_offset-tail_begin_example = tail_start_offset-tail_begin memory memory_file 1 log

last_line : tail_begin 1 log.text ≡ 2
unfolding skip_lines newlines
last_line = refl

follow-Settled_example : Settled memory memory_follow 3 "/host/var/log/cnivpc.log" log log.text
follow-Settled_example = follow-Settled memory memory_follow 3 "/host/var/log/cnivpc.log" log
