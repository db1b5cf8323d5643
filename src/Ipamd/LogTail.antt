-- ===== src/Ipamd/LogTail.antt =====
-- pkg/ipamd/log_tail.go: the last lines of the node's log, and the lines that are added to it. The
-- open file, the connection and the watcher are a parameter: `Streams` has an operation for each
-- call, on a state `World` that holds all three. Bytes are numbers; 10 is the line feed.
pub mod Lines
pub mod Offset
pub mod Follow
use uk8s_cni_vpc.Prelude.{
  ℕ, zero, suc, ◌+◌, ◌-◌, ◌*◌, String, Bool, true, false, not, ◌&&◌, ◌||◌, Option, none, some, List,
  [], ◌∷◌, ◌==◌, eqb, ltb, leb, length, drop, codes, if◌then◌else◌,
}
use uk8s_cni_vpc.Result.{Result, ok, err, Error, failure}
use uk8s_cni_vpc.Step.{Step, pure, raise, lift, try, or_else, ◌>>=◌, ◌>>◌}

abbrev pub default_tail_lines : ℕ
default_tail_lines = 100

abbrev pub tail_block_size : ℕ
tail_block_size = 1024

abbrev pub line_feed : ℕ
line_feed = 10

-- What `ReadBytes('\n')` returns: a line with its line feed, what stands before the end of the file,
-- or an error.
pub data Read : Type 0 where
  line at_end : List ℕ → Read
  broken : Error → Read

-- What `waitLogChange` may receive: the end of the request, an event of the watcher with the name
-- of its file and whether it is a creation or another change that counts, an error, or the timer.
pub data Signal : Type 0 where
  finished closed errors_closed timer : Signal
  event : String → Bool → Bool → Signal
  failed : Error → Signal

pub record Streams : Type 1 where
  pub World : Type 0
  -- the open log file
  pub seek_end : Step World ℕ
  pub seek_start : ℕ → Step World ℕ
  pub seek_back : ℕ → Step World (Unit {0})
  pub read_full : ℕ → Step World (List ℕ)
  pub read_line : World → Read × World
  pub close : Step World (Unit {0})
  -- the file system: `os.Open`, and the same in place of the open file, where `none` is a file
  -- that is not there
  pub open_log : String → Step World (Unit {0})
  pub reopen : String → Step World (Option (Unit {0}))
  pub close_replaced : Step World (Unit {0})
  -- the connection
  pub write : List ℕ → Step World ℕ
  pub flush : World → World
  -- the watcher and the request
  pub next_signal : World → Signal × World
  pub close_watcher : Step World (Unit {0})
  pub is_done : World → Bool
  pub clean : String → String

-- `bytes.Count(buffer, "\n")`
unfoldable pub newlines : List ℕ → ℕ
newlines [] = 0
newlines (c ∷ cs) = if eqb c line_feed then newlines cs + 1 else newlines cs

-- `bytes.IndexByte(buffer, '\n') + 1`
unfoldable pub after_newline : List ℕ → ℕ
after_newline [] = 0
after_newline (c ∷ cs) =
    if eqb c line_feed then 1 else if eqb (after_newline cs) 0 then 0 else after_newline cs + 1

-- The variables of `tailStartOffset` after its first loop.
pub record Block : Type 0 where
  pub offset : ℕ
  pub count : ℕ
  pub buffer : List ℕ

-- The second loop: `excess` is `count - lines`.
unfoldable pub trim : ℕ → ℕ → List ℕ → ℕ
trim zero offset buffer = offset
trim (suc excess) offset buffer =
    trim excess (offset + after_newline buffer) (drop (after_newline buffer) buffer)

-- What `strconv.ParseInt` makes of a text, where `none` is an error; `lines` is the parameter of
-- the query, empty if it is not there.
pub parse_tail_lines : (String → Option (ℕ × Bool)) → String → Result ℕ
parse_tail_lines parse_int value =
    if value == "" then ok default_tail_lines else elim (parse_int value) [
      | none ↦ err (failure "ipamd.parseTailLines parse lines")
      | some (n, negative) ↦
          if negative && not (eqb n 0)
          then err (failure "ipamd.parseTailLines lines must be non-negative")
          else ok n
    ]

module _ (io : Streams) where
  -- The first loop: blocks are read from the end until one line feed more than `lines` is found.
  -- `end` falls in each round, so it bounds the rounds.
  pub read_blocks : ℕ → ℕ → ℕ → Block → Step io.World Block
  read_blocks zero lines end b w =
      if ltb 0 end && leb b.count lines then (err (failure "out of fuel"), w) else (ok b, w)
  read_blocks (suc fuel) lines end b w = elim (ltb 0 end && leb b.count lines) [
    | false ↦ (ok b, w)
    | true ↦
        let offset : ℕ = end - tail_block_size in
        let size : ℕ = if ltb end tail_block_size then end else tail_block_size in
        (or_else (io.seek_start offset) "ipamd.tailStartOffset seek block" >>= λ _.
        or_else (io.read_full size) "ipamd.tailStartOffset read block" >>= λ buffer.
        read_blocks fuel lines offset
          (record { offset = offset; count = b.count + newlines buffer; buffer = buffer }))
          w
  ]

  pub tail_start_offset : ℕ → Step io.World ℕ
  tail_start_offset lines = do
    end ← or_else io.seek_end "ipamd.tailStartOffset seek end"
    (if eqb lines 0
        then pure end
        else (read_blocks end lines end (record { offset = 0; count = 0; buffer = [] }) >>= λ b.
            pure (trim (b.count - lines) b.offset b.buffer)))

  -- The file is closed again if it cannot be positioned.
  pub positioned : Result ℕ → Step io.World (Unit {0})
  positioned (ok offset) w = (ok tt, w)
  positioned (err e) w = (err e, (io.close w).1)

  pub open_log_tail : String → ℕ → Step io.World (Unit {0})
  open_log_tail path lines = do
    or_else (io.open_log path) "ipamd.openLogTail open"
    sought ← try (tail_start_offset lines >>= λ offset. io.seek_start offset)
    positioned sought

  -- `waitLogChange`: whether the file was made anew. `fuel` bounds the signals that are passed over.
  pub wait_log_change : ℕ → String → Step io.World Bool
  wait_log_change zero path w = (err (failure "out of fuel"), w)
  wait_log_change (suc fuel) path w =
      let (signal, w1) = io.next_signal w in
      elim signal [
        | finished ↦ (ok false, w1)
        | closed ↦ (err (failure "ipamd.waitLogChange watcher closed"), w1)
        | errors_closed ↦ (err (failure "ipamd.waitLogChange watcher errors closed"), w1)
        | timer ↦ (ok false, w1)
        | failed e ↦ (err e, w1)
        | event name created changed ↦ elim (io.clean name == io.clean path) [
          | false ↦ wait_log_change fuel path w1
          | true ↦ elim created [
            | true ↦ (ok true, w1)
            | false ↦ elim changed [ true ↦ (ok false, w1) | false ↦ wait_log_change fuel path w1 ]
          ]
        ]
      ]

  -- A line goes to the connection whole.
  pub send : List ℕ → Step io.World (Unit {0})
  send bytes = do
    written ← or_else (io.write bytes) "ipamd.followLogTail write"
    (if eqb written (length bytes)
        then (λ w. (ok tt, io.flush w))
        else raise (failure "ipamd.followLogTail write"))

  -- The incomplete last line is given back to the file.
  pub give_back_partial : List ℕ → Step io.World (Unit {0})
  give_back_partial bytes =
      if eqb (length bytes) 0
      then pure tt
      else or_else (io.seek_back (length bytes)) "ipamd.followLogTail reset partial line"

  -- The rotated file is opened in place of the old one, if it is there.
  pub replaced : Option (Unit {0}) → Step io.World (Unit {0})
  replaced none = pure tt
  replaced (some u) = or_else io.close_replaced "ipamd.followLogTail close rotated log"

  -- One round of the loop; `true` is a round after which the loop goes on.
  pub waited : String → Bool → Step io.World Bool
  waited path recreated w = elim (io.is_done w) [
    | true ↦ (ok false, w)
    | false ↦ elim recreated [
      | false ↦ (ok true, w)
      | true ↦
          (or_else (io.reopen path) "ipamd.followLogTail reopen" >>= λ replacement.
          replaced replacement >>= λ _. pure true)
            w
    ]
  ]

  pub follow_round : ℕ → String → Step io.World Bool
  follow_round signals path w =
      let (read, w1) = io.read_line w in
      elim read [
        | line bytes ↦ (send bytes >>= λ _. pure true) w1
        | broken e ↦ (err e, w1)
        | at_end bytes ↦
            (give_back_partial bytes >>= λ _.
            wait_log_change signals path >>= λ recreated. waited path recreated)
              w1
      ]

  -- The loop, for a number of rounds.
  pub follow : ℕ → ℕ → String → Step io.World (Unit {0})
  follow zero signals path w = (ok tt, w)
  follow (suc rounds) signals path w =
      let (r, w1) = follow_round signals path w in
      elim r [
        | err e ↦ (err e, w1)
        | ok false ↦ (ok tt, w1)
        | ok true ↦ follow rounds signals path w1
      ]

  -- `errors.CombineErrors` keeps the first error.
  pub combined : Result (Unit {0}) → Result (Unit {0}) → Result (Unit {0})
  combined (ok u) r = r
  combined (err e) r = err e

  pub follow_log_tail : ℕ → ℕ → String → Step io.World (Unit {0})
  follow_log_tail rounds signals path w =
      let (followed, w1) = follow rounds signals path w in
      let (file_closed, w2) = io.close w1 in
      let (watcher_closed, w3) = io.close_watcher w2 in
      (combined (combined followed file_closed) watcher_closed, w3)
