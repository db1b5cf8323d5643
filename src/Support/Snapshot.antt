-- ===== src/Support/Snapshot.antt =====
-- pkg/snapshot/snaphot.go: the commands that are run after a failure, with their output in one file.
use uk8s_cni_vpc.Prelude.{
  String, concat, Option, none, some, List, [], ◌∷◌, ◌++◌, ◌==◌, length, eqb, if◌then◌else◌,
}
use uk8s_cni_vpc.Result.{ok, err, Error, failure}
use uk8s_cni_vpc.Step.{Step, raise, or_else, ◌>>=◌}

abbrev pub base_dir : String
base_dir = "/opt/cni/snapshot"

pub record Command : Type 0 where
  pub name : String
  pub args : List String

-- `err` is the error that is shown, as a text.
pub record Snapshot : Type 0 where
  pub name : String
  pub cmds : List Command
  pub error : Option String
  pub desc : String

pub data DirStat : Type 0 where
  directory plain_file no_such : DirStat
  unreadable : Error → DirStat

pub record SnapshotLib : Type 1 where
  pub World : Type 0
  pub stat : String → World → DirStat × World
  pub mkdir_all : String → Step World (Unit {0})
  pub now_text : World → String
  -- a command's output, and the text of its error if it has one
  pub exec : Command → World → (String × Option String) × World
  pub open_append : String → Step World (Unit {0})
  pub append_file : String → String → Step World (Unit {0})
  pub cni_version : String
  -- `strings.Join(args, " ")`
  pub joined : List String → String

pub new : String → Snapshot
new name = record { name = name; cmds = []; error = none; desc = "" }

pub add : String → List String → Snapshot → Snapshot
add name args s = record s { cmds = s.cmds ++ record { name = name; args = args } ∷ [] }

pub set_error : String → Snapshot → Snapshot
set_error e s = record s { error = some e }

pub set_desc : String → Snapshot → Snapshot
set_desc desc s = record s { desc = desc }

-- The buffer is a text; `addLine` ends what it writes with a line feed.
unfoldable pub add_line : String → String → String
add_line line buffer = concat buffer (concat line "\n")

unfoldable pub error_line : Option String → String → String
error_line none buffer = buffer
error_line (some e) buffer = add_line (concat "Error: " e) buffer

module _ (lib : SnapshotLib) where
  unfoldable pub head_of : Snapshot → String → String
  head_of s time =
      let named = add_line (concat "Time: " time) (
        add_line (concat "Name: " s.name)
          (add_line (concat "UCloud VPC CNI Snapshot - version " lib.cni_version) "")) in
      let described =
        if s.desc == "" then named else add_line (concat "Description: " s.desc) named in
      add_line "" (error_line s.error described)

  unfoldable pub bad_exec : Option String → String → String
  bad_exec none buffer = buffer
  bad_exec (some e) buffer = add_line (concat ">>> Bad exec: " e) buffer

  -- Each command in turn, whether it succeeds or fails.
  unfoldable pub run_each : List Command → String → lib.World → String × lib.World
  run_each [] buffer w = (buffer, w)
  run_each (cmd ∷ cmds) buffer w =
      let ((output, failed), w1) = lib.exec cmd w in
      let shown =
        concat
          (add_line (concat ">>> " (concat cmd.name (concat " " (lib.joined cmd.args)))) buffer)
          output in
      run_each cmds (add_line "" (bad_exec failed shown)) w1

  unfoldable pub ensure_dir : Step lib.World (Unit {0})
  ensure_dir w =
      let (found, w1) = lib.stat base_dir w in
      elim found [
        | directory ↦ (ok tt, w1)
        | plain_file ↦ (err (failure "Ensure snapshot directory: is a file"), w1)
        | no_such ↦ or_else (lib.mkdir_all base_dir) "Create directory for snapshot error" w1
        | unreadable e ↦ (err (failure "Read directory for snapshot error"), w1)
      ]

  unfoldable pub write_out : Snapshot → Step lib.World (Unit {0})
  write_out s w =
      let (buffer, w1) = run_each s.cmds (head_of s (lib.now_text w)) w in
      let path : String = concat base_dir (concat "/" s.name) in
      (or_else (lib.open_append path) "Open snapshot file error" >>= λ _.
      or_else (lib.append_file path buffer) "Write snapshot file error")
        w1

  unfoldable pub save : Snapshot → Step lib.World (Unit {0})
  save s = ensure_dir >>= λ _.
      (if eqb (length s.cmds) 0 then raise (failure "No command to take snapshot") else write_out s)
