-- ===== src/NodeInit.antt =====
-- cmd/cnivpc-init: the binary of the plugin is installed on the node. The file system, the two
-- binaries and the environment are the parameter `NodeLib`.
pub mod Copying
pub mod Atomic
use uk8s_cni_vpc.Prelude.{
  ℕ, String, concat, Bool, true, false, Option, none, some, ◌==◌, if◌then◌else◌,
}
use uk8s_cni_vpc.Result.{Result, ok, err, Error, failure}
use uk8s_cni_vpc.Step.{Step, pure, raise, lift, try, or_else, ◌>>=◌, ◌>>◌}

abbrev pub cni_binary_source_path : String
cni_binary_source_path = "/app/cnivpc"

abbrev pub cni_binary_target_path : String
cni_binary_target_path = "/opt/cni/bin/cnivpc"

abbrev pub env_cni_init_overwrite : String
env_cni_init_overwrite = "CNI_INIT_OVERWRITE"

-- What `os.Stat` tells of a file: whether it is regular, and its permissions.
pub record FileInfo : Type 0 where
  pub is_regular : Bool
  pub perm : ℕ

-- A call that may find that there is no such file: `errors.Is(err, os.ErrNotExist)`.
pub data Found (A : Type 0) : Type 0 where
  found : A → Found A
  not_there : Found A
  broken : Error → Found A

pub record NodeLib : Type 1 where
  pub World : Type 0
  -- `exec.Command(path, "--version").CombinedOutput()`
  pub version_of : String → World → Found String × World
  pub lookup_env : String → Option String
  pub lstat : String → World → Found (Unit {0}) × World
  pub remove : String → World → Found (Unit {0}) × World
  pub rename : String → String → Step World (Unit {0})
  pub stat : String → Step World FileInfo
  pub open_file : String → Step World (Unit {0})
  -- `os.OpenFile` with `O_CREATE|O_EXCL`, and `io.Copy` from the one open file to the other
  pub create_file : String → ℕ → Step World (Unit {0})
  pub copy : String → String → Step World (Unit {0})
  pub close_file : String → Step World (Unit {0})
  -- `strings.TrimSpace` and `strings.ToLower`
  pub trim_space : String → String
  pub to_lower : String → String

-- `errors.CombineErrors` keeps the first error.
abbrev pub combine_errors : Result (Unit {0}) → Result (Unit {0}) → Result (Unit {0})
combine_errors (ok u) r = r
combine_errors (err e) r = err e

abbrev pub temporary : String → String
temporary dst = concat dst ".tmp"

module _ (lib : NodeLib) where
  -- A deferred close: it runs whatever came before, and its error is kept if that had none.
  unfoldable pub closing : String → Step lib.World (Unit {0}) → Step lib.World (Unit {0})
  closing path m w =
      let (r, w1) = m w in let (c, w2) = lib.close_file path w1 in (combine_errors r c, w2)

  unfoldable pub cp_opened : ℕ → String → String → Step lib.World (Unit {0})
  unfolding closing
  cp_opened perm src dst = do
    or_else (lib.create_file dst perm) "main.cp create destination"
    closing dst (or_else (lib.copy src dst) "main.cp copy")

  unfoldable pub cp : String → String → Step lib.World (Unit {0})
  cp src dst = do
    info ← or_else (lib.stat src) "main.cp stat source"
    (if info.is_regular
        then (or_else (lib.open_file src) "main.cp open source" >>= λ _.
            closing src (cp_opened info.perm src dst))
        else raise (failure "main.cp source is not a regular file"))

  unfoldable pub remove_stale : String → Step lib.World (Unit {0})
  remove_stale path w =
      let (r, w1) = lib.remove path w in
      elim r [
        | found u ↦ (ok tt, w1)
        | not_there ↦ (ok tt, w1)
        | broken e ↦ (err (failure "main.copyFile remove stale destination"), w1)
      ]

  unfoldable pub copy_file : String → String → Step lib.World (Unit {0})
  copy_file src dst = do
    remove_stale (temporary dst)
    cp src (temporary dst)
    or_else (lib.rename (temporary dst) dst) "main.copyFile rename destination"

  unfoldable pub copy_cni_binary : String → String → Step lib.World (Unit {0})
  copy_cni_binary source target = or_else (copy_file source target) "main.copyCNIBinary copy"

  unfoldable pub install_cni_binary_if_missing : String → String → Step lib.World (Unit {0})
  install_cni_binary_if_missing source target w =
      let (r, w1) = lib.lstat target w in
      elim r [
        | found u ↦ (ok tt, w1)
        | broken e ↦ (err (failure "main.installCNIBinaryIfMissing stat target"), w1)
        | not_there ↦ copy_cni_binary source target w1
      ]

  unfoldable pub check_same_target : String → String → Step lib.World Bool
  check_same_target source_version target w =
      let (r, w1) = lib.version_of target w in
      elim r [
        | not_there ↦ (ok false, w1)
        | broken e ↦ (err (failure "main.checksame get target version"), w1)
        | found version ↦ (ok (lib.trim_space source_version == lib.trim_space version), w1)
      ]

  unfoldable pub check_same : String → String → Step lib.World Bool
  check_same source target w =
      let (r, w1) = lib.version_of source w in
      elim r [
        | not_there ↦ (err (failure "main.checksame get source version"), w1)
        | broken e ↦ (err (failure "main.checksame get source version"), w1)
        | found version ↦ check_same_target version target w1
      ]

  -- `cniInitModeFromEnv`
  unfoldable pub mode_of : Option String → Result Bool
  mode_of none = ok false
  mode_of (some value) =
      let word = lib.to_lower (lib.trim_space value) in
      if word == "true"
      then ok true
      else if word == "false"
      then ok false
      else err (failure "main.cniInitModeFromEnv parse")

  unfoldable pub install : Bool → Step lib.World (Unit {0})
  install true = copy_cni_binary cni_binary_source_path cni_binary_target_path
  install false = install_cni_binary_if_missing cni_binary_source_path cni_binary_target_path

  unfoldable pub run : Step lib.World (Unit {0})
  run = do
    same ← check_same cni_binary_source_path cni_binary_target_path
    (if same then pure tt else (lift (mode_of (lib.lookup_env env_cni_init_overwrite)) >>= install))
