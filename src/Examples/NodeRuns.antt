-- ===== src/Examples/NodeRuns.antt =====
-- The files of a node in memory, and the device plugin's surroundings.
use uk8s_cni_vpc.Prelude.{
  ℕ, String, ◌≡◌, ◌≢◌, refl, inl, inr, true, Bool-cases, Option, none, some, [], ◌∷◌, ◌==◌, eq_iff,
  if◌then◌else◌, zero, suc, ◌-◌, ◌++◌, codes, arith,
}
use text.Mathlib.TextPositions.{eq_refl}
use uk8s_cni_vpc.Result.{ok}
use uk8s_cni_vpc.NodeInit.{NodeLib, Found, found, not_there, run}
use uk8s_cni_vpc.NodeInit.Copying.{NodeLaws}
use uk8s_cni_vpc.NodeInit.Atomic.{Outcome, Unneeded, run-Outcome}
use uk8s_cni_vpc.DevicePlugin.{Kubelet, missing, watch_kubelet_restart}
use uk8s_cni_vpc.DevicePlugin.Restarts.{Sound, Watched, watched_for, watch_rounds-serve}
use uk8s_cni_vpc.Support.Lockfile.{
  LockLib, Tried, locked, busy, acquire_lock, after_waits, acquire_lock-after_waits,
}
use uk8s_cni_vpc.Ipamd.Version.{cni_version_prefix, parse_cni_version, is_space}
use uk8s_cni_vpc.Ipamd.Version.Parsed.{parse_cni_version-printed}

abbrev Files : Type 0
Files = String → Option ℕ

abbrev write : String → Option ℕ → Files → Files
write p v w q = if p == q then v else w q

-- The files hold numbers; the version of a binary is the same for all of them but a missing one.
abbrev version : Option ℕ → Found String
version none = not_there
version (some n) = found "ucloud-uk8s-cnivpc version 1"

abbrev disk : NodeLib
disk = record {
  World = Files;
  version_of = λ p w. (version (w p), w);
  lookup_env = λ name. some "true";
  lstat = λ p w. (found tt, w);
  remove = λ p w. (found tt, write p none w);
  rename = λ p d w. (ok tt, write d (w p) (write p none w));
  stat = λ p w. (ok (record { is_regular = true; perm = 493 }), w);
  open_file = λ p w. (ok tt, w);
  create_file = λ p perm w. (ok tt, write p (some 0) w);
  copy = λ p d w. (ok tt, write d (w p) w);
  close_file = λ p w. (ok tt, w);
  trim_space = λ t. t;
  to_lower = λ t. t;
}

write_other : (p : String) (v : Option ℕ) (w : Files) (q : String) → p ≢ q → write p v w q ≡ w q
write_other p v w q apart = elim (Bool-cases (p == q)) [
  | inl same ↦ absurd (apart ((eq_iff p q).0 same))
  | inr other ↦ rw other refl
]

write_same : (p : String) (v : Option ℕ) (w : Files) → write p v w p ≡ v
write_same p v w = rw (eq_refl p) refl

disk_laws : NodeLaws disk
disk_laws = record {
  Binary = ℕ;
  bytes = λ w p. w p;
  version_keeps = λ p q w. refl;
  lstat_keeps = λ p q w. refl;
  stat_keeps = λ p q w. refl;
  open_keeps = λ p q w. refl;
  close_keeps = λ p q w. refl;
  remove_other = λ p q w apart. write_other p none w q apart;
  create_other = λ p perm q w apart. write_other p (some 0) w q apart;
  copy_other = λ p d q w apart. write_other d (w p) w q apart;
  copy_same = λ p d w h. write_same d (w p) w;
  rename_ok = λ p d w h. write_same d (w p) (write p none w);
  rename_fails = λ p d q w h. absurd (cc);
}

-- The new binary is 2; none is installed.
abbrev fresh_node : Files
fresh_node p = if p == "/app/cnivpc" then some 2 else none

run-Outcome_example :
    Outcome disk disk_laws (Unneeded disk disk_laws fresh_node) fresh_node (run disk fresh_node)
run-Outcome_example = run-Outcome disk disk_laws fresh_node

-- A kubelet that answers every call, and a socket that is always gone.
instance abbrev kubelet : Kubelet
kubelet = record {
  World = ℕ;
  read_dir = λ w. (ok (record { name = "1-uni.sock"; is_socket = true } ∷ []), w);
  unlink = λ name w. (ok tt, w);
  listen = λ name w. (ok tt, w);
  dial = λ name w. (ok tt, w);
  register = λ request w. (ok tt, w);
  stop_server = λ w. w;
  stat = λ name w. (missing, w);
  kubelet_socket = "kubelet.sock";
  version = "v1beta1";
  base = λ path. path;
  decimal = λ n. "0";
  is_uni_socket = λ name. true;
}

watch_rounds-serve_example :
    Sound (watched_for 2 4 "ucloud.cn/uni" "1-uni.sock" 0)
    × Watched
        (watched_for 2 4 "ucloud.cn/uni" "1-uni.sock" 0)
        (watch_kubelet_restart (watched_for 2 4 "ucloud.cn/uni" "1-uni.sock" 0))
watch_rounds-serve_example = watch_rounds-serve 2 4 "ucloud.cn/uni" "1-uni.sock" 0

-- A lock that is free after as many waits as the number says.
abbrev try_free : ℕ → Tried × ℕ
try_free zero = (locked, 0)
try_free (suc n) = (busy, suc n)

abbrev counted : LockLib
counted = record { World = ℕ; try_lock = try_free; sleep = λ n. n - 1 }

acquire_lock-after_waits_example :
    acquire_lock counted 3 ≡ (ok tt, (counted.try_lock (after_waits counted 3 3)).1)
acquire_lock-after_waits_example =
    acquire_lock-after_waits counted 3 3 (omega arith) (refl, (refl, (refl, tt))) refl

parse_cni_version-printed_example :
    parse_cni_version ([] ++ ((cni_version_prefix ++ codes "1.2") ++ (10 ∷ []))) ≡ ok (codes "1.2")
unfolding is_space
parse_cni_version-printed_example =
    parse_cni_version-printed [] (codes "1.2") (10 ∷ []) tt (refl, tt) refl refl
