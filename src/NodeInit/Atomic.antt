-- ===== src/NodeInit/Atomic.antt =====
-- cmd/cnivpc-init/main.go: what a run does to the installed binary.
use uk8s_cni_vpc.Prelude.{
  String, ◌≡◌, ◌≢◌, refl, ap, subst, Bool-cases, ◌==◌, Option, none, some, ◌∙◌, ◌⊎◌, inl, inr, Bool,
  true, false, eq_iff, false≢true, arith,
}
use uk8s_cni_vpc.Result.{Result, ok, err, Error, Result-cases}
use uk8s_cni_vpc.Step.{◌>>=◌}
use uk8s_cni_vpc.NodeInit.{
  NodeLib, Found, found, not_there, broken, cni_binary_source_path, cni_binary_target_path,
  env_cni_init_overwrite, temporary, copy_file, copy_cni_binary, install_cni_binary_if_missing,
  check_same_target, check_same, mode_of, install, run,
}
use uk8s_cni_vpc.NodeInit.Copying.{NodeLaws, copy_file-Replaced}

Found-cases :
    {A : Type 0} (x : Found A)
    → ((a : A) × (x ≡ found a)) ⊎ (x ≡ not_there) ⊎ ((e : Error) × (x ≡ broken e))
Found-cases (found a) = inl (a, refl)
Found-cases not_there = inr (inl refl)
Found-cases (broken e) = inr (inr (e, refl))

module _ (lib : NodeLib) (laws : NodeLaws lib) where
  open laws use {bytes}

  -- An error leaves the installed binary as it was; success gives it the new one, or leaves it, and
  -- then `Kept` is why.
  pub record Outcome (Kept : Type 0) (w : lib.World) (r : Result (Unit {0}) × lib.World)
      : Type 0 where
    pub on_error :
        (e : Error)
        → r.0 ≡ err e
        → bytes r.1 cni_binary_target_path ≡ bytes w cni_binary_target_path
    pub on_success :
        r.0 ≡ ok tt
        → (bytes r.1 cni_binary_target_path ≡ bytes w cni_binary_source_path)
          ⊎ ((bytes r.1 cni_binary_target_path ≡ bytes w cni_binary_target_path) × Kept)

  copy_cni_binary-Outcome :
      (Kept : Type 0) (w : lib.World)
      → Outcome Kept w (copy_cni_binary lib cni_binary_source_path cni_binary_target_path w)
  unfolding copy_cni_binary
  copy_cni_binary-Outcome Kept w =
      let copied =
        copy_file-Replaced lib laws cni_binary_source_path cni_binary_target_path w
          (λ e. apart_source e) (λ e. apart_target e) in
      elim (Result-cases (copy_file lib cni_binary_source_path cni_binary_target_path w).0) [
        | inr (x, bad) ↦ record {
          on_error = λ e h. copied.on_error x bad;
          on_success = λ h. absurd (ground (arith, h));
        }
        | inl (u, done) ↦ record {
          on_error = λ e h. absurd (ground (arith, h));
          on_success = λ h. inl (copied.on_success done);
        }
      ]
    where
      apart_source : temporary cni_binary_target_path ≢ cni_binary_source_path
      apart_source e =
          false≢true ((eq_iff (temporary cni_binary_target_path) cni_binary_source_path).1 e)

      apart_target : temporary cni_binary_target_path ≢ cni_binary_target_path
      apart_target e =
          false≢true ((eq_iff (temporary cni_binary_target_path) cni_binary_target_path).1 e)

  -- Files that are as they were.
  abbrev SameFiles : lib.World → lib.World → Type 0
  SameFiles w v = (path : String) → bytes v path ≡ bytes w path

  from-Outcome :
      {Kept Why : Type 0} (w v : lib.World) (r : Result (Unit {0}) × lib.World)
      → SameFiles w v
      → (Kept → Why)
      → Outcome Kept v r
      → Outcome Why w r
  from-Outcome w v r same why o = record {
    on_error = λ e h. o.on_error e h ∙ same cni_binary_target_path;
    on_success = λ h. elim (o.on_success h) [
      | inl new ↦ inl (new ∙ same cni_binary_source_path)
      | inr (kept, k) ↦ inr (kept ∙ same cni_binary_target_path, why k)
    ];
  }

  untouched : {Kept : Type 0} (w v : lib.World) → SameFiles w v → Kept → Outcome Kept w (ok tt, v)
  untouched w v same k = record {
    on_error = λ e h. same cni_binary_target_path;
    on_success = λ h. inr (same cni_binary_target_path, k);
  }

  failed : {Kept : Type 0} (w v : lib.World) (e : Error) → SameFiles w v → Outcome Kept w (err e, v)
  failed w v e same = record {
    on_error = λ e' h. same cni_binary_target_path;
    on_success = λ h. absurd (ground (arith, h));
  }

  check_same_target-SameFiles :
      (version path : String) (w : lib.World) → SameFiles w (check_same_target lib version path w).1
  unfolding check_same_target
  check_same_target-SameFiles version path w q = ground (arith, laws.version_keeps path q w)

  check_same-SameFiles :
      (source target : String) (w : lib.World) → SameFiles w (check_same lib source target w).1
  unfolding check_same
  check_same-SameFiles source target w q = elim (Found-cases (lib.version_of source w).0) [
    | inr (inl gone) ↦ rw (gone, check_same) (laws.version_keeps source q w)
    | inr (inr (e, bad)) ↦ rw (bad, check_same) (laws.version_keeps source q w)
    | inl (version, told) ↦
        rw (told, check_same)
          (check_same_target-SameFiles version target (lib.version_of source w).1 q
            ∙ laws.version_keeps source q w)
  ]

  -- The answer of `lstat` that there is a file at the target.
  abbrev Present : lib.World → Type 0
  Present w = (lib.lstat cni_binary_target_path w).0 ≡ found tt

  install-Outcome :
      (overwrite : Bool) (w : lib.World)
      → Outcome ((overwrite ≡ false) × Present w) w (install lib overwrite w)
  unfolding install install_cni_binary_if_missing
  install-Outcome true w = copy_cni_binary-Outcome _ w
  install-Outcome false w =
      let target : String = cni_binary_target_path in
      let v : lib.World = (lib.lstat target w).1 in
      let same : SameFiles w v = λ path. laws.lstat_keeps target path w in
      elim (Found-cases (lib.lstat target w).0) [
        | inl (u, there) ↦
            rw (there, install_cni_binary_if_missing) (untouched w v same (refl, refl))
        | inr (inl gone) ↦
            rw (gone, install_cni_binary_if_missing)
              (from-Outcome w v _ same (λ k. k) (copy_cni_binary-Outcome _ v))
        | inr (inr (e, bad)) ↦ rw (bad, install_cni_binary_if_missing) (failed w v _ same)
      ]

  -- The state after both binaries were run for their versions.
  abbrev pub asked : lib.World → lib.World
  asked w = (lib.version_of cni_binary_target_path (lib.version_of cni_binary_source_path w).1).1

  -- Both binaries print a version, and the same one.
  abbrev pub SameVersion : lib.World → Type 0
  SameVersion w =
      (source : String) × (target : String) × ((lib.version_of cni_binary_source_path w).0
        ≡ found source)
      × ((lib.version_of cni_binary_target_path (lib.version_of cni_binary_source_path w).1).0
          ≡ found target)
      × (lib.trim_space source ≡ lib.trim_space target)

  -- The variable is not set, or says false.
  abbrev pub NotAsked : Option String → Type 0
  NotAsked variable =
      (variable ≡ none)
      ⊎ ((value : String) × (variable ≡ some value)
          × (lib.to_lower (lib.trim_space value) ≡ "false"))

  check_same-lem :
      (w : lib.World) (same : Bool)
      → (check_same lib cni_binary_source_path cni_binary_target_path w).0 ≡ ok same
      → ((check_same lib cni_binary_source_path cni_binary_target_path w).1 ≡ asked w)
        × (same ≡ true → SameVersion w)
  unfolding check_same check_same_target
  check_same-lem w same h =
      let w1 : lib.World = (lib.version_of cni_binary_source_path w).1 in
      elim (Found-cases (lib.version_of cni_binary_source_path w).0) [
        | inr (inl gone) ↦ absurd (ground arith)
        | inr (inr (e, bad)) ↦ absurd (ground arith)
        | inl (source, told) ↦ elim (Found-cases (lib.version_of cni_binary_target_path w1).0) [
          | inr (inl gone) ↦
              (rw (told, gone, check_same, check_same_target) refl, λ yes. absurd (ground arith))
          | inr (inr (e, bad)) ↦ absurd (ground arith)
          | inl (target, also_told) ↦ (
            rw (told, also_told, check_same, check_same_target) refl,
            λ yes. (
              source,
              target,
              told,
              also_told,
              (eq_iff (lib.trim_space source) (lib.trim_space target)).0 (ground arith),
            ),
          )
        ]
      ]

  mode_of-false : (variable : Option String) → mode_of lib variable ≡ ok false → NotAsked variable
  unfolding mode_of
  mode_of-false none h = inl refl
  mode_of-false (some value) h =
      let word : String = lib.to_lower (lib.trim_space value) in
      elim (Bool-cases (word == "false")) [
        | inl denied ↦ inr (value, refl, (eq_iff word "false").0 denied)
        | inr other ↦ absurd (ground arith)
      ]

  -- Why a run leaves the installed binary.
  abbrev pub Unneeded : lib.World → Type 0
  Unneeded w =
      SameVersion w ⊎ (NotAsked (lib.lookup_env env_cni_init_overwrite) × Present (asked w))

  -- An initialisation never leaves half a binary: if it fails, the installed binary is as it was; if
  -- it succeeds, the new binary is installed, or the installed one is as it was, and then both print
  -- the same version but for white space around it, or there is an installed one and the environment
  -- variable is not set or says false.
  pub run-Outcome : (w : lib.World) → Outcome (Unneeded w) w (run lib w)
  unfolding run
  run-Outcome w =
      let v : lib.World = (check_same lib cni_binary_source_path cni_binary_target_path w).1 in
      let variable : Option String = lib.lookup_env env_cni_init_overwrite in
      let same : SameFiles w v =
        check_same-SameFiles cni_binary_source_path cni_binary_target_path w in
      elim (Result-cases (check_same lib cni_binary_source_path cni_binary_target_path w).0) [
        | inr (e, bad) ↦ rw (bad, ◌>>=◌) (failed w v e same)
        | inl (true, equal) ↦
            rw (equal, ◌>>=◌) (untouched w v same (inl ((check_same-lem w true equal).1 refl)))
        | inl (false, differ) ↦
            rw (differ, ◌>>=◌)
              (elim (Result-cases (mode_of lib variable)) [
                | inr (e, bad) ↦ rw (bad, ◌>>=◌) (failed w v e same)
                | inl (overwrite, mode) ↦
                    rw (mode, ◌>>=◌)
                      (from-Outcome w v _ same
                        (λ k. inr (
                          mode_of-false variable (mode ∙ ap ok k.0),
                          subst Present (check_same-lem w false differ).0 k.1,
                        ))
                        (install-Outcome overwrite v))
              ])
      ]
