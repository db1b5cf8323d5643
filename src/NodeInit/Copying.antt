-- ===== src/NodeInit/Copying.antt =====
-- cmd/cnivpc-init/cp.go: the installed file is replaced whole or not at all.
use uk8s_cni_vpc.Prelude.{ℕ, String, ◌≡◌, ◌≢◌, ◌∙◌, inl, inr, false, Bool-cases, Option, arith}
use uk8s_cni_vpc.Result.{Result, ok, err, Error, is_ok, Result-cases}
use uk8s_cni_vpc.Step.{Step, ◌>>=◌}
use uk8s_cni_vpc.NodeInit.{NodeLib, closing, cp_opened, cp, remove_stale, temporary, copy_file}

-- The bytes at each path. A call changes the path that it writes and no other; a copy that succeeds
-- gives the destination what the source has; a rename that succeeds moves the file, and one that
-- fails changes nothing.
pub record NodeLaws (lib : NodeLib) : Type 1 where
  pub Binary : Type 0
  pub bytes : lib.World → String → Option Binary
  pub version_keeps : (p q : String) (w : lib.World) → bytes (lib.version_of p w).1 q ≡ bytes w q
  pub lstat_keeps : (p q : String) (w : lib.World) → bytes (lib.lstat p w).1 q ≡ bytes w q
  pub stat_keeps : (p q : String) (w : lib.World) → bytes (lib.stat p w).1 q ≡ bytes w q
  pub open_keeps : (p q : String) (w : lib.World) → bytes (lib.open_file p w).1 q ≡ bytes w q
  pub close_keeps : (p q : String) (w : lib.World) → bytes (lib.close_file p w).1 q ≡ bytes w q
  pub remove_other : (p q : String) (w : lib.World) → p ≢ q → bytes (lib.remove p w).1 q ≡ bytes w q
  pub create_other :
      (p : String) (perm : ℕ) (q : String) (w : lib.World)
      → p ≢ q
      → bytes (lib.create_file p perm w).1 q ≡ bytes w q
  pub copy_other : (p d q : String) (w : lib.World) → d ≢ q → bytes (lib.copy p d w).1 q ≡ bytes w q
  pub copy_same :
      (p d : String) (w : lib.World)
      → (lib.copy p d w).0 ≡ ok tt
      → bytes (lib.copy p d w).1 d ≡ bytes w p
  pub rename_ok :
      (p d : String) (w : lib.World)
      → (lib.rename p d w).0 ≡ ok tt
      → bytes (lib.rename p d w).1 d ≡ bytes w p
  pub rename_fails :
      (p d q : String) (w : lib.World)
      → is_ok (lib.rename p d w).0 ≡ false
      → bytes (lib.rename p d w).1 q ≡ bytes w q

module _ (lib : NodeLib) (laws : NodeLaws lib) where
  open laws use {bytes}

  -- A copy writes only the destination, and if it succeeds, the destination has what the source has.
  record Copied (src dst : String) (w : lib.World) (r : Result (Unit {0}) × lib.World)
      : Type 0 where
    others : (q : String) → dst ≢ q → bytes r.1 q ≡ bytes w q
    done : r.0 ≡ ok tt → bytes r.1 dst ≡ bytes w src

  created : ℕ → String → lib.World → lib.World
  created perm dst w = (lib.create_file dst perm w).1

  cp_opened-Copied :
      (perm : ℕ) (src dst : String) (w : lib.World)
      → dst ≢ src
      → Copied src dst w (cp_opened lib perm src dst w)
  unfolding cp_opened closing created
  cp_opened-Copied perm src dst w apart =
      let w1 : lib.World = created perm dst w in
      elim (Result-cases (lib.create_file dst perm w).0) [
        | inr (e, bad) ↦
            rw (bad, ◌>>=◌)
              (record {
                others = λ q other. laws.create_other dst perm q w other;
                done = λ h. absurd (ground (arith, h));
              })
        | inl (u, made) ↦
            rw (made, ◌>>=◌)
              (record {
                others = λ q other.
                    laws.close_keeps dst q (lib.copy src dst w1).1
                    ∙ laws.copy_other src dst q w1 other
                    ∙ laws.create_other dst perm q w other;
                done = λ h.
                    laws.close_keeps dst dst (lib.copy src dst w1).1
                    ∙ laws.copy_same src dst w1 (ground (arith, h))
                    ∙ laws.create_other dst perm src w apart;
              })
      ]

  closing-Copied :
      (src dst : String) (m : Step lib.World (Unit {0})) (w : lib.World)
      → Copied src dst w (m w)
      → Copied src dst w (closing lib src m w)
  unfolding closing
  closing-Copied src dst m w c = record {
    others = λ q other. laws.close_keeps src q (m w).1 ∙ c.others q other;
    done = λ h. laws.close_keeps src dst (m w).1 ∙ c.done (ground (arith, h));
  }

  -- From a world with the same files.
  from_same :
      (src dst : String) (w v : lib.World) (r : Result (Unit {0}) × lib.World)
      → ((q : String) → bytes v q ≡ bytes w q)
      → Copied src dst v r
      → Copied src dst w r
  from_same src dst w v r same c = record {
    others = λ q other. c.others q other ∙ same q;
    done = λ h. c.done h ∙ same src;
  }

  nothing_done :
      (src dst : String) (w v : lib.World) (e : Error)
      → ((q : String) → bytes v q ≡ bytes w q)
      → Copied src dst w (err e, v)
  nothing_done src dst w v e same = record { others = λ q other. same q; done = λ h. absurd (cc) }

  cp-Copied : (src dst : String) (w : lib.World) → dst ≢ src → Copied src dst w (cp lib src dst w)
  unfolding cp
  cp-Copied src dst w apart =
      let w1 : lib.World = (lib.stat src w).1 in
      let w2 : lib.World = (lib.open_file src w1).1 in
      let same1 : (q : String) → bytes w1 q ≡ bytes w q = λ q. laws.stat_keeps src q w in
      let same2 : (q : String) → bytes w2 q ≡ bytes w q = λ q. laws.open_keeps src q w1 ∙ same1 q in
      elim (Result-cases (lib.stat src w).0) [
        | inr (e, bad) ↦ rw (bad, ◌>>=◌) (nothing_done src dst w w1 _ same1)
        | inl (info, told) ↦
            rw (told, ◌>>=◌)
              (elim (Bool-cases info.is_regular) [
                | inr odd ↦ rw odd (nothing_done src dst w w1 _ same1)
                | inl regular ↦ rw regular (elim (Result-cases (lib.open_file src w1).0) [
                  | inr (e, bad) ↦ rw (bad, ◌>>=◌) (nothing_done src dst w w2 _ same2)
                  | inl (u, opened) ↦
                      rw (opened, ◌>>=◌)
                        (from_same src dst w w2 _ same2 (
                          closing-Copied src dst (cp_opened lib info.perm src dst) w2
                            (cp_opened-Copied info.perm src dst w2 apart)))
                ])
              ])
      ]

  remove_stale-other :
      (p q : String) (w : lib.World) → p ≢ q → bytes (remove_stale lib p w).1 q ≡ bytes w q
  unfolding remove_stale
  remove_stale-other p q w other = ground (arith, laws.remove_other p q w other)

  -- Either a call fails and the target is as it was, or it succeeds and the target has the source.
  pub record Replaced (src dst : String) (w : lib.World) (r : Result (Unit {0}) × lib.World)
      : Type 0 where
    pub on_error : (e : Error) → r.0 ≡ err e → bytes r.1 dst ≡ bytes w dst
    pub on_success : r.0 ≡ ok tt → bytes r.1 dst ≡ bytes w src

  kept_on_error :
      (src dst : String) (w v : lib.World) (e : Error)
      → bytes v dst ≡ bytes w dst
      → Replaced src dst w (err e, v)
  kept_on_error src dst w v e same = record {
    on_error = λ e' h. same;
    on_success = λ h. absurd (cc);
  }

  pub copy_file-Replaced :
      (src dst : String) (w : lib.World)
      → temporary dst ≢ src
      → temporary dst ≢ dst
      → Replaced src dst w (copy_file lib src dst w)
  unfolding copy_file
  copy_file-Replaced src dst w apart other =
      let tmp : String = temporary dst in
      let w1 : lib.World = (remove_stale lib tmp w).1 in
      let w2 : lib.World = (cp lib src tmp w1).1 in
      let copied : Copied src tmp w1 (cp lib src tmp w1) = cp-Copied src tmp w1 apart in
      let same1 : bytes w1 dst ≡ bytes w dst = remove_stale-other tmp dst w other in
      let same2 : bytes w2 dst ≡ bytes w dst = copied.others dst other ∙ same1 in
      elim (Result-cases (remove_stale lib tmp w).0) [
        | inr (e, bad) ↦ rw (bad, ◌>>=◌) (kept_on_error src dst w w1 e same1)
        | inl (u, cleared) ↦
            rw (cleared, ◌>>=◌)
              (elim (Result-cases (cp lib src tmp w1).0) [
                | inr (e, bad) ↦ rw (bad, ◌>>=◌) (kept_on_error src dst w w2 e same2)
                | inl (v, made) ↦
                    rw (made, ◌>>=◌)
                      (record {
                        on_error =
                            λ e h. laws.rename_fails tmp dst dst w2 (ground (arith, h)) ∙ same2;
                        on_success = λ h.
                            laws.rename_ok tmp dst w2 (ground (arith, h))
                            ∙ copied.done made
                            ∙ remove_stale-other tmp src w apart;
                      })
              ])
      ]
