-- ===== src/Step.antt =====
-- Actions on a state that may fail. What was written before a failure stays written, so the state
-- comes back beside the error too. `try` hands a result to the rest as a value, which is Go's
-- `x, err := f()`; `◌>>=◌` is the `if err != nil { return err }` after it.
pub mod Runs
use uk8s_cni_vpc.Prelude.{String}
use uk8s_cni_vpc.Result.{Result, ok, err, Error, failure}

abbrev pub Step : Type 0 → Type 0 → Type 0
Step S A = S → Result A × S

-- `fmt.Errorf("…: %v", err)`
abbrev pub relabel : {A : Type 0} → String → Result A → Result A
relabel label (ok a) = ok a
relabel label (err e) = err (failure label)

module _ {S A : Type 0} where
  abbrev pub pure : A → Step S A
  pure a s = (ok a, s)

  abbrev pub raise : Error → Step S A
  raise e s = (err e, s)

  abbrev pub lift : Result A → Step S A
  lift r s = (r, s)

  abbrev pub gets : (S → A) → Step S A
  gets f s = (ok (f s), s)

  abbrev pub try : Step S A → Step S (Result A)
  try m s = let (r, s') = m s in (ok r, s')

  abbrev pub or_else : Step S A → String → Step S A
  or_else m label s = let (r, s') = m s in (relabel label r, s')

module _ {S A B : Type 0} where
  abbrev pub continue : Result A → (A → Step S B) → Step S B
  continue (ok a) f s = f a s
  continue (err e) f s = (err e, s)

  infixl 10 ◌>>=◌ ◌>>◌
  abbrev pub ◌>>=◌ : Step S A → (A → Step S B) → Step S B
  ◌>>=◌ m f s = let (r, s') = m s in continue r f s'

  abbrev pub ◌>>◌ : Step S A → Step S B → Step S B
  m >> n = m >>= λ _. n

module _ {S : Type 0} where
  abbrev pub modify : (S → S) → Step S (Unit {0})
  modify f s = (ok tt, f s)

  -- An error that is logged and dropped.
  abbrev pub ignore : {A : Type 0} → Step S A → Step S (Unit {0})
  ignore m s = (ok tt, (m s).1)
