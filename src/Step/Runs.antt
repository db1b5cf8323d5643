-- ===== src/Step/Runs.antt =====
-- Runs of a chain of actions: a chain that succeeds went through its first action.
use uk8s_cni_vpc.Prelude.{String, ◌≡◌, refl, ◌⊎◌, inl, inr, arith}
use uk8s_cni_vpc.Result.{Result-cases, ok, err, Error}
use uk8s_cni_vpc.Step.{Step, or_else, ◌>>=◌}

module _ {S A B : Type 0} where
  pub bind-ok :
      (m : Step S A) (f : A → Step S B) (s : S) (b : B)
      → ((m >>= f) s).0 ≡ ok b
      → (a : A) × ((m s).0 ≡ ok a) × ((m >>= f) s ≡ f a (m s).1)
  bind-ok m f s b h = elim (Result-cases (m s).0) [
    | inl (a, e) ↦ (a, e, rw e)
    | inr (e, f) ↦ absurd (ground arith)
  ]

  -- What follows a first action that succeeded.
  pub bind-next :
      (m : Step S A) (f : A → Step S B) (s : S) (a : A) → (m s).0 ≡ ok a → (m >>= f) s ≡ f a (m s).1
  bind-next m f s a e = rw e

module _ {S A : Type 0} where
  pub or_else-ok :
      (m : Step S A) (label : String) (s : S) (a : A)
      → (or_else m label s).0 ≡ ok a
      → (m s).0 ≡ ok a
  or_else-ok m label s a h = ground arith

  pub or_else-state : (m : Step S A) (label : String) (s : S) → (or_else m label s).1 ≡ (m s).1
  or_else-state m label s = refl

module _ {S A B : Type 0} where
  -- A chain stops at its first action or goes on.
  pub bind-cases :
      (m : Step S A) (f : A → Step S B) (s : S)
      → ((e : Error) × ((m s).0 ≡ err e) × ((m >>= f) s ≡ (err e, (m s).1)))
        ⊎ ((a : A) × ((m s).0 ≡ ok a) × ((m >>= f) s ≡ f a (m s).1))
  bind-cases m f s = elim (Result-cases (m s).0) [
    | inl (a, e) ↦ inr (a, e, rw e)
    | inr (x, f) ↦ inl (x, f, rw f)
  ]
