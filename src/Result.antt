-- ===== src/Result.antt =====
-- Go's `(value, error)` returns. An error is kept as far as the program tells errors apart: the
-- sentinels of pkg/database/database.go and pkg/ipamd/uapi.go, the reasons of the Kubernetes API
-- that the program asks for, the return code of the VPC service, and every other error by the place
-- that made it. `fmt.Errorf` with
-- `%v` makes a new error of the last kind; `errors.Wrap` keeps the kind.
use uk8s_cni_vpc.Prelude.{ℕ, String, ◌≡◌, refl, Bool, true, false, ◌⊎◌, inl, inr}

pub data Reason : Type 0 where
  absent forbidden unauthorized invalid bad_request method_not_supported conflict unknown : Reason

pub data Error : Type 0 where
  eof not_found out_of_ip : Error
  api : Reason → Error
  ret_code : ℕ → Error
  failure : String → Error

pub data Result {ℓ} (A : Type ℓ) : Type ℓ where
  ok : A → Result A
  err : Error → Result A

-- `database.IsEOF`, `database.IsNotFound`
abbrev pub is_eof : Error → Bool
is_eof eof = true
is_eof _ = false

abbrev pub is_not_found : Error → Bool
is_not_found not_found = true
is_not_found _ = false

-- `k8serr.IsNotFound`
abbrev pub is_absent : Error → Bool
is_absent (api absent) = true
is_absent _ = false

-- `err == nil`
abbrev pub is_ok {ℓ} : {A : Type ℓ} → Result A → Bool
is_ok (ok a) = true
is_ok (err e) = false

pub Result-cases {ℓ} :
    {A : Type ℓ} (r : Result A) → ((a : A) × (r ≡ ok a)) ⊎ ((e : Error) × (r ≡ err e))
Result-cases (ok a) = inl (a, refl)
Result-cases (err e) = inr (e, refl)
