-- ===== src/Uapi/Memo.antt =====
-- pkg/uapi/meta.go: what the memory of the metadata document gives, call after call.
use uk8s_cni_vpc.Prelude.{none, some, ◌≡◌, inl, inr, arith}
use uk8s_cni_vpc.Result.{Result-cases, ok, err, Error}
use uk8s_cni_vpc.Uapi.{Metadata, MetaMemo, UapiLib, get_meta}

module _ {S : Type 0} (lib : UapiLib S) where
  -- Once a call gave a document, every later call gives the same one without asking again.
  pub get_meta-again :
      (memo : MetaMemo) (s : S) (md : Metadata)
      → (get_meta lib (memo, s)).0 ≡ ok (some md)
      → get_meta lib (get_meta lib (memo, s)).1 ≡ get_meta lib (memo, s)
  unfolding get_meta
  get_meta-again memo s md h = elim (Result-cases (lib.get_instance_identity_document s).0) [
    | inl (d, e) ↦ ground arith
    | inr (e, f) ↦ ground arith
  ]

  -- After a first call that failed, the next call gives no document and no error.
  pub get_meta-failed :
      (memo : MetaMemo) (s : S) (e : Error)
      → memo.meta ≡ none
      → (get_meta lib (memo, s)).0 ≡ err e
      → (get_meta lib (get_meta lib (memo, s)).1).0 ≡ ok none
  unfolding get_meta
  get_meta-failed memo s e fresh h = elim (Result-cases (lib.get_instance_identity_document s).0) [
    | inl (d, f) ↦ ground arith
    | inr (x, f) ↦ ground arith
  ]
