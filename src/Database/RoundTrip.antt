-- ===== src/Database/RoundTrip.antt =====
-- pkg/database/bolt.go: what is written is read back.
use text.Mathlib.TextPositions.{eq_refl}
use uk8s_cni_vpc.Prelude.{String, ◌≡◌, refl, ◌∙◌, inl, inr, ◌⊎◌, arith}
use uk8s_cni_vpc.Result.{ok, err, failure, Result-cases}
use uk8s_cni_vpc.Database.{BoltLib, BoltLaws, Codec, CodecLaws, put, get}
use uk8s_cni_vpc.Database.Laws.{get-Holds}

module _ (b : BoltLib) (l : BoltLaws b) {T : Type 0} (c : Codec b.Bytes T) where
  -- A read after a successful write gives what was written, or the fault of the file, as long as the
  -- data stays what the write left.
  pub get-put_later :
      CodecLaws b c
      → (bucket key : String) (value : T) (f f' : b.File) → (put b c bucket key value f).0 ≡ ok tt
      → ((m j : String) → l.entry f' m j ≡ l.entry (put b c bucket key value f).1 m j)
      → ((get b c bucket key f').0 ≡ ok value)
        ⊎ ((get b c bucket key f').0 ≡ err (failure "read boltdb"))
  unfolding put
  get-put_later laws bucket key value f f' h same = elim (Result-cases (c.marshal value)) [
    | inr (x, e) ↦ absurd (cc e)
    | inl (d, e) ↦
        get-Holds b l c bucket key value f'
          (record {
            bytes = d;
            stored =
                same bucket key
                ∙ rw
                    (
                      e,
                      put,
                      l.put_entry bucket key d f bucket key (ground arith),
                      eq_refl bucket,
                      eq_refl key,
                    )
                    refl;
            decodes = laws.round_trip value d e;
          })
          (laws.not_empty value d e)
  ]

  pub get-put :
      CodecLaws b c
      → (bucket key : String) (value : T) (f : b.File) → (put b c bucket key value f).0 ≡ ok tt
      → ((get b c bucket key (put b c bucket key value f).1).0 ≡ ok value)
        ⊎ ((get b c bucket key (put b c bucket key value f).1).0 ≡ err (failure "read boltdb"))
  get-put laws bucket key value f h =
      get-put_later laws bucket key value f (put b c bucket key value f).1 h (λ m j. refl)
