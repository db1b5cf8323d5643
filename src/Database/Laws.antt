-- ===== src/Database/Laws.antt =====
-- pkg/database/bolt.go: what each operation does to the finite map that a bucket is.
use text.Mathlib.TextPositions.{eq_refl}
use uk8s_cni_vpc.Prelude.{
  ℕ, ◌+◌, ◌-◌, ◌≤◌, String, ◌≡◌, ◌≢◌, refl, ap, suc, ◌∙◌, sym, ◌⊎◌, inl, inr, false, Bool-cases,
  ◌&&◌, subst, Option, none, some, some-injective, List, [], ◌∷◌, ◌==◌, if◌then◌else◌, length, All,
  arith,
}
use uk8s_cni_vpc.Result.{ok, err, eof, failure, is_ok, Result-cases}
use uk8s_cni_vpc.Step.{◌>>=◌}
use uk8s_cni_vpc.Database.{
  BoltLib, BoltLaws, Codec, CodecLaws, KeyValue, new_bolt, put, get, delete, count, pop, pop_found,
  list, decode_all, decode_found,
}

module _ (b : BoltLib) (l : BoltLaws b) where
  -- Opening a bucket changes no data, and the handle is the bucket.
  pub new_bolt-entry :
      (bucket : String) (f : b.File) (m j : String)
      → l.entry (new_bolt b bucket f).1 m j ≡ l.entry f m j
  unfolding new_bolt
  new_bolt-entry bucket f m j = ground (arith, l.create_bucket_keeps bucket f m j)

  pub new_bolt-size :
      (bucket : String) (f : b.File) (m : String) → l.size (new_bolt b bucket f).1 m ≡ l.size f m
  unfolding new_bolt
  new_bolt-size bucket f m = ground (arith, l.create_bucket_size bucket f m)

  pub new_bolt-eq-ok :
      (bucket handle : String) (f : b.File) → (new_bolt b bucket f).0 ≡ ok handle → handle ≡ bucket
  unfolding new_bolt
  new_bolt-eq-ok bucket handle f h = ground arith

  pub delete_fails_keeps :
      (bucket key : String) (f : b.File)
      → is_ok (delete b bucket key f).0 ≡ false
      → (delete b bucket key f).1 ≡ f
  unfolding delete
  delete_fails_keeps bucket key f h = ground (arith, l.delete_fails bucket key f)

  -- What a successful deletion leaves.
  pub delete-entry :
      (bucket key : String) (f : b.File) (m j : String)
      → (delete b bucket key f).0 ≡ ok tt
      → l.entry (delete b bucket key f).1 m j
        ≡ (if bucket == m && key == j then none else l.entry f m j)
  unfolding delete
  delete-entry bucket key f m j h = l.delete_entry bucket key f m j (ground arith)

  pub count-size :
      (bucket : String) (f : b.File) (n : ℕ)
      → (count b bucket f).0 ≡ ok n
      → (n ≡ l.size f bucket) × ((count b bucket f).1 ≡ f)
  unfolding count
  count-size bucket f n h = (l.key_count_size bucket f n (ground arith), l.key_count_keeps bucket f)

module _ (b : BoltLib) (l : BoltLaws b) {T : Type 0} (c : Codec b.Bytes T) where
  -- The bucket holds, under the key, bytes that decode to the value.
  pub record Holds (f : b.File) (bucket key : String) (value : T) : Type 0 where
    pub bytes : b.Bytes
    pub stored : l.entry f bucket key ≡ some bytes
    pub decodes : c.unmarshal bytes ≡ ok value

  pub put_fails_keeps :
      (bucket key : String) (value : T) (f : b.File)
      → is_ok (put b c bucket key value f).0 ≡ false
      → (put b c bucket key value f).1 ≡ f
  unfolding put
  put_fails_keeps bucket key value f h = elim (Result-cases (c.marshal value)) [
    | inl (d, e) ↦ rw (e, put) (l.put_fails bucket key d f (ground arith))
    | inr (x, e) ↦ rw (e, put) refl
  ]

  -- After a successful write the bucket holds the value under the key.
  pub put-Holds :
      CodecLaws b c
      → (bucket key : String) (value : T) (f : b.File) → (put b c bucket key value f).0 ≡ ok tt
      → Holds (put b c bucket key value f).1 bucket key value
  unfolding put
  put-Holds laws bucket key value f h = elim (Result-cases (c.marshal value)) [
    | inl (d, e) ↦
        rw (e, put)
          (record {
            bytes = d;
            stored =
                rw
                  (
                    l.put_entry bucket key d f bucket key (ground arith),
                    eq_refl bucket,
                    eq_refl key,
                  )
                  refl;
            decodes = laws.round_trip value d e;
          })
    | inr (x, e) ↦ absurd (cc e)
  ]

  pub put-entry_other :
      (bucket key : String) (value : T) (f : b.File) (m j : String)
      → (bucket == m && key == j) ≡ false
      → l.entry (put b c bucket key value f).1 m j ≡ l.entry f m j
  unfolding put
  put-entry_other bucket key value f m j apart = elim (Result-cases (c.marshal value)) [
    | inl (d, e) ↦
        rw (e, put)
          (elim (Result-cases (b.put bucket key d f).0) [
            | inl (u, done) ↦ rw (l.put_entry bucket key d f m j done, apart) refl
            | inr (x, failed) ↦ rw (l.put_fails bucket key d f (rw failed refl)) refl
          ])
    | inr (x, e) ↦ rw (e, put) refl
  ]

  -- A read of a key that holds a value gives that value or the file's fault, and changes nothing.
  pub get-Holds :
      (bucket key : String) (value : T) (f : b.File)
      → (h : Holds f bucket key value) → b.is_empty h.bytes ≡ false
      → ((get b c bucket key f).0 ≡ ok value)
        ⊎ ((get b c bucket key f).0 ≡ err (failure "read boltdb"))
  unfolding get
  get-Holds bucket key value f h full = elim (Result-cases (b.get bucket key f).0) [
    | inl (found, e) ↦ inl (
        rw (e, get)
          (rw (l.get_entry bucket key f found e ∙ h.stored, decode_found)
            (rw (full, h.decodes) refl)))
    | inr (x, e) ↦ inr (rw (e, get) refl)
  ]

  -- What a pop has taken: the bucket held the pair, and holds it no more; all else stays.
  pub record Popped (bucket : String) (f f' : b.File) (kv : KeyValue T) : Type 0 where
    pub held : Holds f bucket kv.key kv.value
    pub rest :
        (m j : String)
        → l.entry f' m j ≡ (if bucket == m && kv.key == j then none else l.entry f m j)
    pub smaller : l.size f bucket ≡ l.size f' bucket + 1

  taken_Popped :
      (bucket k : String) (v : b.Bytes) (x : T) (f : b.File)
      → l.entry f bucket k ≡ some v
      → c.unmarshal v ≡ ok x
      → (b.delete bucket k f).0 ≡ ok tt
      → Popped bucket f (b.delete bucket k f).1 (record { key = k; value = x })
  taken_Popped bucket k v x f stored decodes done = record {
    held = record { bytes = v; stored = stored; decodes = decodes };
    rest = λ m j. l.delete_entry bucket k f m j done;
    smaller =
        let smaller : l.size (b.delete bucket k f).1 bucket ≡ l.size f bucket - 1 =
          rw (l.delete_size bucket k f bucket done, stored, eq_refl bucket) refl in
        omega (arith, smaller, l.size_pos bucket k f v stored);
  }

  pop_found-Popped :
      (bucket k : String) (v : b.Bytes) (f : b.File) (kv : KeyValue T)
      → l.entry f bucket k ≡ some v
      → (pop_found b c bucket (some (k, v)) f).0 ≡ ok kv
      → Popped bucket f (pop_found b c bucket (some (k, v)) f).1 kv
  unfolding pop_found
  pop_found-Popped bucket k v f kv stored h = elim (Bool-cases (k == "")) [
    | inl e ↦ absurd (ground arith)
    | inr named ↦ elim (Result-cases (c.unmarshal v)) [
      | inr (x, bad) ↦ absurd (ground arith)
      | inl (x, decodes) ↦ elim (Result-cases (b.delete bucket k f).0) [
        | inr (y, bad) ↦ absurd (ground arith)
        | inl (u, done) ↦
            let same : ◌≡◌ {A = KeyValue T} (record { key = k; value = x }) kv = ground arith in
            rw (named, decodes, done, ◌>>=◌)
              (subst (Popped bucket f (b.delete bucket k f).1) same
                (taken_Popped bucket k v x f stored decodes done))
      ]
    ]
  ]

  -- A successful pop hands out a pair that the bucket held and takes exactly that pair away.
  pub pop-Popped :
      (bucket : String) (f : b.File) (kv : KeyValue T)
      → (pop b c bucket f).0 ≡ ok kv
      → Popped bucket f (pop b c bucket f).1 kv
  unfolding pop
  pop-Popped bucket f kv h = elim (Result-cases (b.first bucket f).0) [
    | inr (x, bad) ↦ absurd (ground arith)
    | inl (none, empty) ↦ absurd (unfold pop_found in ground arith)
    | inl (some (k, v), e) ↦
        rw (e, l.first_keeps bucket f)
          (pop_found-Popped bucket k v f kv (l.first_some bucket k v f e).0
            (rw (e, l.first_keeps bucket f) at h))
  ]

  pop_found_fails :
      (bucket : String) (found : Option (String × b.Bytes)) (f : b.File)
      → is_ok (pop_found b c bucket found f).0 ≡ false
      → (pop_found b c bucket found f).1 ≡ f
  unfolding pop_found
  pop_found_fails bucket none f h = refl
  pop_found_fails bucket (some (k, v)) f h = elim (Bool-cases (k == "")) [
    | inl e ↦ rw e refl
    | inr named ↦ elim (Result-cases (c.unmarshal v)) [
      | inr (x, bad) ↦ rw (named, bad) refl
      | inl (x, decodes) ↦ elim (Result-cases (b.delete bucket k f).0) [
        | inr (y, bad) ↦ rw (named, decodes, bad, ◌>>=◌) (l.delete_fails bucket k f (rw bad refl))
        | inl (u, done) ↦ absurd (ground arith)
      ]
    ]
  ]

  -- A pop that fails takes nothing.
  pub pop_fails_keeps :
      (bucket : String) (f : b.File) → is_ok (pop b c bucket f).0 ≡ false → (pop b c bucket f).1 ≡ f
  unfolding pop
  pop_fails_keeps bucket f h = elim (Result-cases (b.first bucket f).0) [
    | inr (x, bad) ↦ rw (bad, ◌>>=◌) (l.first_keeps bucket f)
    | inl (found, e) ↦
        rw (e, l.first_keeps bucket f)
          (pop_found_fails bucket found f (rw (e, l.first_keeps bucket f) at h))
  ]

  pop_found_eof :
      (bucket k : String) (v : b.Bytes) (f : b.File)
      → (k == "") ≡ false
      → (pop_found b c bucket (some (k, v)) f).0 ≢ err eof
  unfolding pop_found
  pop_found_eof bucket k v f named h = elim (Result-cases (c.unmarshal v)) [
    | inr (x, bad) ↦ absurd (ground arith)
    | inl (x, decodes) ↦ absurd (ground arith)
  ]

  -- A pop reports the end only of an empty bucket.
  pub pop-eof-size :
      (bucket : String) (f : b.File) → (pop b c bucket f).0 ≡ err eof → l.size f bucket ≡ 0
  unfolding pop
  pop-eof-size bucket f h = elim (Result-cases (b.first bucket f).0) [
    | inr (x, bad) ↦ absurd (ground arith)
    | inl (none, empty) ↦ l.first_none bucket f empty
    | inl (some (k, v), e) ↦ absurd (
        pop_found_eof bucket k v f (l.first_some bucket k v f e).1
          (rw (e, l.first_keeps bucket f) at h))
  ]

  abbrev pub AllHeld : b.File → String → List (KeyValue T) → Type 0
  AllHeld f bucket kvs = All (λ kv. Holds f bucket kv.key kv.value) kvs

  decode_all_Holds :
      (f : b.File) (bucket : String) (pairs : List (String × b.Bytes)) (kvs : List (KeyValue T))
      → All (λ kv. l.entry f bucket kv.0 ≡ some kv.1) pairs
      → decode_all b c pairs ≡ ok kvs
      → AllHeld f bucket kvs × (length kvs ≡ length pairs)
  unfolding decode_all
  decode_all_Holds f bucket [] kvs stored h =
      let same : [] ≡ kvs = ground arith in
      subst (λ xs. AllHeld f bucket xs × (length xs ≡ 0)) same (tt, refl)
  decode_all_Holds f bucket ((k, v) ∷ pairs) kvs stored h = elim (Result-cases (c.unmarshal v)) [
    | inr (x, bad) ↦ absurd (ground arith)
    | inl (value, decodes) ↦ elim (Result-cases (decode_all b c pairs)) [
      | inr (x, bad) ↦ absurd (ground arith)
      | inl (rest, decoded) ↦
          let same : record { key = k; value = value } ∷ rest ≡ kvs = ground arith in
          let (held, long) = decode_all_Holds f bucket pairs rest stored.1 decoded in
          subst (λ xs. AllHeld f bucket xs × (length xs ≡ suc (length pairs))) same
            ((record { bytes = v; stored = stored.0; decodes = decodes }, held), ap suc long)
    ]
  ]

  -- A listing shows as many pairs as the bucket has keys, and each of them is held.
  pub list-AllHeld :
      (bucket : String) (f : b.File) (kvs : List (KeyValue T))
      → (list b c bucket f).0 ≡ ok kvs
      → AllHeld f bucket kvs × (length kvs ≡ l.size f bucket) × ((list b c bucket f).1 ≡ f)
  unfolding list
  list-AllHeld bucket f kvs h = elim (Result-cases (b.all bucket f).0) [
    | inr (x, bad) ↦ absurd (ground arith)
    | inl (pairs, e) ↦ elim (Result-cases (decode_all b c pairs)) [
      | inr (x, bad) ↦ absurd (ground arith)
      | inl (decoded, d) ↦
          let same : decoded ≡ kvs = ground arith in
          let (stored, long) = l.all_entries bucket f pairs e in
          let (held, n) = decode_all_Holds f bucket pairs kvs stored (d ∙ ap ok same) in
          (held, n ∙ long, rw (e, ◌>>=◌) (l.all_keeps bucket f))
    ]
  ]

  -- A write never makes a bucket smaller.
  pub put-size-ge :
      (bucket key : String) (value : T) (f : b.File) (m : String)
      → l.size f m ≤ l.size (put b c bucket key value f).1 m
  unfolding put
  put-size-ge bucket key value f m = elim (Result-cases (c.marshal value)) [
    | inr (x, e) ↦ rw (e, put) (omega arith)
    | inl (d, e) ↦
        rw (e, put)
          (elim (Result-cases (b.put bucket key d f).0) [
            | inl (u, done) ↦ ground (arith, l.put_size bucket key d f m done)
            | inr (x, failed) ↦ rw (l.put_fails bucket key d f (rw failed refl)) (omega arith)
          ])
  ]

  pub list_keeps : (bucket : String) (f : b.File) → (list b c bucket f).1 ≡ f
  unfolding list
  list_keeps bucket f = elim (Result-cases (b.all bucket f).0) [
    | inr (x, bad) ↦ rw (bad, ◌>>=◌) (l.all_keeps bucket f)
    | inl (pairs, e) ↦ rw (e, ◌>>=◌) (l.all_keeps bucket f)
  ]

  ok_injective : (v w : T) → ok v ≡ ok w → v ≡ w
  ok_injective v w h = cc

  -- A key holds one value.
  pub Holds-unique :
      (f : b.File) (bucket key : String) (v w : T)
      → Holds f bucket key v
      → Holds f bucket key w
      → v ≡ w
  Holds-unique f bucket key v w h k =
      let same = some-injective _ _ (sym h.stored ∙ k.stored) in
      ok_injective v w (sym h.decodes ∙ ap c.unmarshal same ∙ k.decodes)
