-- ===== src/Database/Writes.antt =====
-- pkg/database/bolt.go: what a bucket holds after an operation was there before, or was written.
use uk8s_cni_vpc.Prelude.{
  String, ◌≡◌, refl, sym, ap, ◌∙◌, ◌⊎◌, inl, inr, false, Bool-cases, ◌&&◌, &&-eq-true, some, ◌==◌,
  eq_iff, subst, arith,
}
use uk8s_cni_vpc.Result.{Result-cases}
use uk8s_cni_vpc.Database.{
  BoltLib, BoltLaws, Codec, CodecLaws, new_bolt, put, get, delete, count, pop, list,
}
use uk8s_cni_vpc.Database.Laws.{
  Holds, Holds-unique, put-Holds, put_fails_keeps, put-entry_other, delete-entry,
  delete_fails_keeps, pop-Popped, pop_fails_keeps, list_keeps, new_bolt-entry,
}

module _ (b : BoltLib) (l : BoltLaws b) where
  -- Every entry of the second file is one of the first.
  abbrev pub NoMore : b.File → b.File → Type 0
  NoMore f f' = (m j : String) (v : b.Bytes) → l.entry f' m j ≡ some v → l.entry f m j ≡ some v

  pub same-NoMore : (f f' : b.File) → f' ≡ f → NoMore f f'
  same-NoMore f f' same m j v h = ap (λ g. l.entry g m j) (sym same) ∙ h

  pub NoMore-trans : (f g h : b.File) → NoMore f g → NoMore g h → NoMore f h
  NoMore-trans f g h p q m j v e = p m j v (q m j v e)

  pub new_bolt-NoMore : (bucket : String) (f : b.File) → NoMore f (new_bolt b bucket f).1
  new_bolt-NoMore bucket f m j v h = sym (new_bolt-entry b l bucket f m j) ∙ h

  pub count-NoMore : (bucket : String) (f : b.File) → NoMore f (count b bucket f).1
  unfolding count
  count-NoMore bucket f = same-NoMore f _ (l.key_count_keeps bucket f)

  pub delete-NoMore : (bucket key : String) (f : b.File) → NoMore f (delete b bucket key f).1
  delete-NoMore bucket key f = elim (Result-cases (delete b bucket key f).0) [
    | inr (e, bad) ↦ same-NoMore f _ (delete_fails_keeps b l bucket key f (rw bad refl))
    | inl (u, done) ↦ λ m j v h.
        let left = delete-entry b l bucket key f m j done in
        elim (Bool-cases (bucket == m && key == j)) [
          | inl here ↦ absurd (ground (arith, left))
          | inr apart ↦ ground (arith, left)
        ]
  ]

module _ (b : BoltLib) (l : BoltLaws b) {T : Type 0} (c : Codec b.Bytes T) where
  pub pop-NoMore : (bucket : String) (f : b.File) → NoMore b l f (pop b c bucket f).1
  pop-NoMore bucket f = elim (Result-cases (pop b c bucket f).0) [
    | inr (e, bad) ↦ same-NoMore b l f _ (pop_fails_keeps b l c bucket f (rw bad refl))
    | inl (kv, done) ↦ λ m j v h.
        let rest = (pop-Popped b l c bucket f kv done).rest m j in
        elim (Bool-cases (bucket == m && kv.key == j)) [
          | inl here ↦ absurd (ground (arith, rest))
          | inr apart ↦ ground (arith, rest)
        ]
  ]

  pub list-NoMore : (bucket : String) (f : b.File) → NoMore b l f (list b c bucket f).1
  list-NoMore bucket f = same-NoMore b l f _ (list_keeps b l c bucket f)

  pub get-NoMore : (bucket key : String) (f : b.File) → NoMore b l f (get b c bucket key f).1
  unfolding get
  get-NoMore bucket key f = same-NoMore b l f _ (ground (arith, l.get_keeps bucket key f))

  pub NoMore-Holds :
      (f f' : b.File) (bucket key : String) (value : T)
      → NoMore b l f f'
      → Holds b l c f' bucket key value
      → Holds b l c f bucket key value
  NoMore-Holds f f' bucket key value less h = record {
    bytes = h.bytes;
    stored = less bucket key h.bytes h.stored;
    decodes = h.decodes;
  }

  -- What a bucket holds after a write it held before, or it is what was written.
  pub put-Held :
      CodecLaws b c
      → (bucket key : String) (value : T) (f : b.File) (m j : String) (w : T)
      → Holds b l c (put b c bucket key value f).1 m j w
      → Holds b l c f m j w ⊎ ((bucket ≡ m) × (key ≡ j) × (value ≡ w))
  put-Held laws bucket key value f m j w h = elim (Bool-cases (bucket == m && key == j)) [
    | inr apart ↦ inl (record {
      bytes = h.bytes;
      stored = sym (put-entry_other b l c bucket key value f m j apart) ∙ h.stored;
      decodes = h.decodes;
    })
    | inl here ↦
        let (at_bucket, at_key) = &&-eq-true (bucket == m) (key == j) here in
        let same_bucket = (eq_iff bucket m).0 at_bucket in
        let same_key = (eq_iff key j).0 at_key in
        elim (Result-cases (put b c bucket key value f).0) [
          | inr (e, bad) ↦ inl (
              subst (λ g. Holds b l c g m j w)
                (put_fails_keeps b l c bucket key value f (rw bad refl)) h)
          | inl (u, done) ↦
              let written : Holds b l c (put b c bucket key value f).1 m j value =
                subst (λ k. Holds b l c (put b c bucket key value f).1 m k value) same_key
                  (subst (λ n. Holds b l c (put b c bucket key value f).1 n key value) same_bucket
                    (put-Holds b l c laws bucket key value f done)) in
              inr (same_bucket, same_key, Holds-unique b l c _ m j value w written h)
        ]
  ]

-- A write to one bucket leaves what another holds, whatever the type of its values.
module _ (b : BoltLib) (l : BoltLaws b) {T U : Type 0} (c : Codec b.Bytes T)
    (d : Codec b.Bytes U) where
  pub put-Held_other :
      (bucket key : String) (value : T) (f : b.File) (m j : String) (w : U)
      → (bucket == m) ≡ false
      → Holds b l d (put b c bucket key value f).1 m j w
      → Holds b l d f m j w
  put-Held_other bucket key value f m j w apart h = record {
    bytes = h.bytes;
    stored = sym (put-entry_other b l c bucket key value f m j (rw apart refl)) ∙ h.stored;
    decodes = h.decodes;
  }
