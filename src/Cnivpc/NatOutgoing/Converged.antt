-- ===== src/Cnivpc/NatOutgoing/Converged.antt =====
-- cmd/cnivpc/nat_outgoing.go: which addresses the set of the kernel holds after a migration.
use text.Mathlib.TextPositions.{eq_refl}
use uk8s_cni_vpc.Prelude.{
  String, Bool, true, not, ◌&&◌, ◌||◌, Option, List, [], ◌∷◌, All, ◌==◌, if◌then◌else◌, ◌≡◌, refl,
  sym, ap, ◌∙◌, subst, inl, inr, arith, Bool-cases,
}
use uk8s_cni_vpc.Result.{Result-cases, ok, err, Error}
use uk8s_cni_vpc.Host.{Ipset}
use uk8s_cni_vpc.Cnivpc.NatOutgoing.{
  has_text, difference, current_nat_gw_outgoing_ips, sync_nat_gw_outgoing_ip,
  delete_nat_gw_outgoing_ip, add_each, delete_each, converge,
}
use uk8s_cni_vpc.Cnivpc.NatOutgoing.Membership.{
  IpsetLaws, Canonical, has_text-same, current-has_entry, sync-member, delete-member,
}

has_text-difference :
    (x : String) (xs ys : List String)
    → has_text x (difference xs ys) ≡ (has_text x xs && not (has_text x ys))
has_text-difference x [] ys = refl
has_text-difference x (y ∷ xs) ys = elim (Bool-cases (x == y)) [
  | inl e ↦ ground (arith, has_text-same x y ys e, has_text-difference x xs ys)
  | inr e ↦ ground (arith, has_text-difference x xs ys)
]

-- A property of all texts that a list has is one of all its elements.
pub All-has_text :
    (P : String → Type 0) (xs : List String)
    → ((x : String) → has_text x xs ≡ true → P x)
    → All P xs
All-has_text P [] f = tt
All-has_text P (x ∷ xs) f =
    (f x (ground (arith, eq_refl x)), All-has_text P xs (λ y held. f y (ground (arith, held))))

module _ {S : Type 0} (ipset : Ipset S) (member : String → S → Bool)
    (laws : IpsetLaws ipset member) where
  add_each-next :
      (y : String) (ys : List String) (s : S) (b : Bool)
      → (sync_nat_gw_outgoing_ip ipset y true s).0 ≡ ok b
      → add_each ipset (y ∷ ys) s ≡ add_each ipset ys (sync_nat_gw_outgoing_ip ipset y true s).1
  unfolding add_each
  add_each-next y ys s b e = rw e

  add_each-synced :
      (y : String) (ys : List String) (s : S)
      → (add_each ipset (y ∷ ys) s).0 ≡ ok tt
      → (b : Bool) × ((sync_nat_gw_outgoing_ip ipset y true s).0 ≡ ok b)
  unfolding add_each
  add_each-synced y ys s h = elim (Result-cases (sync_nat_gw_outgoing_ip ipset y true s).0) [
    | inl synced ↦ synced
    | inr (e, f) ↦ absurd (ground arith)
  ]

  add_each-member :
      (x : String) (ys : List String) (s : S)
      → All (Canonical ipset) ys
      → (add_each ipset ys s).0 ≡ ok tt
      → member x (add_each ipset ys s).1 ≡ (has_text x ys || member x s)
  unfolding add_each
  add_each-member x [] s canonical h = refl
  add_each-member x (y ∷ ys) s canonical h =
      let (b, e) = add_each-synced y ys s h in
      let next = add_each-next y ys s b e in
      let rest =
        add_each-member x ys (sync_nat_gw_outgoing_ip ipset y true s).1 canonical.1
          (subst (λ r. r.0 ≡ ok tt) next h) in
      let synced = sync-member ipset member laws x y b s canonical.0 e in
      ap (λ r. member x r.1) next ∙ rest ∙ ground (arith, synced)

  delete_each-next :
      (y : String) (ys : List String) (s : S)
      → (delete_nat_gw_outgoing_ip ipset y s).0 ≡ ok tt
      → delete_each ipset (y ∷ ys) s ≡ delete_each ipset ys (delete_nat_gw_outgoing_ip ipset y s).1
  unfolding delete_each
  delete_each-next y ys s e = rw e

  delete_each-first :
      (y : String) (ys : List String) (s : S)
      → (delete_each ipset (y ∷ ys) s).0 ≡ ok tt
      → (delete_nat_gw_outgoing_ip ipset y s).0 ≡ ok tt
  unfolding delete_each
  delete_each-first y ys s h = ground arith

  delete_each-member :
      (x : String) (ys : List String) (s : S)
      → All (Canonical ipset) ys
      → (delete_each ipset ys s).0 ≡ ok tt
      → member x (delete_each ipset ys s).1 ≡ (not (has_text x ys) && member x s)
  unfolding delete_each
  delete_each-member x [] s canonical h = refl
  delete_each-member x (y ∷ ys) s canonical h =
      let e = delete_each-first y ys s h in
      let next = delete_each-next y ys s e in
      let rest =
        delete_each-member x ys (delete_nat_gw_outgoing_ip ipset y s).1 canonical.1
          (subst (λ r. r.0 ≡ ok tt) next h) in
      let deleted = delete-member ipset member laws x y s canonical.0 e in
      ap (λ r. member x r.1) next ∙ rest ∙ ground (arith, deleted)

  difference-All :
      (xs ys : List String) → All (Canonical ipset) xs → All (Canonical ipset) (difference xs ys)
  difference-All [] ys h = tt
  difference-All (x ∷ xs) ys h = elim (Bool-cases (has_text x ys)) [
    | inl e ↦
        subst (λ b. All (Canonical ipset) (if b then difference xs ys else x ∷ difference xs ys))
          (sym e) (difference-All xs ys h.1)
    | inr e ↦
        subst (λ b. All (Canonical ipset) (if b then difference xs ys else x ∷ difference xs ys))
          (sym e) (h.0, difference-All xs ys h.1)
  ]

  -- What the set lists is in canonical form.
  current-Canonical :
      (entries : List (Option String)) (s : S)
      → (ipset.list s).0 ≡ ok entries
      → All (Canonical ipset) (current_nat_gw_outgoing_ips ipset entries)
  current-Canonical entries s e =
      All-has_text (Canonical ipset) (current_nat_gw_outgoing_ips ipset entries) (λ x held.
        laws.listed_canonical x s (
          sym (laws.list_answer x entries s e)
          ∙ sym (current-has_entry ipset member laws x entries)
          ∙ held))

  converge-listed :
      (desired : List String) (s : S)
      → (converge ipset desired s).0 ≡ ok tt
      → (entries : List (Option String)) × ((ipset.list s).0 ≡ ok entries)
  unfolding converge
  converge-listed desired s h = elim (Result-cases (ipset.list s).0) [
    | inl listed ↦ listed
    | inr (e, f) ↦ absurd (ground arith)
  ]

  abbrev to_add : List String → List (Option String) → List String
  to_add desired entries = difference desired (current_nat_gw_outgoing_ips ipset entries)

  abbrev to_delete : List String → List (Option String) → List String
  to_delete desired entries = difference (current_nat_gw_outgoing_ips ipset entries) desired

  converge-stuck :
      (desired : List String) (s : S) (entries : List (Option String)) (x : Error)
      → (ipset.list s).0 ≡ ok entries
      → (add_each ipset (to_add desired entries) (ipset.list s).1).0 ≡ err x
      → (converge ipset desired s).0 ≡ err x
  unfolding converge
  converge-stuck desired s entries x e f = rw (e, f)

  converge-steps :
      (desired : List String) (s : S) (entries : List (Option String))
      → (ipset.list s).0 ≡ ok entries
      → (converge ipset desired s).0 ≡ ok tt
      → ((add_each ipset (to_add desired entries) (ipset.list s).1).0 ≡ ok tt)
        × (converge ipset desired s
            ≡ delete_each ipset
                (to_delete desired entries)
                (add_each ipset (to_add desired entries) (ipset.list s).1).1)
  unfolding converge
  converge-steps desired s entries e h =
      elim (Result-cases (add_each ipset (to_add desired entries) (ipset.list s).1).0) [
        | inl (u, f) ↦ (f, rw (e, f))
        | inr (x, f) ↦ absurd (ground (arith, converge-stuck desired s entries x e f))
      ]

  -- If the last part of the migration succeeds, then the set of the kernel holds exactly the desired
  -- addresses, when these are written the way the kernel prints them.
  pub converge-member :
      (desired : List String) (s : S) (x : String)
      → All (Canonical ipset) desired
      → (converge ipset desired s).0 ≡ ok tt
      → member x (converge ipset desired s).1 ≡ has_text x desired
  converge-member desired s x canonical h =
      let (entries, e) = converge-listed desired s h in
      let (added, steps) = converge-steps desired s entries e h in
      let current = current_nat_gw_outgoing_ips ipset entries in
      let grown =
        add_each-member x (to_add desired entries) (ipset.list s).1
          (difference-All desired current canonical) added in
      let shrunk =
        delete_each-member x (to_delete desired entries)
          (add_each ipset (to_add desired entries) (ipset.list s).1).1
          (difference-All current desired (current-Canonical entries s e))
          (subst (λ r. r.0 ≡ ok tt) steps h) in
      ap (λ r. member x r.1) steps
      ∙ shrunk
      ∙ ground (
        arith,
        grown,
        has_text-difference x desired current,
        has_text-difference x current desired,
        current-has_entry ipset member laws x entries,
        laws.list_answer x entries s e,
        laws.list_same x s,
      )
