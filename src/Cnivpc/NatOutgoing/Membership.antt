-- ===== src/Cnivpc/NatOutgoing/Membership.antt =====
-- cmd/cnivpc/nat_outgoing.go: what one addition or deletion does to the set of the kernel.
use uk8s_cni_vpc.Prelude.{
  String, Bool, true, false, not, ◌&&◌, ◌||◌, Option, none, some, List, [], ◌∷◌, ◌==◌, eq_iff, ◌≡◌,
  refl, ap, inl, inr, arith, Bool-cases,
}
use uk8s_cni_vpc.Result.{Result-cases, ok, err, Error}
use uk8s_cni_vpc.Host.{Ipset}
use uk8s_cni_vpc.Cnivpc.NatOutgoing.{
  has_text, insert, insert_some, nat_gw_outgoing_ip_set_entry, current_nat_gw_outgoing_ips,
  added_answer, sync_nat_gw_outgoing_ip, deleted_entry, delete_nat_gw_outgoing_ip,
}

abbrev pub has_entry : String → List (Option String) → Bool
has_entry x [] = false
has_entry x (none ∷ ys) = has_entry x ys
has_entry x (some y ∷ ys) = x == y || has_entry x ys

-- An address in the form in which the kernel's set prints it.
abbrev pub Canonical : {S : Type 0} → Ipset S → String → Type 0
Canonical ipset x = ipset.parse_ip4 x ≡ some x

-- What is documented of ipset: the list tells the members, an addition or a deletion is of one
-- member, IPSET_ERR_EXIST and ENOENT say that there was nothing to do, and making the set again
-- leaves the members. `member` is the set.
pub record IpsetLaws {S : Type 0} (ipset : Ipset S) (member : String → S → Bool) : Type 0 where
  pub list_answer :
      (x : String) (entries : List (Option String)) (s : S)
      → (ipset.list s).0 ≡ ok entries
      → has_entry x entries ≡ member x s
  pub list_same : (x : String) (s : S) → member x (ipset.list s).1 ≡ member x s
  pub create_same : (x : String) (s : S) → member x (ipset.create s).1 ≡ member x s
  pub add_ok :
      (x y : String) (s : S)
      → (ipset.add y s).0 ≡ ok tt
      → member x (ipset.add y s).1 ≡ (x == y || member x s)
  pub add_exist :
      (x y : String) (s : S) (e : Error)
      → (ipset.add y s).0 ≡ err e
      → ipset.is_exist e ≡ true
      → member x (ipset.add y s).1 ≡ (x == y || member x s)
  pub add_new : (y : String) (s : S) → (ipset.add y s).0 ≡ ok tt → member y s ≡ false
  pub add_err :
      (x y : String) (s : S) (e : Error)
      → (ipset.add y s).0 ≡ err e
      → member x (ipset.add y s).1 ≡ member x s
  pub del_ok :
      (x y : String) (s : S)
      → (ipset.del y s).0 ≡ ok tt
      → member x (ipset.del y s).1 ≡ (not (x == y) && member x s)
  pub del_enoent :
      (x y : String) (s : S) (e : Error)
      → (ipset.del y s).0 ≡ err e
      → ipset.is_enoent e ≡ true
      → member x (ipset.del y s).1 ≡ (not (x == y) && member x s)
  -- An IPv4 address of the set is printed in its canonical form.
  pub listed_canonical : (x : String) (s : S) → member x s ≡ true → ipset.parse_ip4 x ≡ some x

pub has_text-same :
    (x y : String) (ys : List String) → (x == y) ≡ true → has_text x ys ≡ has_text y ys
has_text-same x y ys e = ap (λ t. has_text t ys) ((eq_iff x y).0 e)

pub has_text-insert :
    (x y : String) (ys : List String) → has_text x (insert y ys) ≡ (x == y || has_text x ys)
has_text-insert x y ys = elim (Bool-cases (x == y)) [
  | inl e ↦ ground (arith, has_text-same x y ys e)
  | inr e ↦ ground arith
]

module _ {S : Type 0} (ipset : Ipset S) (member : String → S → Bool)
    (laws : IpsetLaws ipset member) where
  pub current-has_entry :
      (x : String) (entries : List (Option String))
      → has_text x (current_nat_gw_outgoing_ips ipset entries) ≡ has_entry x entries
  unfolding current_nat_gw_outgoing_ips insert_some
  current-has_entry x [] = refl
  current-has_entry x (none ∷ entries) = current-has_entry x entries
  current-has_entry x (some y ∷ entries) =
      rw (
        has_text-insert x y (current_nat_gw_outgoing_ips ipset entries),
        current-has_entry x entries,
      )

  pub entry-Canonical :
      (y : String) → Canonical ipset y → nat_gw_outgoing_ip_set_entry ipset y ≡ ok y
  unfolding nat_gw_outgoing_ip_set_entry
  entry-Canonical y canonical = rw (canonical, nat_gw_outgoing_ip_set_entry)

  pub sync-member :
      (x y : String) (b : Bool) (s : S)
      → Canonical ipset y
      → (sync_nat_gw_outgoing_ip ipset y true s).0 ≡ ok b
      → member x (sync_nat_gw_outgoing_ip ipset y true s).1 ≡ (x == y || member x s)
  unfolding sync_nat_gw_outgoing_ip added_answer
  sync-member x y b s canonical h =
      let made = (ipset.create s).1 in
      elim (Result-cases (ipset.add y made).0) [
        | inl (u, e) ↦
            ground (arith, entry-Canonical y canonical, laws.create_same x s, laws.add_ok x y made)
        | inr (e, f) ↦
            ground (
              arith,
              entry-Canonical y canonical,
              laws.create_same x s,
              laws.add_exist x y made e f,
            )
      ]

  pub delete-member :
      (x y : String) (s : S)
      → Canonical ipset y
      → (delete_nat_gw_outgoing_ip ipset y s).0 ≡ ok tt
      → member x (delete_nat_gw_outgoing_ip ipset y s).1 ≡ (not (x == y) && member x s)
  unfolding delete_nat_gw_outgoing_ip deleted_entry
  delete-member x y s canonical h = elim (Result-cases (ipset.del y s).0) [
    | inl (u, e) ↦ ground (arith, entry-Canonical y canonical, laws.del_ok x y s)
    | inr (e, f) ↦ ground (arith, entry-Canonical y canonical, laws.del_enoent x y s e f)
  ]
