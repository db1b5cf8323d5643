-- ===== src/Arping/Conflict/Verdicts.antt =====
-- pkg/arping/arping.go: what the detection concludes.
use uk8s_cni_vpc.Prelude.{
  ℕ, zero, suc, ◌≡◌, ◌≢◌, refl, subst, ◌↔◌, ◌⊎◌, inl, inr, Bool, true, false, List, [], ◌∷◌, arith,
}
use uk8s_cni_vpc.Result.{Result, ok, err}
use uk8s_cni_vpc.Step.{Step}
use uk8s_cni_vpc.Arping.{ArpDatagram, bytes_equal, to4}
use uk8s_cni_vpc.Arping.Conflict.{
  Event, received, retry, broken, Verdict, silent, conflicting, judge, receive_loop, detect_from,
  detect_ip_conflict_with_gratuitous_arp, max_conflicts,
}

Verdict-cases : (v : Verdict) → (v ≡ conflicting) ⊎ (v ≡ silent)
Verdict-cases silent = inr refl
Verdict-cases conflicting = inl refl

pub bytes_equal→eq : (xs ys : List ℕ) → bytes_equal xs ys ≡ true → xs ≡ ys
unfolding bytes_equal
bytes_equal→eq [] [] h = refl
bytes_equal→eq [] (y ∷ ys) h = cc
bytes_equal→eq (x ∷ xs) [] h = cc
bytes_equal→eq (x ∷ xs) (y ∷ ys) h = ground (arith, bytes_equal→eq xs ys)

pub bytes_equal_refl : (xs : List ℕ) → bytes_equal xs xs ≡ true
unfolding bytes_equal
bytes_equal_refl [] = refl
bytes_equal_refl (x ∷ xs) = ground (arith, bytes_equal_refl xs)

-- A packet tells of a conflict exactly if another station claims the address or probes for it.
abbrev pub Claims : List ℕ → List ℕ → ArpDatagram → Type 0
Claims src_ip mac dg = (dg.sha ≢ mac) × ((dg.spa ≡ to4 src_ip) ⊎ (dg.tpa ≡ to4 src_ip))

pub bytes_equal_iff : (xs ys : List ℕ) → (bytes_equal xs ys ≡ true) ↔ (xs ≡ ys)
bytes_equal_iff xs ys =
    (bytes_equal→eq xs ys, λ e. subst (λ zs. bytes_equal xs zs ≡ true) e (bytes_equal_refl xs))

pub judge-Claims :
    (src_ip mac : List ℕ) (dg : ArpDatagram)
    → (judge src_ip mac dg ≡ conflicting) ↔ Claims src_ip mac dg
unfolding judge
judge-Claims src_ip mac dg = ground (
  arith,
  bytes_equal_iff dg.spa (to4 src_ip),
  bytes_equal_iff dg.tpa (to4 src_ip),
  bytes_equal_iff dg.sha mac,
)

-- The packets that a read loop sees before the first claim, none of which is a broken read.
pub data Clash (src_ip mac : List ℕ) : List Event → Type 0 where
  here :
      (dg : ArpDatagram) (events : List Event)
      → Claims src_ip mac dg
      → Clash src_ip mac (received dg ∷ events)
  pass :
      (dg : ArpDatagram) {events : List Event}
      → ¬ Claims src_ip mac dg
      → Clash src_ip mac events
      → Clash src_ip mac (received dg ∷ events)
  skip : {events : List Event} → Clash src_ip mac events → Clash src_ip mac (retry ∷ events)

receive_loop_of_Clash :
    (src_ip mac : List ℕ) {events : List Event}
    → Clash src_ip mac events
    → receive_loop src_ip mac events ≡ ok true
unfolding receive_loop
receive_loop_of_Clash src_ip mac (here dg events c) = ground (arith, judge-Claims src_ip mac dg)
receive_loop_of_Clash src_ip mac (pass dg {events} n c) =
    ground (arith, judge-Claims src_ip mac dg, receive_loop_of_Clash src_ip mac c)
receive_loop_of_Clash src_ip mac (skip c) = receive_loop_of_Clash src_ip mac c

Clash-receive_loop :
    (src_ip mac : List ℕ) (events : List Event)
    → receive_loop src_ip mac events ≡ ok true
    → Clash src_ip mac events
unfolding receive_loop
Clash-receive_loop src_ip mac [] h = absurd (cc)
Clash-receive_loop src_ip mac (received dg ∷ events) h =
    elim (Verdict-cases (judge src_ip mac dg)) [
      | inl e ↦ here dg events ((judge-Claims src_ip mac dg).0 e)
      | inr e ↦
          pass dg (λ c. ground (arith, judge-Claims src_ip mac dg))
            (Clash-receive_loop src_ip mac events (ground arith))
    ]
Clash-receive_loop src_ip mac (retry ∷ events) h = skip (Clash-receive_loop src_ip mac events h)
Clash-receive_loop src_ip mac (broken ∷ events) h = absurd (cc)

-- An attempt reports a conflict exactly if, before a broken read and before the announce timeout,
-- it reads a packet of another station that claims the address or probes for it.
pub receive_loop-Clash :
    (src_ip mac : List ℕ) (events : List Event)
    → (receive_loop src_ip mac events ≡ ok true) ↔ Clash src_ip mac events
receive_loop-Clash src_ip mac events =
    (Clash-receive_loop src_ip mac events, λ c. receive_loop_of_Clash src_ip mac c)

quiet_cases : (r : Result Bool) → (r ≡ ok false) ⊎ (r ≢ ok false)
quiet_cases (ok false) = inl refl
quiet_cases (ok true) = inr (λ k. cc)
quiet_cases (err e) = inr (λ k. cc)

module _ {S : Type 0} (attempt : Step S Bool) where
  -- Among the next `n` attempts from state `s` one finds the address free.
  pub data FreeWithin : ℕ → S → Type 0 where
    now : {n : ℕ} {s : S} → (attempt s).0 ≡ ok false → FreeWithin (suc n) s
    later : {n : ℕ} {s : S} → FreeWithin n (attempt s).1 → FreeWithin (suc n) s

  detect_from_sound :
      (n : ℕ) (last : Result Bool) (s : S)
      → last ≢ ok false
      → (detect_from attempt n last s).0 ≡ ok false
      → FreeWithin n s
  unfolding detect_from
  detect_from_sound zero last s clash h = absurd (clash h)
  detect_from_sound (suc n) last s clash h = elim (quiet_cases (attempt s).0) [
    | inl e ↦ now e
    | inr e ↦ later (detect_from_sound n (attempt s).0 (attempt s).1 e (ground arith))
  ]

  detect_from_free :
      {n : ℕ} {s : S} (last : Result Bool)
      → FreeWithin n s
      → (detect_from attempt n last s).0 ≡ ok false
  unfolding detect_from
  detect_from_free last (now e) = ground arith
  detect_from_free last (later {n} {s} f) = ground (arith, detect_from_free (attempt s).0 f)

  -- The detection calls an address free exactly if one of its ten attempts finds it free, whatever
  -- the other attempts return.
  pub detect_ip_conflict-FreeWithin :
      (s : S)
      → ((detect_ip_conflict_with_gratuitous_arp attempt s).0 ≡ ok false)
        ↔ FreeWithin max_conflicts s
  unfolding detect_ip_conflict_with_gratuitous_arp detect_from
  detect_ip_conflict-FreeWithin s = (
    λ h. elim (quiet_cases (attempt s).0) [
      | inl e ↦ now e
      | inr e ↦ later (detect_from_sound 9 (attempt s).0 (attempt s).1 e (ground arith))
    ],
    λ f. detect_from_free (ok false) f,
  )
