-- ===== src/Ipamd/Borrow/Nodes.antt =====
-- pkg/ipamd/pool.go, `borrowIP`: no node is left out when one resource of each is chosen.
use mathlib.Core.List.{Perm}
use mathlib.Core.List.Perm
use uk8s_cni_vpc.Prelude.{String, ◌≡◌, ◌⊎◌, true, List, [], ◌∷◌, ◌==◌, All}
use uk8s_cni_vpc.Ipamd.Types.{Ipamd}

-- One of the resources is of the node.
abbrev pub OfNode : String → List Ipamd → Type 0
OfNode node [] = ⊥
OfNode node (x ∷ xs) = (x.node ≡ node) ⊎ OfNode node xs

abbrev NonEmpty : List Ipamd → Type 0
NonEmpty [] = ⊥
NonEmpty (x ∷ xs) = Unit

-- A group has the resources of its node, and at least one.
abbrev Named : String × List Ipamd → Type 0
Named (node, xs) = All (λ z. (z.node == node) ≡ true) xs × NonEmpty xs

abbrev HasNode : String → List (String × List Ipamd) → Type 0
HasNode node [] = ⊥
HasNode node (g ∷ gs) = (g.0 ≡ node) ⊎ HasNode node gs
