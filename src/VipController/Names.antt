-- ===== src/VipController/Names.antt =====
-- cmd/vip-controller/sts.go: the index in the name of a claim.
use text.Mathlib.TextLemmas.{nil-append, cons-append}
use uk8s_cni_vpc.Prelude.{String, concat, ◌≡◌, refl, ap, ◌∙◌, true, false, arith}
use uk8s_cni_vpc.VipController.{has_dash, last_segment}

concat-eq : (s : String) → concat "-" s ≡ String.◌∷◌ "-" s
concat-eq s = cons-append "-" "" s ∙ ap (String.◌∷◌ "-") (nil-append s)

has_dash-concat : (p s : String) → has_dash (concat p (concat "-" s)) ≡ true
unfolding has_dash
has_dash-concat String.[] s = rw (nil-append (concat "-" s), cons-append "-" "" s, has_dash) refl
has_dash-concat (String.◌∷◌ c p) s =
    rw (cons-append c p (concat "-" s), has_dash, has_dash-concat p s) (ground arith)

-- The index of a claim is what follows the last dash of its name, whatever stands before it.
pub last_segment-concat :
    (name index : String)
    → has_dash index ≡ false
    → last_segment (concat name (concat "-" index)) ≡ index
unfolding last_segment
last_segment-concat String.[] index plain =
    rw (nil-append (concat "-" index), concat-eq index, last_segment, plain) refl
last_segment-concat (String.◌∷◌ c p) index plain =
    rw (cons-append c p (concat "-" index), last_segment, has_dash-concat p index)
      (last_segment-concat p index plain)
