-- ===== src/Ipamd/Reconcile/Orphans.antt =====
-- pkg/ipamd/resource.go, `doReconcile`: which records of pod networks are removed.
use uk8s_cni_vpc.Prelude.{◌≡◌, ◌≢◌, ◌↔◌, refl, ◌∙◌, ◌⊎◌, List, [], ◌∷◌, arith, eq_iff, All}
use uk8s_cni_vpc.Ipamd.Types.{PodNetwork, Pod}
use uk8s_cni_vpc.Ipamd.Reconcile.{Finding, orphan, judge_pod, scan_pods}

-- The pod is the one of the record: its name and namespace, and its UID unless the record has none.
abbrev pub Owns : PodNetwork → Pod → Type 0
Owns pn p =
    (p.name ≡ pn.pod_name) × (p.namespace ≡ pn.pod_ns) × ((p.uid ≡ pn.pod_uid) ⊎ (pn.pod_uid ≡ ""))

judge_pod_owned :
    (pn : PodNetwork) (p : Pod) (next : Finding) → Owns pn p → judge_pod pn p next ≢ orphan
unfolding judge_pod
judge_pod_owned pn p next owns h = ground (
  arith,
  eq_iff p.name pn.pod_name,
  eq_iff p.namespace pn.pod_ns,
  eq_iff p.uid pn.pod_uid,
  eq_iff pn.pod_uid "",
)

judge_pod_other :
    (pn : PodNetwork) (p : Pod) (next : Finding) → ¬ Owns pn p → judge_pod pn p next ≡ next
unfolding judge_pod
judge_pod_other pn p next other = ground (
  arith,
  eq_iff p.name pn.pod_name,
  eq_iff p.namespace pn.pod_ns,
  eq_iff p.uid pn.pod_uid,
  eq_iff pn.pod_uid "",
)

judge_pod_orphan :
    (pn : PodNetwork) (p : Pod) (next : Finding) → judge_pod pn p next ≡ orphan → next ≡ orphan
unfolding judge_pod
judge_pod_orphan pn p next h = ground arith

scan_pods_sound :
    (pn : PodNetwork) (pods : List Pod)
    → scan_pods pn pods ≡ orphan
    → All (λ p. ¬ Owns pn p) pods × (pods ≢ [])
unfolding scan_pods
scan_pods_sound pn [] h = absurd (cc)
scan_pods_sound pn (p ∷ []) h = ((λ o. judge_pod_owned pn p orphan o h, tt), λ e. cc)
scan_pods_sound pn (p ∷ q ∷ ps) h =
    let rest = judge_pod_orphan pn p (scan_pods pn (q ∷ ps)) h in
    (
      (λ o. judge_pod_owned pn p (scan_pods pn (q ∷ ps)) o h, (scan_pods_sound pn (q ∷ ps) rest).0),
      λ e. cc,
    )

scan_pods_complete :
    (pn : PodNetwork) (pods : List Pod)
    → All (λ p. ¬ Owns pn p) pods
    → pods ≢ []
    → scan_pods pn pods ≡ orphan
unfolding scan_pods
scan_pods_complete pn [] none_owns some_pod = absurd (some_pod refl)
scan_pods_complete pn (p ∷ []) none_owns some_pod = judge_pod_other pn p orphan none_owns.0
scan_pods_complete pn (p ∷ q ∷ ps) none_owns some_pod =
    judge_pod_other pn p (scan_pods pn (q ∷ ps)) none_owns.0
    ∙ scan_pods_complete pn (q ∷ ps) none_owns.1 (λ e. cc)

-- A record is taken for an orphan exactly if the node has pods and none of them is the record's: with
-- no pod at all, no record is.
pub scan_pods-Owns :
    (pn : PodNetwork) (pods : List Pod)
    → (scan_pods pn pods ≡ orphan) ↔ (All (λ p. ¬ Owns pn p) pods × (pods ≢ []))
scan_pods-Owns pn pods = (scan_pods_sound pn pods, λ h. scan_pods_complete pn pods h.0 h.1)
