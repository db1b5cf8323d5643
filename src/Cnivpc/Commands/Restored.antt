-- ===== src/Cnivpc/Commands/Restored.antt =====
-- cmd/cnivpc/main.go: the set of the gateway after an ADD that fails.
use uk8s_cni_vpc.Prelude.{
  String, Bool, true, false, ◌||◌, ◌==◌, eq_iff, ◌≡◌, refl, ap, ◌∙◌, inl, inr, arith, Bool-cases,
}
use uk8s_cni_vpc.Result.{Result, Result-cases, ok, err}
use uk8s_cni_vpc.Host.{Ipset}
use uk8s_cni_vpc.Cnivpc.Plugin.{Plugin, PluginState}
use uk8s_cni_vpc.Cnivpc.NatOutgoing.{
  sync_nat_gw_outgoing_ip, delete_nat_gw_outgoing_ip, added_answer,
}
use uk8s_cni_vpc.Cnivpc.NatOutgoing.Membership.{
  IpsetLaws, Canonical, entry-Canonical, delete-member,
}
use uk8s_cni_vpc.Cnivpc.Networking.{PodIpAssignment}
use uk8s_cni_vpc.Cnivpc.Commands.{rollback_nat_gw_outgoing_ip, still_added, added_flag, sync_flag}

flag_injective : {a b : Bool} → ok a ≡ ok b → a ≡ b
flag_injective h = ground arith

flag_true : {r : Result Bool} → added_flag r ≡ true → r ≡ ok true
unfolding added_flag
flag_true {r = ok b} h = ap ok h
flag_true {r = err e} h = absurd (ground arith)

not_still : {r : Result (Unit {0})} → still_added r ≡ false → r ≡ ok tt
unfolding still_added
not_still {r = ok u} h = refl
not_still {r = err e} h = absurd (ground arith)

module _ {S : Type 0} (ipset : Ipset S) (member : String → S → Bool)
    (laws : IpsetLaws ipset member) where
  -- An address that the call added was not there before.
  sync-added :
      (x y : String) (enabled : Bool) (s : S)
      → Canonical ipset y
      → (sync_nat_gw_outgoing_ip ipset y enabled s).0 ≡ ok true
      → (member x (sync_nat_gw_outgoing_ip ipset y enabled s).1 ≡ (x == y || member x s))
        × (member y s ≡ false)
  unfolding sync_nat_gw_outgoing_ip added_answer
  sync-added x y enabled s canonical h =
      let made = (ipset.create s).1 in
      elim (Result-cases (ipset.add y made).0) [
        | inl (u, e) ↦ ground (
          arith,
          entry-Canonical ipset member laws y canonical,
          laws.create_same x s,
          laws.create_same y s,
          laws.add_ok x y made,
          laws.add_new y made,
        )
        | inr (e, f) ↦ absurd (ground (arith, entry-Canonical ipset member laws y canonical))
      ]

  -- A call that added nothing changed nothing.
  sync-unadded :
      (x y : String) (enabled : Bool) (s : S)
      → Canonical ipset y
      → added_flag (sync_nat_gw_outgoing_ip ipset y enabled s).0 ≡ false
      → member x (sync_nat_gw_outgoing_ip ipset y enabled s).1 ≡ member x s
  unfolding sync_nat_gw_outgoing_ip added_answer added_flag
  sync-unadded x y enabled s canonical h =
      let made = (ipset.create s).1 in
      elim (Result-cases (ipset.add y made).0) [
        | inl (u, e) ↦
            ground (arith, entry-Canonical ipset member laws y canonical, laws.create_same x s)
        | inr (e, f) ↦ ground (
          arith,
          entry-Canonical ipset member laws y canonical,
          laws.create_same x s,
          laws.add_err x y made e f,
        )
      ]

  added-deleted :
      (x y : String) (enabled : Bool) (s : S)
      → Canonical ipset y
      → (sync_nat_gw_outgoing_ip ipset y enabled s).0 ≡ ok true
      → (delete_nat_gw_outgoing_ip ipset y (sync_nat_gw_outgoing_ip ipset y enabled s).1).0 ≡ ok tt
      → member x (delete_nat_gw_outgoing_ip ipset y (sync_nat_gw_outgoing_ip ipset y enabled s).1).1
        ≡ member x s
  added-deleted x y enabled s canonical h d =
      let (grown, fresh) = sync-added x y enabled s canonical h in
      delete-member ipset member laws x y (sync_nat_gw_outgoing_ip ipset y enabled s).1 canonical d
      ∙ elim (Bool-cases (x == y)) [
        | inl same ↦ ground (arith, grown, fresh, ap (λ t. member t s) ((eq_iff x y).0 same))
        | inr other ↦ ground (arith, grown)
      ]

-- The set of the gateway at a state of the plugin.
module _ ⦃plugin : Plugin⦄ (member : String → plugin.Sys → Bool)
    (laws : IpsetLaws plugin.ipset member) where
  -- The addition before a failure and the rollback after it leave the set of the gateway as it was,
  -- whether the address was added, was there, could not be added or is not for the gateway, if the
  -- rollback says that nothing of it is left.
  pub rollback_nat_gw_outgoing_ip-member :
      (x : String) (assignment : PodIpAssignment) (added : Bool) (s : PluginState plugin)
      → Canonical plugin.ipset assignment.network.vpc_ip
      → (sync_flag assignment s).0 ≡ ok added
      → (rollback_nat_gw_outgoing_ip added assignment.network (sync_flag assignment s).1).0
        ≡ ok false
      → member x
          (rollback_nat_gw_outgoing_ip added assignment.network (sync_flag assignment s).1).1.sys
        ≡ member x s.sys
  unfolding rollback_nat_gw_outgoing_ip sync_flag
  rollback_nat_gw_outgoing_ip-member x assignment false s canonical h done =
      sync-unadded plugin.ipset member laws x assignment.network.vpc_ip
        assignment.nat_gw_outgoing_enabled s.sys canonical (flag_injective h)
  rollback_nat_gw_outgoing_ip-member x assignment true s canonical h done =
      added-deleted plugin.ipset member laws x assignment.network.vpc_ip
        assignment.nat_gw_outgoing_enabled s.sys canonical (flag_true (flag_injective h))
        (not_still (flag_injective done))
