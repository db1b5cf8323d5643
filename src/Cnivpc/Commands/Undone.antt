-- ===== src/Cnivpc/Commands/Undone.antt =====
-- cmd/cnivpc/main.go: what an ADD that fails leaves behind.
use uk8s_cni_vpc.Prelude.{
  ℕ, String, Bool, true, false, ◌≡◌, refl, sym, ap, ◌∙◌, subst, ◌⊎◌, inl, inr,
}
use uk8s_cni_vpc.Result.{Result-cases, ok, err, Error}
use uk8s_cni_vpc.Step.{raise, ignore, continue, ◌>>=◌}
use uk8s_cni_vpc.Step.Runs.{bind-cases, bind-next}
use uk8s_cni_vpc.Ipamd.Types.{PodNetwork}
use uk8s_cni_vpc.Cnivpc.Plugin.{Plugin, PluginState, Act, on_sys, CmdArgs}
use uk8s_cni_vpc.Cnivpc.Addresses.{release_pod_ip}
use uk8s_cni_vpc.Cnivpc.NatOutgoing.{sync_nat_gw_outgoing_ip, delete_nat_gw_outgoing_ip}
use uk8s_cni_vpc.Cnivpc.Networking.{PodIpAssignment}
use uk8s_cni_vpc.Cnivpc.Commands.{
  rollback_nat_gw_outgoing_ip, still_added, deferred, undo, or_undo, undoing, or_deferred,
  deferring, added_flag, sync_flag, prepare, connect, record_and_map, add_assigned,
}

not_both : {A : Type 0} (a : A) (e : Error) → ok a ≡ err e → ⊥
not_both a e h = cc

module _ ⦃plugin : Plugin⦄ where
  -- From `t` on, the run rolled the set back, asked for the release of the address, and rolled the set
  -- back again if the first time had left something of it.
  abbrev pub ReleasedFrom : Bool → PodNetwork → PluginState plugin → PluginState plugin → Type 0
  ReleasedFrom added pn t final =
      (still : Bool) × ((rollback_nat_gw_outgoing_ip added pn t).0 ≡ ok still)
      × (final
          ≡ (rollback_nat_gw_outgoing_ip still pn
              (release_pod_ip pn (rollback_nat_gw_outgoing_ip added pn t).1).1).1)

  -- The devices could not be set up.
  abbrev pub Unconnected :
      CmdArgs → PodNetwork → String × ℕ → Bool → PluginState plugin → PluginState plugin → Type 0
  Unconnected args pn prepared added s final =
      (e : Error) × ((connect args pn prepared s).0 ≡ err e)
      × ReleasedFrom added pn (connect args pn prepared s).1 final

  -- The devices were set up, but the record of the network or the port mapping failed: then the set is
  -- rolled back and nothing else happens.
  abbrev pub Unrecorded :
      CmdArgs → PodNetwork → String × ℕ → Bool → PluginState plugin → PluginState plugin → Type 0
  Unrecorded args pn prepared added s final =
      let t : PluginState plugin = (connect args pn prepared s).1 in
      (e : Error) × ((connect args pn prepared s).0 ≡ ok tt)
      × ((record_and_map args pn t).0 ≡ err e)
      × (final ≡ (rollback_nat_gw_outgoing_ip added pn (record_and_map args pn t).1).1)

  -- How an ADD that got an address and failed went, step by step.
  pub data Left (args : CmdArgs) (assignment : PodIpAssignment) (s final : PluginState plugin)
      : Type 0 where
    unprepared :
        (e : Error)
        → (prepare assignment s).0 ≡ err e
        → ReleasedFrom false assignment.network (prepare assignment s).1 final
        → Left args assignment s final
    prepared :
        (done : String × ℕ) (added : Bool)
        → (prepare assignment s).0 ≡ ok done
        → (sync_flag assignment (prepare assignment s).1).0 ≡ ok added
        → Unconnected args assignment.network done added
            (sync_flag assignment (prepare assignment s).1).1
            final
          ⊎ Unrecorded args assignment.network done added
              (sync_flag assignment (prepare assignment s).1).1
              final
        → Left args assignment s final

  rollback-ok :
      (added : Bool) (pn : PodNetwork) (t : PluginState plugin)
      → (still : Bool) × ((rollback_nat_gw_outgoing_ip added pn t).0 ≡ ok still)
  unfolding rollback_nat_gw_outgoing_ip
  rollback-ok false pn t = (false, refl)
  rollback-ok true pn t =
      (still_added (on_sys (delete_nat_gw_outgoing_ip plugin.ipset pn.vpc_ip) t).0, refl)

  deferred-state :
      {A : Type 0} (added : Bool) (pn : PodNetwork) (e : Error) (t : PluginState plugin)
      → deferred {A = A} added pn e t ≡ (err e, (rollback_nat_gw_outgoing_ip added pn t).1)
  unfolding deferred
  deferred-state added pn e t =
      let (still, f) = rollback-ok added pn t in
      bind-next (rollback_nat_gw_outgoing_ip added pn) (λ _. raise e) t still f

  undo-ReleasedFrom :
      (A : Type 0) (added : Bool) (pn : PodNetwork) (e : Error) (t : PluginState plugin)
      → ReleasedFrom added pn t (undo {A = A} added pn e t).1
  unfolding undo
  undo-ReleasedFrom A added pn e t =
      let (still, f) = rollback-ok added pn t in
      (
        still,
        f,
        ap (λ x. x.1)
              (bind-next (rollback_nat_gw_outgoing_ip added pn)
                (λ still. ignore (release_pod_ip pn) >>= λ _. deferred still pn e) t still f)
            ∙ ap (λ x. x.1)
                (deferred-state still pn e
                  (release_pod_ip pn (rollback_nat_gw_outgoing_ip added pn t).1).1),
      )

  undoing-err :
      {A : Type 0} (added : Bool) (pn : PodNetwork) (m : Act A) (s : PluginState plugin) (x : Error)
      → (m s).0 ≡ err x
      → ReleasedFrom added pn (m s).1 (undoing added pn m s).1
  unfolding undoing or_undo
  undoing-err added pn m s x f =
      subst (λ r. ReleasedFrom added pn (m s).1 (or_undo added pn r (m s).1).1) (sym f)
        (undo-ReleasedFrom _ added pn x (m s).1)

  undoing-ok :
      {A : Type 0} (added : Bool) (pn : PodNetwork) (m : Act A) (s : PluginState plugin) (a : A)
      → (m s).0 ≡ ok a
      → undoing added pn m s ≡ (ok a, (m s).1)
  unfolding undoing or_undo
  undoing-ok added pn m s a f = ap (λ r. or_undo added pn r (m s).1) f

  undoing-fails :
      {A : Type 0} (added : Bool) (pn : PodNetwork) (m : Act A) (s : PluginState plugin) (x : Error)
      (a : A)
      → (m s).0 ≡ err x
      → (undoing added pn m s).0 ≡ ok a
      → ⊥
  unfolding undoing or_undo undo
  undoing-fails added pn m s x a bad f =
      let (still, g) = rollback-ok added pn (m s).1 in
      let ends : (undoing added pn m s).0 ≡ err x =
        ap (λ r. (or_undo added pn r (m s).1).0) bad
        ∙ ap (λ r. r.0)
            (bind-next (rollback_nat_gw_outgoing_ip added pn)
              (λ still. ignore (release_pod_ip pn) >>= λ _. deferred still pn x) (m s).1 still g)
        ∙ ap (λ r. r.0)
            (deferred-state still pn x
              (release_pod_ip pn (rollback_nat_gw_outgoing_ip added pn (m s).1).1).1) in
      not_both a x (sym f ∙ ends)

  sync_flag-ok :
      (assignment : PodIpAssignment) (t : PluginState plugin)
      → (added : Bool) × ((sync_flag assignment t).0 ≡ ok added)
  unfolding sync_flag
  sync_flag-ok assignment t = (
    added_flag
        (on_sys
          (sync_nat_gw_outgoing_ip plugin.ipset assignment.network.vpc_ip
            assignment.nat_gw_outgoing_enabled)
          t).0,
    refl,
  )

  deferring-state :
      (args : CmdArgs) (added : Bool) (pn : PodNetwork) (t : PluginState plugin) (x : Error)
      → (record_and_map args pn t).0 ≡ err x
      → (deferring added pn (record_and_map args pn) t).1
        ≡ (rollback_nat_gw_outgoing_ip added pn (record_and_map args pn t).1).1
  unfolding deferring or_deferred
  deferring-state args added pn t x f =
      ap (λ r. (or_deferred added pn r (record_and_map args pn t).1).1) f
      ∙ ap (λ y. y.1) (deferred-state added pn x (record_and_map args pn t).1)

  deferring-ok :
      (args : CmdArgs) (added : Bool) (pn : PodNetwork) (t : PluginState plugin) (u : Unit {0})
      → (record_and_map args pn t).0 ≡ ok u
      → (deferring added pn (record_and_map args pn) t).0 ≡ ok u
  unfolding deferring or_deferred
  deferring-ok args added pn t u f =
      ap (λ r. (or_deferred added pn r (record_and_map args pn t).1).0) f

  -- What follows once the address is prepared.
  finish : CmdArgs → PodIpAssignment → String × ℕ → Bool → Act (Unit {0})
  finish args assignment done added =
      undoing added assignment.network (connect args assignment.network done) >>= λ _.
      deferring added assignment.network (record_and_map args assignment.network)

  finish-err :
      (args : CmdArgs) (assignment : PodIpAssignment) (done : String × ℕ) (added : Bool)
      (s : PluginState plugin) (e : Error)
      → (finish args assignment done added s).0 ≡ err e
      → Unconnected args assignment.network done added s (finish args assignment done added s).1
        ⊎ Unrecorded args assignment.network done added s (finish args assignment done added s).1
  unfolding finish
  finish-err args assignment done added s e h =
      let pn : PodNetwork = assignment.network in
      let t : PluginState plugin = (connect args pn done s).1 in
      let last = deferring added pn (record_and_map args pn) in
      elim (Result-cases (connect args pn done s).0) [
        | inr (x, bad) ↦
            let gone = undoing-err added pn (connect args pn done) s x bad in
            elim (bind-cases (undoing added pn (connect args pn done)) (λ _. last) s) [
              | inl (y, f, stop) ↦
                  inl (x, bad, subst (λ r. ReleasedFrom added pn t r.1) (sym stop) gone)
              | inr (u, f, next) ↦
                  absurd (undoing-fails added pn (connect args pn done) s x u bad f)
            ]
        | inl (u, good) ↦
            let whole : finish args assignment done added s ≡ last t =
              ap (λ r. continue r.0 (λ _. last) r.1)
                (undoing-ok added pn (connect args pn done) s u good) in
            elim (Result-cases (record_and_map args pn t).0) [
              | inl (v, fine) ↦ absurd (
                  not_both v e
                    (sym (deferring-ok args added pn t v fine) ∙ sym (ap (λ r. r.0) whole) ∙ h))
              | inr (x, bad) ↦
                  inr (x, good, bad, ap (λ r. r.1) whole ∙ deferring-state args added pn t x bad)
            ]
      ]

  -- An ADD that got an address and fails went one of three ways. The node's interface, its MTU or the
  -- check for a conflict failed, or the devices could not be set up: then it ends with the rollback of the gateway's set, if the address was added
  -- to it, and the request to release the address. Or the record of the network or the port mapping
  -- failed: then it ends with the rollback of the set alone, and ADD asks for no release of the
  -- address beyond what the attempt to record it may have done.
  pub add_assigned-err :
      (args : CmdArgs) (assignment : PodIpAssignment) (s : PluginState plugin) (e : Error)
      → (add_assigned args assignment s).0 ≡ err e
      → Left args assignment s (add_assigned args assignment s).1
  unfolding add_assigned finish
  add_assigned-err args assignment s e h =
      let pn : PodNetwork = assignment.network in
      let first = undoing false pn (prepare assignment) in
      let t : PluginState plugin = (prepare assignment s).1 in
      let rest = λ (done : String × ℕ). sync_flag assignment >>= finish args assignment done in
      elim (Result-cases (prepare assignment s).0) [
        | inr (x, bad) ↦
            let gone = undoing-err false pn (prepare assignment) s x bad in
            elim (bind-cases first rest s) [
              | inl (y, f, stop) ↦
                  unprepared x bad (subst (λ r. ReleasedFrom false pn t r.1) (sym stop) gone)
              | inr (u, f, next) ↦ absurd (undoing-fails false pn (prepare assignment) s x u bad f)
            ]
        | inl (done, good) ↦
            let (added, g) = sync_flag-ok assignment t in
            let whole : add_assigned args assignment s
                ≡ finish args assignment done added (sync_flag assignment t).1 =
              ap (λ r. continue r.0 rest r.1) (undoing-ok false pn (prepare assignment) s done good)
              ∙ bind-next (sync_flag assignment) (finish args assignment done) t added g in
            prepared done added good g (
              subst
                (λ r.
                  Unconnected args pn done added (sync_flag assignment t).1 r.1
                  ⊎ Unrecorded args pn done added (sync_flag assignment t).1 r.1)
                (sym whole)
                (finish-err args assignment done added (sync_flag assignment t).1 e
                  (ap (λ r. r.0) (sym whole) ∙ h)))
      ]
