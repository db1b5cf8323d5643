-- ===== src/Cnivpc/Interfaces/Leftover.antt =====
-- cmd/cnivpc/rpc.go: what becomes of a network interface that was made for a subnet.
use uk8s_cni_vpc.Prelude.{
  ℕ, zero, suc, String, Bool, Option, none, some, if◌then◌else◌, ◌≡◌, ◌≢◌, refl, sym, ap, ◌∙◌,
  subst, ◌⊎◌, inl, inr, Bool-cases, Option-cases, arith,
}
use uk8s_cni_vpc.Result.{Result, ok, err, failure, Result-cases}
use uk8s_cni_vpc.Step.{pure, try, raise, ◌>>=◌}
use uk8s_cni_vpc.Step.Runs.{bind-next}
use uk8s_cni_vpc.Cnivpc.Plugin.{Plugin, PluginState, Act, on_mem, NetworkInterface}
use uk8s_cni_vpc.Uapi.{Metadata, reload_meta}
use uk8s_cni_vpc.Cnivpc.Interfaces.{
  delete_network_interface, describe_network_interface, attach_network_interface, await_uni,
  await_found, await_read, find_uni, ticks, awaited, attach_new, use_new, is_cons,
}

ok_some : (a b : String) → ok (some a) ≡ ok (some b) → a ≡ b
ok_some a b h = cc

module _ ⦃plugin : Plugin⦄ where
  -- The metadata, read anew with the outcome `u`, shows this interface for the subnet.
  pub record Shown (subnet id : String) (u : PluginState plugin) : Type 0 where
    pub before : PluginState plugin
    pub metadata : Metadata
    pub read : on_mem (reload_meta plugin.uapi) before ≡ (ok metadata, u)
    pub found : find_uni subnet metadata.uhost_interfaces ≡ some id

  -- The new interface was attached at once, the metadata then showed one for the subnet, and the last
  -- call was for the description of that one; the result of the run is its answer.
  pub record Described (subnet : String) (uni : NetworkInterface) (s : PluginState plugin)
      (out : Result (Option NetworkInterface) × PluginState plugin) : Type 0 where
    pub attached : (attach_network_interface uni.interface_id plugin.uapi.instance_id s).0 ≡ ok tt
    pub shown_id : String
    pub when_shown : PluginState plugin
    pub shown : Shown subnet shown_id when_shown
    pub given : out ≡ (describe_network_interface shown_id >>= λ uni. pure (some uni)) when_shown

  -- The last call of the run was the request to delete the new interface, and the caller gets none.
  pub record Deleted (id : String) (out : Result (Option NetworkInterface) × PluginState plugin)
      : Type 0 where
    pub before : PluginState plugin
    pub asked : out.1 ≡ (delete_network_interface id before).1
    pub none_given : (x : NetworkInterface) → out.0 ≢ ok (some x)

  abbrev pub Settled :
      String
      → NetworkInterface
      → PluginState plugin
      → Result (Option NetworkInterface) × PluginState plugin
      → Type 0
  Settled subnet uni s out = Described subnet uni s out ⊎ Deleted uni.interface_id out

  await_uni-Shown :
      (fuel : ℕ) (subnet id : String) (s : PluginState plugin)
      → (await_uni fuel subnet s).0 ≡ ok (some id)
      → Shown subnet id (await_uni fuel subnet s).1
  unfolding await_uni await_read await_found
  await_uni-Shown zero subnet id s h = absurd (ground arith)
  await_uni-Shown (suc fuel) subnet id s h =
      let u : PluginState plugin = (on_mem (reload_meta plugin.uapi) s).1 in
      let answer = (on_mem (reload_meta plugin.uapi) s).0 in
      elim (Result-cases answer) [
        | inr (e, bad) ↦
            rw (bad, await_uni) (await_uni-Shown fuel subnet id u (rw (bad, await_uni) at h))
        | inl (md, told) ↦ elim (Option-cases (find_uni subnet md.uhost_interfaces)) [
          | inl nothing ↦
              rw (told, await_read)
                (rw (nothing, await_found)
                  (await_uni-Shown fuel subnet id u
                    (rw (told, nothing, await_read, await_found) at h)))
          | inr (other, there) ↦
              let same : other ≡ id =
                ok_some other id (rw (told, there, await_read, await_found) at h) in
              rw (told, await_read)
                (rw (there, await_found)
                  (record {
                    before = s;
                    metadata = md;
                    read = ap (λ r. (r, u)) told;
                    found = there ∙ ap some same;
                  }))
        ]
      ]

  await_uni-ok :
      (fuel : ℕ) (subnet : String) (s : PluginState plugin)
      → (found : Option String) × ((await_uni fuel subnet s).0 ≡ ok found)
  unfolding await_uni await_read await_found
  await_uni-ok zero subnet s = (none, refl)
  await_uni-ok (suc fuel) subnet s =
      let u : PluginState plugin = (on_mem (reload_meta plugin.uapi) s).1 in
      elim (Result-cases (on_mem (reload_meta plugin.uapi) s).0) [
        | inr (e, bad) ↦ rw (bad, await_uni) (await_uni-ok fuel subnet u)
        | inl (md, told) ↦ elim (Option-cases (find_uni subnet md.uhost_interfaces)) [
          | inl nothing ↦
              rw (told, await_read) (rw (nothing, await_found) (await_uni-ok fuel subnet u))
          | inr (other, there) ↦ rw (told, await_read) (rw (there, await_found) (some other, refl))
        ]
      ]

  abbrev count : PluginState plugin → ℕ
  count s = (plugin.unis.ticks s.sys).0

  awaited-Settled :
      (subnet : String) (uni : NetworkInterface) (s v : PluginState plugin)
      → (attach_network_interface uni.interface_id plugin.uapi.instance_id s).0 ≡ ok tt
      → (found : Option String) → ((id : String) → found ≡ some id → Shown subnet id v)
      → Settled subnet uni s (awaited uni.interface_id found v)
  unfolding awaited delete_network_interface
  awaited-Settled subnet uni s v said none shown =
      inr (record { before = v; asked = refl; none_given = λ x h. cc })
  awaited-Settled subnet uni s v said (some id) shown = inl (record {
    attached = said;
    shown_id = id;
    when_shown = v;
    shown = shown id refl;
    given = refl;
  })

  attach_new-Settled :
      (subnet : String) (uni : NetworkInterface) (s t : PluginState plugin)
      (attached : Result (Unit {0}))
      → (attach_network_interface uni.interface_id plugin.uapi.instance_id s).0 ≡ attached
      → Settled subnet uni s (attach_new subnet uni attached t)
  unfolding attach_new delete_network_interface ticks awaited
  attach_new-Settled subnet uni s t (err e) said =
      inr (record { before = t; asked = refl; none_given = λ x h. cc })
  attach_new-Settled subnet uni s t (ok u) said =
      let (n, counted) = ticks t in
      let (found, e) = await_uni-ok (count t) subnet counted in
      let v : PluginState plugin = (await_uni (count t) subnet counted).1 in
      subst (Settled subnet uni s)
        (sym (bind-next (await_uni (count t) subnet) (awaited uni.interface_id) counted found e))
        (awaited-Settled subnet uni s v said found
          (λ id same. await_uni-Shown (count t) subnet id counted (e ∙ ap ok same)))

  -- The two ways of a new interface.
  abbrev use_if : Bool → String → NetworkInterface → Act (Option NetworkInterface)
  use_if b subnet uni =
      if b
      then (try (attach_network_interface uni.interface_id plugin.uapi.instance_id)
          >>= attach_new subnet uni)
      else (delete_network_interface uni.interface_id >>= λ _.
          raise (failure "created new UNI with no ip"))

  -- After an interface was made for a subnet, the caller gets no interface and the last call was the
  -- request to delete the new one; or the new one was attached, the metadata showed an interface for
  -- the subnet, and the result is what its description answers, an error included.
  pub use_new-Settled :
      (subnet : String) (uni : NetworkInterface) (s : PluginState plugin)
      → Settled subnet uni s (use_new subnet uni s)
  unfolding use_new delete_network_interface
  use_new-Settled subnet uni s = elim (Bool-cases (is_cons uni.private_ip_set)) [
    | inr none_there ↦
        subst (λ b. Settled subnet uni s (use_if b subnet uni s)) (sym none_there)
          (inr (record { before = s; asked = refl; none_given = λ x h. cc }))
    | inl some_there ↦
        subst (λ b. Settled subnet uni s (use_if b subnet uni s)) (sym some_there)
          (attach_new-Settled subnet uni s
            (attach_network_interface uni.interface_id plugin.uapi.instance_id s).1
            (attach_network_interface uni.interface_id plugin.uapi.instance_id s).0 refl)
  ]
