-- ===== src/Ipamd/Borrow/Keys.antt =====
-- pkg/ipamd/pool.go, `borrowIP`: asking other daemons writes nothing to the bolt file.
use uk8s_cni_vpc.Prelude.{String, ◌≡◌, refl, List, [], ◌∷◌, length, leb, arith}
use uk8s_cni_vpc.Ipamd.Types.{AddPodNetworkRequest, Ipamd}
use uk8s_cni_vpc.Ipamd.World.{Env, EnvLaws, Config, State}
use uk8s_cni_vpc.Ipamd.Keyed.{
  Keeps, bind-Keeps, same-Keeps, or_else-Keeps, raise-Keeps, cluster-Keeps, if-Keeps,
}
use uk8s_cni_vpc.Ipamd.Borrow.{
  gather, borrow_from, borrow_candidates, borrow_listed, borrow_ip, sort_by_current,
  filter_borrow_candidates,
}

module _ ⦃env : Env⦄ ⦃config : Config⦄ where
  gather-file :
      (subnet : String) (xs : List Ipamd) (s : State env) → (gather subnet xs s).1.file ≡ s.file
  unfolding gather
  gather-file subnet [] s = refl
  gather-file subnet (x ∷ xs) s = ground (
    arith,
    gather-file subnet xs s,
    gather-file subnet xs (record s { cluster = (env.get_node x.node s.cluster).1 }),
  )

  borrow_from-file :
      (req : AddPodNetworkRequest) (xs : List Ipamd) (s : State env)
      → (borrow_from req xs s).1.file ≡ s.file
  unfolding borrow_from
  borrow_from-file req [] s = refl
  borrow_from-file req (x ∷ xs) s =
      let dialled : State env = record s { host = (env.dial x.addr s.host).1 } in
      ground (
        arith,
        borrow_from-file req xs dialled,
        borrow_from-file req xs (record dialled {
          host =
              (env.borrow_ip x.addr
                (record { mac_address = req.mac_address; subnet_id = req.subnet_id })
                dialled.host).1;
        }),
      )

module _ ⦃env : Env⦄ ⦃config : Config⦄ (laws : EnvLaws env) where
  borrow_candidates-Keeps :
      (req : AddPodNetworkRequest) (xs : List Ipamd) → Keeps laws (borrow_candidates req xs)
  unfolding borrow_candidates
  borrow_candidates-Keeps req [] = raise-Keeps laws _
  borrow_candidates-Keeps req (x ∷ xs) =
      same-Keeps laws _ (borrow_from-file req (sort_by_current (filter_borrow_candidates (x ∷ xs))))

  borrow_listed-Keeps :
      (req : AddPodNetworkRequest) (xs : List Ipamd) → Keeps laws (borrow_listed req xs)
  unfolding borrow_listed
  borrow_listed-Keeps req xs = if-Keeps laws (leb (length xs) 1) _ _ (raise-Keeps laws _) (
      bind-Keeps laws _ _ (same-Keeps laws _ (gather-file req.subnet_id xs))
        (borrow_candidates-Keeps req))

  pub borrow_ip-Keeps : (req : AddPodNetworkRequest) → Keeps laws (borrow_ip req)
  unfolding borrow_ip
  borrow_ip-Keeps req =
      bind-Keeps laws _ _ (or_else-Keeps laws _ _ (cluster-Keeps laws _)) (borrow_listed-Keeps req)
