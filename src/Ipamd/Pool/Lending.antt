-- ===== src/Ipamd/Pool/Lending.antt =====
-- pkg/ipamd/pool.go: an address that leaves a pool is handed out, put back or released.
use uk8s_cni_vpc.Prelude.{
  String, ◌≡◌, refl, ap, sym, subst, ◌∙◌, ◌⊎◌, inl, inr, Bool, true, false, Bool-cases, arith,
}
use uk8s_cni_vpc.Result.{Result, ok, err, Error, Result-cases}
use uk8s_cni_vpc.Step.{◌>>=◌}
use uk8s_cni_vpc.Database
use uk8s_cni_vpc.Database.{KeyValue}
use uk8s_cni_vpc.Database.Laws.{
  Holds, Popped, pop-Popped, pop_fails_keeps, put-Holds, put_fails_keeps, new_bolt-entry,
  new_bolt-eq-ok,
}
use uk8s_cni_vpc.Ipamd.Types.{PodNetwork, BorrowIpRequest}
use uk8s_cni_vpc.Ipamd.World.{Env, EnvLaws, Config, State}
use uk8s_cni_vpc.Ipamd.Uapi.{uapi_delete_secondary_ip, uapi_move_secondary_ip_mac}
use uk8s_cni_vpc.Ipamd.Uapi.Release.{uapi_move-SameStore}
use uk8s_cni_vpc.Ipamd.Pool.{
  open_pool, get_pool, pool_name, pool_put, pool_pop, contains, put_ip_to_pool, stored_or_released,
  backup_release_secondary_ip, reserved_ip_key, lend_ip, lent,
}

module _ ⦃env : Env⦄ ⦃config : Config⦄ (laws : EnvLaws env) where
  -- Two files with the same data in every bucket.
  abbrev pub SameEntries : env.bolt.File → env.bolt.File → Type 0
  SameEntries f f' = (m j : String) → laws.bolt.entry f' m j ≡ laws.bolt.entry f m j

  -- The pool of the address's subnet holds the address.
  abbrev pub InPool : env.bolt.File → PodNetwork → Type 0
  InPool f pn =
      Holds env.bolt laws.bolt env.networks f (pool_name pn.subnet_id) (reserved_ip_key pn) pn

  pub get_pool-SameEntries :
      (subnet : String) (create : Bool) (s : State env)
      → SameEntries s.file (get_pool subnet create s).1.file
  unfolding get_pool open_pool
  get_pool-SameEntries subnet create s m j =
      ground (arith, new_bolt-entry env.bolt laws.bolt (pool_name subnet) s.file m j)

  pub get_pool-eq-ok :
      (subnet : String) (create : Bool) (pool : String) (s : State env)
      → (get_pool subnet create s).0 ≡ ok pool
      → pool ≡ pool_name subnet
  unfolding get_pool open_pool
  get_pool-eq-ok subnet create pool s h =
      ground (arith, new_bolt-eq-ok env.bolt laws.bolt (pool_name subnet) pool s.file)

  get_pool_keeps : (subnet : String) (s : State env) → (get_pool subnet false s).1 ≡ s
  unfolding get_pool open_pool
  get_pool_keeps subnet s = elim (Bool-cases (contains (pool_name subnet) s.pools)) [
    | inl e ↦ rw e refl
    | inr e ↦ rw e refl
  ]

  -- After a failed write: the address was given up to the VPC service from a state with the data of
  -- `s`.
  pub record GivenUp (pn : PodNetwork) (s s' : State env) : Type 0 where
    pub before : State env
    pub kept : SameEntries s.file before.file
    pub released : s' ≡ (uapi_delete_secondary_ip pn before).1

  -- The pool of the address cannot be opened, or the address cannot be written to it.
  abbrev pub Unstored : PodNetwork → State env → Type 0
  Unstored pn s =
      (e : Error) × (((get_pool pn.subnet_id true s).0 ≡ err e)
        ⊎ ((Database.put env.bolt env.networks (pool_name pn.subnet_id) (reserved_ip_key pn) pn
              (get_pool pn.subnet_id true s).1.file).0
            ≡ err e))

  -- An address that goes to its pool is there afterwards; or the pool cannot be opened or written, and
  -- then no pool changes and the run ends with the request to the VPC service to delete the address,
  -- which may fail. The answer says which.
  pub put_ip_to_pool-InPool :
      (pn : PodNetwork) (s : State env)
      → (((put_ip_to_pool pn s).0 ≡ ok true) × InPool (put_ip_to_pool pn s).1.file pn)
        ⊎ (((put_ip_to_pool pn s).0 ≡ ok false)
            × Unstored pn s
            × GivenUp pn s (put_ip_to_pool pn s).1)
  unfolding put_ip_to_pool stored_or_released backup_release_secondary_ip
  put_ip_to_pool-InPool pn s = elim (Result-cases (get_pool pn.subnet_id true s).0) [
    | inr (e, bad) ↦
        rw (bad, stored_or_released, ◌>>=◌)
          (inr (
            refl,
            (e, inl refl),
            record {
              before = (get_pool pn.subnet_id true s).1;
              kept = get_pool-SameEntries pn.subnet_id true s;
              released = refl;
            },
          ))
    | inl (pool, found) ↦
        let t : State env = (get_pool pn.subnet_id true s).1 in
        let name : String = pool_name pn.subnet_id in
        let key : String = reserved_ip_key pn in
        let named : (get_pool pn.subnet_id true s).0 ≡ ok name =
          found ∙ ap ok (get_pool-eq-ok pn.subnet_id true pool s found) in
        elim (Result-cases (Database.put env.bolt env.networks name key pn t.file).0) [
          | inl (u, done) ↦
              rw (named, done, stored_or_released, ◌>>=◌)
                (inl (
                  refl,
                  put-Holds env.bolt laws.bolt env.networks laws.networks name key pn t.file done,
                ))
          | inr (e, bad) ↦
              rw (named, bad, stored_or_released, ◌>>=◌)
                (inr (
                  refl,
                  (e, inr refl),
                  record {
                    before = (pool_put name pn t).1;
                    kept = λ m j.
                        rw
                          (put_fails_keeps env.bolt laws.bolt env.networks name key pn t.file
                            (rw bad refl))
                          (get_pool-SameEntries pn.subnet_id true s m j);
                    released = refl;
                  },
                ))
        ]
  ]

  abbrev pub WasInPool : BorrowIpRequest → State env → KeyValue PodNetwork → Type 0
  WasInPool req s kv =
      Holds env.bolt laws.bolt env.networks s.file (pool_name req.subnet_id) kv.key kv.value

  -- What a failed loan leaves: nothing was taken, or what was taken is back in its pool, or it was
  -- released after the pool could not be written.
  pub data Unlent (req : BorrowIpRequest) (s s' : State env) : Type 0 where
    untouched : SameEntries s.file s'.file → Unlent req s s'
    restored :
        (kv : KeyValue PodNetwork) → WasInPool req s kv → InPool s'.file kv.value → Unlent req s s'
    given_up :
        (kv : KeyValue PodNetwork) (t : State env)
        → WasInPool req s kv
        → GivenUp kv.value t s'
        → Unlent req s s'

  -- What a loan leaves: the address was in the pool of the subnet, is gone from it and from nowhere
  -- else, and now carries the borrower's MAC address.
  pub record Lent (req : BorrowIpRequest) (s s' : State env) (pn : PodNetwork) : Type 0 where
    pub taken : KeyValue PodNetwork
    pub popped :
        Popped env.bolt laws.bolt env.networks (pool_name req.subnet_id) s.file s'.file taken
    pub handed : pn ≡ record (taken.value) { mac_address = req.mac_address }

  abbrev pub LendOutcome : BorrowIpRequest → State env → Result PodNetwork → State env → Type 0
  LendOutcome req s (ok pn) s' = Lent req s s' pn
  LendOutcome req s (err e) s' = Unlent req s s'

  lent-LendOutcome :
      (req : BorrowIpRequest) (kv : KeyValue PodNetwork) (s t : State env)
      → Popped env.bolt laws.bolt env.networks (pool_name req.subnet_id) s.file t.file kv
      → (moved : Result (Unit {0}))
      → LendOutcome req s (lent req kv.value moved t).0 (lent req kv.value moved t).1
  unfolding lent
  lent-LendOutcome req kv s t popped (ok u) = record { taken = kv; popped = popped; handed = refl }
  lent-LendOutcome req kv s t popped (err e) = elim (put_ip_to_pool-InPool kv.value t) [
    | inl (stored, back) ↦ rw (stored, ◌>>=◌) (restored kv popped.held back)
    | inr (failed, unstored, gone) ↦ rw (failed, ◌>>=◌) (given_up kv t popped.held gone)
  ]

  -- No loan loses an address: if it succeeds, the address that it returns was in the pool and is out
  -- of it; if it fails, every pool is as it was, or the address is back in its pool, or it was handed
  -- to the VPC service for release.
  pub lend_ip-LendOutcome :
      (req : BorrowIpRequest) (s : State env)
      → LendOutcome req s (lend_ip req s).0 (lend_ip req s).1
  unfolding lend_ip
  lend_ip-LendOutcome req s = elim (Result-cases (get_pool req.subnet_id false s).0) [
    | inr (e, bad) ↦
        rw (bad, lend_ip, ◌>>=◌) (untouched (get_pool-SameEntries req.subnet_id false s))
    | inl (pool, found) ↦
        let name : String = pool_name req.subnet_id in
        let named : (get_pool req.subnet_id false s).0 ≡ ok name =
          found ∙ ap ok (get_pool-eq-ok req.subnet_id false pool s found) in
        elim (Result-cases (Database.pop env.bolt env.networks name s.file).0) [
          | inr (e, bad) ↦
              rw (named, get_pool_keeps req.subnet_id s, bad, ◌>>=◌)
                (untouched (λ m j.
                  rw (pop_fails_keeps env.bolt laws.bolt env.networks name s.file (rw bad refl))
                    refl))
          | inl (kv, popped) ↦
              let pn : PodNetwork = kv.value in
              let t : State env = (pool_pop name s).1 in
              let moved : Result (Unit {0}) × State env =
                uapi_move_secondary_ip_mac pn.vpc_ip pn.mac_address pn.subnet_id req.mac_address
                  t in
              let same =
                (uapi_move-SameStore pn.vpc_ip pn.mac_address pn.subnet_id req.mac_address
                  t).file in
              rw (named, get_pool_keeps req.subnet_id s, popped, ◌>>=◌)
                (lent-LendOutcome req kv s moved.1
                  (subst (λ f. Popped env.bolt laws.bolt env.networks name s.file f kv) (sym same)
                    (pop-Popped env.bolt laws.bolt env.networks name s.file kv popped))
                  moved.0)
        ]
  ]
