-- ===== src/Ipamd/Server/Deletion.antt =====
-- pkg/ipamd/pool.go, the deletion of a pod's network in the loop.
use uk8s_cni_vpc.Prelude.{◌≡◌, Bool, true, false}
use uk8s_cni_vpc.Result.{is_ok}
use uk8s_cni_vpc.Ipamd.Types.{PodNetwork}
use uk8s_cni_vpc.Ipamd.World.{Env, EnvLaws, Config, State}
use uk8s_cni_vpc.Ipamd.Pool.Lending.{GivenUp}
use uk8s_cni_vpc.Ipamd.Pool.Deposit.{Cools, Uncooled, cooling_from}

module _ ⦃env : Env⦄ ⦃config : Config⦄ (laws : EnvLaws env) where
  -- The API server answers with the pod's claim.
  abbrev pub has_claim : PodNetwork → State env → Bool
  has_claim pn s = is_ok (env.get_claim pn.pod_ns pn.pod_name s.cluster).0

  -- What a deletion leaves behind.
  pub data DelOutcome (pn : PodNetwork) (s s' : State env) : Type 0 where
    reserved : has_claim pn s ≡ true → s'.file ≡ s.file → s'.cloud ≡ s.cloud → DelOutcome pn s s'
    cools :
        has_claim pn s ≡ false
        → Cools laws (cooling_from laws pn s.host) s'.file
        → DelOutcome pn s s'
    given_up :
        has_claim pn s ≡ false
        → Uncooled laws (cooling_from laws pn s.host) s.file
        → GivenUp laws (cooling_from laws pn s.host).network s s'
        → DelOutcome pn s s'
