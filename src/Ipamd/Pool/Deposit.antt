-- ===== src/Ipamd/Pool/Deposit.antt =====
-- pkg/ipamd/pool.go, `cooldownIP`: the address that a pod has left is stored to cool down.
use uk8s_cni_vpc.Prelude.{◌+◌, String, ◌≡◌, refl, inl, inr, ◌⊎◌, true, arith}
use uk8s_cni_vpc.Result.{Error, err, Result-cases}
use uk8s_cni_vpc.Step.{◌>>=◌}
use uk8s_cni_vpc.Database
use uk8s_cni_vpc.Database.Laws.{Holds, put-Holds, put_fails_keeps}
use uk8s_cni_vpc.Ipamd.Types.{PodNetwork, CooldownItem}
use uk8s_cni_vpc.Ipamd.World.{Env, EnvLaws, Config, State}
use uk8s_cni_vpc.Ipamd.Pool.{
  cooldown_ip, put_ip_to_cooldown, stored_or_released, backup_release_secondary_ip,
  cooldown_db_name, reserved_ip_key, cooldown_put,
}
use uk8s_cni_vpc.Ipamd.Pool.Lending.{GivenUp}

module _ ⦃env : Env⦄ ⦃config : Config⦄ (laws : EnvLaws env) where
  -- The item of an address that starts to cool down when the clock of the host is read twice.
  abbrev pub cooling_from : PodNetwork → env.Host → CooldownItem
  cooling_from pn h = record {
    network = record pn { recycle_time = (env.now (env.now h).1).0; recycled = true };
    cooldown_over = (env.now h).0 + config.cooldown_period;
  }

  abbrev pub Cools : CooldownItem → env.bolt.File → Type 0
  Cools item f =
      Holds env.bolt laws.bolt env.cooldowns f cooldown_db_name (reserved_ip_key item.network) item

  -- The item cannot be written to the cooldown set of the file.
  abbrev pub Uncooled : CooldownItem → env.bolt.File → Type 0
  Uncooled item f =
      (e : Error) × ((Database.put env.bolt env.cooldowns cooldown_db_name
          (reserved_ip_key item.network) item f).0
        ≡ err e)

  put_ip_to_cooldown-Cools :
      (item : CooldownItem) (s : State env)
      → Cools item (put_ip_to_cooldown item s).1.file
        ⊎ (Uncooled item s.file × GivenUp laws item.network s (put_ip_to_cooldown item s).1)
  unfolding put_ip_to_cooldown stored_or_released backup_release_secondary_ip
  put_ip_to_cooldown-Cools item s =
      let key : String = reserved_ip_key item.network in
      elim (Result-cases (Database.put env.bolt env.cooldowns cooldown_db_name key item s.file).0) [
        | inl (u, done) ↦
            rw (done, stored_or_released, ◌>>=◌)
              (inl (
                put-Holds env.bolt laws.bolt env.cooldowns laws.cooldowns cooldown_db_name key item
                  s.file done))
        | inr (e, bad) ↦
            rw (bad, stored_or_released, ◌>>=◌)
              (inr (
                (e, refl),
                record {
                  before = (cooldown_put item s).1;
                  kept = λ m j.
                      rw
                        (put_fails_keeps env.bolt laws.bolt env.cooldowns cooldown_db_name key item
                          s.file (rw bad refl))
                        refl;
                  released = refl;
                },
              ))
      ]

  -- The state after the clock was read twice.
  abbrev clocked : State env → State env
  clocked s = record s { host = (env.now (env.now s.host).1).1 }

  cooldown_ip-eq :
      (pn : PodNetwork) (s : State env)
      → (cooldown_ip pn s).1 ≡ (put_ip_to_cooldown (cooling_from pn s.host) (clocked s)).1
  unfolding cooldown_ip
  cooldown_ip-eq pn s = ground arith

  pub cooldown_ip-Cools :
      (pn : PodNetwork) (s : State env)
      → Cools (cooling_from pn s.host) (cooldown_ip pn s).1.file
        ⊎ (Uncooled (cooling_from pn s.host) s.file
            × GivenUp laws (cooling_from pn s.host).network s (cooldown_ip pn s).1)
  cooldown_ip-Cools pn s = elim (put_ip_to_cooldown-Cools (cooling_from pn s.host) (clocked s)) [
    | inl stored ↦ rw (cooldown_ip-eq pn s) (inl stored)
    | inr (unstored, gone) ↦ rw (cooldown_ip-eq pn s) (
        inr (unstored, record { before = gone.before; kept = gone.kept; released = gone.released }))
  ]
