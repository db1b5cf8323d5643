-- ===== src/Ipamd/Pool/Sizes.antt =====
-- pkg/ipamd/pool.go, `releasePool`: how far a pool that is above the high watermark is cut back.
use uk8s_cni_vpc.Prelude.{
  ℕ, zero, suc, ◌+◌, ◌-◌, ◌≤◌, String, ◌≡◌, refl, ap, inl, inr, Bool, true, arith,
}
use uk8s_cni_vpc.Result.{ok, Result-cases}
use uk8s_cni_vpc.Step.{◌>>=◌}
use uk8s_cni_vpc.Database
use uk8s_cni_vpc.Database.{KeyValue}
use uk8s_cni_vpc.Database.Laws.{new_bolt-size, pop-Popped, pop_fails_keeps, put-size-ge}
use uk8s_cni_vpc.Ipamd.Types.{PodNetwork}
use uk8s_cni_vpc.Ipamd.World.{Env, EnvLaws, Config, State}
use uk8s_cni_vpc.Ipamd.Uapi.{uapi_delete_secondary_ip}
use uk8s_cni_vpc.Ipamd.Uapi.Release.{uapi_delete-SameStore}
use uk8s_cni_vpc.Ipamd.Pool.{
  open_pool, get_pool, pool_name, pool_pop, backup_push_secondary_ip, release_loop, release_pool,
  reserved_ip_key,
}

module _ ⦃env : Env⦄ ⦃config : Config⦄ (laws : EnvLaws env) where
  abbrev pub pool_size : State env → String → ℕ
  pool_size s pool = laws.bolt.size s.file pool

  get_pool-size :
      (subnet : String) (create : Bool) (s : State env) (m : String)
      → pool_size (get_pool subnet create s).1 m ≡ pool_size s m
  unfolding get_pool open_pool
  get_pool-size subnet create s m =
      ground (arith, new_bolt-size env.bolt laws.bolt (pool_name subnet) s.file m)

  backup_push-size-ge :
      (pn : PodNetwork) (s : State env) (m : String)
      → pool_size s m ≤ pool_size (backup_push_secondary_ip pn s).1 m
  unfolding backup_push_secondary_ip
  backup_push-size-ge pn s m = elim (Result-cases (get_pool pn.subnet_id true s).0) [
    | inr (e, bad) ↦ rw (bad, ◌>>=◌) (omega (arith, get_pool-size pn.subnet_id true s m))
    | inl (pool, found) ↦
        rw (found, ◌>>=◌)
          (omega (
            arith,
            get_pool-size pn.subnet_id true s m,
            put-size-ge env.bolt laws.bolt env.networks pool (reserved_ip_key pn) pn
                (get_pool pn.subnet_id true s).1.file m,
          ))
  ]

  delete-size :
      (pn : PodNetwork) (s : State env) (m : String)
      → pool_size (uapi_delete_secondary_ip pn s).1 m ≡ pool_size s m
  delete-size pn s m = ap (λ f. laws.bolt.size f m) (uapi_delete-SameStore pn s).file

  -- Each round takes at most one address out of the pool.
  release_loop-size :
      (n : ℕ) (pool : String) (s : State env)
      → pool_size s pool ≤ pool_size (release_loop n pool s).1 pool + n
  unfolding release_loop
  release_loop-size zero pool s = omega arith
  release_loop-size (suc n) pool s =
      elim (Result-cases (Database.pop env.bolt env.networks pool s.file).0) [
        | inr (e, bad) ↦
            rw
              (
                bad,
                release_loop,
                pop_fails_keeps env.bolt laws.bolt env.networks pool s.file (rw bad refl),
              )
              (omega arith)
        | inl (kv, popped) ↦
            let taken =
              (pop-Popped env.bolt laws.bolt env.networks pool s.file kv popped).smaller in
            let s1 : State env = (pool_pop pool s).1 in
            let same = delete-size kv.value s1 pool in
            rw (popped, release_loop)
              (elim (Result-cases (uapi_delete_secondary_ip kv.value s1).0) [
                | inr (e, bad) ↦
                    rw (bad, release_loop)
                      (omega (
                        arith,
                        taken,
                        same,
                        backup_push-size-ge kv.value (uapi_delete_secondary_ip kv.value s1).1 pool,
                      ))
                | inl (u, done) ↦
                    rw (done, release_loop)
                      (omega (
                        arith,
                        taken,
                        same,
                        release_loop-size n pool (uapi_delete_secondary_ip kv.value s1).1,
                      ))
              ])
      ]

  -- A pool that is above the high watermark is never cut back below it, whatever fails on the way.
  pub release_pool-size :
      (pool : String) (size : ℕ) (s : State env)
      → size ≡ pool_size s pool
      → config.high_watermark ≤ size
      → config.high_watermark ≤ pool_size (release_pool pool size s).1 pool
  unfolding release_pool
  release_pool-size pool size s counted above =
      omega (arith, release_loop-size (size - config.high_watermark) pool s)

  -- In the next `n` rounds every pop and every deletion succeeds.
  pub data Releases (pool : String) : ℕ → State env → Type 0 where
    done : {s : State env} → Releases pool zero s
    next :
        {n : ℕ} {s : State env} (kv : KeyValue PodNetwork)
        → (Database.pop env.bolt env.networks pool s.file).0 ≡ ok kv
        → (uapi_delete_secondary_ip kv.value (pool_pop pool s).1).0 ≡ ok tt
        → Releases pool n (uapi_delete_secondary_ip kv.value (pool_pop pool s).1).1
        → Releases pool (suc n) s

  release_loop-Releases :
      (pool : String) {n : ℕ} {s : State env}
      → Releases pool n s
      → pool_size s pool ≡ pool_size (release_loop n pool s).1 pool + n
  unfolding release_loop
  release_loop-Releases pool done = omega arith
  release_loop-Releases pool (next {n} {s} kv popped deleted rest) =
      rw (popped, deleted, release_loop)
        (omega (
          arith,
          (pop-Popped env.bolt laws.bolt env.networks pool s.file kv popped).smaller,
          delete-size kv.value (pool_pop pool s).1 pool,
          release_loop-Releases pool rest,
        ))

  -- Where no call fails, a pool above the high watermark is left with exactly that many addresses.
  pub release_pool-Releases :
      (pool : String) (size : ℕ) (s : State env)
      → size ≡ pool_size s pool
      → config.high_watermark ≤ size
      → Releases pool (size - config.high_watermark) s
      → pool_size (release_pool pool size s).1 pool ≡ config.high_watermark
  unfolding release_pool
  release_pool-Releases pool size s counted above run =
      omega (arith, release_loop-Releases pool run)
