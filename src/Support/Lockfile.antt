-- ===== src/Support/Lockfile.antt =====
-- pkg/lockfile/lockfile.go: the plugin's lock on the node, tried until it is free.
use uk8s_cni_vpc.Prelude.{ℕ, zero, suc, ◌-◌, ◌<◌, ◌≡◌, refl, arith}
use uk8s_cni_vpc.Result.{ok, err, Error, failure}
use uk8s_cni_vpc.Step.{Step}

-- What `TryLock` answers: it got the lock, another process has it, or it cannot tell.
pub data Tried : Type 0 where
  locked busy : Tried
  broken : Error → Tried

pub record LockLib : Type 1 where
  pub World : Type 0
  pub try_lock : World → Tried × World
  -- thirty milliseconds
  pub sleep : World → World

abbrev pub max_tries : ℕ
max_tries = 80000

abbrev pub not_acquired : Error
not_acquired = failure "lockfile not acquired, aborting"

module _ (lib : LockLib) where
  -- The loop, by what `tries` is after it was counted down: the last count makes no attempt.
  unfoldable pub acquire_loop : ℕ → Step lib.World (Unit {0})
  acquire_loop zero w = (err not_acquired, w)
  acquire_loop (suc tries) w =
      let (r, w1) = lib.try_lock w in
      elim r [
        | locked ↦ (ok tt, w1)
        | busy ↦ acquire_loop tries (lib.sleep w1)
        | broken e ↦ (err e, w1)
      ]

  unfoldable pub acquire_lock : Step lib.World (Unit {0})
  acquire_lock = acquire_loop (max_tries - 1)

  -- The world after a number of attempts and waits, and that each of them found the lock taken.
  abbrev pub after_waits : ℕ → lib.World → lib.World
  after_waits zero w = w
  after_waits (suc n) w = after_waits n (lib.sleep (lib.try_lock w).1)

  abbrev pub AllBusy : ℕ → lib.World → Type 0
  AllBusy zero w = Unit
  AllBusy (suc n) w = ((lib.try_lock w).0 ≡ busy) × AllBusy n (lib.sleep (lib.try_lock w).1)

  acquire_loop-after_waits :
      (tries n : ℕ) (w : lib.World)
      → n < tries
      → AllBusy n w
      → (lib.try_lock (after_waits n w)).0 ≡ locked
      → acquire_loop tries w ≡ (ok tt, (lib.try_lock (after_waits n w)).1)
  unfolding acquire_loop
  acquire_loop-after_waits zero n w few taken free = absurd (omega arith)
  acquire_loop-after_waits (suc tries) zero w few taken free = rw (free, acquire_loop) refl
  acquire_loop-after_waits (suc tries) (suc n) w few taken free =
      rw (taken.0, acquire_loop)
        (acquire_loop-after_waits tries n (lib.sleep (lib.try_lock w).1) (omega arith) taken.1 free)

  -- If the lock is taken for fewer than 79999 attempts and free at the next one, it is acquired then,
  -- and the loop has ended.
  pub acquire_lock-after_waits :
      (n : ℕ) (w : lib.World)
      → n < max_tries - 1
      → AllBusy n w
      → (lib.try_lock (after_waits n w)).0 ≡ locked
      → acquire_lock w ≡ (ok tt, (lib.try_lock (after_waits n w)).1)
  unfolding acquire_lock
  acquire_lock-after_waits n w few taken free =
      acquire_loop-after_waits (max_tries - 1) n w few taken free

  -- A lock that stays taken is given up after 79999 attempts.
  acquire_loop-busy :
      (tries : ℕ) (w : lib.World)
      → AllBusy tries w
      → acquire_loop tries w ≡ (err not_acquired, after_waits tries w)
  unfolding acquire_loop
  acquire_loop-busy zero w taken = refl
  acquire_loop-busy (suc tries) w taken =
      rw (taken.0, acquire_loop) (acquire_loop-busy tries (lib.sleep (lib.try_lock w).1) taken.1)
