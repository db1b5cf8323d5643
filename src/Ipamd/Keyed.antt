-- ===== src/Ipamd/Keyed.antt =====
-- pkg/ipamd: every address stands under its own key. `Keyed` is the invariant of the bolt file that
-- the daemon's goroutines share; the modules below show that each of them keeps it.
use uk8s_cni_vpc.Prelude.{
  String, ◌≡◌, refl, sym, ap, subst, ◌∙◌, inl, inr, Bool, true, false, Bool-cases, ◌==◌, eq_iff,
  none, some, if◌then◌else◌, false≢true,
}
use uk8s_cni_vpc.Result.{Result, Error}
use uk8s_cni_vpc.Step.{Step, try, or_else, lift, pure, raise, ◌>>=◌}
use uk8s_cni_vpc.Step.Runs.{bind-cases}
use uk8s_cni_vpc.Database.{pod_key}
use uk8s_cni_vpc.Database.Laws.{Holds, Holds-unique}
use uk8s_cni_vpc.Database.Writes.{NoMore, NoMore-Holds, put-Held, put-Held_other}
use uk8s_cni_vpc.Ipamd.Types.{PodNetwork, CooldownItem}
use uk8s_cni_vpc.Ipamd.World.{
  Env, EnvLaws, Config, State, Io, on_cloud, on_cluster, on_host, time_now,
}
use uk8s_cni_vpc.Ipamd.Pool.{
  pool_name, pool_db_name, cooldown_db_name, pool_put, cooldown_put, reserved_ip_key,
}
use uk8s_cni_vpc.Ipamd.Pool.Cooling.{pool_name-ne}
use uk8s_cni_vpc.Ipamd.Reconcile.{network_db_name, network_put}
use text.Mathlib.Text.{starts_with}
use text.Mathlib.TextLemmas.{append_assoc}
use text.Mathlib.TextPositions.{starts_with-append}

-- The key of the record of a pod.
abbrev pub record_key : PodNetwork → String
record_key pn = pod_key pn.pod_name pn.pod_ns pn.sandbox_id

==-sym_false : (a b : String) → (a == b) ≡ false → (b == a) ≡ false
==-sym_false a b h = elim (Bool-cases (b == a)) [
  | inr e ↦ e
  | inl e ↦ absurd (false≢true (sym h ∙ (eq_iff a b).1 (sym ((eq_iff b a).0 e))))
]

module _ ⦃env : Env⦄ ⦃config : Config⦄ where
  pool_name-ne_records : (subnet : String) → (pool_name subnet == network_db_name) ≡ false
  unfolding pool_name
  pool_name-ne_records subnet = elim (Bool-cases (pool_name subnet == network_db_name)) [
    | inr e ↦ e
    | inl e ↦
        let same = (eq_iff (pool_name subnet) network_db_name).0 e in
        let wrong : starts_with network_db_name "cni-vpc-ip-pool" ≡ true =
          subst (λ t. starts_with t "cni-vpc-ip-pool" ≡ true) same
            (starts_with-append "cni-vpc-ip-pool" _) in
        absurd (false≢true wrong)
  ]

  pub pool_name-ne_old : (subnet : String) → (pool_name subnet == pool_db_name) ≡ false
  unfolding pool_name
  pool_name-ne_old subnet = elim (Bool-cases (pool_name subnet == pool_db_name)) [
    | inr e ↦ e
    | inl e ↦
        let same = (eq_iff (pool_name subnet) pool_db_name).0 e in
        let wrong : starts_with pool_db_name "cni-vpc-ip-pool-" ≡ true =
          subst (λ t. starts_with t "cni-vpc-ip-pool-" ≡ true)
            (append_assoc pool_db_name "-" (if subnet == "" then config.subnet_id else subnet)
              ∙ same)
            (starts_with-append "cni-vpc-ip-pool-" _) in
        absurd (false≢true wrong)
  ]

module _ ⦃env : Env⦄ ⦃config : Config⦄ (laws : EnvLaws env) where
  -- An address in a pool has its own key there and belongs to the pool's subnet; an address that
  -- cools down and the record of a pod have their own keys, and so have the addresses in the one pool
  -- of the first version, which a start empties.
  pub record Keyed (f : env.bolt.File) : Type 0 where
    pub in_pool :
        (subnet key : String) (pn : PodNetwork)
        → Holds env.bolt laws.bolt env.networks f (pool_name subnet) key pn
        → (key ≡ reserved_ip_key pn) × (pool_name pn.subnet_id ≡ pool_name subnet)
    pub cooling :
        (key : String) (item : CooldownItem)
        → Holds env.bolt laws.bolt env.cooldowns f cooldown_db_name key item
        → key ≡ reserved_ip_key item.network
    pub recorded :
        (key : String) (pn : PodNetwork)
        → Holds env.bolt laws.bolt env.networks f network_db_name key pn
        → key ≡ record_key pn
    pub in_old_pool :
        (key : String) (pn : PodNetwork)
        → Holds env.bolt laws.bolt env.networks f pool_db_name key pn
        → key ≡ reserved_ip_key pn

  -- Whoever only reads or deletes keeps the invariant.
  pub NoMore-Keyed : (f f' : env.bolt.File) → NoMore env.bolt laws.bolt f f' → Keyed f → Keyed f'
  NoMore-Keyed f f' less k = record {
    in_pool = λ subnet key pn h.
        k.in_pool subnet key pn
          (NoMore-Holds env.bolt laws.bolt env.networks f f' (pool_name subnet) key pn less h);
    cooling = λ key item h.
        k.cooling key item
          (NoMore-Holds env.bolt laws.bolt env.cooldowns f f' cooldown_db_name key item less h);
    recorded = λ key pn h.
        k.recorded key pn
          (NoMore-Holds env.bolt laws.bolt env.networks f f' network_db_name key pn less h);
    in_old_pool = λ key pn h.
        k.in_old_pool key pn
          (NoMore-Holds env.bolt laws.bolt env.networks f f' pool_db_name key pn less h);
  }

  -- An action that keeps the invariant, whether it succeeds or fails.
  pub record Keeps {A : Type 0} (m : Io A) : Type 0 where
    pub run : (s : State env) → Keyed s.file → Keyed (m s).1.file

  pub bind-Keeps :
      {A B : Type 0} (m : Io A) (f : A → Io B) → Keeps m → ((a : A) → Keeps (f a)) → Keeps (m >>= f)
  bind-Keeps m f keep next = record {
    run = λ s k. elim (bind-cases m f s) [
      | inl (e, failed, stops) ↦ subst (λ r. Keyed r.1.file) (sym stops) (keep.run s k)
      | inr (a, done, goes) ↦
          subst (λ r. Keyed r.1.file) (sym goes) ((next a).run (m s).1 (keep.run s k))
    ];
  }

  -- Actions that write nothing, or only read and delete.
  pub same-Keeps : {A : Type 0} (m : Io A) → ((s : State env) → (m s).1.file ≡ s.file) → Keeps m
  same-Keeps m same = record { run = λ s k. subst Keyed (sym (same s)) k }

  pub less-Keeps :
      {A : Type 0} (m : Io A)
      → ((s : State env) → NoMore env.bolt laws.bolt s.file (m s).1.file)
      → Keeps m
  less-Keeps m less = record { run = λ s. NoMore-Keyed s.file (m s).1.file (less s) }

  pub try-Keeps : {A : Type 0} (m : Io A) → Keeps m → Keeps (try m)
  try-Keeps m keep = record { run = keep.run }

  pub or_else-Keeps : {A : Type 0} (m : Io A) (label : String) → Keeps m → Keeps (or_else m label)
  or_else-Keeps m label keep = record { run = keep.run }

  pub lift-Keeps : {A : Type 0} (r : Result A) → Keeps (lift r)
  lift-Keeps r = record { run = λ s k. k }

  pub pure-Keeps : {A : Type 0} (a : A) → Keeps (pure a)
  pure-Keeps a = record { run = λ s k. k }

  pub raise-Keeps : {A : Type 0} (e : Error) → Keeps (raise {A = A} e)
  raise-Keeps e = record { run = λ s k. k }

  pub cloud-Keeps : {A : Type 0} (m : Step env.Cloud A) → Keeps (on_cloud m)
  cloud-Keeps m = record { run = λ s k. k }

  pub cluster-Keeps : {A : Type 0} (m : Step env.Cluster A) → Keeps (on_cluster m)
  cluster-Keeps m = record { run = λ s k. k }

  pub host-Keeps : {A : Type 0} (m : Step env.Host A) → Keeps (on_host m)
  host-Keeps m = record { run = λ s k. k }

  pub time-Keeps : Keeps time_now
  time-Keeps = record { run = λ s k. k }

  pub if-Keeps :
      {A : Type 0} (b : Bool) (m n : Io A) → Keeps m → Keeps n → Keeps (if b then m else n)
  if-Keeps true m n p q = p
  if-Keeps false m n p q = q

  -- The writes: to the pool of the address's subnet, to the cooldown set, and of a record.
  pub pool_put-Keeps : (pn : PodNetwork) → Keeps (pool_put (pool_name pn.subnet_id) pn)
  pool_put-Keeps pn = record {
    run = λ s k. record {
      in_pool = λ subnet key w h.
          elim (put-Held env.bolt laws.bolt env.networks laws.networks _ _ pn s.file
            (pool_name subnet) key w h) [
              | inl old ↦ k.in_pool subnet key w old
              | inr (same_pool, same_key, same) ↦
                  subst
                    (λ x. (key ≡ reserved_ip_key x) × (pool_name x.subnet_id ≡ pool_name subnet))
                    same (sym same_key, same_pool)
            ];
      cooling = λ key item h. k.cooling key item (
          put-Held_other env.bolt laws.bolt env.networks env.cooldowns _ _ pn s.file
            cooldown_db_name key item (pool_name-ne pn.subnet_id) h);
      recorded = λ key w h. k.recorded key w (
          put-Held_other env.bolt laws.bolt env.networks env.networks _ _ pn s.file network_db_name
            key w (pool_name-ne_records pn.subnet_id) h);
      in_old_pool = λ key w h. k.in_old_pool key w (
          put-Held_other env.bolt laws.bolt env.networks env.networks _ _ pn s.file pool_db_name key
            w (pool_name-ne_old pn.subnet_id) h);
    };
  }

  pub cooldown_put-Keeps : (item : CooldownItem) → Keeps (cooldown_put item)
  cooldown_put-Keeps item = record {
    run = λ s k. record {
      in_pool = λ subnet key w h. k.in_pool subnet key w (
          put-Held_other env.bolt laws.bolt env.cooldowns env.networks _ _ item s.file
            (pool_name subnet) key w (==-sym_false _ _ (pool_name-ne subnet)) h);
      cooling = λ key w h.
          elim (put-Held env.bolt laws.bolt env.cooldowns laws.cooldowns _ _ item s.file
            cooldown_db_name key w h) [
              | inl old ↦ k.cooling key w old
              | inr (here, same_key, same) ↦
                  subst (λ x. key ≡ reserved_ip_key x.network) same (sym same_key)
            ];
      recorded = λ key w h. k.recorded key w (
          put-Held_other env.bolt laws.bolt env.cooldowns env.networks _ _ item s.file
            network_db_name key w refl h);
      in_old_pool = λ key w h. k.in_old_pool key w (
          put-Held_other env.bolt laws.bolt env.cooldowns env.networks _ _ item s.file pool_db_name
            key w refl h);
    };
  }

  pub network_put-Keeps :
      (key : String) (pn : PodNetwork) → key ≡ record_key pn → Keeps (network_put key pn)
  network_put-Keeps own pn named = record {
    run = λ s k. record {
      in_pool = λ subnet key w h. k.in_pool subnet key w (
          put-Held_other env.bolt laws.bolt env.networks env.networks _ _ pn s.file
            (pool_name subnet) key w (==-sym_false _ _ (pool_name-ne_records subnet)) h);
      cooling = λ key item h. k.cooling key item (
          put-Held_other env.bolt laws.bolt env.networks env.cooldowns _ _ pn s.file
            cooldown_db_name key item refl h);
      recorded = λ key w h.
          elim (put-Held env.bolt laws.bolt env.networks laws.networks _ _ pn s.file network_db_name
            key w h) [
              | inl old ↦ k.recorded key w old
              | inr (here, same_key, same) ↦
                  subst (λ x. key ≡ record_key x) same (sym same_key ∙ named)
            ];
      in_old_pool = λ key w h. k.in_old_pool key w (
          put-Held_other env.bolt laws.bolt env.networks env.networks _ _ pn s.file pool_db_name key
            w refl h);
    };
  }

  -- A file without an entry satisfies the invariant.
  pub empty-Keyed : (f : env.bolt.File) → ((m j : String) → laws.bolt.entry f m j ≡ none) → Keyed f
  empty-Keyed f empty = record {
    in_pool = λ subnet key pn h. absurd (none_held (pool_name subnet) key h.bytes h.stored);
    cooling = λ key item h. absurd (none_held cooldown_db_name key h.bytes h.stored);
    recorded = λ key pn h. absurd (none_held network_db_name key h.bytes h.stored);
    in_old_pool = λ key pn h. absurd (none_held pool_db_name key h.bytes h.stored);
  }
    where
      none_held : (m j : String) (v : env.bolt.Bytes) → laws.bolt.entry f m j ≡ some v → ⊥
      none_held m j v h = let nothing = empty m j in cc

  -- So an address of a subnet stands at most once in all the pools together.
  pub Keyed-once :
      (f : env.bolt.File)
      → Keyed f
      → (a b k j : String) (p q : PodNetwork)
      → Holds env.bolt laws.bolt env.networks f (pool_name a) k p
      → Holds env.bolt laws.bolt env.networks f (pool_name b) j q
      → p.vpc_id ≡ q.vpc_id
      → p.vpc_ip ≡ q.vpc_ip
      → p.subnet_id ≡ q.subnet_id
      → (pool_name a ≡ pool_name b) × (k ≡ j) × (p ≡ q)
  Keyed-once f keyed a b k j p q hp hq same_vpc same_ip same_subnet =
      let (own_p, pool_p) = keyed.in_pool a k p hp in
      let (own_q, pool_q) = keyed.in_pool b j q hq in
      let pools = sym pool_p ∙ ap pool_name same_subnet ∙ pool_q in
      let keys : k ≡ j = own_p ∙ (rw (same_vpc, same_ip) refl) ∙ sym own_q in
      let moved : Holds env.bolt laws.bolt env.networks f (pool_name b) j p =
        subst (λ n. Holds env.bolt laws.bolt env.networks f n j p) pools
          (subst (λ n. Holds env.bolt laws.bolt env.networks f (pool_name a) n p) keys hp) in
      (pools, keys, Holds-unique env.bolt laws.bolt env.networks f (pool_name b) j p q moved hq)
