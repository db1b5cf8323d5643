-- ===== src/Ipamd/Assign/Verified.antt =====
-- pkg/ipamd/pool.go, `getPodIp`: what is known of an address that a pod gets.
use uk8s_cni_vpc.Prelude.{
  String, ◌≡◌, ◌≢◌, refl, ap, sym, ◌⊎◌, inl, inr, Bool, true, false, not, ◌&&◌, Bool-cases, ◌==◌,
  arith, eq_iff, subst, some, List, [], ◌∷◌,
}
use uk8s_cni_vpc.Result.{Result, ok, err, Result-cases}
use uk8s_cni_vpc.Step.{◌>>=◌}
use uk8s_cni_vpc.Ipamd.Types.{PodNetwork, AddPodNetworkRequest, IpInfo, DescribeRequest}
use uk8s_cni_vpc.Ipamd.World.{Env, Config, State, on_cloud}
use uk8s_cni_vpc.Ipamd.Uapi.{check_secondary_ip_exist, contains_ip}
use uk8s_cni_vpc.Ipamd.Pool.{put_ip_to_pool}
use uk8s_cni_vpc.Ipamd.Assign.{
  pod_enable_static_ip, assign_for, checked, check_fresh, check_ip_conflict, get_pod_ip,
}

-- The answer of the VPC service has the address.
abbrev pub Listed : String → List IpInfo → Type 0
Listed ip [] = ⊥
Listed ip (info ∷ infos) = (info.ip ≡ ip) ⊎ Listed ip infos

contains_ip-Listed :
    (ip : String) (infos : List IpInfo) → contains_ip ip infos ≡ true → Listed ip infos
contains_ip-Listed ip [] h = absurd (ground arith)
contains_ip-Listed ip (info ∷ infos) h = elim (Bool-cases (info.ip == ip)) [
  | inl here ↦ inl ((eq_iff info.ip ip).0 here)
  | inr other ↦ inr (contains_ip-Listed ip infos (ground (arith, other)))
]

module _ ⦃env : Env⦄ ⦃config : Config⦄ where
  -- What the VPC service was asked last, before its state became `cloud`: the address, under its MAC
  -- address, on this node's zone and VPC and in its subnet; and it answered with it.
  pub record Confirmed (pn : PodNetwork) (cloud : env.Cloud) : Type 0 where
    pub asked : env.Cloud
    pub infos : List IpInfo
    pub answered :
        env.describe_secondary_ip
          (record {
            ip = pn.vpc_ip;
            mac = some pn.mac_address;
            zone = some config.availability_zone;
            vpc_id = config.vpc_id;
            subnet_id = pn.subnet_id;
          })
          asked
        ≡ (ok infos, cloud)
    pub listed : Listed pn.vpc_ip infos

  -- The address was used on this node before, or it is empty, or the last thing that happened on the
  -- host, whose state became `host`, was an announcement of it that found no conflict.
  abbrev pub Announced : PodNetwork → env.Host → Type 0
  Announced pn host =
      (pn.recycled ≡ true)
      ⊎ (pn.vpc_ip ≡ "")
      ⊎ ((h : env.Host) × (env.detect_conflict pn.vpc_ip h ≡ (ok false, host)))

  -- Both at the end of a run.
  pub record Verified (pn : PodNetwork) (final : State env) : Type 0 where
    pub exists : Confirmed pn final.cloud
    pub fresh : Announced pn final.host

  check-Confirmed :
      (pn : PodNetwork) (t : State env)
      → (check_secondary_ip_exist pn t).0 ≡ ok true
      → Confirmed pn (check_secondary_ip_exist pn t).1.cloud
  unfolding check_secondary_ip_exist
  check-Confirmed pn t h =
      let t1 : State env = (on_cloud env.vpc_client t).1 in
      let req : DescribeRequest = record {
        ip = pn.vpc_ip;
        mac = some pn.mac_address;
        zone = some config.availability_zone;
        vpc_id = config.vpc_id;
        subnet_id = pn.subnet_id;
      } in
      elim (Result-cases (env.vpc_client t.cloud).0) [
        | inr (e, bad) ↦ absurd (ground arith)
        | inl (u, client) ↦ elim (Result-cases (env.describe_secondary_ip req t1.cloud).0) [
          | inr (e, bad) ↦ absurd (ground arith)
          | inl (infos, shown) ↦
              rw (client, ◌>>=◌)
                (rw (shown, ◌>>=◌)
                  (record {
                    asked = t1.cloud;
                    infos = infos;
                    answered = ap (λ r. (r, (env.describe_secondary_ip req t1.cloud).1)) shown;
                    listed =
                        contains_ip-Listed pn.vpc_ip infos
                          (ok_bool _ (rw (client, shown, ◌>>=◌) at h));
                  }))
        ]
      ]
    where
      ok_bool : (b : Bool) → ok b ≡ ok true → b ≡ true
      ok_bool b e = cc

  -- What is left to do for an address that the VPC service has.
  record Handed (pn qn : PodNetwork) (u final : State env) : Type 0 where
    same : pn ≡ qn
    cloud : final.cloud ≡ u.cloud
    announced : Announced pn final.host

  unannounced :
      (pn : PodNetwork) (host : env.Host)
      → (not pn.recycled && not (pn.vpc_ip == "")) ≡ false
      → Announced pn host
  unannounced pn host skipped = elim (Bool-cases pn.recycled) [
    | inl yes_recycled ↦ inl yes_recycled
    | inr fresh ↦ inr (inl ((eq_iff pn.vpc_ip "").0 (ground arith)))
  ]

  ok_network : (p q : PodNetwork) → ok p ≡ ok q → p ≡ q
  ok_network p q h = cc

  checked-Handed :
      (enable_static : Bool) (pn qn : PodNetwork) (u : State env)
      → (checked enable_static pn (ok true) u).0 ≡ ok qn
      → Handed pn qn u (checked enable_static pn (ok true) u).1
  unfolding checked check_fresh check_ip_conflict
  checked-Handed enable_static pn qn u h =
      elim (Bool-cases (not pn.recycled && not (pn.vpc_ip == ""))) [
        | inr skipped ↦
            rw (skipped, checked)
              (record {
                same = ok_network pn qn (rw skipped at h);
                cloud = refl;
                announced = unannounced pn u.host skipped;
              })
        | inl due ↦ elim (Result-cases (env.detect_conflict pn.vpc_ip u.host).0) [
          | inr (x, bad) ↦ absurd (ground arith)
          | inl (true, clash) ↦ absurd (ground arith)
          | inl (false, free) ↦
              rw (due, checked)
                (rw (free, ◌>>=◌)
                  (record {
                    same = ground arith;
                    cloud = refl;
                    announced = inr (
                        inr (u.host, ap (λ r. (r, (env.detect_conflict pn.vpc_ip u.host).1)) free));
                  }))
        ]
      ]

  -- Without the answer that the address is there, none is given.
  refused :
      (enable_static : Bool) (pn qn : PodNetwork) (r : Result Bool) (u : State env)
      → r ≢ ok true
      → (checked enable_static pn r u).0 ≡ ok qn
      → ⊥
  unfolding checked
  refused enable_static pn qn (ok true) u unlike h = unlike refl
  refused enable_static pn qn (ok false) u unlike h = cc
  refused true pn qn (err e) u unlike h = cc
  refused false pn qn (err e) u unlike h = elim (Result-cases (put_ip_to_pool pn u).0) [
    | inl (b, stored) ↦ ground arith
    | inr (x, bad) ↦ ground arith
  ]

  -- A pod gets an address only if the last question to the VPC service in the run was for this address
  -- and MAC address in its subnet, and the answer lists it. Unless the address is empty or marked as
  -- used on this node before, it has also been announced, and that met no conflict.
  pub get_pod_ip-Verified :
      (req : AddPodNetworkRequest) (pn : PodNetwork) (s : State env)
      → (get_pod_ip req s).0 ≡ ok pn
      → Verified pn (get_pod_ip req s).1
  unfolding get_pod_ip checked
  get_pod_ip-Verified req pn s h =
      elim (Result-cases (pod_enable_static_ip req.pod_name req.pod_namespace s).0) [
        | inr (e, bad) ↦ absurd (ground arith)
        | inl ((enable_static, pod), enabled) ↦
            let s1 : State env = (pod_enable_static_ip req.pod_name req.pod_namespace s).1 in
            elim (Result-cases (assign_for enable_static pod req s1).0) [
              | inr (e, bad) ↦ absurd (ground arith)
              | inl (p, assigned) ↦
                  let s2 : State env = (assign_for enable_static pod req s1).1 in
                  let s3 : State env = (check_secondary_ip_exist p s2).1 in
                  elim (Result-cases (check_secondary_ip_exist p s2).0) [
                    | inr (e, bad) ↦ absurd (
                        refused enable_static p pn (err e) s3 (λ x. cc)
                          (rw (enabled, assigned, bad, get_pod_ip, ◌>>=◌) at h))
                    | inl (false, gone) ↦ absurd (
                        refused enable_static p pn (ok false) s3 (λ x. cc)
                          (rw (enabled, assigned, gone, get_pod_ip, ◌>>=◌) at h))
                    | inl (true, there) ↦
                        let ended = rw (enabled, assigned, there, get_pod_ip, ◌>>=◌) at h in
                        let handed = checked-Handed enable_static p pn s3 ended in
                        rw (enabled, get_pod_ip)
                          (rw (assigned, ◌>>=◌)
                            (rw (there, ◌>>=◌)
                              (subst (λ q. Verified q (checked enable_static p (ok true) s3).1)
                                handed.same
                                (record {
                                  exists =
                                      subst (Confirmed p) (sym handed.cloud)
                                        (check-Confirmed p s2 there);
                                  fresh = handed.announced;
                                }))))
                  ]
            ]
      ]
