-- ===== src/Ipamd/Assign/Keys.antt =====
-- pkg/ipamd/pool.go, `getPodIp`: giving a pod its address keeps every address under its own key.
use uk8s_cni_vpc.Prelude.{
  sym, subst, String, ◌≡◌, inl, inr, Bool, true, false, not, ◌&&◌, Option, none, some, ◌==◌, arith,
}
use uk8s_cni_vpc.Result.{
  Result, ok, err, eof, not_found, out_of_ip, api, ret_code, failure, Result-cases,
}
use uk8s_cni_vpc.Step.{try, ◌>>=◌}
use uk8s_cni_vpc.Database.{KeyValue}
use uk8s_cni_vpc.Ipamd.Types.{PodNetwork, AddPodNetworkRequest, IpInfo, VpcIpClaim, Pod}
use uk8s_cni_vpc.Ipamd.World.{Env, EnvLaws, Config, State}
use uk8s_cni_vpc.Ipamd.Keyed.{
  Keyed, Keeps, bind-Keeps, same-Keeps, try-Keeps, or_else-Keeps, pure-Keeps, raise-Keeps,
  time-Keeps, if-Keeps,
}
use uk8s_cni_vpc.Ipamd.Uapi.Keys.{uapi_allocate-file}
use uk8s_cni_vpc.Ipamd.Uapi.Release.{check_exist-SameStore}
use uk8s_cni_vpc.Ipamd.Uapi.{check_secondary_ip_exist}
use uk8s_cni_vpc.Ipamd.Pool.Keys.{
  put_ip_to_pool-Keeps, get_pool-Keeps, pool_pop-Keeps, uapi_delete-Keeps,
}
use uk8s_cni_vpc.Ipamd.Claims.{vip_to_pod_network}
use uk8s_cni_vpc.Ipamd.Borrow.Keys.{borrow_ip-Keeps}
use uk8s_cni_vpc.Ipamd.Claims.Keys.{
  RetryLaw, find_static_ip-Keeps, local_attach-Keeps, create_claim-Keeps,
}
use uk8s_cni_vpc.Ipamd.Assign.{
  convert_ip_to_pod_network, is_pod_enable_static_ip, pod_enable_static_ip, allocated,
  popped_or_new, assign_pod_ip, assign_new_static, assign_static_found, assign_static_pod_ip,
  check_ip_conflict, check_fresh, checked, assign_for, get_pod_ip,
}

module _ ⦃env : Env⦄ ⦃config : Config⦄ where
  pod_enable_static_ip-file :
      (name ns : String) (s : State env) → (pod_enable_static_ip name ns s).1.file ≡ s.file
  unfolding pod_enable_static_ip is_pod_enable_static_ip
  pod_enable_static_ip-file name ns s = ground arith

  check_ip_conflict-file : (ip : String) (s : State env) → (check_ip_conflict ip s).1.file ≡ s.file
  unfolding check_ip_conflict
  check_ip_conflict-file ip s = ground arith

module _ ⦃env : Env⦄ ⦃config : Config⦄ (laws : EnvLaws env) (retry : RetryLaw env) where
  allocated-Keeps : (req : AddPodNetworkRequest) (r : Result IpInfo) → Keeps laws (allocated req r)
  unfolding allocated
  allocated-Keeps req (ok info) =
      bind-Keeps laws _ _ (time-Keeps laws)
        λ now. pure-Keeps laws (convert_ip_to_pod_network now info req.interface_id)
  allocated-Keeps req (err out_of_ip) = or_else-Keeps laws _ _ (borrow_ip-Keeps laws req)
  allocated-Keeps req (err eof) = raise-Keeps laws _
  allocated-Keeps req (err not_found) = raise-Keeps laws _
  allocated-Keeps req (err (api r)) = raise-Keeps laws _
  allocated-Keeps req (err (ret_code n)) = raise-Keeps laws _
  allocated-Keeps req (err (failure t)) = raise-Keeps laws _

  popped_or_new-Keeps :
      (req : AddPodNetworkRequest) (r : Result (KeyValue PodNetwork))
      → Keeps laws (popped_or_new req r)
  unfolding popped_or_new
  popped_or_new-Keeps req (ok kv) = pure-Keeps laws _
  popped_or_new-Keeps req (err eof) =
      bind-Keeps laws _ _ (try-Keeps laws _ (same-Keeps laws _ (uapi_allocate-file req)))
        (allocated-Keeps req)
  popped_or_new-Keeps req (err out_of_ip) = raise-Keeps laws _
  popped_or_new-Keeps req (err not_found) = raise-Keeps laws _
  popped_or_new-Keeps req (err (api r)) = raise-Keeps laws _
  popped_or_new-Keeps req (err (ret_code n)) = raise-Keeps laws _
  popped_or_new-Keeps req (err (failure t)) = raise-Keeps laws _

  assign_pod_ip-Keeps : (req : AddPodNetworkRequest) → Keeps laws (assign_pod_ip req)
  unfolding assign_pod_ip
  assign_pod_ip-Keeps req =
      bind-Keeps laws _ _ (or_else-Keeps laws _ _ (get_pool-Keeps laws req.subnet_id true)) λ pool.
        bind-Keeps laws _ _ (try-Keeps laws _ (pool_pop-Keeps laws pool)) (popped_or_new-Keeps req)

  assign_new_static-Keeps :
      (pod : Pod) (sandbox : String) (req : AddPodNetworkRequest) (r : Result PodNetwork)
      → Keeps laws (assign_new_static pod sandbox req r)
  unfolding assign_new_static
  assign_new_static-Keeps pod sandbox req (err e) = raise-Keeps laws _
  assign_new_static-Keeps pod sandbox req (ok pn) = bind-Keeps laws _ _ (time-Keeps laws) λ now.
      let nvip : PodNetwork = record pn {
        create_time = now;
        pod_name = pod.name;
        pod_ns = pod.namespace;
        sandbox_id = sandbox;
      } in
      bind-Keeps laws _ _ (create_claim-Keeps laws retry req nvip pod) λ _. pure-Keeps laws nvip

  assign_static_found-Keeps :
      (pod : Pod) (sandbox : String) (req : AddPodNetworkRequest) (vip : Option VpcIpClaim)
      → Keeps laws (assign_static_found pod sandbox req vip)
  unfolding assign_static_found
  assign_static_found-Keeps pod sandbox req (some vip) =
      bind-Keeps laws _ _ (local_attach-Keeps laws retry req vip sandbox) λ attached.
        bind-Keeps laws _ _ (time-Keeps laws)
          λ now. pure-Keeps laws (vip_to_pod_network now attached)
  assign_static_found-Keeps pod sandbox req none =
      bind-Keeps laws _ _ (try-Keeps laws _ (assign_pod_ip-Keeps req))
        (assign_new_static-Keeps pod sandbox req)

  assign_for-Keeps :
      (static : Bool) (pod : Pod) (req : AddPodNetworkRequest)
      → Keeps laws (assign_for static pod req)
  unfolding assign_for assign_static_pod_ip
  assign_for-Keeps true pod req =
      bind-Keeps laws _ _ (find_static_ip-Keeps laws retry pod.namespace pod.name)
        (assign_static_found-Keeps pod req.sandbox_id req)
  assign_for-Keeps false pod req = assign_pod_ip-Keeps req

  check_fresh-Keeps : (pn : PodNetwork) (r : Result (Unit {0})) → Keeps laws (check_fresh pn r)
  unfolding check_fresh
  check_fresh-Keeps pn (ok u) = record { run = λ s k. k }
  check_fresh-Keeps pn (err e) = record { run = (uapi_delete-Keeps laws pn).run }

  checked-Keeps :
      (static : Bool) (pn : PodNetwork) (r : Result Bool) → Keeps laws (checked static pn r)
  unfolding checked
  checked-Keeps static pn (err e) =
      if-Keeps laws static _ _ (raise-Keeps laws _)
        (bind-Keeps laws _ _ (put_ip_to_pool-Keeps laws pn) (λ _. raise-Keeps laws _))
  checked-Keeps static pn (ok false) = raise-Keeps laws _
  checked-Keeps static pn (ok true) =
      if-Keeps laws (not pn.recycled && not (pn.vpc_ip == "")) _ _
        (bind-Keeps laws _ _
          (try-Keeps laws _ (same-Keeps laws _ (check_ip_conflict-file pn.vpc_ip)))
          (check_fresh-Keeps pn))
        (pure-Keeps laws _)

  assigned-Keeps :
      (static : Bool) (pod : Pod) (req : AddPodNetworkRequest)
      → Keeps laws (do
        pn ← assign_for static pod req
        exist ← try (check_secondary_ip_exist pn)
        checked static pn exist)
  assigned-Keeps static pod req = bind-Keeps laws _ _ (assign_for-Keeps static pod req) λ pn.
      bind-Keeps laws _ _
        (try-Keeps laws _ (same-Keeps laws _ (λ s. (check_exist-SameStore pn s).file)))
        (checked-Keeps static pn)

  pub get_pod_ip-Keeps : (req : AddPodNetworkRequest) → Keeps laws (get_pod_ip req)
  unfolding get_pod_ip
  get_pod_ip-Keeps req = record {
    run = λ s k.
        let t : State env = (pod_enable_static_ip req.pod_name req.pod_namespace s).1 in
        let kept : Keyed laws t.file =
          subst (Keyed laws) (sym (pod_enable_static_ip-file req.pod_name req.pod_namespace s)) k in
        elim (Result-cases (pod_enable_static_ip req.pod_name req.pod_namespace s).0) [
          | inr (e, bad) ↦ rw (bad, get_pod_ip) kept
          | inl ((static, pod), found) ↦
              rw (found, get_pod_ip) ((assigned-Keeps static pod req).run t kept)
        ];
  }
