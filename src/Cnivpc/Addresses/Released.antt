-- ===== src/Cnivpc/Addresses/Released.antt =====
-- cmd/cnivpc/rpc.go, `deallocateSecondaryIP`: what the VPC service was asked last when it
-- succeeds.
use uk8s_cni_vpc.Prelude.{
  String, ◌≡◌, ◌≢◌, refl, sym, ap, ◌∙◌, ◌⊎◌, inl, inr, true, false, false≢true, Bool-cases, [], ◌∷◌,
  some, ◌==◌, eq_iff, arith,
}
use uk8s_cni_vpc.Result.{Result, ok, err, ret_code, Result-cases}
use uk8s_cni_vpc.Step.{◌>>=◌}
use uk8s_cni_vpc.Ipamd.Types.{PodNetwork, DescribeRequest}
use uk8s_cni_vpc.Cnivpc.Plugin.{Plugin, PluginState, on_sys, on_mem}
use uk8s_cni_vpc.Iputils.{get_node_mac_address}
use uk8s_cni_vpc.Cnivpc.Addresses.{
  check_secondary_ip_exist, object_id, mac_address_of, deallocate_existing, deallocate_secondary_ip,
  uapi_error_ip_not_exst, deleted_answer, delete_request,
}

module _ ⦃plugin : Plugin⦄ where
  -- The MAC address that the service is asked with: the address's own, or if it has none the one of
  -- the node's main device, as `pkg/iputils` finds it in this state.
  abbrev pub IsMac : PodNetwork → PluginState plugin → String → Type 0
  IsMac pn s mac =
      ((pn.mac_address ≢ "") × (mac ≡ pn.mac_address))
      ⊎ ((pn.mac_address ≡ "")
          × ((on_mem (get_node_mac_address plugin.uapi plugin.links "") s).0 ≡ ok mac))

  -- The last call of the run asked the VPC service for the address under its MAC address, in the
  -- plugin's zone and VPC and in its subnet, and the answer was that there is none.
  pub record Unknown (pn : PodNetwork) (s final : PluginState plugin) : Type 0 where
    pub mac : String
    pub is_mac : IsMac pn s mac
    pub when_asked : plugin.Sys
    pub nothing :
        plugin.describe_secondary_ip
          (record {
            ip = pn.vpc_ip;
            mac = some mac;
            zone = some plugin.zone;
            vpc_id = plugin.vpc_id;
            subnet_id = pn.subnet_id;
          })
          when_asked
        ≡ (ok [], final.sys)

  -- The last call of the run asked the VPC service to delete the address, and it did, or answered that
  -- the address does not exist.
  pub record Deleted (pn : PodNetwork) (s final : PluginState plugin) : Type 0 where
    pub mac : String
    pub is_mac : IsMac pn s mac
    pub object : String
    pub when_asked : plugin.Sys
    pub answer : Result (Unit {0})
    pub done : (answer ≡ ok tt) ⊎ (answer ≡ err (ret_code uapi_error_ip_not_exst))
    pub asked :
        plugin.delete_secondary_ip
          (record {
            zone = plugin.zone;
            mac = mac;
            ip = pn.vpc_ip;
            object_id = object;
            vpc_id = pn.vpc_id;
            subnet_id = pn.subnet_id;
          })
          when_asked
        ≡ (answer, final.sys)

  deleted_answer-ok :
      (r : Result (Unit {0}))
      → deleted_answer r ≡ ok tt
      → (r ≡ ok tt) ⊎ (r ≡ err (ret_code uapi_error_ip_not_exst))
  deleted_answer-ok r h = ground arith

  mac_address_of-IsMac :
      (pn : PodNetwork) (s : PluginState plugin) (mac : String)
      → (mac_address_of pn s).0 ≡ ok mac
      → IsMac pn s mac
  unfolding mac_address_of
  mac_address_of-IsMac pn s mac h = elim (Bool-cases (pn.mac_address == "")) [
    | inl none_known ↦ inr ((eq_iff pn.mac_address "").0 none_known, ground (arith, none_known))
    | inr known ↦
        inl ((λ e. false≢true (sym known ∙ (eq_iff pn.mac_address "").1 e)), ground (arith, known))
  ]

  deallocate_existing-Deleted :
      (pn : PodNetwork) (mac : String) (s t : PluginState plugin)
      → IsMac pn s mac
      → (deallocate_existing pn mac true t).0 ≡ ok tt
      → Deleted pn s (deallocate_existing pn mac true t).1
  unfolding deallocate_existing
  deallocate_existing-Deleted pn mac s t own h =
      let t1 : PluginState plugin = (on_sys plugin.vpc_client t).1 in
      elim (Result-cases (plugin.vpc_client t.sys).0) [
        | inr (e, bad) ↦ absurd (ground arith)
        | inl (u, client) ↦ elim (Result-cases (object_id pn.interface_id t1).0) [
          | inr (e, bad) ↦ absurd (ground arith)
          | inl (object, found) ↦
              let t2 : PluginState plugin = (object_id pn.interface_id t1).1 in
              rw (client, ◌>>=◌)
                (rw (found, ◌>>=◌)
                  (record {
                    mac = mac;
                    is_mac = own;
                    object = object;
                    when_asked = t2.sys;
                    answer = (plugin.delete_secondary_ip (delete_request pn mac object) t2.sys).0;
                    done =
                        deleted_answer-ok
                          (plugin.delete_secondary_ip (delete_request pn mac object) t2.sys).0
                          (rw (client, found, ◌>>=◌) at h);
                    asked = refl;
                  }))
        ]
      ]

  check-Unknown :
      (pn : PodNetwork) (mac : String) (s t : PluginState plugin)
      → IsMac pn s mac
      → (check_secondary_ip_exist pn.vpc_ip mac pn.subnet_id t).0 ≡ ok false
      → Unknown pn s (check_secondary_ip_exist pn.vpc_ip mac pn.subnet_id t).1
  unfolding check_secondary_ip_exist
  check-Unknown pn mac s t own h =
      let t1 : PluginState plugin = (on_sys plugin.vpc_client t).1 in
      let req : DescribeRequest = record {
        ip = pn.vpc_ip;
        mac = some mac;
        zone = some plugin.zone;
        vpc_id = plugin.vpc_id;
        subnet_id = pn.subnet_id;
      } in
      elim (Result-cases (plugin.vpc_client t.sys).0) [
        | inr (e, bad) ↦ absurd (ground arith)
        | inl (u, client) ↦ elim (Result-cases (plugin.describe_secondary_ip req t1.sys).0) [
          | inr (e, bad) ↦ absurd (ground arith)
          | inl ([], none_found) ↦
              rw (client, ◌>>=◌)
                (rw (none_found, ◌>>=◌)
                  (record {
                    mac = mac;
                    is_mac = own;
                    when_asked = t1.sys;
                    nothing = ap (λ r. (r, (plugin.describe_secondary_ip req t1.sys).1)) none_found;
                  }))
          | inl (x ∷ xs, shown) ↦ absurd (ground arith)
        ]
      ]

  -- A release without the daemon reports success only if its last call asked the VPC service for the
  -- address, under its own MAC address or the node's if it has none, and there was none; or asked to
  -- delete it, and the service did or says that it does not exist.
  pub deallocate_secondary_ip-Deleted :
      (pn : PodNetwork) (s : PluginState plugin)
      → (deallocate_secondary_ip pn s).0 ≡ ok tt
      → Unknown pn s (deallocate_secondary_ip pn s).1
        ⊎ Deleted pn s (deallocate_secondary_ip pn s).1
  unfolding deallocate_secondary_ip deallocate_existing
  deallocate_secondary_ip-Deleted pn s h = elim (Result-cases (mac_address_of pn s).0) [
    | inr (e, bad) ↦ absurd (ground arith)
    | inl (mac, known) ↦
        let t : PluginState plugin = (mac_address_of pn s).1 in
        let own : IsMac pn s mac = mac_address_of-IsMac pn s mac known in
        elim (Result-cases (check_secondary_ip_exist pn.vpc_ip mac pn.subnet_id t).0) [
          | inr (e, bad) ↦ absurd (ground arith)
          | inl (false, gone) ↦
              rw (known, ◌>>=◌) (rw (gone, ◌>>=◌) (inl (check-Unknown pn mac s t own gone)))
          | inl (true, there) ↦
              rw (known, ◌>>=◌)
                (rw (there, ◌>>=◌)
                  (inr (
                    deallocate_existing-Deleted pn mac s
                      (check_secondary_ip_exist pn.vpc_ip mac pn.subnet_id t).1 own
                      (rw (known, there, ◌>>=◌) at h))))
        ]
  ]
