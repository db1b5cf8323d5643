-- ===== src/Support/Kubeclient.antt =====
-- pkg/kubeclient/client.go: the clients of the cluster. A client is made once and remembered; on
-- a node without a service account it is made from the first configuration file that is there.
use uk8s_cni_vpc.Prelude.{
  String, ◌≡◌, inl, inr, Bool, true, false, Option, none, some, List, [], ◌∷◌, arith,
}
use uk8s_cni_vpc.Result.{ok, err, Error, failure, Result-cases}
use uk8s_cni_vpc.Step.{Step, or_else, ◌>>=◌}

-- What `sync.Once` and the variable beside it remember: whether the first call was made, and what it
-- left, where `none` is nil.
pub record Once (A : Type 0) : Type 0 where
  pub called : Bool
  pub value : Option A

-- What `os.Stat` finds of a file.
pub data FileStat : Type 0 where
  there absent : FileStat
  unreadable : Error → FileStat

-- client-go: `Config` and `Client` stand for its configuration and for the clientset, of the API
-- server or of the custom resources alike.
pub record ClientLib : Type 1 where
  pub World : Type 0
  pub Config : Type 0
  pub Client : Type 0
  pub in_cluster_config : Step World Config
  pub new_for_config : Config → Step World Client
  pub stat : String → World → FileStat × World
  pub config_from_file : String → Step World Config

-- The remembered configuration and client, and the rest of the world.
pub record Clients (lib : ClientLib) : Type 0 where
  pub config : Once lib.Config
  pub client : Once lib.Client
  pub world : lib.World

module _ (lib : ClientLib) where
  -- `GetConfig`: every call after the first gives what the first one left, without an error.
  unfoldable pub get_config : Step (Clients lib) (Option lib.Config)
  get_config s = elim s.config.called [
    | true ↦ (ok s.config.value, s)
    | false ↦
        let (r, w) = lib.in_cluster_config s.world in
        elim r [
          | ok config ↦ (
            ok (some config),
            record s { config = record { called = true; value = some config }; world = w },
          )
          | err e ↦ (
            err (failure "failed to generate kubernetes client config"),
            record s { config = record { called = true; value = none }; world = w },
          )
        ]
  ]

  -- What the first call of `Get` and of `GetCRD` does; a client from no configuration is a panic.
  unfoldable pub make_client : Step (Clients lib) lib.Client
  make_client s =
      let (r, s1) = get_config s in
      elim r [
        | err e ↦ (err e, s1)
        | ok none ↦ (err (failure "panic: nil configuration"), s1)
        | ok (some config) ↦
            let (made, w) = lib.new_for_config config s1.world in
            elim made [
              | ok client ↦ (ok client, record s1 { world = w })
              | err e ↦
                  (err (failure "failed to generate kubernetes client"), record s1 { world = w })
            ]
      ]

  unfoldable pub get : Step (Clients lib) (Option lib.Client)
  get s = elim s.client.called [
    | true ↦ (ok s.client.value, s)
    | false ↦
        let (r, s1) = make_client s in
        elim r [
          | ok client ↦ (
            ok (some client),
            record s1 { client = record { called = true; value = some client } },
          )
          | err e ↦ (err e, record s1 { client = record { called = true; value = none } })
        ]
  ]

  -- A configuration that could not be made the first time is not made again, and no error says so.
  pub get_config-failed :
      (s : Clients lib) (e : Error)
      → s.config.called ≡ false
      → (get_config s).0 ≡ err e
      → (get_config (get_config s).1).0 ≡ ok none
  unfolding get_config
  get_config-failed s e fresh h = elim (Result-cases (lib.in_cluster_config s.world).0) [
    | inl (config, made) ↦ absurd (ground arith)
    | inr (x, bad) ↦ ground arith
  ]

  abbrev pub node_kube_config_paths : List String
  node_kube_config_paths =
      "/etc/kubernetes/cnivpc.kubeconfig" ∷ "/etc/kubernetes/kubelet.kubeconfig" ∷ []

  -- `GetNodeClient` and `GetNodeCRDClient`
  unfoldable pub node_client_from : List String → Step lib.World lib.Client
  node_client_from [] w = (err (failure "no available kubeconfig in node"), w)
  node_client_from (path ∷ paths) w =
      let (found, w1) = lib.stat path w in
      elim found [
        | absent ↦ node_client_from paths w1
        | unreadable e ↦ (err e, w1)
        | there ↦
            (or_else (lib.config_from_file path) "failed to read kube config" >>= λ config.
            lib.new_for_config config)
              w1
      ]

  pub get_node_client : Step lib.World lib.Client
  get_node_client = node_client_from node_kube_config_paths
