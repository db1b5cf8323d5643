-- ===== src/DevicePlugin.antt =====
-- pkg/deviceplugin/deviceplugin.go: the device plugin that tells the kubelet how many network
-- interfaces the node can attach. gRPC, the file system and the kubelet are the parameter `Kubelet`.
-- A stop channel can be closed once: to close it again, or one that was not made, is a panic, which
-- no caller survives. `ulog.Fatalf` ends the process, and is an error here.
pub mod Restarts
use uk8s_cni_vpc.Prelude.{
  ℕ, zero, suc, ◌+◌, String, concat, Bool, true, false, ◌&&◌, List, [], ◌∷◌, if◌then◌else◌,
}
use uk8s_cni_vpc.Result.{Result, ok, err, Error, failure}
use uk8s_cni_vpc.Step.{Step, pure, raise, lift, try, or_else, ◌>>=◌, ◌>>◌}

abbrev pub resource_name : String
resource_name = "ucloud.cn/uni"

-- What is read of a directory entry: its name, and whether it is a socket.
pub record DirEntry : Type 0 where
  pub name : String
  pub is_socket : Bool

pub record RegisterRequest : Type 0 where
  pub version : String
  pub endpoint : String
  pub resource_name : String

-- What `os.Stat` of the plugin's socket finds.
pub data Stat : Type 0 where
  there missing : Stat
  unreadable : Error → Stat

pub record Kubelet : Type 1 where
  pub World : Type 0
  pub read_dir : Step World (List DirEntry)
  pub unlink : String → Step World (Unit {0})
  pub listen : String → Step World (Unit {0})
  pub dial : String → Step World (Unit {0})
  pub register : RegisterRequest → Step World (Unit {0})
  -- stop of the running server
  pub stop_server : World → World
  pub stat : String → World → Stat × World
  pub kubelet_socket : String
  pub version : String
  -- `path.Base`, `fmt.Sprintf("%d", i)` and the regular expression `^.*-uni.sock`
  pub base : String → String
  pub decimal : ℕ → String
  pub is_uni_socket : String → Bool

-- The channel of `m.stop`: not made yet, open or closed.
pub data Channel : Type 0 where
  unmade open_channel closed_channel : Channel

-- `serving` is `m.server != nil`.
pub record Plugin (k : Kubelet) : Type 0 where
  pub socket : String
  pub count : ℕ
  pub serving : Bool
  pub stop : Channel
  pub panicked : Bool
  pub world : k.World

pub record Device : Type 0 where
  pub id : String
  pub healthy : Bool

module _ ⦃k : Kubelet⦄ where
  abbrev pub Act : Type 0 → Type 0
  Act A = Step (Plugin k) A

  abbrev pub on_world : {A : Type 0} → Step k.World A → Act A
  on_world m p = let (r, world) = m p.world in (r, record p { world = world })

  -- `NewUNIDevicePlugin`
  pub new_uni_device_plugin : String → ℕ → k.World → Plugin k
  new_uni_device_plugin endpoint count world = record {
    socket = endpoint;
    count = count;
    serving = false;
    stop = unmade;
    panicked = false;
    world = world;
  }

  -- `close(m.stop)`: a closed channel panics, and so does one that was not made.
  unfoldable pub close_stop : Act (Unit {0})
  close_stop p = elim p.stop [
    | open_channel ↦ (ok tt, record p { stop = closed_channel })
    | closed_channel ↦ (err (failure "close of closed channel"), record p { panicked = true })
    | unmade ↦ (err (failure "close of nil channel"), record p { panicked = true })
  ]

  unfoldable pub stop_serving : Act (Unit {0})
  stop_serving p = (ok tt, record p { world = k.stop_server p.world })

  -- A call whose error is not looked at; a panic goes on.
  unfoldable pub drop_error : Act (Unit {0}) → Act (Unit {0})
  drop_error m p = let (r, q) = m p in elim q.panicked [ true ↦ (r, q) | false ↦ (ok tt, q) ]

  -- The sockets of earlier plugins are removed; a failed removal is logged.
  unfoldable pub unlink_each : List DirEntry → Act (Unit {0})
  unlink_each [] p = (ok tt, p)
  unlink_each (e ∷ es) p = elim (k.is_uni_socket e.name && e.is_socket) [
    | true ↦ unlink_each es (on_world (k.unlink e.name) p).1
    | false ↦ unlink_each es p
  ]

  unfoldable pub cleanup : Act (Unit {0})
  cleanup = on_world k.read_dir >>= unlink_each

  unfoldable pub make_server : Act (Unit {0})
  make_server p = (ok tt, record p { serving = true; stop = open_channel })

  unfoldable pub stop_if_serving : Act (Unit {0})
  unfolding close_stop stop_serving
  stop_if_serving p = elim p.serving [
    | true ↦ (close_stop >>= λ _. stop_serving) p
    | false ↦ (ok tt, p)
  ]

  -- `Start`
  unfoldable pub start : Act (Unit {0})
  start p =
      (do
        stop_if_serving
        cleanup
        on_world (k.listen p.socket)
        make_server
        on_world (k.dial p.socket))
        p

  unfoldable pub forget_server : Act (Unit {0})
  forget_server p = (ok tt, record p { serving = false })

  -- `Stop`
  unfoldable pub stop_plugin : Act (Unit {0})
  stop_plugin p = elim p.serving [
    | false ↦ (ok tt, p)
    | true ↦ (stop_serving >>= λ _. forget_server >>= λ _. close_stop >>= λ _. cleanup) p
  ]

  -- `Register`
  unfoldable pub register : RegisterRequest → Act (Unit {0})
  register request = on_world (k.dial k.kubelet_socket) >>= λ _. on_world (k.register request)

  abbrev pub request_for : String → Plugin k → RegisterRequest
  request_for name p = record {
    version = k.version;
    endpoint = k.base p.socket;
    resource_name = name;
  }

  -- One round of `watchKubeletRestart`.
  unfoldable pub restart : Act (Unit {0})
  restart p =
      (do
        drop_error stop_plugin
        or_else start "fatal: error restart device plugin after kubelet restart"
        or_else (register (request_for resource_name p))
            "fatal: error register device plugin after kubelet restart")
        p

  unfoldable pub watch_kubelet_restart : Act (Unit {0})
  watch_kubelet_restart p =
      let (found, world) = k.stat p.socket p.world in
      let q : Plugin k = record p { world = world } in
      elim found [
        | there ↦ (ok tt, q)
        | missing ↦ restart q
        | unreadable e ↦ (err (failure "fatal: error stat socket"), q)
      ]

  -- `Serve`, without the wait of five seconds and the goroutine that it starts.
  unfoldable pub registered : Result (Unit {0}) → Act (Unit {0})
  registered (ok u) = pure tt
  registered (err e) = drop_error stop_plugin >>= λ _. raise e

  unfoldable pub serve : String → Act (Unit {0})
  serve name p = (do start; answer ← try (register (request_for name p)); registered answer) p

  -- The devices that `ListAndWatch` sends, now and at each tick.
  pub devices_from : ℕ → ℕ → List Device
  devices_from zero i = []
  devices_from (suc n) i =
      record { id = concat "uni-" (k.decimal i); healthy = true } ∷ devices_from n (i + 1)

  pub list_devices : Plugin k → List Device
  list_devices p = devices_from p.count 0

  -- `Allocate`: an empty response for each container.
  pub allocate : {A : Type 0} → List A → List (Unit {0})
  allocate [] = []
  allocate (r ∷ rs) = tt ∷ allocate rs
