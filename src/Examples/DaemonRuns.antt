-- ===== src/Examples/DaemonRuns.antt =====
-- A run of the daemon from an empty file.
use uk8s_cni_vpc.Prelude.{true, none, [], ◌∷◌, refl}
use uk8s_cni_vpc.Result.{ok}
use uk8s_cni_vpc.Ipamd.Types.{PodNetwork}
use uk8s_cni_vpc.Ipamd.World.{State, Env, Config}
use uk8s_cni_vpc.Ipamd.Keyed.{Keyed, empty-Keyed}
use uk8s_cni_vpc.Ipamd.Claims.Keys.{RetryLaw}
use uk8s_cni_vpc.Ipamd.Server.{del, tick, cooldown_tick, round}
use uk8s_cni_vpc.Ipamd.Server.Keys.{here, next, start, boot, loop, Reach-Keyed}
use uk8s_cni_vpc.Ipamd.Boot.{BootLib}
use uk8s_cni_vpc.Examples.Toy.{toy, toy_laws, toy_config, toy_address}

instance abbrev config : Config
config = toy_config

instance abbrev env : Env
env = toy

abbrev empty : State toy
empty = record { file = none; pools = []; cloud = true; cluster = []; host = 5 }

abbrev of_web : PodNetwork
of_web = record toy_address { pod_name = "web-0"; pod_ns = "default"; pod_uid = "uid-1" }

retry_law : RetryLaw toy
retry_law = record { only_runs = λ P m keeps s h. keeps s h }

-- A node with its labels, in a cluster whose services are in 10.2.0.0/16.
instance abbrev node : BootLib
node = record {
  getenv = λ name. "node-1";
  server_version = λ c. (ok "v1.30", c);
  node_labels =
      λ name c. (ok (("UhostID", "uhost-1") ∷ ("topology.kubernetes.io/zone", "zone-1") ∷ []), c);
  node_ip = λ h. (ok "10.0.0.2", h);
  node_mac = λ h. (ok "52:54:00:00:00:02", h);
  open_storage = λ h. (ok tt, h);
  uk8s_client = λ c. (ok tt, c);
  service_cidrs = λ id c. (ok ("10.2.0.0/16" ∷ []), c);
  parse_cidr = λ text. ok text;
}

abbrev booted : State toy
booted = (start node empty).1

-- The daemon is started, the pod is deleted, its address cools down, and the end of the cooldown is
-- looked for.
abbrev after : State toy
after = round tick (round cooldown_tick (round (del of_web) booted))

Reach-Keyed_example : Keyed toy_laws after.file
Reach-Keyed_example =
    Reach-Keyed toy_laws retry_law (empty-Keyed toy_laws empty.file (λ m j. refl)) (
      next (next (next (next here (boot node)) (loop (del of_web))) (loop cooldown_tick))
        (loop tick))
