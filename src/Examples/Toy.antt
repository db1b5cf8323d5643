-- ===== src/Examples/Toy.antt =====
-- A bolt file with room for one pair, a VPC service that is up or down, a cluster that is a list of
-- `ipamd` resources, and a clock that moves with each reading.
use text.Mathlib.TextPositions.{eq_refl}
use mathlib.Core.List.Perm
use uk8s_cni_vpc.Prelude.{
  ℕ, ◌+◌, ◌-◌, ◌<◌, String, ◌≡◌, refl, subst, inl, inr, Bool, Bool-cases, true, false, not, ◌&&◌,
  Option, none, some, List, [], ◌∷◌, ◌==◌, eq_iff, arith, if◌then◌else◌, All, length,
}
use uk8s_cni_vpc.Result.{Result, ok, err, failure, api, absent, is_ok}
use uk8s_cni_vpc.Step.{Step}
use uk8s_cni_vpc.Database.{BoltLib, BoltLaws, Codec, is_some}
use uk8s_cni_vpc.Ipamd.Types.{PodNetwork, CooldownItem, IpInfo, Ipamd, Pod}
use uk8s_cni_vpc.Ipamd.World.{Env, EnvLaws, Config}

pub data Bytes : Type 0 where
  network : PodNetwork → Bytes
  cooldown : CooldownItem → Bytes

abbrev pub Slot : Type 0
Slot = Option (String × String × Bytes)

abbrev pub slot_entry : Slot → String → String → Option Bytes
slot_entry none n k = none
slot_entry (some (m, j, v)) n k = if m == n && j == k then some v else none

abbrev pub slot_size : Slot → String → ℕ
slot_size none n = 0
slot_size (some (m, j, v)) n = if m == n then 1 else 0

abbrev pub slot_put : String → String → Bytes → Step Slot (Unit {0})
slot_put n k v none =
    if k == "" then (err (failure "key required"), none) else (ok tt, some (n, k, v))
slot_put n k v (some (m, j, w)) =
    if m == n && j == k then (ok tt, some (n, k, v)) else (err (failure "full"), some (m, j, w))

abbrev pub slot_delete : String → String → Step Slot (Unit {0})
slot_delete n k none = (ok tt, none)
slot_delete n k (some (m, j, w)) =
    if n == m && k == j then (ok tt, none) else (ok tt, some (m, j, w))

abbrev pub slot_first : String → Step Slot (Option (String × Bytes))
slot_first n none = (ok none, none)
slot_first n (some (m, j, w)) =
    if m == n
    then (if j == ""
        then (err (failure "bad key"), some (m, j, w))
        else (ok (some (j, w)), some (m, j, w)))
    else (ok none, some (m, j, w))

abbrev pub slot_all : String → Step Slot (List (String × Bytes))
slot_all n none = (ok [], none)
slot_all n (some (m, j, w)) =
    if m == n then (ok ((j, w) ∷ []), some (m, j, w)) else (ok [], some (m, j, w))

abbrev pub toy_bolt : BoltLib
toy_bolt = record {
  File = Slot;
  Bytes = Bytes;
  is_empty = λ v. false;
  create_bucket = λ n f. (ok tt, f);
  put = slot_put;
  delete = slot_delete;
  get = λ n k f. (ok (slot_entry f n k), f);
  first = slot_first;
  all = slot_all;
  key_count = λ n f. (ok (slot_size f n), f);
}

pub put_fails :
    (n k : String) (v : Bytes) (f : Slot)
    → is_ok (slot_put n k v f).0 ≡ false
    → (slot_put n k v f).1 ≡ f
put_fails n k v none h = ground arith
put_fails n k v (some (m, j, w)) h = ground arith

pub delete_fails :
    (n k : String) (f : Slot) → is_ok (slot_delete n k f).0 ≡ false → (slot_delete n k f).1 ≡ f
delete_fails n k none h = refl
delete_fails n k (some (m, j, w)) h = ground arith

pub first_keeps : (n : String) (f : Slot) → (slot_first n f).1 ≡ f
first_keeps n none = refl
first_keeps n (some (m, j, w)) = ground arith

pub all_keeps : (n : String) (f : Slot) → (slot_all n f).1 ≡ f
all_keeps n none = refl
all_keeps n (some (m, j, w)) = ground arith

pub put_entry :
    (n k : String) (v : Bytes) (f : Slot) (m j : String)
    → (slot_put n k v f).0 ≡ ok tt
    → slot_entry (slot_put n k v f).1 m j ≡ (if n == m && k == j then some v else slot_entry f m j)
put_entry n k v none m j h = ground arith
put_entry n k v (some (m', j', w)) m j h =
    ground (arith, eq_iff n m, eq_iff k j, eq_iff m' n, eq_iff j' k, eq_iff m' m, eq_iff j' j)

pub delete_entry :
    (n k : String) (f : Slot) (m j : String)
    → (slot_delete n k f).0 ≡ ok tt
    → slot_entry (slot_delete n k f).1 m j ≡ (if n == m && k == j then none else slot_entry f m j)
delete_entry n k none m j h = ground arith
delete_entry n k (some (m', j', w)) m j h =
    ground (arith, eq_iff n m, eq_iff k j, eq_iff n m', eq_iff k j', eq_iff m' m, eq_iff j' j)

pub delete_size :
    (n k : String) (f : Slot) (m : String)
    → (slot_delete n k f).0 ≡ ok tt
    → slot_size (slot_delete n k f).1 m
      ≡ (if n == m && is_some (slot_entry f n k) then slot_size f m - 1 else slot_size f m)
delete_size n k none m h = ground arith
delete_size n k (some (m', j', w)) m h =
    ground (arith, eq_iff n m, eq_iff n m', eq_iff k j', eq_iff m' m, eq_iff m' n, eq_iff j' k)

pub put_size :
    (n k : String) (v : Bytes) (f : Slot) (m : String)
    → (slot_put n k v f).0 ≡ ok tt
    → slot_size (slot_put n k v f).1 m
      ≡ (if n == m && not (is_some (slot_entry f n k)) then slot_size f m + 1 else slot_size f m)
put_size n k v none m h = ground arith
put_size n k v (some (m', j', w)) m h =
    ground (arith, eq_iff n m, eq_iff m' n, eq_iff j' k, eq_iff m' m)

pub first_none : (n : String) (f : Slot) → (slot_first n f).0 ≡ ok none → slot_size f n ≡ 0
first_none n none h = refl
first_none n (some (m, j, w)) h = ground arith

pub first_some :
    (n k : String) (v : Bytes) (f : Slot)
    → (slot_first n f).0 ≡ ok (some (k, v))
    → (slot_entry f n k ≡ some v) × ((k == "") ≡ false)
first_some n k v none h = absurd (cc)
first_some n k v (some (m, j, w)) h =
    ground (arith, eq_iff j k, eq_iff m n, eq_iff j "", eq_iff k "")

abbrev Listed : String → Slot → List (String × Bytes) → Type 0
Listed n f kvs = All (λ kv. slot_entry f n kv.0 ≡ some kv.1) kvs × (length kvs ≡ slot_size f n)

ok_list : (xs ys : List (String × Bytes)) → ok xs ≡ ok ys → xs ≡ ys
ok_list xs ys h = cc

pub listing_entries :
    (n : String) (f : Slot) (kvs : List (String × Bytes))
    → (slot_all n f).0 ≡ ok kvs
    → All (λ kv. slot_entry f n kv.0 ≡ some kv.1) kvs × (length kvs ≡ slot_size f n)
listing_entries n none kvs h = subst (λ xs. Listed n none xs) (ok_list [] kvs h) (tt, refl)
listing_entries n (some (m, j, w)) kvs h = elim (Bool-cases (m == n)) [
  | inl e ↦
      subst (λ xs. Listed n (some (m, j, w)) xs) (ok_list ((j, w) ∷ []) kvs (rw e at h))
        ((rw (e, eq_refl j) refl, tt), rw e refl)
  | inr e ↦ subst (λ xs. Listed n (some (m, j, w)) xs) (ok_list [] kvs (rw e at h)) (tt, rw e refl)
]

pub size_pos : (n k : String) (f : Slot) (v : Bytes) → slot_entry f n k ≡ some v → 0 < slot_size f n
size_pos n k none v h = absurd (cc)
size_pos n k (some (m, j, w)) v h = ground (arith, eq_iff m n)

pub ok_option : (x y : Option Bytes) → ok y ≡ ok x → x ≡ y
ok_option x y h = cc

pub ok_number : (x y : ℕ) → ok y ≡ ok x → x ≡ y
ok_number x y h = cc

abbrev pub toy_bolt_laws : BoltLaws toy_bolt
toy_bolt_laws = record {
  entry = slot_entry;
  size = slot_size;
  create_bucket_keeps = λ n f m k. refl;
  create_bucket_size = λ n f m. refl;
  put_fails = put_fails;
  delete_fails = delete_fails;
  get_keeps = λ n k f. refl;
  first_keeps = first_keeps;
  all_keeps = all_keeps;
  key_count_keeps = λ n f. refl;
  put_entry = put_entry;
  delete_entry = delete_entry;
  delete_size = delete_size;
  put_size = put_size;
  get_entry = λ n k f r h. ok_option r _ h;
  first_none = first_none;
  first_some = first_some;
  all_entries = listing_entries;
  key_count_size = λ n f c h. ok_number c _ h;
  size_pos = size_pos;
}

-- JSON of the values, as a tag.
abbrev read_network : Bytes → Result PodNetwork
read_network (network pn) = ok pn
read_network (cooldown item) = err (failure "not a network")

abbrev read_cooldown : Bytes → Result CooldownItem
read_cooldown (cooldown item) = ok item
read_cooldown (network pn) = err (failure "not a cooldown item")

abbrev pub toy_networks : Codec Bytes PodNetwork
toy_networks = record { marshal = λ pn. ok (network pn); unmarshal = read_network }

abbrev pub toy_cooldowns : Codec Bytes CooldownItem
toy_cooldowns = record { marshal = λ item. ok (cooldown item); unmarshal = read_cooldown }

pub network_round_trip :
    (v : PodNetwork) (d : Bytes) → ok (network v) ≡ ok d → read_network d ≡ ok v
network_round_trip v d h = subst (λ x. read_network x ≡ ok v) (ok_bytes (network v) d h) refl
  where
    ok_bytes : (x y : Bytes) → ok x ≡ ok y → x ≡ y
    ok_bytes x y e = cc

pub cooldown_round_trip :
    (v : CooldownItem) (d : Bytes) → ok (cooldown v) ≡ ok d → read_cooldown d ≡ ok v
cooldown_round_trip v d h = subst (λ x. read_cooldown x ≡ ok v) (ok_bytes (cooldown v) d h) refl
  where
    ok_bytes : (x y : Bytes) → ok x ≡ ok y → x ≡ y
    ok_bytes x y e = cc

-- The address that the VPC service hands out, and the pod that the cluster knows.
abbrev pub toy_info : IpInfo
toy_info = record {
  ip = "10.0.0.9";
  vpc_id = "uvnet-1";
  subnet_id = "subnet-1";
  mask = "255.255.0.0";
  mac = "52:54:00:00:00:01";
  gateway = "10.0.0.1";
}

abbrev pub toy_pod : Pod
toy_pod = record {
  name = "web-0";
  namespace = "default";
  uid = "uid-1";
  owners = [];
  annotations = [];
  running = true;
}

-- A call of the VPC service fails while the service is down.
abbrev up : {A : Type 0} → A → Step Bool A
up a true = (ok a, true)
up a false = (err (failure "service is down"), false)

abbrev named : String → List Ipamd → Result Ipamd
named name [] = err (api absent)
named name (x ∷ xs) = if x.name == name then ok x else named name xs

abbrev without : String → List Ipamd → List Ipamd
without name [] = []
without name (x ∷ xs) = let rest = without name xs in if x.name == name then rest else x ∷ rest

abbrev pub toy : Env
toy = record {
  bolt = toy_bolt;
  networks = toy_networks;
  cooldowns = toy_cooldowns;
  Cloud = Bool;
  vpc_client = λ c. (ok tt, c);
  allocate_secondary_ip = λ req. up toy_info;
  describe_secondary_ip = λ req. up (record toy_info { ip = req.ip } ∷ []);
  delete_secondary_ip = λ req. up tt;
  move_secondary_ip_mac = λ req. up tt;
  describe_subnet = λ vpc subnet. up (1 ∷ []);
  Cluster = List Ipamd;
  get_pod = λ name ns c. (ok toy_pod, c);
  patch_annotations = λ pod pairs c. (ok tt, c);
  list_pods = λ c. (ok (toy_pod ∷ []), c);
  list_nodes = λ c. (ok ("node-1" ∷ []), c);
  get_node = λ name c. (ok tt, c);
  list_ipamds = λ c. (ok c, c);
  get_ipamd = λ name c. (named name c, c);
  create_ipamd = λ x c. (ok tt, x ∷ c);
  update_ipamd = λ x c. (ok tt, x ∷ without x.name c);
  delete_ipamd = λ name c. (ok tt, without name c);
  list_claims = λ ns name c. (ok [], c);
  get_claim = λ ns name c. (err (api absent), c);
  create_claim = λ vip c. (ok vip, c);
  update_claim = λ vip c. (ok tt, c);
  Host = ℕ;
  now = λ h. (h, h + 1);
  format_time = λ t. "";
  object_id_for_secondary_ip = λ h. (ok "uhost-1", h);
  detect_conflict = λ ip h. (ok false, h);
  dial = λ addr h. (ok tt, h);
  borrow_ip = λ addr req h. (ok none, h);
  retry_on_conflict = λ m. m;
  map_order = λ xs. xs;
}

abbrev pub toy_laws : EnvLaws toy
toy_laws = record {
  bolt = toy_bolt_laws;
  networks = record { round_trip = network_round_trip; not_empty = λ v d h. refl };
  cooldowns = record { round_trip = cooldown_round_trip; not_empty = λ v d h. refl };
  map_order_perm = λ xs. Perm.refl xs;
}

abbrev pub toy_config : Config
toy_config = record {
  node_name = "node-1";
  host_id = "uhost-1";
  zone_id = "zone-1";
  availability_zone = "zone-1";
  vpc_id = "uvnet-1";
  subnet_id = "subnet-1";
  master_mac_address = "52:54:00:00:00:01";
  tcp_addr = "10.0.0.2:7312";
  high_watermark = 0;
  low_watermark = 0;
  cooldown_period = 30;
  calico_policy = false;
}

abbrev pub toy_address : PodNetwork
toy_address = record {
  pod_name = "";
  pod_ns = "";
  pod_uid = "";
  sandbox_id = "";
  net_ns = "";
  vpc_ip = "10.0.0.9";
  vpc_id = "uvnet-1";
  subnet_id = "subnet-1";
  gateway = "10.0.0.1";
  mask = "255.255.0.0";
  mac_address = "52:54:00:00:00:01";
  dedicated_uni = false;
  interface_id = "";
  eip_id = "";
  create_time = 0;
  recycle_time = 0;
  recycled = false;
}
