-- ===== src/Ipamd/Status.antt =====
-- pkg/ipamd/pool.go: the `ipamd` resource of each pool, and the removal of resources that no pool
-- stands behind any more.
pub mod Names
pub mod Gone
pub mod Keys
use uk8s_cni_vpc.Prelude.{
  ℕ, String, concat, Bool, true, false, not, ◌&&◌, ◌||◌, Option, none, some, List, [], ◌∷◌, ◌++◌,
  ◌==◌, eqb, ltb, leb, length, trim_prefix, if◌then◌else◌,
}
use uk8s_cni_vpc.Result.{Result, ok, err, Error, failure, is_absent}
use uk8s_cni_vpc.Step.{Step, pure, raise, lift, try, or_else, ◌>>=◌, ◌>>◌}
use uk8s_cni_vpc.Ipamd.Types.{Ipamd, IpamdStatus, Level, dry, hungry, normal, overflow}
use uk8s_cni_vpc.Ipamd.World.{Env, Config, State, Io, on_cluster}
use uk8s_cni_vpc.Ipamd.Pool.{pool_count, pool_db_name, contains}
use uk8s_cni_vpc.Ipamd.Borrow.{canonical_ipamd_name}

-- The four cases of the `switch` in `updateStatus`.
pub level_of : ℕ → ℕ → ℕ → Level
level_of low high watermark =
    if leb watermark 0
    then dry
    else if ltb watermark low
    then hungry
    else if leb low watermark && ltb watermark high
    then normal
    else overflow

abbrev pub same_level : Level → Level → Bool
same_level dry dry = true
same_level hungry hungry = true
same_level normal normal = true
same_level overflow overflow = true
same_level _ _ = false

-- `reflect.DeepEqual` at `IpamdStatus`
abbrev pub same_status : IpamdStatus → IpamdStatus → Bool
same_status a b =
    eqb a.current b.current
    && (eqb a.high b.high && (eqb a.low b.low && same_level a.status b.status))

-- The names that the duplicates of one node and subnet have, and the alias that is removed.
abbrev pub has_name : String → List Ipamd → Bool
has_name name [] = false
has_name name (x ∷ xs) = x.name == name || has_name name xs

-- `nodeIpamdMap` of `recycleStatus`: the resources of each node and subnet, in the order of the list.
unfoldable pub add_to_identity :
    Ipamd → List (String × String × List Ipamd) → List (String × String × List Ipamd)
add_to_identity x [] = (x.node, x.subnet, x ∷ []) ∷ []
add_to_identity x ((node, subnet, xs) ∷ groups) =
    if node == x.node && subnet == x.subnet
    then (node, subnet, xs ++ x ∷ []) ∷ groups
    else (node, subnet, xs) ∷ add_to_identity x groups

module _ ⦃env : Env⦄ ⦃config : Config⦄ where
  -- `getPoolSubnetID`
  pub get_pool_subnet_id : String → String × Bool
  get_pool_subnet_id key =
      let subnet = trim_prefix key pool_db_name in
      if subnet == "" then (config.subnet_id, true) else (trim_prefix subnet "-", false)

  pub status_of : ℕ → IpamdStatus
  status_of watermark = record {
    current = watermark;
    high = config.high_watermark;
    low = config.low_watermark;
    status = level_of config.low_watermark config.high_watermark watermark;
  }

  pub ipamd_name : String × Bool → String
  ipamd_name (subnet, default_subnet) =
      if default_subnet then config.node_name else concat config.node_name (concat "-" subnet)

  pub write_status : String → String → IpamdStatus → Result Ipamd → Io (Unit {0})
  write_status name subnet status (ok current) =
      if same_status current.status status
      then pure tt
      else or_else (on_cluster (env.update_ipamd (record current { status = status })))
          "failed to update ipamd resource"
  write_status name subnet status (err e) =
      if is_absent e
      then or_else
          (on_cluster (
            env.create_ipamd (record {
              name = name;
              node = config.node_name;
              addr = config.tcp_addr;
              subnet = subnet;
              status = status;
            })))
          "faield to create ipamd resource"
      else raise (failure "failed to get ipamd resource")

  pub update_status : String → Io (Unit {0})
  update_status key = do
    watermark ← or_else (pool_count key) "count pool size"
    let named : String × Bool = get_pool_subnet_id key
    let name : String = ipamd_name named
    found ← try (on_cluster (env.get_ipamd name))
    write_status name named.0 (status_of watermark) found

  pub update_all : List String → Io (Unit {0})
  update_all [] s = (ok tt, s)
  update_all (key ∷ keys) s = update_all keys (update_status key s).1

  -- The first loop of `recycleStatus`: a resource of a node that is gone is deleted, whatever the
  -- answer; the others are kept by node and subnet.
  unfoldable pub remove_gone :
      List String
      → List Ipamd
      → List (String × String × List Ipamd)
      → Io (List (String × String × List Ipamd))
  remove_gone nodes [] groups s = (ok groups, s)
  remove_gone nodes (x ∷ xs) groups s = elim (contains x.node nodes) [
    | true ↦ remove_gone nodes xs (add_to_identity x groups) s
    | false ↦ remove_gone nodes xs groups (on_cluster (env.delete_ipamd x.name) s).1
  ]

  -- The alias is the bare name of the node.
  pub remove_alias : String → List Ipamd → Io (Unit {0})
  remove_alias node [] s = (ok tt, s)
  remove_alias node (x ∷ xs) s = elim (x.name == node) [
    | true ↦ remove_alias node xs (on_cluster (env.delete_ipamd x.name) s).1
    | false ↦ remove_alias node xs s
  ]

  pub is_duplicated : String → String → List Ipamd → Bool
  is_duplicated node subnet xs =
      node == config.node_name
      && (not (leb (length xs) 1) && has_name (canonical_ipamd_name node subnet) xs)

  pub remove_duplicates : List (String × String × List Ipamd) → Io (Unit {0})
  remove_duplicates [] s = (ok tt, s)
  remove_duplicates ((node, subnet, xs) ∷ groups) s = elim (is_duplicated node subnet xs) [
    | true ↦ remove_duplicates groups (remove_alias node xs s).1
    | false ↦ remove_duplicates groups s
  ]

  pub recycle_status : Io (Unit {0})
  recycle_status = do
    ipamds ← or_else (on_cluster env.list_ipamds) "list ipamd items"
    nodes ← or_else (on_cluster env.list_nodes) "list node items"
    groups ← remove_gone nodes ipamds []
    remove_duplicates (env.map_order groups)
