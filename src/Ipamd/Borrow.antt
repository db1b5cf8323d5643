-- ===== src/Ipamd/Borrow.antt =====
-- pkg/ipamd/pool.go, `borrowIP`: an address from the daemon of another node, if the subnet has none.
pub mod Candidates
pub mod Nodes
pub mod Keys
use uk8s_cni_vpc.Prelude.{
  ℕ, zero, suc, String, concat, Bool, true, false, not, ◌&&◌, ◌||◌, Option, none, some, List, [],
  ◌∷◌, ◌++◌, ◌==◌, ltb, leb, length, if◌then◌else◌,
}
use uk8s_cni_vpc.Result.{Result, ok, err, Error, failure, is_absent}
use uk8s_cni_vpc.Step.{Step, pure, raise, lift, try, or_else, ◌>>=◌, ◌>>◌}
use uk8s_cni_vpc.Ipamd.Types.{
  PodNetwork, AddPodNetworkRequest, BorrowIpRequest, Ipamd, IpamdStatus, Level, dry, hungry, normal,
  overflow,
}
use uk8s_cni_vpc.Ipamd.World.{Env, Config, State, Io, on_cluster, on_host}

abbrev pub is_dry : Level → Bool
is_dry dry = true
is_dry _ = false

-- `getCanonicalIpamdName`
abbrev pub canonical_ipamd_name : String → String → String
canonical_ipamd_name node subnet = concat node (concat "-" subnet)

-- `nodeIpamdMap`: the resources of each node, in the order of the list.
pub add_to_node : Ipamd → List (String × List Ipamd) → List (String × List Ipamd)
add_to_node x [] = (x.node, x ∷ []) ∷ []
add_to_node x ((node, xs) ∷ groups) =
    if node == x.node then (node, xs ++ x ∷ []) ∷ groups else (node, xs) ∷ add_to_node x groups

pub group_by_node : List Ipamd → List (String × List Ipamd) → List (String × List Ipamd)
group_by_node [] groups = groups
group_by_node (x ∷ xs) groups = group_by_node xs (add_to_node x groups)

pub find_name : String → List Ipamd → Option Ipamd
find_name name [] = none
find_name name (x ∷ xs) = if x.name == name then some x else find_name name xs

-- The one resource that stands for a node; a group of the map is never empty.
pub select_node : List Ipamd → Option Ipamd
select_node [] = none
select_node (x ∷ []) = some x
select_node (x ∷ y ∷ rest) =
    elim (find_name (canonical_ipamd_name x.node x.subnet) (x ∷ y ∷ rest)) [
      | none ↦ some x
      | some selected ↦ some selected
    ]

pub select_nodes : List (String × List Ipamd) → List Ipamd
select_nodes [] = []
select_nodes ((node, xs) ∷ groups) = elim (select_node xs) [
  | none ↦ select_nodes groups
  | some x ↦ x ∷ select_nodes groups
]

-- `sort.Slice` by falling `Status.Current`; the order among equals is left open by the library and
-- here is that of the list.
pub insert_by_current : Ipamd → List Ipamd → List Ipamd
insert_by_current x [] = x ∷ []
insert_by_current x (y ∷ ys) =
    if leb y.status.current x.status.current then x ∷ y ∷ ys else y ∷ insert_by_current x ys

pub sort_by_current : List Ipamd → List Ipamd
sort_by_current [] = []
sort_by_current (x ∷ xs) = insert_by_current x (sort_by_current xs)

module _ ⦃env : Env⦄ ⦃config : Config⦄ where
  pub filter_borrow_candidates : List Ipamd → List Ipamd
  filter_borrow_candidates ipamds = select_nodes (env.map_order (group_by_node ipamds []))

  unfoldable pub eligible : String → Ipamd → Bool
  eligible subnet x =
      not (x.node == config.node_name) && (not (is_dry x.status.status) && x.subnet == subnet)

  -- The resources that pass the filters and whose node is there.
  unfoldable pub gather : String → List Ipamd → Io (List Ipamd)
  gather subnet [] s = (ok [], s)
  gather subnet (x ∷ xs) s = elim (eligible subnet x) [
    | false ↦ gather subnet xs s
    | true ↦
        let (node, s1) = on_cluster (env.get_node x.node) s in
        elim node [
          | err e ↦ elim (is_absent e) [
            | true ↦ gather subnet xs s1
            | false ↦ (err (failure "call kube-client to get node"), s1)
          ]
          | ok u ↦
              let (rest, s2) = gather subnet xs s1 in
              elim rest [ err e ↦ (err e, s2) | ok ys ↦ (ok (x ∷ ys), s2) ]
        ]
  ]

  -- The candidates in turn: a failed dial or call, or an empty answer, goes on to the next.
  pub borrow_from : AddPodNetworkRequest → List Ipamd → Io PodNetwork
  borrow_from req [] s = (err (failure "failed to borrow ip from other ipamd"), s)
  borrow_from req (x ∷ xs) s =
      let (conn, s1) = on_host (env.dial x.addr) s in
      elim conn [
        | err e ↦ borrow_from req xs s1
        | ok u ↦
            let (resp, s2) =
              on_host
                (env.borrow_ip x.addr
                  (record { mac_address = req.mac_address; subnet_id = req.subnet_id }))
                s1 in
            elim resp [
              | err e ↦ borrow_from req xs s2
              | ok none ↦ borrow_from req xs s2
              | ok (some pn) ↦ (ok (record pn { recycled = false }), s2)
            ]
      ]

  pub borrow_candidates : AddPodNetworkRequest → List Ipamd → Io PodNetwork
  borrow_candidates req [] = raise (failure "no ipamd to borrow")
  borrow_candidates req (x ∷ xs) =
      borrow_from req (sort_by_current (filter_borrow_candidates (x ∷ xs)))

  pub borrow_listed : AddPodNetworkRequest → List Ipamd → Io PodNetwork
  borrow_listed req items =
      if leb (length items) 1
      then raise (failure "no other ipamd to borrow ip")
      else (gather req.subnet_id items >>= borrow_candidates req)

  pub borrow_ip : AddPodNetworkRequest → Io PodNetwork
  borrow_ip req = do
    items ← or_else (on_cluster env.list_ipamds) "failed to list ipamd resources"
    borrow_listed req items
