-- ===== src/Traffic.antt =====
-- `CTrafficManager` (src/traffic/CTrafficManager.cpp): the pool of nodes, the groups that take them in
-- turn, and the nodes that wait to be recycled. Of a node it has what the code here reads: its file
-- descriptor, its group and the status of its transaction. A group is its index.
pub mod Groups
pub mod Recycle
pub mod Pool
pub mod Histories
pub mod Working
pub mod Apart
pub mod Isolated
pub mod Events
pub mod Over
pub mod Broken
mod Tests
use g_max_linked.Base.{
  ℕ, zero, suc, ◌+◌, Bool, true, false, not, ◌||◌, ◌&&◌, Option, none, some, List, [], ◌∷◌, ◌++◌,
  ◌==◌, if◌then◌else◌, ◌>>=◌, ◌>>◌, assert_that, length,
}
use g_max_linked.Resource.{Resource, allocate, reclaim}
use g_max_linked.Transaction.Act.{Status, free, connected, over_status}
use g_max_linked.Transaction.Handlers.{is_free, is_over}

pub record Entry : Type 0 where
  pub fd : ℕ
  pub group : ℕ
  pub status : Status

-- `nodes` has the nodes by their addresses, `group_count` is `NODE_GROUP_NUM`.
pub record Traffic : Type 0 where
  pub resource : Resource
  pub nodes : ℕ → Entry
  pub group_count : ℕ
  pub cur_group : ℕ
  pub node_queue : List ℕ

abbrev pub set_node : (ℕ → Entry) → ℕ → Entry → ℕ → Entry
set_node nodes node entry other = if other == node then entry else nodes other

-- `_allocateGroup`.
unfoldable pub allocate_group : Traffic → ℕ × Traffic
allocate_group t =
    let index = if t.cur_group == t.group_count then 0 else t.cur_group in
    (index, record t { cur_group = index + 1 })

-- `recycleNode`.
unfoldable pub recycle_node : ℕ → Traffic → Option Traffic
recycle_node node t = do
  assert_that (not (node == 0))
  some (record t { node_queue = t.node_queue ++ node ∷ [] })

-- A client that has connected: its descriptor, whether its transaction gets a timer and whether
-- `epoll_ctl` takes it.
pub record Client : Type 0 where
  pub fd : ℕ
  pub has_timer : Bool
  pub is_watched : Bool

-- One round of `_addNodes`, and whether it goes on. When the descriptor is not watched, the group
-- detaches a node whose transaction is connected, which `CTransaction::onDetach` asserts against.
unfoldable pub add_node : Client → Traffic → Option (Bool × Traffic)
add_node client t =
    if length t.resource.free_units == 0
    then some (false, t)
    else let (node, resource) = allocate t.resource in
      let (group, t') = allocate_group t in
      let entry : Entry = record { fd = client.fd; group = group; status = connected } in
      let attached = record t' { resource = resource; nodes = set_node t'.nodes node entry } in
      if not client.has_timer
      then some (false, attached)
      else (do assert_that (client.is_watched || is_over entry.status); some (true, attached))

-- `_addNodes`, for the clients that wait at the socket.
unfoldable pub add_nodes : List Client → Traffic → Option Traffic
add_nodes [] t = some t
add_nodes (client ∷ clients) t = do
  (goes_on, t') ← add_node client t
  elim goes_on [ true ↦ add_nodes clients t' | false ↦ some t' ]

-- `_delNode`. `CNodeGroup::detach` clears the descriptor and frees the transaction, which must be over.
unfoldable pub del_node : ℕ → Traffic → Option Traffic
del_node node t = if is_free (t.nodes node).status || ((t.nodes node).fd == 0) then some t else do
  assert_that (is_over (t.nodes node).status)
  some (record t {
    nodes = set_node t.nodes node (record { fd = 0; group = 0; status = free });
    resource = (reclaim node t.resource).1;
  })

-- The loop of `working` over the queue of nodes.
unfoldable pub del_nodes : List ℕ → Traffic → Option Traffic
del_nodes [] t = some (record t { node_queue = [] })
del_nodes (node ∷ queue) t = do t' ← del_node node t; del_nodes queue t'
