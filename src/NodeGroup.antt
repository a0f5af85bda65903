-- ===== src/NodeGroup.antt =====
-- `CNodeGroup` (src/traffic/CNodeGroup.cpp): the nodes of a group and the turn of each. The queue of
-- the group is in MessageQueue. A node is its address; the position of `_pos` is the number of nodes
-- before it. `std::list` keeps the position at its node when others come and go.
pub mod Turns
pub mod Dispatch
pub mod Served
pub mod Working
pub mod Valid
mod Tests
use g_max_linked.Base.{
  ℕ, zero, suc, ◌+◌, ◌-◌, Bool, true, false, not, Option, none, some, List, [], ◌∷◌, ◌++◌, ltb, leb,
  ◌==◌, if◌then◌else◌, ◌>>=◌, ◌>>◌, assert_that, length,
}

-- `_container` and `_pos`, and whether `_ro` has been told to connect.
pub record NodeGroup : Type 0 where
  pub container : List ℕ
  pub pos : ℕ
  pub is_connected : Bool

-- The constructor: `_pos` is the end of the empty list.
unfoldable pub create : NodeGroup
create = record { container = []; pos = 0; is_connected = false }

-- `attach`, with the answer of the node's `onAttach`. A position at the end stays at the end.
unfoldable pub attach : ℕ → Bool → NodeGroup → Bool × NodeGroup
attach node attached g = if not attached then (false, g) else (
  true,
  record g {
    container = g.container ++ node ∷ [];
    pos = if g.pos == length g.container then g.pos + 1 else g.pos;
    is_connected = if length g.container == 0 then true else g.is_connected;
  },
)

-- `*_pos`; at the end of the list it is a fault.
unfoldable pub node_at : ℕ → List ℕ → Option ℕ
node_at n [] = none
node_at zero (node ∷ nodes) = some node
node_at (suc n) (node ∷ nodes) = node_at n nodes

-- The nodes before the first that is the given one.
unfoldable pub place_of : ℕ → List ℕ → ℕ
place_of node [] = 0
place_of node (other ∷ nodes) =
    let rest = place_of node nodes in if other == node then 0 else rest + 1

-- `_container.remove(node)`.
unfoldable pub remove : ℕ → List ℕ → List ℕ
remove node [] = []
remove node (other ∷ nodes) =
    let rest = remove node nodes in if other == node then rest else other ∷ rest

-- `detach`, of a node that is in the list at most once. The position moves on when its own node
-- goes, and counts one less when one before it does.
unfoldable pub detach : ℕ → NodeGroup → Option NodeGroup
detach node g = do
  current ← node_at g.pos g.container
  let pos = if current == node then g.pos + 1 else g.pos
  let container = remove node g.container
  some (record {
    container = container;
    pos = if ltb (place_of node g.container) pos then pos - 1 else pos;
    is_connected = if length container == 0 then false else g.is_connected;
  })

-- `_rollingNode`: the node whose turn it is.
unfoldable pub rolling_node : NodeGroup → Option (ℕ × NodeGroup)
rolling_node g =
    let pos = if g.pos == length g.container then 0 else g.pos in
    if length g.container == 0
    then some (0, g)
    else do node ← node_at pos g.container; some (node, record g { pos = pos + 1 })
