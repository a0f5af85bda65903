-- ===== src/NodeGroup/Working.antt =====
-- `CNodeGroup::working`: one round of the group's thread, the front of the queue and the node whose
-- turn it is. `CTransaction::onCheck` is `checkMessages` of the group's operator.
use g_max_linked.Base.{
  ℕ, Bool, true, false, not, ◌&&◌, Option, some, ◌==◌, if◌then◌else◌, ◌>>=◌, length,
}
use g_max_linked.Config.{Redis, Msg}
use g_max_linked.Transaction.Act.{Answers, Settings}
use g_max_linked.Transaction.Handlers.{is_ready}
use g_max_linked.Database.Run.{Outside, Operator}
use g_max_linked.Database.Check.{check_messages}
use g_max_linked.NodeGroup.{NodeGroup, rolling_node}
use g_max_linked.NodeGroup.Dispatch.{Group, set_transaction, rolling_queue}

-- The group with its nodes and its operator. A node is known by the address of its transaction.
pub record Worker : Type 0 where
  pub group : Group
  pub nodes : NodeGroup
  pub operator : Operator

module _ (out : Outside) (redis : Redis) (msg : Msg) (depth : ℕ) (env : Answers)
    (cfg : Settings) where
  -- `onCheck`. What it answers is not looked at.
  unfoldable pub on_check : ℕ → Worker → Option Worker
  on_check a w = do
    (answer, s) ←
        check_messages out redis msg depth env cfg
          (record { operator = w.operator; transaction = w.group.transactions a })
    some (record w {
      operator = s.operator;
      group = record w.group {
        transactions = set_transaction w.group.transactions a s.transaction;
      };
    })

  -- The rest of `_rollingNode`, for the node whose turn it is.
  unfoldable pub check_node : ℕ → Worker → Option (Bool × Worker)
  unfolding on_check
  check_node a w =
      let checked = on_check a w in
      if is_ready (w.group.transactions a).status
      then (checked >>= λ w'. some (true, w'))
      else some (true, w)

  -- `_rollingNode` as a whole.
  unfoldable pub rolling_check : Worker → Option (Bool × Worker)
  unfolding check_node
  rolling_check w =
      if length w.nodes.container == 0
      then some (false, w)
      else do (a, nodes) ← rolling_node w.nodes; check_node a (record w { nodes = nodes })

  -- `working`, and whether it sleeps behind it.
  unfoldable pub working : Worker → Option (Bool × Worker)
  unfolding rolling_check
  working w = do
    (queue, group) ← rolling_queue env cfg w.group
    (node, w') ← rolling_check (record w { group = group })
    some (not queue && not node, w')
