-- ===== src/NodeGroup/Dispatch.antt =====
-- `CNodeGroup::_rollingQueue` as a whole: a message of the queue goes to its transaction.
use g_max_linked.Base.{
  ℕ, Bool, true, false, not, ◌||◌, Option, some, List, [], ◌∷◌, ◌++◌, ◌==◌, if◌then◌else◌, ◌>>=◌,
  ◌>>◌, assert_that,
}
use g_max_linked.Message.{decode}
use g_max_linked.LoopBuffer.{LoopBuffer}
use g_max_linked.MessageQueue.{nothing, mismatch, message, fetch}
use g_max_linked.Transaction.Act.{Transaction, Answers, Settings}
use g_max_linked.Transaction.Handlers.{is_connected, is_ready, is_over}
use g_max_linked.Transaction.Messages.{on_message}

-- The queue and the buffer of the group, the transactions by their addresses, and the nodes that
-- `recycleNode` has been called with, by the addresses of their transactions.
pub record Group : Type 0 where
  pub queue : LoopBuffer
  pub buffer : List ℕ
  pub transactions : ℕ → Transaction
  pub recycled : List ℕ

abbrev pub set_transaction : (ℕ → Transaction) → ℕ → Transaction → ℕ → Transaction
set_transaction transactions a t other = if other == a then t else transactions other

module _ (env : Answers) (cfg : Settings) where
  -- The transaction at an address has handled a message, with this answer.
  unfoldable pub finish : Group → ℕ → Bool → Transaction → Option (Bool × Group)
  finish g a answer t =
      let g' = record g { transactions = set_transaction g.transactions a t } in
      if answer then some (true, g') else do
        assert_that (is_over t.status)
        some (true, record g' { recycled = g.recycled ++ a ∷ [] })

  -- The message in the buffer.
  unfoldable pub hand_over : Group → Option (Bool × Group)
  hand_over g = do
    let a = (decode g.buffer).ext
    let t = g.transactions a
    assert_that (not (a == 0))
    if is_connected t.status || is_ready t.status
        then (on_message env cfg g.buffer t >>= λ r. finish g a r.0 r.1)
        else some (true, g)

  -- `_rollingQueue`.
  unfoldable pub rolling_queue : Group → Option (Bool × Group)
  rolling_queue g = do
    r ← fetch g.queue g.buffer
    let g' = record g { queue = r.queue; buffer = r.buffer }
    elim r.found [
      | nothing ↦ some (false, g')
      | mismatch ↦ some (false, g')
      | message ↦ hand_over g'
    ]
