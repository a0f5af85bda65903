-- ===== src/Traffic/Events.antt =====
-- The events of a node's socket, as `CTrafficManager::working` takes them (src/traffic/CTrafficManager.cpp).
use g_max_linked.Base.{ℕ, Bool, true, false, Option, some, if◌then◌else◌, ◌>>=◌}
use g_max_linked.LoopBuffer.{LoopBuffer}
use g_max_linked.MessageQueue.{put_message}
use g_max_linked.Socket.{Reader}
use g_max_linked.Node.{Node, Round, goes_on, returns, out_of_fuel, recv}
use g_max_linked.Transaction.Act.{ExitReason, connection_broken, connection_error, cannot_recv_data}
use g_max_linked.Transaction.Pdu.{over_message}

-- The bits EPOLLRDHUP, EPOLLERR and EPOLLIN of `events[i].events`.
pub record Flags : Type 0 where
  pub is_broken : Bool
  pub has_error : Bool
  pub is_readable : Bool

-- `over` by the queue: the message that ends a transaction goes to the queue of its group.
unfoldable pub post : {S : Type 0} → ℕ → ℕ → ExitReason → Node → LoopBuffer → S → Option (Round S)
post version stmp reason node queue s = do
  (done, queue') ← put_message queue (over_message node.transaction version stmp reason)
  some (returns done node queue' s)

-- What follows `recv`.
unfoldable pub after_recv : {S : Type 0} → ℕ → ℕ → Round S → Option (Round S)
unfolding post
after_recv version stmp (returns false node queue s) =
    post version stmp cannot_recv_data node queue s
after_recv version stmp (returns true node queue s) = some (returns true node queue s)
after_recv version stmp (goes_on node queue s) = some (goes_on node queue s)
after_recv version stmp out_of_fuel = some out_of_fuel

-- One event of a node.
unfoldable pub on_event :
    (k : Reader) → ℕ → ℕ → ℕ → Flags → Node → LoopBuffer → k.State → Option (Round k.State)
unfolding post after_recv
on_event k fuel version stmp flags node queue s =
    if flags.is_broken
    then post version stmp connection_broken node queue s
    else if flags.has_error
    then post version stmp connection_error node queue s
    else if flags.is_readable
    then (recv k fuel node queue s >>= λ r. after_recv version stmp r)
    else some (returns true node queue s)
