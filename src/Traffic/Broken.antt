-- ===== src/Traffic/Broken.antt =====
-- A connection that breaks, from the event of its socket to the end of its session.
use g_max_linked.Base.{
  ℕ, suc, ◌^◌, ◌<◌, ◌≡◌, ◌≢◌, refl, ap, ◌∙◌, Bool, true, false, some, List, [], ◌++◌, if◌then◌else◌,
  length, arith,
}
use g_max_linked.Message.{msg_max_length}
use g_max_linked.LoopBuffer.{LoopBuffer}
use g_max_linked.LoopBuffer.Invariant.{IsValid, contents}
use g_max_linked.LoopBuffer.Write.{fits}
use g_max_linked.LoopBuffer.Appends.{write_lem}
use g_max_linked.MessageQueue.{put_message}
use g_max_linked.MessageQueue.Order.{put_message-frame}
use g_max_linked.Socket.{Reader, closed}
use g_max_linked.Node.{Node, returns, wanted, on_read, recv}
use g_max_linked.Transaction.Act.{
  Answers, Settings, ExitReason, connection_broken, connection_error, cannot_recv_data,
}
use g_max_linked.Transaction.Pdu.{over_message}
use g_max_linked.Transaction.Lifecycle.{IsLive}
use g_max_linked.NodeGroup.Dispatch.{Group, rolling_queue}
use g_max_linked.Traffic.Events.{Flags, post, after_recv, on_event}
use g_max_linked.Traffic.Over.{over_message-IsFrame, length-over_message, IsStop, Gone, rolls-over}

-- Why the socket of a node counts as broken: the peer has hung up, there is an error, or a read finds
-- the connection closed.
pub data Breaks (k : Reader) (node : Node) (s : k.State) (flags : Flags) : ExitReason → Type 0 where
  hung_up : flags.is_broken ≡ true → Breaks k node s flags connection_broken
  has_failed :
      flags.is_broken ≡ false → flags.has_error ≡ true → Breaks k node s flags connection_error
  is_closed :
      flags.is_broken ≡ false
      → flags.has_error ≡ false
      → flags.is_readable ≡ true
      → (k.read s (wanted node)).0 ≡ closed
      → Breaks k node s flags cannot_recv_data

module _ (k : Reader) (fuel version stmp : ℕ) (flags : Flags) (node : Node) (queue : LoopBuffer)
    (s : k.State) where
  recv-closed :
      (k.read s (wanted node)).0 ≡ closed
      → recv k (suc fuel) node queue s ≡ some (returns false node queue (k.read s (wanted node)).1)
  unfolding recv on_read
  recv-closed e = rw e refl

  on_event-posts :
      (reason : ExitReason)
      → Breaks k node s flags reason
      → (s' : k.State) × (on_event k (suc fuel) version stmp flags node queue s
          ≡ post version stmp reason node queue s')
  unfolding on_event after_recv
  on_event-posts _ (hung_up b) = (s, rw b refl)
  on_event-posts _ (has_failed b e) = (s, rw (b, e) refl)
  on_event-posts _ (is_closed b e r c) =
      ((k.read s (wanted node)).1, rw (b, e, r, recv-closed c) refl)

post-puts :
    {S : Type 0} (version stmp : ℕ) (reason : ExitReason) (node : Node) (queue q' : LoopBuffer)
    (s : S) (b : Bool)
    → put_message queue (over_message node.transaction version stmp reason) ≡ some (b, q')
    → post version stmp reason node queue s ≡ some (returns b node q' s)
unfolding post
post-puts version stmp reason node queue q' s b e = rw e refl

Breaks-IsStop :
    (k : Reader) (node : Node) (s : k.State) (flags : Flags) (reason : ExitReason)
    → Breaks k node s flags reason
    → IsStop reason
Breaks-IsStop k node s flags _ (hung_up b) = omega arith
Breaks-IsStop k node s flags _ (has_failed b e) = omega arith
Breaks-IsStop k node s flags _ (is_closed b e r c) = omega arith

-- A connection that breaks ends its session. When the peer has hung up, or the socket has an error, or a
-- read finds the connection closed, the traffic manager puts a message into the queue of the node's
-- group. If nothing else waits there, there is room for it, and the transaction is connected or ready,
-- the next round of the group's thread takes that message: the transaction is over with all that it
-- held given back, its node is to be recycled, and no other transaction has changed.
pub broken_lem :
    (env : Answers) (cfg : Settings) (k : Reader) (fuel version stmp : ℕ) (flags : Flags)
    (node : Node) (s : k.State) (g : Group) (reason : ExitReason)
    → Breaks k node s flags reason
    → node.transaction ≢ 0
    → node.transaction < 2 ^ 64
    → version < 2 ^ 16
    → stmp < 2 ^ 64
    → IsValid g.queue
    → contents g.queue ≡ []
    → fits g.queue 33 ≡ true
    → length g.buffer ≡ msg_max_length
    → IsLive (g.transactions node.transaction)
    → (q' : LoopBuffer) × (s' : k.State) × (on_event k (suc fuel) version stmp flags node g.queue s
        ≡ some (returns true node q' s'))
      × ((g' : Group) × (rolling_queue env cfg (record g { queue = q' }) ≡ some (true, g'))
          × Gone g node.transaction g')
broken_lem env cfg k fuel version stmp flags node s g reason why nonzero i v m valid empty room
      buffer live =
    let a : ℕ = node.transaction in
    let msg : List ℕ = over_message a version stmp reason in
    let (s', posts) = on_event-posts k fuel version stmp flags node g.queue s reason why in
    let (q', e, v', shape, c) =
      write_lem g.queue msg valid (omega (arith, length-over_message a version stmp reason)) in
    let fit : fits g.queue (length msg) ≡ true =
      ap (fits g.queue) (length-over_message a version stmp reason) ∙ room in
    let put : put_message g.queue msg ≡ some (true, q') =
      put_message-frame g.queue msg (over_message-IsFrame a version stmp reason)
      ∙ e
      ∙ ap (λ b. some (b, q')) fit in
    let held : contents q' ≡ msg =
      c
      ∙ ap (λ b. if b then contents g.queue ++ msg else contents g.queue) fit
      ∙ ap (λ x. x ++ msg) empty in
    (
      q',
      s',
      posts ∙ post-puts version stmp reason node g.queue q' s' true put,
      rolls-over env cfg g q' a version stmp reason nonzero i v m
          (Breaks-IsStop k node s flags reason why) v' buffer held live,
    )
