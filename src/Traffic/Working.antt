-- ===== src/Traffic/Working.antt =====
-- `CTrafficManager::working` (src/traffic/CTrafficManager.cpp): one round of the thread of the traffic
-- manager. It takes back the nodes that wait for it, and then what `epoll_wait` has found, in its order.
use g_max_linked.Base.{
  ℕ, Bool, true, false, not, ◌||◌, Option, none, some, List, [], ◌∷◌, ◌==◌, if◌then◌else◌, ◌>>=◌,
  ◌>>◌, assert_that, length,
}
use g_max_linked.LoopBuffer.{LoopBuffer}
use g_max_linked.Socket.{Reader}
use g_max_linked.Resource.{allocate}
use g_max_linked.Transaction.Handlers.{is_free}
use g_max_linked.Node.{Node, Round, returns, out_of_fuel}
use g_max_linked.Traffic.{Traffic, Client, add_node, del_node}
use g_max_linked.Traffic.Events.{Flags, on_event}

-- The pool, and the parts that its events reach: the receiving side of each node, the queue of each group,
-- and the sockets. The address and the port of a client, which only the log reads, are left out.
pub record World (S : Type 0) : Type 0 where
  pub traffic : Traffic
  pub node_of : ℕ → Node
  pub queue_of : ℕ → LoopBuffer
  pub socket_of : ℕ → S

-- An entry of `events`: the listening socket, readable or not, with the clients that wait there, or the
-- address of a node, with its flags.
pub data Event (S : Type 0) : Type 0 where
  at_listener : Bool → List (Client × S) → Event S
  at_node : ℕ → Flags → Event S

-- The `errno` values that `working` tells apart.
pub data WaitError : Type 0 where
  ebadf efault eintr einval unknown : WaitError

pub data Waited (S : Type 0) : Type 0 where
  wait_failed : WaitError → Waited S
  ready : List (Event S) → Waited S

-- The events have been handled, or `recv` ran out of fuel.
pub data Worked (S : Type 0) : Type 0 where
  worked : World S → Worked S
  unfinished : Worked S

abbrev pub update {ℓ} : {A : Type ℓ} → (ℕ → A) → ℕ → A → ℕ → A
update f n a m = if m == n then a else f m

-- `_delNode`, with `onDetach` of the node.
unfoldable pub give_back : {S : Type 0} → ℕ → World S → Option (World S)
give_back n w =
    let node = record (w.node_of n) { fd = 0; recv_offset = 0; recv_due_size = 0; group = 0 } in
    let is_kept = is_free (w.traffic.nodes n).status || ((w.traffic.nodes n).fd == 0) in
    do
      t ← del_node n w.traffic
      some (record w {
        traffic = t;
        node_of = if is_kept then w.node_of else update w.node_of n node;
      })

-- The loop over `_nodeQueue`.
unfoldable pub give_all : {S : Type 0} → List ℕ → World S → Option (World S)
give_all [] w = some (record w { traffic = record w.traffic { node_queue = [] } })
give_all (n ∷ queue) w = do w' ← give_back n w; give_all queue w'

-- `onAttach` of the node that the pool gives, in a round of `_addNodes`.
unfoldable pub give_node : {S : Type 0} → Client → S → Traffic → World S → World S
give_node client s t w =
    let n = (allocate w.traffic.resource).0 in
    let node = record (w.node_of n) {
      group = (t.nodes n).group;
      fd = client.fd;
      recv_offset = 0;
      recv_due_size = 0;
    } in
    record w {
      traffic = t;
      node_of =
          if length w.traffic.resource.free_units == 0 then w.node_of else update w.node_of n node;
      socket_of =
          if length w.traffic.resource.free_units == 0 then w.socket_of else update w.socket_of n s;
    }

-- `_addNodes`.
unfoldable pub take_clients : {S : Type 0} → List (Client × S) → World S → Option (World S)
take_clients [] w = some w
take_clients ((client, s) ∷ clients) w = do
  (goes_on, t) ← add_node client w.traffic
  elim goes_on [
    | true ↦ take_clients clients (give_node client s t w)
    | false ↦ some (give_node client s t w)
  ]

-- What an event of the node `n` leaves.
unfoldable pub put_back : {S : Type 0} → ℕ → ℕ → World S → Round S → Worked S
put_back n group w (Round.goes_on node queue s) = unfinished
put_back n group w (returns b node queue s) = worked (record w {
  node_of = update w.node_of n node;
  queue_of = update w.queue_of group queue;
  socket_of = update w.socket_of n s;
})
put_back n group w out_of_fuel = unfinished

-- Only an interrupted wait lets the thread run on.
unfoldable pub on_wait_error : WaitError → Option Bool
on_wait_error ebadf = some false
on_wait_error efault = some false
on_wait_error eintr = some true
on_wait_error einval = some false
on_wait_error unknown = none

module _ (k : Reader) (fuel version stmp : ℕ) where
  unfoldable pub on_found : Event k.State → World k.State → Option (Worked k.State)
  unfolding put_back
  on_found (at_listener is_readable clients) w = do
    assert_that is_readable
    w' ← take_clients clients w
    some (worked w')
  on_found (at_node n flags) w =
      let group = (w.traffic.nodes n).group in
      do
        assert_that (not (n == 0))
        r ← on_event k fuel version stmp flags (w.node_of n) (w.queue_of group) (w.socket_of n)
        some (put_back n group w r)

  unfoldable pub then_found :
      (World k.State → Option (Worked k.State)) → Worked k.State → Option (Worked k.State)
  then_found next (worked w) = next w
  then_found next unfinished = some unfinished

  -- The loop over `events`.
  unfoldable pub all_found : List (Event k.State) → World k.State → Option (Worked k.State)
  unfolding then_found
  all_found [] w = some (worked w)
  all_found (event ∷ events) w = on_found event w >>= then_found (all_found events)

  -- `working`, and what it answers.
  unfoldable pub working : Bool → Waited k.State → World k.State → Option (Bool × Worked k.State)
  working is_running (wait_failed e) w = do
    w' ← give_all w.traffic.node_queue w
    answer ← on_wait_error e
    some (answer, worked w')
  working is_running (ready events) w = do
    w' ← give_all w.traffic.node_queue w
    r ← all_found events w'
    some (is_running, r)
