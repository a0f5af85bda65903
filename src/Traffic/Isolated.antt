-- ===== src/Traffic/Isolated.antt =====
-- One client's traffic and another's node.
mod Tests
use g_max_linked.Base.{
  ℕ, ◌≡◌, refl, subst, ap, ◌∙◌, Bool, true, false, not, bind-some, assert_that-some, Option, none,
  some, List, [], ◌∷◌, ◌==◌, ◌>>=◌, ◌>>◌, assert_that, if◌then◌else◌,
}
use g_max_linked.Socket.{Reader}
use g_max_linked.Node.{Node, Round, returns, out_of_fuel}
use g_max_linked.Traffic.{Traffic}
use g_max_linked.Traffic.Events.{Flags, on_event}
use g_max_linked.Traffic.Pool.{copies}
use g_max_linked.Traffic.Working.{
  World, Event, at_listener, at_node, Waited, wait_failed, ready, Worked, worked, unfinished,
  update, give_all, take_clients, put_back, on_wait_error, on_found, then_found, all_found, working,
}
use g_max_linked.Traffic.Apart.{
  Apart, IsBusy, IsNotIn, IsNotAt, Apart-trans, some-inj, other_place, give_all-Apart,
  take_clients-Apart,
}

-- The events of what `epoll_wait` has answered.
abbrev pub found : {S : Type 0} → Waited S → List (Event S)
found (wait_failed e) = []
found (ready events) = events

module _ (k : Reader) (fuel version stmp m : ℕ) where
  -- What has been handled leaves the node alone.
  abbrev Leaves : World k.State → Worked k.State → Type 0
  Leaves w (worked w') = Apart m w w'
  Leaves w unfinished = Unit {0}

  abbrev LeavesOption : World k.State → Option (Worked k.State) → Type 0
  LeavesOption w none = Unit {0}
  LeavesOption w (some r) = Leaves w r

  put_back-Leaves :
      (n group : ℕ) (w : World k.State) (r : Round k.State)
      → IsBusy m w
      → (m == n) ≡ false
      → Leaves w (put_back n group w r)
  unfolding put_back
  put_back-Leaves n group w (Round.goes_on node queue s) b o = tt
  put_back-Leaves n group w (returns c node queue s) b o = record {
    same_node = other_place false w.node_of n m node o;
    same_socket = other_place false w.socket_of n m s o;
    still_busy = b;
  }
  put_back-Leaves n group w out_of_fuel b o = tt

  node-Leaves :
      (c : Bool) (o : Option (Round k.State)) (n group : ℕ) (w : World k.State)
      → IsBusy m w
      → (m == n) ≡ false
      → LeavesOption w (assert_that c >> (o >>= λ r. some (put_back n group w r)))
  node-Leaves false o n group w b e = tt
  node-Leaves true none n group w b e = tt
  node-Leaves true (some r) n group w b e = put_back-Leaves n group w r b e

  clients-Leaves :
      (c : Bool) (o : Option (World k.State)) (w : World k.State)
      → ((w' : World k.State) → o ≡ some w' → Apart m w w')
      → LeavesOption w (assert_that c >> (o >>= λ w'. some (worked w')))
  clients-Leaves false o w h = tt
  clients-Leaves true none w h = tt
  clients-Leaves true (some w') w h = h w' refl

  then-Leaves :
      (w : World k.State) (o : Option (Worked k.State))
      (next : World k.State → Option (Worked k.State))
      → LeavesOption w o
      → ((w' : World k.State) → IsBusy m w' → LeavesOption w' (next w'))
      → LeavesOption w (o >>= then_found k fuel version stmp next)
  unfolding then_found
  then-Leaves w none next p h = tt
  then-Leaves w (some unfinished) next p h = tt
  then-Leaves w (some (worked w')) next p h = after (next w') (h w' p.still_busy)
    where
      after : (o : Option (Worked k.State)) → LeavesOption w' o → LeavesOption w o
      after none q = tt
      after (some unfinished) q = tt
      after (some (worked w'')) q = Apart-trans p q

  all_found-Leaves :
      (events : List (Event k.State)) (w : World k.State)
      → IsBusy m w
      → IsNotAt m events
      → LeavesOption w (all_found k fuel version stmp events w)
  unfolding all_found on_found
  all_found-Leaves [] w b o = record { same_node = refl; same_socket = refl; still_busy = b }
  all_found-Leaves (at_listener c clients ∷ events) w b o =
      then-Leaves w _ (all_found k fuel version stmp events)
        (clients-Leaves c (take_clients clients w) w
          (λ w' e. take_clients-Apart m clients w w' b e))
        (λ w' b'. all_found-Leaves events w' b' o)
  all_found-Leaves (at_node n flags ∷ events) w b o =
      then-Leaves w _ (all_found k fuel version stmp events)
        (node-Leaves (not (n == 0)) _ n (w.traffic.nodes n).group w b o.0)
        (λ w' b'. all_found-Leaves events w' b' o.1)

  -- A round of the traffic manager that returns, without a fault and within its fuel, whatever events it
  -- has found and whichever clients have come, leaves a node that is in use and neither has an event nor
  -- waits to be recycled as it was: the bytes that it has received, and its socket.
  pub working-Apart :
      (is_running answer : Bool) (x : Waited k.State) (w w' : World k.State)
      → IsBusy m w
      → IsNotIn m w.traffic.node_queue
      → IsNotAt m (found x)
      → working k fuel version stmp is_running x w ≡ some (answer, worked w')
      → Apart m w w'
  unfolding working
  working-Apart is_running answer (wait_failed e) w w' b q o r =
      let (w1, g, more) = bind-some (give_all w.traffic.node_queue w) _ _ r in
      let (a, h, last) = bind-some (on_wait_error e) _ _ more in
      subst (λ z. LeavesOption w z) (ap (λ z. some z) (ap (λ z. z.1) (some-inj _ _ last)))
        (give_all-Apart m w.traffic.node_queue w w1 b q g)
  working-Apart is_running answer (ready events) w w' b q o r =
      let (w1, g, more) = bind-some (give_all w.traffic.node_queue w) _ _ r in
      let (x, h, last) = bind-some (all_found k fuel version stmp events w1) _ _ more in
      let p = give_all-Apart m w.traffic.node_queue w w1 b q g in
      let done : x ≡ worked w' = ap (λ z. z.1) (some-inj _ _ last) in
      Apart-trans p
        (subst (LeavesOption w1) (h ∙ ap some done) (all_found-Leaves events w1 p.still_busy o))
