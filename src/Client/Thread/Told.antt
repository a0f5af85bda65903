-- ===== src/Client/Thread/Told.antt =====
-- What the callbacks tell of the connection.
use g_max_linked.Base.{
  ℕ, ◌≡◌, refl, subst, Bool, true, false, Option, none, some, List, [], ◌∷◌, if◌then◌else◌, ◌>>=◌,
}
use g_max_linked.Socket.{Reader}
use g_max_linked.Client.Receive.{Receiving, receive}
use g_max_linked.Client.Thread.{
  has_error, of_thread, Position, connecting, selecting, over, Thread, Found, SelectResult,
  select_failed, timed_out, found, Turn, Turned, turned, unfinished, on_writable, on_received,
  on_readable, on_select, turn_at, turn, go_on, turns,
}
use g_max_linked.Client.Thread.Callbacks.{
  told, IsTold, Tells, loses-IsTold, loses-closed, finish-IsTold, on_connect-IsTold,
  on_writable-IsTold, on_received-IsTold,
}

module _ (k : Reader) where
  -- A step that returns has kept it.
  abbrev Keeps : Option (Turned k.State) → Type 0
  Keeps none = Unit {0}
  Keeps (some r) = Tells r

  Keeps-if :
      (b : Bool) (x y : Option (Turned k.State)) → Keeps x → Keeps y → Keeps (if b then x else y)
  Keeps-if true x y p q = p
  Keeps-if false x y p q = q

  received-Keeps :
      (o : Option (Receiving k.State)) (t : Thread)
      → t.position ≡ selecting
      → IsTold t
      → Keeps (o >>= λ r. some (on_received r t))
  received-Keeps none t p i = tt
  received-Keeps (some r) t p i = on_received-IsTold r t p i

  on_readable-IsTold :
      (fuel : ℕ) (x : Position) (f : Found) (t : Thread) (s : k.State)
      → t.position ≡ x
      → IsTold t
      → Keeps (on_readable k fuel x f t s)
  unfolding on_readable
  on_readable-IsTold fuel selecting f t s p i =
      Keeps-if f.is_readable _ _ (received-Keeps (receive k fuel t.link s) t p i) i
  on_readable-IsTold fuel connecting f t s p i = i
  on_readable-IsTold fuel over f t s p i = i

  on_select-IsTold :
      (fuel : ℕ) (x : SelectResult) (t : Thread) (s : k.State)
      → t.position ≡ selecting
      → IsTold t
      → Keeps (on_select k fuel x t s)
  unfolding on_select told
  on_select-IsTold fuel select_failed t s p i = loses-closed t i
  on_select-IsTold fuel timed_out t s p i = i
  on_select-IsTold fuel (found f) t s p i =
      Keeps-if f.in_error_set _ _ (loses-IsTold (has_error of_thread) t (λ c. refl) i)
        (on_readable-IsTold fuel _ f (on_writable f t) s refl (on_writable-IsTold f t p i))

  turn_at-IsTold :
      (x : Position) (fuel : ℕ) (u : Turn k.State) (t : Thread) (s : k.State)
      → t.position ≡ x
      → IsTold t
      → Keeps (turn_at k x fuel u t s)
  unfolding turn_at
  turn_at-IsTold over fuel u t s p i = i
  turn_at-IsTold connecting fuel u t s p i =
      Keeps-if u.is_running _ _ (on_connect-IsTold u.connects t s p i) (finish-IsTold t i)
  turn_at-IsTold selecting fuel u t s p i =
      Keeps-if u.is_running _ _ (on_select-IsTold fuel u.selects t s p i) (finish-IsTold t i)

  Keeps-bind :
      (o : Option (Turned k.State)) (f : Turned k.State → Option (Turned k.State))
      → Keeps o
      → ((r : Turned k.State) → Tells r → Keeps (f r))
      → Keeps (o >>= f)
  Keeps-bind none f i h = tt
  Keeps-bind (some r) f i h = h r i

  Keeps-go_on :
      (next : Thread → k.State → Option (Turned k.State))
      → ((t : Thread) (s : k.State) → IsTold t → Keeps (next t s))
      → (r : Turned k.State) → Tells r
      → Keeps (go_on k next r)
  unfolding go_on
  Keeps-go_on next h (turned t s) i = h t s i
  Keeps-go_on next h unfinished i = tt

  turns-Keeps :
      (fuel : ℕ) (us : List (Turn k.State)) (t : Thread) (s : k.State)
      → IsTold t
      → Keeps (turns k fuel us t s)
  unfolding turns turn
  turns-Keeps fuel [] t s i = i
  turns-Keeps fuel (u ∷ us) t s i =
      Keeps-bind (turn k fuel u t s) _ (turn_at-IsTold t.position fuel u t s refl i)
        (Keeps-go_on (turns k fuel us) (turns-Keeps fuel us))

  -- Whatever the sockets answer, and whenever the thread is stopped, one who hears only its callbacks
  -- knows whether there is a connection: after any rounds `is_connected` is what they have told, and
  -- `on_connected` has not come twice without `on_closed` or `on_error` between.
  pub turns-IsTold :
      (fuel : ℕ) (us : List (Turn k.State)) (t t' : Thread) (s s' : k.State)
      → IsTold t
      → turns k fuel us t s ≡ some (turned t' s')
      → IsTold t'
  turns-IsTold fuel us t t' s s' i e = subst Keeps e (turns-Keeps fuel us t s i)
