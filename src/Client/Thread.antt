-- ===== src/Client/Thread.antt =====
-- The thread of the client (`_working`, clients/c/connection.c): it connects, waits at the socket, hands
-- over what comes, and connects again when the connection is lost.
pub mod Callbacks
pub mod Told
pub mod Greeting
pub mod Mixed
mod Tests
use g_max_linked.Base.{
  ℕ, zero, suc, Bool, true, false, not, ◌&&◌, Option, some, List, [], ◌∷◌, ◌++◌, ◌==◌,
  if◌then◌else◌, ◌>>=◌,
}
use mathlib.Core.List.{map}
use g_max_linked.Socket.{Reader}
use g_max_linked.Client.Receive.{Link, Receiving, ends, receive}

-- What a callback gets: `ci->parameter`, or `&ci`, the address of a variable of the thread.
pub data Parameter : Type 0 where
  given : Parameter
  of_thread : Parameter

-- What the thread does. `connected` also has `is_connected` as it is during the callback.
pub data Act : Type 0 where
  connected : Parameter → Bool → Act
  received : List ℕ → Act
  has_error : Parameter → Act
  closed : Act
  fini_socket : Act
  sleeps : ℕ → Act
  init_socket : Act

-- Where the thread stands: before `connect`, before `select`, or after its end.
pub data Position : Type 0 where
  connecting : Position
  selecting : Position
  over : Position

pub record Thread : Type 0 where
  pub position : Position
  pub is_connected : Bool
  pub needs_reconnect : Bool
  pub reconnect_interval : ℕ
  pub link : Link
  pub log : List Act

-- `connect` succeeds, or is in progress, or fails; a new connection has a state of its own.
pub data ConnectResult (S : Type 0) : Type 0 where
  at_once : S → ConnectResult S
  in_progress : S → ConnectResult S
  refused : ConnectResult S

-- The sets of `select` that have the socket, and its SO_ERROR.
pub record Found : Type 0 where
  pub in_error_set : Bool
  pub is_writable : Bool
  pub is_readable : Bool
  pub so_error : ℕ

pub data SelectResult : Type 0 where
  select_failed : SelectResult
  timed_out : SelectResult
  found : Found → SelectResult

-- What the thread finds in one round of its loops: `is_running`, and what the call is answered that it
-- makes where it stands.
pub record Turn (S : Type 0) : Type 0 where
  pub is_running : Bool
  pub connects : ConnectResult S
  pub selects : SelectResult

pub data Turned (S : Type 0) : Type 0 where
  turned : Thread → S → Turned S
  unfinished : Turned S

abbrev pub says : Thread → List Act → Thread
says t acts = record t { log = t.log ++ acts }

-- `_fini_socket`, `goo_sleep` and `_init_socket`.
abbrev pub renew : Thread → List Act
renew t = fini_socket ∷ sleeps t.reconnect_interval ∷ init_socket ∷ []

-- The connection is lost, with a callback.
abbrev pub loses : Act → Thread → Thread
loses act t =
    says (record t { position = connecting; is_connected = false; needs_reconnect = true })
      (act ∷ renew t)

unfoldable pub on_connect : {S : Type 0} → ConnectResult S → Thread → S → Turned S
on_connect (at_once s') t s =
    turned
      (record (says t (connected given t.is_connected ∷ [])) {
        position = selecting;
        is_connected = true;
        needs_reconnect = false;
      })
      s'
on_connect (in_progress s') t s =
    turned (record t { position = selecting; needs_reconnect = false }) s'
on_connect refused t s = turned (says t (renew t)) s

-- The socket can be written to: the connection is there, or it has failed and the loop is left.
unfoldable pub on_writable : Found → Thread → Thread
on_writable f t =
    if f.is_writable && not t.is_connected
    then (if f.so_error == 0
        then says (record t { is_connected = true }) (connected of_thread true ∷ [])
        else record t { position = connecting })
    else t

-- What the loop over `recv` has left.
unfoldable pub on_received : {S : Type 0} → Receiving S → Thread → Turned S
on_received (ends lost msgs link s) t =
    let t' = says (record t { link = link }) (map received msgs) in
    turned (if lost then loses closed t' else t') s
on_received Receiving.out_of_fuel t = unfinished

-- Behind the loops.
abbrev pub finish : Thread → Thread
finish t = says (record t { position = over; is_connected = false }) (closed ∷ fini_socket ∷ [])

module _ (k : Reader) where
  unfoldable pub on_readable : ℕ → Position → Found → Thread → k.State → Option (Turned k.State)
  unfolding on_received
  on_readable fuel selecting f t s =
      if f.is_readable
      then (do r ← receive k fuel t.link s; some (on_received r t))
      else some (turned t s)
  on_readable fuel connecting f t s = some (turned t s)
  on_readable fuel over f t s = some (turned t s)

  unfoldable pub on_select : ℕ → SelectResult → Thread → k.State → Option (Turned k.State)
  unfolding on_writable on_readable
  on_select fuel select_failed t s = some (turned (loses closed t) s)
  on_select fuel timed_out t s = some (turned t s)
  on_select fuel (found f) t s =
      if f.in_error_set
      then some (turned (loses (has_error of_thread) t) s)
      else on_readable fuel (on_writable f t).position f (on_writable f t) s

  -- One round, where the thread stands. When it is not to run any more, it ends.
  unfoldable pub turn_at : Position → ℕ → Turn k.State → Thread → k.State → Option (Turned k.State)
  unfolding on_connect on_select
  turn_at over fuel u t s = some (turned t s)
  turn_at connecting fuel u t s =
      if u.is_running then some (on_connect u.connects t s) else some (turned (finish t) s)
  turn_at selecting fuel u t s =
      if u.is_running then on_select fuel u.selects t s else some (turned (finish t) s)

  unfoldable pub turn : ℕ → Turn k.State → Thread → k.State → Option (Turned k.State)
  unfolding turn_at
  turn fuel u t s = turn_at t.position fuel u t s

  -- `next` is what follows a round.
  unfoldable pub go_on :
      (Thread → k.State → Option (Turned k.State)) → Turned k.State → Option (Turned k.State)
  go_on next (turned t s) = next t s
  go_on next unfinished = some unfinished

  -- The rounds of the loops, one after the other.
  unfoldable pub turns : ℕ → List (Turn k.State) → Thread → k.State → Option (Turned k.State)
  unfolding go_on
  turns fuel [] t s = some (turned t s)
  turns fuel (u ∷ us) t s = turn fuel u t s >>= go_on (turns fuel us)
