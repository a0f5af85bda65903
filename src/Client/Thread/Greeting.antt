-- ===== src/Client/Thread/Greeting.antt =====
-- The handshake of the client (`_on_connected`, clients/c/bridge.c), which `on_connected` sends by
-- `cnn_send`: what becomes of it depends on how the connection came about.
use g_max_linked.Base.{
  ℕ, ◌+◌, ◌<◌, ◌≡◌, refl, ap, ◌∙◌, ◌>>=◌, Bool, true, false, some, List, [], ◌∷◌, ◌++◌, length,
  arith,
}
use g_max_linked.Message.{encode}
use g_max_linked.Socket.{Reader, Writer}
use g_max_linked.Client.{hand_shake}
use g_max_linked.Client.Connection.{Sending, unconnected, cnn_send, Sent, cnn_send-Sent}
use g_max_linked.Client.Thread.{
  connected, given, of_thread, connecting, selecting, Thread, ConnectResult, at_once, in_progress,
  Found, SelectResult, found, Turn, turned, says, on_connect, on_select, turn_at, turn, go_on,
  turns,
}
use g_max_linked.Client.Thread.Callbacks.{IsTold}

-- `_on_connected` at the time `stmp`, while `is_connected` is as it is.
unfoldable pub on_connected :
    (w : Writer) → ℕ → Bool → ℕ → ℕ → List ℕ → ℕ → w.State → Sending w.State
on_connected w fuel is_connected build last_update session_id stmp s =
    cnn_send w fuel is_connected (hand_shake build last_update session_id stmp) s

hand_shake_some :
    (build last_update : ℕ) (session_id : List ℕ) (stmp : ℕ)
    → 0 < length (hand_shake build last_update session_id stmp)
unfolding hand_shake encode
hand_shake_some build last_update session_id stmp = omega arith

-- A round in which the thread is to run on.
abbrev pub runs : {S : Type 0} → ConnectResult S → SelectResult → Turn S
runs connects selects = record { is_running = true; connects = connects; selects = selects }

-- Found to be connected, with nothing to read.
abbrev pub writable : Found
writable = record { in_error_set = false; is_writable = true; is_readable = false; so_error = 0 }

-- Whether the handshake goes out depends on the network. A thread of the client that is to connect calls
-- `on_connected` either way, and is connected afterwards. If `connect` succeeds at once, it calls it before
-- it sets `is_connected`, and `cnn_send` refuses the handshake: nothing goes out. If `connect` is in
-- progress first and `select` then finds the socket connected, the handshake is sent, whole or, if the
-- connection breaks, a front of it.
pub handshake_lem :
    (k : Reader) (w : Writer) (rounds fuel build last_update : ℕ) (session_id : List ℕ) (stmp : ℕ)
    (t : Thread) (s s' : k.State) (ws : w.State) (x : SelectResult) (y : ConnectResult k.State)
    → IsTold t
    → t.position ≡ connecting
    → length (hand_shake build last_update session_id stmp) + w.patience ws < fuel
    → ((t' : Thread) × (b : Bool) × (turns k rounds (runs (at_once s') x ∷ []) t s
          ≡ some (turned t' s'))
        × (t'.is_connected ≡ true)
        × (t'.log ≡ t.log ++ connected given b ∷ [])
        × (on_connected w fuel b build last_update session_id stmp ws ≡ unconnected ws))
      × ((t' : Thread) × (b : Bool) × (turns k rounds
              (runs (in_progress s') x ∷ runs y (found writable) ∷ [])
              t
              s
            ≡ some (turned t' s'))
          × (t'.is_connected ≡ true)
          × (t'.log ≡ t.log ++ connected of_thread b ∷ [])
          × Sent w
              (w.sent ws)
              (hand_shake build last_update session_id stmp)
              (on_connected w fuel b build last_update session_id stmp ws))
unfolding turns turn on_connect on_connected cnn_send on_select
handshake_lem k w rounds fuel build last_update session_id stmp t s s' ws x y i p room = (
  (
    at_once_to,
    t.is_connected,
    from_connecting (runs (at_once s') x) [],
    refl,
    refl,
    rw (i.before p) refl,
  ),
  (
    found_to,
    true,
    from_connecting (runs (in_progress s') x) (runs y (found writable) ∷ []) ∙ rw (i.before p) refl,
    refl,
    refl,
    cnn_send-Sent w fuel _ ws (hand_shake_some build last_update session_id stmp) room,
  ),
)
  where
    at_once_to : Thread
    at_once_to = record (says t (connected given t.is_connected ∷ [])) {
      position = selecting;
      is_connected = true;
      needs_reconnect = false;
    }

    found_to : Thread
    found_to = record (says t (connected of_thread true ∷ [])) {
      position = selecting;
      is_connected = true;
      needs_reconnect = false;
    }

    from_connecting :
        (u : Turn k.State) (us : List (Turn k.State))
        → turns k rounds (u ∷ us) t s
          ≡ (turn_at k connecting rounds u t s >>= go_on k (turns k rounds us))
    from_connecting u us = ap (λ z. turn_at k z rounds u t s >>= go_on k (turns k rounds us)) p
