-- ===== src/Client/Thread/Tests.antt =====
-- A client that has half of a message when its connection is lost.
use g_max_linked.Base.{
  ℕ, ◌+◌, ◌<◌, ◌≡◌, refl, Bool, true, false, inl, some, List, [], ◌∷◌, ◌++◌, length, take, drop,
  arith,
}
use g_max_linked.Message.{encode, size_of, header_size}
use g_max_linked.Node.Packets.{IsPacket}
use g_max_linked.Transaction.Act.{c_string}
use g_max_linked.Transaction.Pdu.{zeros}
use g_max_linked.Socket.Samples.{sips, floods}
use g_max_linked.Client.{hand_shake}
use g_max_linked.Client.Connection.{unconnected, Sent}
use g_max_linked.Client.Receive.{Link, sized, wanted, Receiving, on_recv, receive}
use g_max_linked.Client.Receive.Ready.{Ready, held}
use g_max_linked.Client.Receive.Loop.{Received, receive_lem}
use g_max_linked.Client.Thread.{
  Act, connected, received, given, of_thread, connecting, selecting, Thread, refused, at_once,
  in_progress, timed_out, found, Turn, turned, renew, turn, turns,
}
use g_max_linked.Client.Thread.Callbacks.{told, IsTold}
use g_max_linked.Client.Thread.Told.{turns-IsTold}
use g_max_linked.Client.Thread.Greeting.{runs, writable, on_connected, handshake_lem}
use g_max_linked.Client.Thread.Mixed.{readable, IsHalf, mixed_lem}

abbrev heart_beat : List ℕ
heart_beat =
    encode (record { size = 29; type = 1; cmd = 2; ver = 1; lang = 1; seq = 5; stmp = 0; ext = 0 })

abbrev empty_link : Link
empty_link = record { msg_buf = zeros 512; offset = 0; pending_size = 0 }

heart_beat-IsPacket : IsPacket heart_beat
unfolding encode size_of
heart_beat-IsPacket = record { sized = refl; headed = omega arith; shorter = omega arith }

-- A whole message on its way, and half of another that will follow.
empty-Ready :
    Ready empty_link
      ((heart_beat ++ take 12 heart_beat) ++ drop 12 heart_beat)
      (heart_beat ∷ heart_beat ∷ [])
unfolding encode sized
empty-Ready = record {
  room = refl;
  phase = inl (record { due = refl; short = omega arith });
  packets = (heart_beat-IsPacket, (heart_beat-IsPacket, tt));
  stream = refl;
}

receive_lem_example :
    (r : Receiving floods.State) × (receive floods 42 empty_link
        (true, heart_beat ++ take 12 heart_beat)
      ≡ some r)
    × Received floods (heart_beat ∷ heart_beat ∷ []) (drop 12 heart_beat) r
unfolding encode
receive_lem_example =
    receive_lem floods 42 empty_link (true, heart_beat ++ take 12 heart_beat)
      (heart_beat ∷ heart_beat ∷ []) (drop 12 heart_beat) empty-Ready (omega arith)

abbrev at_start : Thread
at_start = record {
  position = connecting;
  is_connected = false;
  needs_reconnect = false;
  reconnect_interval = 10;
  link = empty_link;
  log = [];
}

start-IsTold : IsTold at_start
unfolding told
start-IsTold = record { same = refl; before = λ _. refl }

-- 40 bytes of 60 have come.
abbrev half_link : Link
half_link = record { msg_buf = zeros 512; offset = 40; pending_size = 60 }

abbrev in_half : Thread
in_half = record at_start { position = selecting; is_connected = true; link = half_link }

half_link-IsHalf : IsHalf half_link
half_link-IsHalf = record {
  room = refl;
  headed = omega arith;
  short = omega arith;
  bounded = omega arith;
}

mixed_lem_example :
    (t' : Thread) × (turns floods 2
        (runs refused (found readable)
          ∷ runs (at_once (true, zeros 20)) timed_out
          ∷ runs refused (found readable)
          ∷ [])
        in_half
        (false, [])
      ≡ some (turned t' (true, [])))
    × (t'.log
        ≡ []
          ++ Act.closed
            ∷ (renew in_half ++ connected given false ∷ received (held half_link ++ zeros 20) ∷ []))
unfolding wanted
mixed_lem_example =
    mixed_lem floods 0 in_half (false, []) (true, zeros 20) refused timed_out (zeros 20)
      half_link-IsHalf refl refl refl refl refl

greeting_short : length (hand_shake 1 0 [] 60) + 3 < 62
unfolding hand_shake encode c_string
greeting_short = omega arith

handshake_lem_example :
    ((t' : Thread) × (b : Bool) × (turns floods 2
          (runs (at_once (true, [])) timed_out ∷ [])
          at_start
          (false, [])
        ≡ some (turned t' (true, [])))
      × (t'.is_connected ≡ true)
      × (t'.log ≡ [] ++ connected given b ∷ [])
      × (on_connected sips 62 b 1 0 [] 60 ([], 3) ≡ unconnected ([], 3)))
    × ((t' : Thread) × (b : Bool) × (turns floods 2
            (runs (in_progress (true, [])) timed_out ∷ runs refused (found writable) ∷ [])
            at_start
            (false, [])
          ≡ some (turned t' (true, [])))
        × (t'.is_connected ≡ true)
        × (t'.log ≡ [] ++ connected of_thread b ∷ [])
        × Sent sips [] (hand_shake 1 0 [] 60) (on_connected sips 62 b 1 0 [] 60 ([], 3)))
handshake_lem_example =
    handshake_lem floods sips 2 62 1 0 [] 60 at_start (false, []) (true, []) ([], 3) timed_out
      refused start-IsTold refl greeting_short

-- The thread connects, is told so, and finds that the peer has hung up.
abbrev session : List (Turn floods.State)
session =
    runs (in_progress (false, [])) timed_out
    ∷ runs refused (found writable)
    ∷ runs refused (found readable)
    ∷ []

abbrev hung_up : Thread
hung_up = record at_start {
  needs_reconnect = true;
  link = record empty_link { pending_size = header_size };
  log = connected of_thread true ∷ Act.closed ∷ renew at_start;
}

turns-IsTold_example : IsTold hung_up
unfolding turns turn receive on_recv sized
turns-IsTold_example =
    turns-IsTold floods 1 session at_start hung_up (false, []) (false, []) start-IsTold refl
