-- ===== src/Client/Tests.antt =====
-- The client at concrete messages, and the claims about it there.
use g_max_linked.Base.{
  ℕ, ◌≡◌, refl, inr, Bool, true, false, Option, none, some, List, [], ◌∷◌, ◌++◌, arith,
}
use g_max_linked.Message.{header_size, field, to_bytes, encode}
use g_max_linked.Config.{codes}
use g_max_linked.Transaction.Act.{
  Transaction, Answers, Settings, ready, over_status, now, set_timer, node_send, kill_timer, find,
  c_string,
}
use g_max_linked.Transaction.Pdu.{Push, size_push_msg}
use g_max_linked.Transaction.Handlers.{next_seq, insert_timer, send}
use g_max_linked.Transaction.Session.{IsKeepLive}
use g_max_linked.Transaction.Messages.{on_message, on_timer, on_send_msg, handle_push_message}
use g_max_linked.Transaction.Reach.{create}
use g_max_linked.Database.Send.{dst_type, dst_id, json}
use g_max_linked.Client.{
  on_push, sends, requests, refused, answer, on_received, send_msg, net_worker_send,
}
use g_max_linked.Socket.Samples.{sips}
use g_max_linked.Client.Connection.{cnn_send, Sent, cnn_send-Sent}
use g_max_linked.Client.Answers.{arrived, beat, waiting, heart_beat_lem}
use g_max_linked.Client.Pushes.{FitsPush, on_wire, push_round_trip}
use g_max_linked.Client.Requests.{net_worker_send_lem}

abbrev env : Answers
env calls c = 7

abbrev cfg : Settings
cfg = record { heartbeat_interval = 20; protocol_version = 1; base_build = 5 }

abbrev online : Transaction
online = record (create 100) {
  status = ready;
  keep_live_timer_id = 7;
  session_id = codes "S";
  id = 33;
}

-- A keep-live timer that fires, and the transaction while its client is heard of.
abbrev tick : List ℕ
tick =
    encode
      (record { size = 45; type = 1; cmd = 0x8001; ver = 1; lang = 1; seq = 0; stmp = 0; ext = 0 })
    ++ to_bytes 8 7
    ++ to_bytes 8 2

abbrev heard : Transaction
heard = record online { heartbeat = true }

tick-IsKeepLive : IsKeepLive heard tick
unfolding field to_bytes encode
tick-IsKeepLive = record { is_ready = refl; same_timer = refl; parameter = refl }

heart_beat_lem_example :
    (on_timer env cfg tick heard ≡ some (true, waiting env cfg heard))
    × (on_received (beat env cfg heard) header_size 60
        ≡ sends (answer (beat env cfg heard) 60) ∷ [])
    × ((v : Transaction) × (on_message env cfg
            (arrived (beat env cfg heard) 60 100)
            (waiting env cfg heard)
          ≡ some (true, v))
        × ((w : Transaction) × (on_timer env cfg tick v ≡ some (true, w)) × (w.status ≡ ready)))
    × ((u : Transaction) × (on_timer env cfg tick (waiting env cfg heard) ≡ some (false, u))
        × (u.status ≡ over_status))
heart_beat_lem_example =
    heart_beat_lem env cfg heard tick 60 100 (omega arith) (omega arith) (omega arith) (omega arith)
      tick-IsKeepLive refl

abbrev greeting : Push
greeting = record { orn_type = 1; orn_id = 34; orn_ext_id = 33; message_id = 3; json = codes "hi" }

greeting-FitsPush : FitsPush greeting
greeting-FitsPush = record {
  type_fits = omega arith;
  id_fits = omega arith;
  ext_fits = omega arith;
  message_fits = omega arith;
  is_text = (refl, (refl, tt));
  text_fits = omega arith;
}

abbrev after : Option (Bool × Transaction) → Transaction
after none = online
after (some (b, t)) = t

abbrev pushed : Transaction
pushed = after (handle_push_message env cfg greeting 2 700 online)

push_round_trip_example :
    (pushed.calls ≡ set_timer 20 1 1 ∷ node_send (on_wire 1 7 7 1 greeting) ∷ now ∷ now ∷ [])
    × (on_received (on_wire 1 7 7 1 greeting) size_push_msg 60
        ≡ on_push 1 34 33 3 (codes "hi") 7 ∷ sends (answer (on_wire 1 7 7 1 greeting) 60) ∷ [])
    × ((timer : ℕ) × (find 1 pushed.timers ≡ some timer)
        × (on_message env cfg (arrived (on_wire 1 7 7 1 greeting) 60 100) pushed
            ≡ some (true, record pushed { timers = []; calls = kill_timer timer ∷ pushed.calls })))
unfolding handle_push_message send next_seq create find insert_timer
push_round_trip_example =
    push_round_trip env cfg online pushed greeting 2 700 60 100 greeting-FitsPush (omega arith)
      (omega arith) (omega arith) (omega arith) refl refl refl

net_worker_send_lem_example :
    (net_worker_send 2 9 (codes "hi") 60 ≡ requests (send_msg 2 9 (codes "hi") 60))
    × (on_message env cfg (send_msg 2 9 (codes "hi") 60) online
        ≡ on_send_msg env cfg (send_msg 2 9 (codes "hi") 60) online)
    × (dst_type (send_msg 2 9 (codes "hi") 60) ≡ 2)
    × (dst_id (send_msg 2 9 (codes "hi") 60) ≡ 9)
    × (json (send_msg 2 9 (codes "hi") 60) ≡ codes "hi")
net_worker_send_lem_example =
    net_worker_send_lem env cfg online 2 9 (codes "hi") 60 (inr refl) (omega arith)
      (refl, (refl, tt)) (omega arith) (omega arith) (omega arith)

refused_test : net_worker_send 3 9 (codes "hi") 60 ≡ refused 2
unfolding net_worker_send c_string
refused_test = refl

cnn_send-Sent_example : Sent sips [] (codes "hello") (cnn_send sips 9 true (codes "hello") ([], 3))
cnn_send-Sent_example = cnn_send-Sent sips 9 (codes "hello") ([], 3) (omega arith) (omega arith)
