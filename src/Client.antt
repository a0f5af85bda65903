-- ===== src/Client.antt =====
-- The client's side of the protocol (clients/c/bridge.c, message.h): the messages that it sends, and
-- what it does with those that it receives. A message goes out by `cnn_send`.
pub mod Fields
pub mod Answers
pub mod Pushes
pub mod Connection
pub mod Receive
pub mod Thread
pub mod Requests
mod Tests
use Prim.Native.Nat.{bit_or}
use g_max_linked.Base.{
  ℕ, zero, suc, ◌+◌, ◌-◌, Bool, true, false, not, ◌&&◌, ◌||◌, List, [], ◌∷◌, ◌++◌, leb, ◌==◌,
  if◌then◌else◌, length, take, drop,
}
use g_max_linked.Message.{
  Header, header_size, encode, decode, field, to_bytes, mt_control, mt_account, mt_service,
  mt_sign_ack, mc_hand_shake, mc_heart_beat, mc_send_msg, mc_push_msg, ml_cn,
}
use g_max_linked.Transaction.Act.{c_string}
use g_max_linked.Transaction.Pdu.{zeros}

-- What the client does: it calls back, or sends a message.
pub data Action : Type 0 where
  on_ready : Action
  on_push : ℕ → ℕ → ℕ → ℕ → List ℕ → ℕ → Action
  on_send_ack : ℕ → ℕ → ℕ → Action
  sends : List ℕ → Action

abbrev pub size_session_id : ℕ
size_session_id = 17

abbrev pub size_json : ℕ
size_json = 385

-- `strncpy` of `size - 1` bytes into `size` bytes that are 0.
unfoldable pub text_field : ℕ → List ℕ → List ℕ
text_field size s = let text = take (size - 1) (c_string s) in text ++ zeros (size - length text)

-- The handshake that `_on_connected` sends at the time `stmp`.
unfoldable pub hand_shake : ℕ → ℕ → List ℕ → ℕ → List ℕ
unfolding text_field
hand_shake build last_update session_id stmp =
    encode (record {
      size = 58;
      type = mt_account;
      cmd = mc_hand_shake;
      ver = 0x0100;
      lang = ml_cn;
      seq = 0;
      stmp = stmp;
      ext = 0;
    })
    ++ (to_bytes 4 build ++ (to_bytes 8 last_update ++ text_field size_session_id session_id))

-- The answer to a message, with its header.
unfoldable pub answer : List ℕ → ℕ → List ℕ
answer msg stmp =
    encode
      (record (decode msg) { size = 31; type = bit_or (decode msg).type mt_sign_ack; stmp = stmp })
    ++ to_bytes 2 0

-- `_on_received`, at the time `stmp`, where all the callbacks are set.
unfoldable pub on_received : List ℕ → ℕ → ℕ → List Action
unfolding answer
on_received msg size stmp =
    let type = (decode msg).type in
    let cmd = (decode msg).cmd in
    if (bit_or mt_account mt_sign_ack == type && cmd == mc_hand_shake) && size == 31
    then (if field msg 29 2 == 0 then on_ready ∷ [] else [])
    else (if (type == mt_control && cmd == mc_heart_beat) && size == header_size
        then sends (answer msg stmp) ∷ []
        else (if (type == mt_service && cmd == mc_push_msg) && size == 439
            then on_push (field msg 29 1) (field msg 30 8) (field msg 38 8) (field msg 46 8)
                (c_string (drop 54 msg)) (decode msg).stmp
              ∷ sends (answer msg stmp)
              ∷ []
            else (if (bit_or mt_service mt_sign_ack == type && cmd == mc_send_msg) && size == 39
                then (if field msg 29 2 == 0
                    then on_send_ack (decode msg).seq (field msg 29 2) (field msg 31 8) ∷ []
                    else [])
                else [])))

-- `net_worker_send` refuses with a code, or sends.
pub data Request : Type 0 where
  refused : ℕ → Request
  requests : List ℕ → Request

unfoldable pub send_msg : ℕ → ℕ → List ℕ → ℕ → List ℕ
unfolding text_field
send_msg dst_type dst_id json stmp =
    encode (record {
      size = 423;
      type = mt_service;
      cmd = mc_send_msg;
      ver = 0x0100;
      lang = ml_cn;
      seq = 0;
      stmp = stmp;
      ext = 0;
    })
    ++ (to_bytes 1 dst_type ++ (to_bytes 8 dst_id ++ text_field size_json json))

unfoldable pub net_worker_send : ℕ → ℕ → List ℕ → ℕ → Request
unfolding send_msg
net_worker_send dst_type dst_id json stmp =
    if length (c_string json) == 0 || leb size_json (length (c_string json))
    then refused 1
    else if not (dst_type == 1) && not (dst_type == 2)
    then refused 2
    else requests (send_msg dst_type dst_id json stmp)
