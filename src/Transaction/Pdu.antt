-- ===== src/Transaction/Pdu.antt =====
-- The messages that a transaction makes, as the packed bytes of their structs (Message.h).
use Prim.Native.Nat.{bit_or}
use g_max_linked.Base.{ℕ, zero, suc, ◌+◌, ◌-◌, List, [], ◌∷◌, ◌++◌, length, take}
use g_max_linked.Base.Bytes.{splice}
use g_max_linked.Message.{
  Header, header_size, encode, decode, to_bytes, mt_control, mt_service, mt_sign_ack, mc_heart_beat,
  mc_push_msg, mc_on_over, ml_cn,
}
use g_max_linked.Transaction.Act.{ExitReason, reason_code, c_string}

-- `sizeof` of the structs.
abbrev pub size_on_over : ℕ
size_on_over = 33

abbrev pub size_hand_shake_ack : ℕ
size_hand_shake_ack = 31

abbrev pub size_send_msg_ack : ℕ
size_send_msg_ack = 39

abbrev pub size_push_msg : ℕ
size_push_msg = 439

abbrev pub json_length : ℕ
json_length = 384

unfoldable pub over_message : ℕ → ℕ → ℕ → ExitReason → List ℕ
over_message self ver stmp reason =
    encode (record {
      size = size_on_over;
      type = mt_control;
      cmd = mc_on_over;
      ver = ver;
      lang = ml_cn;
      seq = 0;
      stmp = stmp;
      ext = self;
    })
    ++ to_bytes 4 (reason_code reason)

-- The header of a request with the size of its answer and the sign of an answer.
abbrev ack_header : List ℕ → ℕ → Header
ack_header msg size = record (decode msg) {
  size = size;
  type = bit_or (decode msg).type mt_sign_ack;
}

unfoldable pub hand_shake_ack : List ℕ → ℕ → List ℕ
hand_shake_ack msg code = encode (ack_header msg size_hand_shake_ack) ++ to_bytes 2 code

unfoldable pub send_msg_ack : List ℕ → ℕ → ℕ → ℕ → List ℕ
send_msg_ack msg stmp code message_id =
    encode (record (ack_header msg size_send_msg_ack) { stmp = stmp })
    ++ (to_bytes 2 code ++ to_bytes 8 message_id)

-- `stmp` and `ext` are not set here; `__send` sets both.
unfoldable pub heart_beat : ℕ → List ℕ
heart_beat ver = encode (record {
  size = header_size;
  type = mt_control;
  cmd = mc_heart_beat;
  ver = ver;
  lang = 1;
  seq = 0;
  stmp = 0;
  ext = 0;
})

abbrev pub zeros : ℕ → List ℕ
zeros zero = []
zeros (suc n) = 0 ∷ zeros n

-- `memset(msg.json, 0, Size::JSON); strncpy(msg.json, json, Length::JSON)`.
unfoldable pub json_field : List ℕ → List ℕ
json_field json =
    let text = take json_length (c_string json) in text ++ zeros (json_length + 1 - length text)

-- The origin, the message's id and its text.
pub record Push : Type 0 where
  pub orn_type : ℕ
  pub orn_id : ℕ
  pub orn_ext_id : ℕ
  pub message_id : ℕ
  pub json : List ℕ

unfoldable pub push_message : ℕ → ℕ → Push → List ℕ
push_message ver stmp p =
    encode (record {
      size = size_push_msg;
      type = mt_service;
      cmd = mc_push_msg;
      ver = ver;
      lang = ml_cn;
      seq = 0;
      stmp = stmp;
      ext = 0;
    })
    ++ (to_bytes 1 p.orn_type
        ++ (to_bytes 8 p.orn_id
            ++ (to_bytes 8 p.orn_ext_id ++ (to_bytes 8 p.message_id ++ json_field p.json))))

-- `msg->seq = seq` and `msg->stmp = stmp`.
unfoldable pub set_seq : List ℕ → ℕ → List ℕ
set_seq msg seq = splice msg 9 (to_bytes 4 seq)

unfoldable pub set_stmp : List ℕ → ℕ → List ℕ
set_stmp msg stmp = splice msg 13 (to_bytes 8 stmp)
