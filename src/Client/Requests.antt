-- ===== src/Client/Requests.antt =====
-- What the client sends on its own, as the server reads it.
use g_max_linked.Base.{
  ℕ, ◌^◌, ◌<◌, ◌≡◌, ◌⊎◌, refl, sym, ap, ◌∙◌, List, [], ◌++◌, length, length-append, take, take_all,
  zero, suc, ◌-◌, ne→not_==, lt→not_leb, append-nil, arith,
}
use g_max_linked.Message.{
  Header, encode, decode, field, to_bytes, mt_account, mt_service, mc_hand_shake, mc_send_msg,
  ml_cn,
}
use g_max_linked.Message.Codec.{decode-encode, of_bytes-to_bytes}
use g_max_linked.Transaction.Act.{Transaction, Answers, Settings, c_string}
use g_max_linked.Transaction.Messages.{on_message, on_send_msg}
use g_max_linked.Transaction.Pdu.{zeros}
use g_max_linked.Transaction.Handlers.{session_of, on_start}
use g_max_linked.Database.Send.{dst_type, dst_id, json}
use g_max_linked.Client.{
  text_field, size_json, size_session_id, hand_shake, requests, send_msg, net_worker_send,
}
use g_max_linked.Client.Fields.{IsText, c_string-whole, c_string-text_field}

on_message-on_send_msg :
    (env : Answers) (cfg : Settings) (msg : List ℕ) (t : Transaction)
    → (decode msg).type ≡ mt_service
    → (decode msg).cmd ≡ mc_send_msg
    → on_message env cfg msg t ≡ on_send_msg env cfg msg t
unfolding on_message
on_message-on_send_msg env cfg msg t p q = rw (p, q) refl

fields-send_msg :
    (h : Header) (type id : ℕ) (text : List ℕ)
    → type < 2 ^ 8
    → id < 2 ^ 64
    → let msg = encode h ++ (to_bytes 1 type ++ (to_bytes 8 id ++ text)) in
      (dst_type msg ≡ type) × (dst_id msg ≡ id) × (json msg ≡ c_string text)
unfolding field encode to_bytes
fields-send_msg h type id text t i = (of_bytes-to_bytes 1 type t, of_bytes-to_bytes 8 id i, refl)

net_worker_send-accepts :
    (type id : ℕ) (text : List ℕ) (stmp : ℕ)
    → (type ≡ 1) ⊎ (type ≡ 2)
    → IsText text
    → 0 < length text
    → length text < size_json
    → net_worker_send type id text stmp ≡ requests (send_msg type id text stmp)
unfolding net_worker_send
net_worker_send-accepts type id text stmp k h l u =
    rw
      (
        c_string-whole text h,
        ne→not_== (length text) 0 (λ e. omega arith),
        lt→not_leb size_json (length text) u,
      )
      (ground arith)

-- A message for a user or a group, with a text that fits, is sent, and on the server it is handled as
-- one to send, from which the database takes the same receiver and the same text.
pub net_worker_send_lem :
    (env : Answers) (cfg : Settings) (t : Transaction) (type id : ℕ) (text : List ℕ) (stmp : ℕ)
    → (type ≡ 1) ⊎ (type ≡ 2)
    → id < 2 ^ 64
    → IsText text
    → 0 < length text
    → length text < size_json
    → stmp < 2 ^ 64
    → let msg = send_msg type id text stmp in
      (net_worker_send type id text stmp ≡ requests msg)
      × (on_message env cfg msg t ≡ on_send_msg env cfg msg t)
      × (dst_type msg ≡ type)
      × (dst_id msg ≡ id)
      × (json msg ≡ text)
unfolding send_msg
net_worker_send_lem env cfg t type id text stmp k i h l u s =
    let header : Header = record {
      size = 423;
      type = mt_service;
      cmd = mc_send_msg;
      ver = 0x0100;
      lang = ml_cn;
      seq = 0;
      stmp = stmp;
      ext = 0;
    } in
    let rest : List ℕ = to_bytes 1 type ++ (to_bytes 8 id ++ text_field size_json text) in
    let read : decode (encode header ++ rest) ≡ header = decode-encode header rest (ground arith) in
    let parts = fields-send_msg header type id (text_field size_json text) (ground arith) i in
    (
      net_worker_send-accepts type id text stmp k h l u,
      on_message-on_send_msg env cfg (send_msg type id text stmp) t (ap (λ x. x.type) read)
          (ap (λ x. x.cmd) read),
      parts.0,
      parts.1,
      parts.2
          ∙ (ap c_string (sym (append-nil (text_field size_json text)))
              ∙ c_string-text_field size_json text [] h u),
    )

on_message-on_start :
    (env : Answers) (cfg : Settings) (msg : List ℕ) (t : Transaction)
    → (decode msg).type ≡ mt_account
    → (decode msg).cmd ≡ mc_hand_shake
    → on_message env cfg msg t ≡ on_start env cfg msg t
unfolding on_message
on_message-on_start env cfg msg t p q = rw (p, q) refl

fields-hand_shake :
    (h : Header) (build last_update : ℕ) (text : List ℕ)
    → build < 2 ^ 32
    → last_update < 2 ^ 64
    → let msg = encode h ++ (to_bytes 4 build ++ (to_bytes 8 last_update ++ text)) in
      (field msg 29 4 ≡ build) × (field msg 33 8 ≡ last_update) × (session_of msg ≡ take 17 text)
unfolding field encode to_bytes session_of
fields-hand_shake h build last_update text b l =
    (of_bytes-to_bytes 4 build b, of_bytes-to_bytes 8 last_update l, refl)

length-text_field :
    (size : ℕ) (t : List ℕ) → IsText t → length t < size → length (text_field size t) ≡ size
unfolding text_field
length-text_field size t h l =
    rw (c_string-whole t h, take_all (size - 1) t (omega arith))
      (omega (arith, length-append {0} t (zeros (size - length t)), length-zeros (size - length t)))
  where
    length-zeros : (n : ℕ) → length (zeros n) ≡ n
    length-zeros zero = refl
    length-zeros (suc n) = ap suc (length-zeros n)

-- The client's handshake is handled on the server as the start of a session, with the same build, time
-- of the last update and name of the session.
pub hand_shake_lem :
    (env : Answers) (cfg : Settings) (t : Transaction) (build last_update : ℕ) (session : List ℕ)
    (stmp : ℕ)
    → build < 2 ^ 32
    → last_update < 2 ^ 64
    → IsText session
    → length session < size_session_id
    → stmp < 2 ^ 64
    → let msg = hand_shake build last_update session stmp in
      (on_message env cfg msg t ≡ on_start env cfg msg t)
      × (field msg 29 4 ≡ build)
      × (field msg 33 8 ≡ last_update)
      × (c_string (session_of msg) ≡ session)
unfolding hand_shake
hand_shake_lem env cfg t build last_update session stmp b u h l s =
    let header : Header = record {
      size = 58;
      type = mt_account;
      cmd = mc_hand_shake;
      ver = 0x0100;
      lang = ml_cn;
      seq = 0;
      stmp = stmp;
      ext = 0;
    } in
    let text : List ℕ = text_field size_session_id session in
    let rest : List ℕ = to_bytes 4 build ++ (to_bytes 8 last_update ++ text) in
    let read : decode (encode header ++ rest) ≡ header = decode-encode header rest (ground arith) in
    let parts = fields-hand_shake header build last_update text b u in
    (
      on_message-on_start env cfg (hand_shake build last_update session stmp) t
          (ap (λ x. x.type) read) (ap (λ x. x.cmd) read),
      parts.0,
      parts.1,
      ap c_string (
            parts.2
            ∙ take_all 17 text (omega (arith, length-text_field size_session_id session h l))
            ∙ sym (append-nil text))
          ∙ c_string-text_field size_session_id session [] h l,
    )
