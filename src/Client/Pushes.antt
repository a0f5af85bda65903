-- ===== src/Client/Pushes.antt =====
-- A pushed message at the client, and its answer back at the server.
use Prim.Native.Nat.{bit_or}
use g_max_linked.Base.{
  ℕ, ◌^◌, ◌<◌, ◌≡◌, refl, sym, ap, ◌∙◌, true, none, some, List, [], ◌∷◌, ◌++◌, length, drop,
  append-nil, arith,
}
use g_max_linked.Message.{
  Header, encode, decode, field, to_bytes, set_ext, mt_service, mt_sign_ack, mc_push_msg, ml_cn,
}
use g_max_linked.Message.Codec.{decode-encode, of_bytes-to_bytes}
use g_max_linked.Transaction.Act.{
  Transaction, Answers, Settings, ready, now, kill_timer, set_timer, node_send, find, c_string,
}
use g_max_linked.Transaction.Pdu.{Push, push_message, set_seq, set_stmp, json_field, size_push_msg}
use g_max_linked.Transaction.Handlers.{next_seq, send, over, on_stop}
use g_max_linked.Transaction.Messages.{on_message, handle_push_message}
use g_max_linked.Transaction.Acks.{next_seq_bounds, push-ack_lem}
use g_max_linked.Client.{on_push, sends, answer, on_received, text_field, size_json}
use g_max_linked.Client.Fields.{IsText, c_string-text_field}
use g_max_linked.Client.Answers.{
  setters-encode, arrived, arrived-decode, on_message-on_push_msg, on_received-push,
}

-- The numbers fit their fields and the text its own.
pub record FitsPush (p : Push) : Type 0 where
  pub type_fits : p.orn_type < 2 ^ 8
  pub id_fits : p.orn_id < 2 ^ 64
  pub ext_fits : p.orn_ext_id < 2 ^ 64
  pub message_fits : p.message_id < 2 ^ 64
  pub is_text : IsText p.json
  pub text_fits : length p.json < size_json

json_field-text_field : (j : List ℕ) → json_field j ≡ text_field size_json j
unfolding json_field text_field
json_field-text_field j = refl

abbrev parts : Push → List ℕ
parts p =
    to_bytes 1 p.orn_type
    ++ (to_bytes 8 p.orn_id
        ++ (to_bytes 8 p.orn_ext_id ++ (to_bytes 8 p.message_id ++ json_field p.json)))

fields-push :
    (h : Header) (p : Push)
    → FitsPush p
    → let msg = encode h ++ parts p in
      (field msg 29 1 ≡ p.orn_type)
      × (field msg 30 8 ≡ p.orn_id)
      × (field msg 38 8 ≡ p.orn_ext_id)
      × (field msg 46 8 ≡ p.message_id)
      × (drop 54 msg ≡ json_field p.json)
unfolding field encode to_bytes
fields-push h p f = (
  of_bytes-to_bytes 1 p.orn_type f.type_fits,
  of_bytes-to_bytes 8 p.orn_id f.id_fits,
  of_bytes-to_bytes 8 p.orn_ext_id f.ext_fits,
  of_bytes-to_bytes 8 p.message_id f.message_fits,
  refl,
)

-- The message on the wire, as `__send` has completed it.
abbrev pub on_wire : ℕ → ℕ → ℕ → ℕ → Push → List ℕ
on_wire version stmp sent seq p =
    set_seq (set_ext (set_stmp (push_message version stmp p) sent) 0) seq

abbrev push_header : ℕ → ℕ → ℕ → Header
push_header version sent seq = record {
  size = size_push_msg;
  type = mt_service;
  cmd = mc_push_msg;
  ver = version;
  lang = ml_cn;
  seq = seq;
  stmp = sent;
  ext = 0;
}

on_wire-encode :
    (version stmp sent seq : ℕ) (p : Push)
    → on_wire version stmp sent seq p ≡ encode (push_header version sent seq) ++ parts p
unfolding push_message
on_wire-encode version stmp sent seq p =
    setters-encode (record (push_header version stmp 0) { ext = 0 }) (parts p) sent 0 seq

module _ (version stmp sent seq : ℕ) (p : Push) (v : version < 2 ^ 16) (n : sent < 2 ^ 64)
    (q : seq < 2 ^ 32) (f : FitsPush p) where
  decode-on_wire : decode (on_wire version stmp sent seq p) ≡ push_header version sent seq
  decode-on_wire =
      ap decode (on_wire-encode version stmp sent seq p)
      ∙ decode-encode (push_header version sent seq) (parts p) (ground arith)

  on_received-on_wire :
      (time : ℕ)
      → on_received (on_wire version stmp sent seq p) size_push_msg time
        ≡ on_push p.orn_type p.orn_id p.orn_ext_id p.message_id p.json sent
          ∷ sends (answer (on_wire version stmp sent seq p) time)
          ∷ []
  on_received-on_wire time =
      let msg : List ℕ = on_wire version stmp sent seq p in
      let e : msg ≡ encode (push_header version sent seq) ++ parts p =
        on_wire-encode version stmp sent seq p in
      let k = fields-push (push_header version sent seq) p f in
      let text : c_string (drop 54 msg) ≡ p.json =
        ap (λ m. c_string (drop 54 m)) e
        ∙ ap c_string (k.4 ∙ json_field-text_field p.json)
        ∙ ap c_string (sym (append-nil (text_field size_json p.json)))
        ∙ c_string-text_field size_json p.json [] f.is_text f.text_fits in
      on_received-push msg time (ap (λ x. x.type) decode-on_wire) (ap (λ x. x.cmd) decode-on_wire)
      ∙ (λ i.
          on_push ((ap (λ m. field m 29 1) e ∙ k.0) i) ((ap (λ m. field m 30 8) e ∙ k.1) i)
            ((ap (λ m. field m 38 8) e ∙ k.2) i) ((ap (λ m. field m 46 8) e ∙ k.3) i) (text i)
            (decode-on_wire i).stmp
          ∷ sends (answer msg time)
          ∷ [])

  -- The client's answer, arrived at its transaction, has the number of the push.
  answer-on_wire :
      (time self : ℕ)
      → time < 2 ^ 64
      → self < 2 ^ 64
      → decode (arrived (on_wire version stmp sent seq p) time self)
        ≡ record (push_header version sent seq) {
          size = 31;
          type = bit_or mt_service mt_sign_ack;
          stmp = time;
          ext = self;
        }
  answer-on_wire time self l a =
      arrived-decode (on_wire version stmp sent seq p) (push_header version sent seq) time self
        decode-on_wire (omega arith) (omega arith) v (omega arith) q (omega arith) l a

push-sent :
    (env : Answers) (cfg : Settings) (t t' : Transaction) (p : Push) (size stamp : ℕ)
    → handle_push_message env cfg p size stamp t ≡ some (true, t')
    → let msg =
        on_wire cfg.protocol_version
          (env t.calls now)
          (env (now ∷ t.calls) now)
          (next_seq t.seq_counter)
          p in
      t'.calls
      ≡ set_timer cfg.heartbeat_interval (next_seq t.seq_counter) 1
        ∷ node_send msg
        ∷ now
        ∷ now
        ∷ t.calls
unfolding handle_push_message send over on_stop
push-sent env cfg t t' p size stamp e = ground arith

-- A push goes the whole way. When a ready transaction has pushed a message whose parts fit their
-- fields, under a number that waits for no answer yet, the message that it gave to its node makes the
-- client call back with the same origin, number and text and send an answer; and the answer, come to
-- the transaction, kills the timer of the push and leaves the timers as they were before it.
pub push_round_trip :
    (env : Answers) (cfg : Settings) (t t' : Transaction) (p : Push) (size stamp time self : ℕ)
    → FitsPush p
    → cfg.protocol_version < 2 ^ 16
    → env (now ∷ t.calls) now < 2 ^ 64
    → time < 2 ^ 64
    → self < 2 ^ 64
    → t.status ≡ ready
    → find (next_seq t.seq_counter) t.timers ≡ none
    → handle_push_message env cfg p size stamp t ≡ some (true, t')
    → let sent = env (now ∷ t.calls) now in
      let msg = on_wire cfg.protocol_version (env t.calls now) sent (next_seq t.seq_counter) p in
      (t'.calls
        ≡ set_timer cfg.heartbeat_interval (next_seq t.seq_counter) 1
          ∷ node_send msg
          ∷ now
          ∷ now
          ∷ t.calls)
      × (on_received msg size_push_msg time
          ≡ on_push p.orn_type p.orn_id p.orn_ext_id p.message_id p.json sent
            ∷ sends (answer msg time)
            ∷ [])
      × ((timer : ℕ) × (find (next_seq t.seq_counter) t'.timers ≡ some timer)
          × (on_message env cfg (arrived msg time self) t'
              ≡ some (true, record t' { timers = t.timers; calls = kill_timer timer ∷ t'.calls })))
push_round_trip env cfg t t' p size stamp time self f v n l a r fresh e =
    let seq : ℕ = next_seq t.seq_counter in
    let first : ℕ = env t.calls now in
    let sent : ℕ = env (now ∷ t.calls) now in
    let msg : List ℕ = on_wire cfg.protocol_version first sent seq p in
    let q : seq < 2 ^ 32 = (next_seq_bounds t.seq_counter).1 in
    let back = answer-on_wire cfg.protocol_version first sent seq p v n q f time self l a in
    let (timer, found, acked) =
      push-ack_lem env cfg t t' p size stamp (arrived msg time self) e r fresh
        (ap (λ x. x.seq) back) in
    (
      push-sent env cfg t t' p size stamp e,
      on_received-on_wire cfg.protocol_version first sent seq p v n q f time,
      (
        timer,
        found,
        on_message-on_push_msg env cfg (arrived msg time self) t' (ap (λ x. x.type) back)
              (ap (λ x. x.cmd) back)
            ∙ acked,
      ),
    )
