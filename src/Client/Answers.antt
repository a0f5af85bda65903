-- ===== src/Client/Answers.antt =====
-- What the client answers to the server's messages, and what the answers do on the server.
use Prim.Native.Nat.{bit_or}
use g_max_linked.Base.{
  ℕ, ◌^◌, ◌<◌, ◌≡◌, refl, sym, ap, ◌∙◌, true, false, some, List, [], ◌∷◌, ◌++◌, drop, append-nil,
  arith,
}
use g_max_linked.Base.Bytes.{splice, overlay}
use g_max_linked.Message.{
  Header, header_size, encode, decode, field, to_bytes, set_ext, mt_control, mt_service,
  mt_sign_ack, mc_heart_beat, mc_push_msg,
}
use g_max_linked.Message.Codec.{decode-encode, decode-set_ext, length-encode}
use g_max_linked.Transaction.Act.{
  Transaction, Answers, Settings, ready, over_status, now, node_send, c_string,
}
use g_max_linked.Transaction.Handlers.{send}
use g_max_linked.Transaction.Session.{IsKeepLive, alive_stays, silent_ends}
use g_max_linked.Transaction.Pdu.{heart_beat, set_seq, set_stmp, size_push_msg}
use g_max_linked.Transaction.Messages.{on_message, on_heart_beat, on_push_msg, on_timer}
use g_max_linked.Client.{on_push, sends, answer, on_received}

-- The setters of the server on an encoded header.
pub setters-encode :
    (h : Header) (rest : List ℕ) (stmp ext seq : ℕ)
    → set_seq (set_ext (set_stmp (encode h ++ rest) stmp) ext) seq
      ≡ encode (record h { seq = seq; stmp = stmp; ext = ext }) ++ rest
unfolding set_seq set_ext set_stmp encode to_bytes splice overlay
setters-encode h [] stmp ext seq = refl
setters-encode h (r ∷ rest) stmp ext seq = refl

setters-heart_beat :
    (h : Header) (stmp ext : ℕ)
    → set_ext (set_stmp (encode h) stmp) ext ≡ encode (record h { stmp = stmp; ext = ext })
unfolding set_ext set_stmp encode to_bytes splice overlay
setters-heart_beat h stmp ext = refl

-- An answer as the server sees it, with the address of the transaction that `recv` puts into it.
abbrev pub arrived : List ℕ → ℕ → ℕ → List ℕ
arrived msg stmp self = set_ext (answer msg stmp) self

pub arrived-decode :
    (msg : List ℕ) (h : Header) (stmp self : ℕ)
    → decode msg ≡ h
    → bit_or h.type mt_sign_ack < 2 ^ 16
    → h.cmd < 2 ^ 16
    → h.ver < 2 ^ 16
    → h.lang < 2 ^ 8
    → h.seq < 2 ^ 32
    → h.ext < 2 ^ 64
    → stmp < 2 ^ 64
    → self < 2 ^ 64
    → decode (arrived msg stmp self)
      ≡ record h { size = 31; type = bit_or h.type mt_sign_ack; stmp = stmp; ext = self }
unfolding answer to_bytes encode
arrived-decode msg h stmp self e t c v l q x s a =
    let h' : Header = record h { size = 31; type = bit_or h.type mt_sign_ack; stmp = stmp } in
    decode-set_ext (answer msg stmp) self (omega (arith, length-encode h')) a
    ∙ ap (λ (g : Header). record g { ext = self })
        (ap
            (λ (g : Header). decode (
              encode (record g { size = 31; type = bit_or g.type mt_sign_ack; stmp = stmp })
              ++ to_bytes 2 0))
            e
          ∙ decode-encode h' (to_bytes 2 0) (ground arith))

on_message-on_heart_beat :
    (env : Answers) (cfg : Settings) (msg : List ℕ) (t : Transaction)
    → (decode msg).type ≡ bit_or mt_control mt_sign_ack
    → (decode msg).cmd ≡ mc_heart_beat
    → on_message env cfg msg t ≡ on_heart_beat env cfg t
unfolding on_message
on_message-on_heart_beat env cfg msg t p q = rw (p, q) refl

pub on_message-on_push_msg :
    (env : Answers) (cfg : Settings) (msg : List ℕ) (t : Transaction)
    → (decode msg).type ≡ bit_or mt_service mt_sign_ack
    → (decode msg).cmd ≡ mc_push_msg
    → on_message env cfg msg t ≡ on_push_msg env cfg msg t
unfolding on_message
on_message-on_push_msg env cfg msg t p q = rw (p, q) refl

heart_beat-kept :
    (env : Answers) (cfg : Settings) (t : Transaction)
    → t.status ≡ ready
    → on_heart_beat env cfg t ≡ some (true, record t { heartbeat = true })
unfolding on_heart_beat
heart_beat-kept env cfg t r = ground arith

on_received-heart_beat :
    (msg : List ℕ) (stmp : ℕ)
    → (decode msg).type ≡ mt_control
    → (decode msg).cmd ≡ mc_heart_beat
    → on_received msg header_size stmp ≡ sends (answer msg stmp) ∷ []
unfolding on_received
on_received-heart_beat msg stmp p q = rw (p, q) refl

pub on_received-push :
    (msg : List ℕ) (stmp : ℕ)
    → (decode msg).type ≡ mt_service
    → (decode msg).cmd ≡ mc_push_msg
    → on_received msg size_push_msg stmp
      ≡ on_push
          (field msg 29 1)
          (field msg 30 8)
          (field msg 38 8)
          (field msg 46 8)
          (c_string (drop 54 msg))
          (decode msg).stmp
        ∷ sends (answer msg stmp)
        ∷ []
unfolding on_received
on_received-push msg stmp p q = rw (p, q) refl

-- What the keep-live timer sends.
abbrev pub beat : Answers → Settings → Transaction → List ℕ
beat env cfg t = set_ext (set_stmp (heart_beat cfg.protocol_version) (env t.calls now)) 0

-- The transaction that waits for a sign of its client.
abbrev pub waiting : Answers → Settings → Transaction → Transaction
waiting env cfg t = record t {
  heartbeat = false;
  calls = node_send (beat env cfg t) ∷ now ∷ t.calls;
}

timer_sends :
    (env : Answers) (cfg : Settings) (t : Transaction) (fired : List ℕ)
    → IsKeepLive t fired
    → t.heartbeat ≡ true
    → on_timer env cfg fired t ≡ some (true, waiting env cfg t)
unfolding on_timer send
timer_sends env cfg t fired k h = ground arith

answered_lem :
    (env : Answers) (cfg : Settings) (t : Transaction) (version sent stmp self : ℕ)
    → version < 2 ^ 16
    → sent < 2 ^ 64
    → stmp < 2 ^ 64
    → self < 2 ^ 64
    → t.status ≡ ready
    → let msg = set_ext (set_stmp (heart_beat version) sent) 0 in
      (on_received msg header_size stmp ≡ sends (answer msg stmp) ∷ [])
      × (on_message env cfg (arrived msg stmp self) t ≡ some (true, record t { heartbeat = true }))
unfolding heart_beat
answered_lem env cfg t version sent stmp self v n s a r =
    let h : Header = record {
      size = header_size;
      type = mt_control;
      cmd = mc_heart_beat;
      ver = version;
      lang = 1;
      seq = 0;
      stmp = 0;
      ext = 0;
    } in
    let msg : List ℕ = set_ext (set_stmp (encode h) sent) 0 in
    let read : decode msg ≡ record h { stmp = sent; ext = 0 } =
      ap decode (
        setters-heart_beat h sent 0 ∙ sym (append-nil (encode (record h { stmp = sent; ext = 0 }))))
      ∙ decode-encode (record h { stmp = sent; ext = 0 }) [] (ground arith) in
    let back : decode (arrived msg stmp self)
        ≡ record h { size = 31; type = bit_or mt_control mt_sign_ack; stmp = stmp; ext = self } =
      arrived-decode msg (record h { stmp = sent; ext = 0 }) stmp self read (omega arith)
        (omega arith) v (omega arith) (omega arith) (omega arith) s a in
    (
      on_received-heart_beat msg stmp (ap (λ x. x.type) read) (ap (λ x. x.cmd) read),
      on_message-on_heart_beat env cfg (arrived msg stmp self) t (ap (λ x. x.type) back)
            (ap (λ x. x.cmd) back)
          ∙ heart_beat-kept env cfg t r,
    )

-- Fire the keep-live timer of a ready transaction that is alive: it sends a heartbeat, and forgets that
-- it is alive. The client answers the heartbeat, and the answer, when it has come to the transaction,
-- keeps that alive: fired again, the timer answers true and leaves the transaction ready. Without it,
-- the timer fired again answers false and ends the transaction. The version, the clock's times and the
-- address fit their fields.
pub heart_beat_lem :
    (env : Answers) (cfg : Settings) (t : Transaction) (fired : List ℕ) (stmp self : ℕ)
    → cfg.protocol_version < 2 ^ 16
    → env t.calls now < 2 ^ 64
    → stmp < 2 ^ 64
    → self < 2 ^ 64
    → IsKeepLive t fired
    → t.heartbeat ≡ true
    → let msg = beat env cfg t in
      let t' = waiting env cfg t in
      (on_timer env cfg fired t ≡ some (true, t'))
      × (on_received msg header_size stmp ≡ sends (answer msg stmp) ∷ [])
      × ((v : Transaction) × (on_message env cfg (arrived msg stmp self) t' ≡ some (true, v))
          × ((w : Transaction) × (on_timer env cfg fired v ≡ some (true, w)) × (w.status ≡ ready)))
      × ((u : Transaction) × (on_timer env cfg fired t' ≡ some (false, u))
          × (u.status ≡ over_status))
heart_beat_lem env cfg t fired stmp self p n s a k h =
    let msg : List ℕ = beat env cfg t in
    let t' : Transaction = waiting env cfg t in
    let (sent, kept) =
      answered_lem env cfg t' cfg.protocol_version (env t.calls now) stmp self p n s a k.is_ready in
    let still : IsKeepLive t' fired = record {
      is_ready = k.is_ready;
      same_timer = k.same_timer;
      parameter = k.parameter;
    } in
    let v : Transaction = record t' { heartbeat = true } in
    let (w, f, k', _) =
      alive_stays env cfg v fired
        (record { is_ready = k.is_ready; same_timer = k.same_timer; parameter = k.parameter })
        refl in
    (
      timer_sends env cfg t fired k h,
      sent,
      (v, kept, (w, f, k'.is_ready)),
      silent_ends env cfg t' fired still refl,
    )
